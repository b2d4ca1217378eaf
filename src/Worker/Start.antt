-- ===== src/Worker/Start.antt =====
-- The worker that `worker_alloc` of src/worker.c makes is ready to accept requests.
use mathlib.Core.List.{append-nil, append_assoc}
use bagdb_spdk.Base.{
  ℕ, zero, suc, ◌+◌, ◌*◌, ◌%◌, ◌^◌, ◌≤◌, ◌<◌, ◌≡◌, refl, ap, sym, subst, ◌∙◌, some, List, [], ◌∷◌,
  ◌++◌, arith, length, length-append, u32, u64,
}
use bagdb_spdk.Pool.{ObjectCachePool, pool_header_init}
use bagdb_spdk.Pool.Free.{IsFree}
use bagdb_spdk.Pool.Init.{up_from, pool_header_init_lem}
use bagdb_spdk.Startup.State.{WorkerInitOpts}
use bagdb_spdk.Worker.Ring.{RingOps, IsQueue}
use bagdb_spdk.Worker.State.{WorkerContext}
use bagdb_spdk.Worker.Accept.{IsReady}
use bagdb_spdk.Worker.Alloc.{
  Sizes, BlockLayout, Outside, fill_free, worker_context_init, worker_alloc,
}
use bagdb_spdk.Worker.Layout.{
  AreAligned, Aligned, header, header_size-eq, product-Aligned, block_layout-Aligned,
}

length-up_from : (i n : ℕ) → length (up_from i n) ≡ n
length-up_from i zero = refl
length-up_from i (suc n) = ap suc (length-up_from (suc i) n)

module _ (ops : RingOps) (q : IsQueue ops) (sizes : Sizes) where
  fill_free-Holds :
      (n i cap : ℕ) (ring : ops.Ring) (xs : List ℕ)
      → q.Holds ring cap xs
      → length xs + n ≤ cap
      → q.Holds (fill_free sizes ops n i ring) cap (xs ++ up_from i n)
  unfolding fill_free
  fill_free-Holds zero i cap ring xs h room = subst (q.Holds ring cap) (sym (append-nil xs)) h
  fill_free-Holds (suc n) i cap ring xs h room =
      let (h', count) = q.enqueue_lem ring cap xs (i ∷ []) h (omega arith) in
      let one_more : length (xs ++ i ∷ []) + n ≤ cap = omega (arith, length-append xs (i ∷ [])) in
      let next : i + 1 ≡ suc i = omega arith in
      subst (q.Holds (fill_free sizes ops n (i + 1) (ops.enqueue ring (i ∷ [])).0) cap)
        (append_assoc xs (i ∷ []) (up_from (i + 1) n) ∙ ap (λ k. xs ++ (i ∷ up_from k n)) next)
        (fill_free-Holds n (i + 1) cap (ops.enqueue ring (i ∷ [])).0 (xs ++ i ∷ []) h' one_more)

  -- What `worker_alloc` relies on: the rings are new, with room for all requests, and the thread is there;
  -- the block starts at a multiple of 8 and ends within the address space.
  pub record IsGiven (out : Outside sizes ops) (c : ℕ) : Type 0 where
    pub used : ops.Ring
    pub free : ops.Ring
    pub thread : ℕ
    pub used_ring : out.used_ring ≡ some used
    pub free_ring : out.free_ring ≡ some free
    pub some_thread : out.thread ≡ some thread
    pub used_empty : q.Holds used (suc c) []
    pub free_empty : q.Holds free (suc c) []
    pub requests : length out.requests ≡ suc c
    pub nodes : length out.nodes ≡ suc (suc c)
    pub base : out.base % 8 ≡ 0
    pub fits :
        out.base
          + sizes.worker_context
          + suc c * sizes.kv_request
          + (32 + (suc c + 1) * 16)
          + suc c * sizes.kv_request_internal
        < 2 ^ 64

  module _ (out : Outside sizes ops) (opts : WorkerInitOpts) (c nb_slabs : ℕ)
      (aligned : AreAligned sizes) (some_size : 0 < sizes.kv_request_internal)
      (count : opts.max_request_queue_size_per_worker ≡ suc c) (small : suc c < 2 ^ 32)
      (given : IsGiven out c) where
    abbrev pool : ℕ
    pool = out.base + (sizes.worker_context + suc c * sizes.kv_request)

    abbrev objects : ℕ
    objects = pool + (32 + (suc c + 1) * 16)

    pool-Aligned : pool % 8 ≡ 0
    pool-Aligned = omega (
      arith,
      given.base,
      aligned.worker_context,
      product-Aligned (suc c) sizes.kv_request aligned.kv_request,
      given.fits,
    )

    pool_word : u64 (out.base + u64 (sizes.worker_context + u64 (suc c * sizes.kv_request))) ≡ pool
    pool_word = omega (arith, given.fits)

    objects_word : u64 (pool + (32 + (suc c + 1) * 16)) ≡ objects
    objects_word = omega (arith, given.fits)

    abbrev fresh_worker : ObjectCachePool → WorkerContext ops
    fresh_worker made = record {
      request_queue = out.requests;
      max_pending_kv_request = suc c;
      req_used_ring = given.used;
      req_free_ring = fill_free sizes ops (suc c) 0 given.free;
      submit_queue = [];
      resubmit_queue = [];
      kv_request_internal_pool = made;
      max_pending_io = out.max_pending_io;
      nb_pending_io = out.nb_pending_io;
      called = [];
    }

    init_runs :
        (made : ObjectCachePool) (end : ℕ) (layout : BlockLayout)
        → pool_header_init out.nodes
            (suc c)
            sizes.kv_request_internal
            (header (suc c))
            (some objects)
          ≡ some (made, end)
        → Aligned layout.pmgr_base_off
        → Aligned layout.rmgr_base_off
        → Aligned layout.imgr_base_off
        → worker_context_init sizes ops out opts layout ≡ some (fresh_worker made)
    unfolding worker_context_init
    init_runs made end layout run pmgr rmgr imgr =
        let objects_aligned : objects % 8 ≡ 0 = omega (arith, pool-Aligned) in
        rw
          (
            given.used_ring,
            given.free_ring,
            count,
            header_size-eq (suc c) (omega arith),
            pool_word,
            objects_word,
            pool-Aligned,
            objects_aligned,
            run,
            given.some_thread,
            pmgr,
            rmgr,
            imgr,
          )
          refl

    -- The pool, made in the block.
    pool_made :
        (made : ObjectCachePool) × (end : ℕ) × (pool_header_init out.nodes
            (suc c)
            sizes.kv_request_internal
            (header (suc c))
            (some objects)
          ≡ some (made, end))
        × IsFree made (up_from 0 (suc c))
    pool_made =
        let (made, run, is) =
          pool_header_init_lem out.nodes c sizes.kv_request_internal objects (header (suc c))
            given.nodes small some_size (omega (arith, pool-Aligned)) (omega (arith, given.fits))
            (omega arith) (omega (arith, given.fits)) in
        (made, header (suc c) + suc c * sizes.kv_request_internal, run, is)

    -- `worker_alloc` succeeds, and no assertion fails: the worker has no request, all its buffers are in
    -- the free ring and all objects of its pool are free, each in order; so its polls may accept requests.
    pub worker_alloc-IsReady :
        (wctx : WorkerContext ops) × (worker_alloc sizes ops out opts nb_slabs ≡ some wctx)
        × IsReady ops q wctx (suc c) [] (up_from 0 (suc c)) (up_from 0 (suc c))
    unfolding worker_alloc
    worker_alloc-IsReady =
        let m : ℕ = u32 (opts.nb_reclaim_shards * nb_slabs) in
        let (layout, laid, pmgr, rmgr, imgr) =
          block_layout-Aligned sizes aligned (suc c) m small (omega arith) in
        let (made, end, run, is) = pool_made in
        (
          fresh_worker made,
          ground (arith, count, laid, init_runs made end layout run pmgr rmgr imgr),
          record {
            waiting = given.used_empty;
            unused = fill_free-Holds (suc c) 0 (suc c) given.free [] given.free_empty (omega arith);
            objects = is;
            buffers = tt;
            room = omega (arith, length-up_from 0 (suc c));
            small = small;
            few = omega (arith, length-up_from 0 (suc c));
          },
        )
