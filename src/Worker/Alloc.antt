-- ===== src/Worker/Alloc.antt =====
-- `worker_alloc` and `_worker_context_init` of src/worker.c: one block of memory for a worker, and what
-- is put into it.
use bagdb_spdk.Base.{
  ℕ, zero, suc, ◌+◌, ◌*◌, ◌%◌, Option, some, List, [], ◌∷◌, ◌>>=◌, ◌>>◌, assert, ◌==◌, u32, u64,
}
use bagdb_spdk.Pool.{ObjectNode, pool_header_size, pool_header_init}
use bagdb_spdk.Startup.State.{WorkerInitOpts}
use bagdb_spdk.Worker.Ring.{RingOps}
use bagdb_spdk.Worker.State.{KvRequest, WorkerContext}

-- The sizes of the structures; those of the three managers are not declared in the repository.
pub record Sizes : Type 0 where
  pub worker_context : ℕ
  pub kv_request : ℕ
  pub kv_request_internal : ℕ
  pub pagechunk_mgr : ℕ
  pub chunk_miss_callback : ℕ
  pub chunk_load_store_ctx : ℕ
  pub reclaim_mgr : ℕ
  pub pending_item_delete : ℕ
  pub pending_item_migrate : ℕ
  pub slab_migrate_request : ℕ
  pub iomgr : ℕ
  pub cache_io : ℕ
  pub page_io : ℕ

-- The three offsets and the size of the block.
pub record BlockLayout : Type 0 where
  pub pmgr_base_off : ℕ
  pub rmgr_base_off : ℕ
  pub imgr_base_off : ℕ
  pub size : ℕ

-- `size += …`, for each of the list.
unfoldable pub add_sizes : ℕ → List ℕ → ℕ
add_sizes size [] = size
add_sizes size (s ∷ ss) = add_sizes (u64 (size + s)) ss

module _ (sizes : Sizes) where
  -- The sizes that `worker_alloc` sums up, for `n` requests and `m` slabs to be reclaimed.
  unfoldable pub block_layout : ℕ → ℕ → Option BlockLayout
  block_layout n m = do
    requests ← pool_header_size n
    pmgr_reqs ← pool_header_size (u64 (n * 5))
    pmgr_ctxs ← pool_header_size (u64 (n * 5))
    deletes ← pool_header_size (u64 (n * 3))
    migrates ← pool_header_size n
    reclaims ← pool_header_size m
    caches ← pool_header_size (u64 (n * 10))
    pages ← pool_header_size (u64 (n * 20))
    let pmgr = add_sizes 0 (
        sizes.worker_context
        ∷ u64 (sizes.kv_request * n)
        ∷ requests
        ∷ u64 (n * sizes.kv_request_internal)
        ∷ [])
    let rmgr = add_sizes pmgr (
        sizes.pagechunk_mgr
        ∷ pmgr_reqs
        ∷ pmgr_ctxs
        ∷ u64 (n * 5 * sizes.chunk_miss_callback)
        ∷ u64 (n * 5 * sizes.chunk_load_store_ctx)
        ∷ [])
    let imgr = add_sizes rmgr (
        sizes.reclaim_mgr
        ∷ deletes
        ∷ migrates
        ∷ reclaims
        ∷ u64 (n * 3 * sizes.pending_item_delete)
        ∷ u64 (n * sizes.pending_item_migrate)
        ∷ u64 (m * sizes.slab_migrate_request)
        ∷ [])
    let size = add_sizes imgr (
        sizes.iomgr
        ∷ caches
        ∷ pages
        ∷ u64 (n * 10 * sizes.cache_io)
        ∷ u64 (n * 20 * sizes.page_io)
        ∷ [])
    some (record { pmgr_base_off = pmgr; rmgr_base_off = rmgr; imgr_base_off = imgr; size = size })

  module _ (ops : RingOps) where
    -- What `worker_alloc` gets from outside: the rings and the thread, or NULL; the address of the block
    -- and what stands in its array of requests and in the nodes of its pool; and the two numbers of
    -- pending requests that the initialisation of the io manager sets.
    pub record Outside : Type 0 where
      pub used_ring : Option ops.Ring
      pub free_ring : Option ops.Ring
      pub thread : Option ℕ
      pub base : ℕ
      pub requests : List KvRequest
      pub nodes : List ObjectNode
      pub max_pending_io : ℕ
      pub nb_pending_io : ℕ

    -- The loop that puts the free requests `i, …, i + n - 1` into the ring.
    unfoldable pub fill_free : ℕ → ℕ → ops.Ring → ops.Ring
    fill_free zero i ring = ring
    fill_free (suc n) i ring = fill_free n (i + 1) (ops.enqueue ring (i ∷ [])).0

    -- `_worker_context_init`
    unfoldable pub worker_context_init :
        Outside → WorkerInitOpts → BlockLayout → Option (WorkerContext ops)
    worker_context_init out opts layout = do
      let n = opts.max_request_queue_size_per_worker
      used ← out.used_ring
      free ← out.free_ring
      header ← pool_header_size n
      let pool = u64 (out.base + u64 (sizes.worker_context + u64 (n * sizes.kv_request)))
      let objects = u64 (pool + header)
      assert (pool % 8 == 0)
      assert (objects % 8 == 0)
      (made, end) ← pool_header_init out.nodes n sizes.kv_request_internal header (some objects)
      thread ← out.thread
      assert (layout.pmgr_base_off % 8 == 0)
      assert (layout.rmgr_base_off % 8 == 0)
      assert (layout.imgr_base_off % 8 == 0)
      some (record {
        request_queue = out.requests;
        max_pending_kv_request = n;
        req_used_ring = used;
        req_free_ring = fill_free n 0 free;
        submit_queue = [];
        resubmit_queue = [];
        kv_request_internal_pool = made;
        max_pending_io = out.max_pending_io;
        nb_pending_io = out.nb_pending_io;
        called = [];
      })

    -- `worker_alloc`, where `nb_slabs` is that of the first shard. The block is there: `assert(wctx)`.
    unfoldable pub worker_alloc : Outside → WorkerInitOpts → ℕ → Option (WorkerContext ops)
    worker_alloc out opts nb_slabs = do
      layout ←
          block_layout opts.max_request_queue_size_per_worker
            (u32 (opts.nb_reclaim_shards * nb_slabs))
      worker_context_init out opts layout
