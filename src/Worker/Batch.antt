-- ===== src/Worker/Batch.antt =====
-- The new requests that a poll of src/worker.c wraps: the loop never runs out of objects.
use mathlib.Core.List.{append-nil, append_assoc}
use bagdb_spdk.Base.{
  ℕ, ◌≡◌, refl, ◌∙◌, ap, some, false, List, [], ◌∷◌, ◌++◌, arith, length, get_or,
  get_elem?-eq-get_or, AllBelow,
}
use bagdb_spdk.Pool.{ObjectCachePool}
use bagdb_spdk.Pool.Free.{address, IsFree, pool_get-Pops}
use bagdb_spdk.Worker.Ring.{RingOps}
use bagdb_spdk.Worker.State.{unknown, KvRequest, KvRequestInternal, WorkerContext}
use bagdb_spdk.Worker.Poll.{wrap_all}

abbrev pub no_request : KvRequest
no_request = record {
  op_code = unknown 0;
  shard = 0;
  item = 0;
  cb_fn = 0;
  ctx = 0;
  scan_cb_fn = 0;
  scan_batch = 0;
}

-- The requests in the buffers `reqs`, each in its own of the free objects.
abbrev pub wrapped : (ℕ → ℕ) → List KvRequest → List ℕ → List ℕ → List KvRequestInternal
wrapped addr queue [] objects = []
wrapped addr queue (req ∷ reqs) [] = []
wrapped addr queue (req ∷ reqs) (i ∷ objects) =
    record { object = addr i; request = get_or queue req no_request; no_lookup = false }
    ∷ wrapped addr queue reqs objects

module _ (ops : RingOps) where
  abbrev pub with_wrapped :
      WorkerContext ops → ObjectCachePool → List KvRequestInternal → WorkerContext ops
  with_wrapped wctx pool reqs = record wctx {
    kv_request_internal_pool = pool;
    submit_queue = wctx.submit_queue ++ reqs;
  }

  pub wrap_all-wrapped :
      (addr : ℕ → ℕ) (reqs objects fs : List ℕ) (wctx : WorkerContext ops)
      → IsFree wctx.kv_request_internal_pool (objects ++ fs)
      → ((j : ℕ) → address wctx.kv_request_internal_pool j ≡ addr j)
      → length reqs ≡ length objects
      → AllBelow (length wctx.request_queue) reqs
      → (pool : ObjectCachePool) × (wrap_all ops reqs wctx
          ≡ some (with_wrapped wctx pool (wrapped addr wctx.request_queue reqs objects)))
        × IsFree pool fs
  unfolding wrap_all
  wrap_all-wrapped addr [] [] fs wctx h same len below =
      (wctx.kv_request_internal_pool, rw (append-nil wctx.submit_queue) refl, h)
  wrap_all-wrapped addr [] (i ∷ objects) fs wctx h same len below = absurd (omega arith)
  wrap_all-wrapped addr (req ∷ reqs) [] fs wctx h same len below = absurd (omega arith)
  wrap_all-wrapped addr (req ∷ reqs) (i ∷ objects) fs wctx h same len below =
      let (pool, got, free, still) =
        pool_get-Pops wctx.kv_request_internal_pool (i ∷ (objects ++ fs)) h in
      let one : KvRequestInternal = record {
        object = addr i;
        request = get_or wctx.request_queue req no_request;
        no_lookup = false;
      } in
      let (pool', run, free') =
        wrap_all-wrapped addr reqs objects fs (with_wrapped wctx pool (one ∷ [])) free
          (λ j. still j ∙ same j) (omega arith) below.1 in
      (
        pool',
        rw (got, same i, get_elem?-eq-get_or wctx.request_queue req no_request below.0)
            (run
              ∙ ap (λ q. some (record wctx { kv_request_internal_pool = pool'; submit_queue = q }))
                  (append_assoc wctx.submit_queue (one ∷ [])
                    (wrapped addr wctx.request_queue reqs objects))),
        free',
      )
