-- ===== src/Worker/Poll.antt =====
-- `_worker_business_processor_poll` of src/worker.c: the resubmitted requests are linked in, new requests
-- are taken from the ring, and the submit queue is processed.
use bagdb_spdk.Base.{
  ℕ, ◌-◌, Option, some, false, List, [], ◌∷◌, ◌++◌, ◌>>=◌, ◌>>◌, assert, ltb, ◌==◌, if◌then◌else◌,
  get_elem?, u32,
}
use bagdb_spdk.Pool.{pool_get}
use bagdb_spdk.Worker.Ring.{RingOps}
use bagdb_spdk.Worker.State.{KvRequestInternal, WorkerContext}

abbrev min_of : ℕ → ℕ → ℕ
min_of a b = if ltb a b then a else b

-- The loop over the resubmit queue: each is linked in at the head of the submit queue.
unfoldable pub link_all : List KvRequestInternal → List KvRequestInternal → List KvRequestInternal
link_all [] submit = submit
link_all (req ∷ resubmit) submit = link_all resubmit (req ∷ submit)

module _ (ops : RingOps) where
  -- The number of disk requests that may still be issued.
  unfoldable pub available_ios : WorkerContext ops → ℕ
  available_ios wctx =
      if ltb wctx.max_pending_io wctx.nb_pending_io
      then 0
      else u32 (wctx.max_pending_io - wctx.nb_pending_io)

  -- `process_size`
  unfoldable pub process_size : WorkerContext ops → ℕ
  process_size wctx =
      min_of
        (min_of (u32 (ops.count wctx.req_used_ring)) (u32 wctx.kv_request_internal_pool.nb_frees))
        (available_ios wctx)

  unfoldable pub link_resubmitted : WorkerContext ops → WorkerContext ops
  link_resubmitted wctx = record wctx {
    submit_queue = link_all wctx.resubmit_queue wctx.submit_queue;
    resubmit_queue = [];
  }

  -- The loop over the dequeued buffers: each is wrapped into an object of the pool, and linked in at the
  -- tail.
  unfoldable pub wrap_all : List ℕ → WorkerContext ops → Option (WorkerContext ops)
  wrap_all [] wctx = some wctx
  wrap_all (req ∷ reqs) wctx = do
    (pool, object?) ← pool_get wctx.kv_request_internal_pool
    object ← object?
    request ← get_elem? wctx.request_queue req
    wrap_all reqs (record wctx {
      kv_request_internal_pool = pool;
      submit_queue =
          wctx.submit_queue
          ++ record { object = object; request = request; no_lookup = false } ∷ [];
    })

  -- The block under `if(process_size>0)`.
  unfoldable pub take_requests : ℕ → WorkerContext ops → Option (WorkerContext ops)
  take_requests size wctx =
      let (used, reqs) = ops.dequeue wctx.req_used_ring size in
      let (free, res) = ops.enqueue wctx.req_free_ring reqs in
      wrap_all reqs (record wctx { req_used_ring = used }) >>= λ wrapped.
      assert (res == size) >> some (record wrapped { req_free_ring = free })

  -- The poll up to the processing of the submit queue.
  unfoldable pub accept : WorkerContext ops → Option (WorkerContext ops)
  accept wctx =
      let size = process_size wctx in
      let linked = link_resubmitted wctx in
      if ltb 0 size then take_requests size linked else some linked
