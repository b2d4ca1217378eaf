-- ===== src/Worker/Enqueue.antt =====
-- What the user's thread does in src/worker.c: it takes a free buffer, fills it and hands it over.
use bagdb_spdk.Base.{ℕ, Option, none, some, [], ◌∷◌, ◌>>=◌, ◌>>◌, assert, ◌==◌, get_elem?, store}
use bagdb_spdk.Worker.Ring.{RingOps}
use bagdb_spdk.Worker.State.{OpCode, get, put, WorkerContext}

module _ (ops : RingOps) where
  -- `_get_free_req_buffer`; `none` while it waits for a free buffer.
  unfoldable pub get_free_req_buffer : WorkerContext ops → Option (WorkerContext ops × ℕ)
  get_free_req_buffer wctx =
      let (ring, reqs) = ops.dequeue wctx.req_free_ring 1 in
      elim reqs [ [] ↦ none | req ∷ rest ↦ some (record wctx { req_free_ring = ring }, req) ]

  -- `_worker_enqueue_common`, without the time stamp for debugging.
  unfoldable pub worker_enqueue_common :
      WorkerContext ops → ℕ → ℕ → ℕ → ℕ → ℕ → OpCode → Option (WorkerContext ops)
  worker_enqueue_common wctx req shard item cb_fn ctx op = do
    old ← get_elem? wctx.request_queue req
    queue ←
        store wctx.request_queue req
          (record old { cb_fn = cb_fn; ctx = ctx; item = item; op_code = op; shard = shard })
    some (record wctx { request_queue = queue })

  -- `_submit_req_buffer`
  unfoldable pub submit_req_buffer : WorkerContext ops → ℕ → Option (WorkerContext ops)
  submit_req_buffer wctx req =
      let (ring, res) = ops.enqueue wctx.req_used_ring (req ∷ []) in
      assert (res == 1) >> some (record wctx { req_used_ring = ring })

  -- `worker_enqueue_get`
  unfoldable pub worker_enqueue_get : WorkerContext ops → ℕ → ℕ → ℕ → ℕ → Option (WorkerContext ops)
  worker_enqueue_get wctx shard item cb_fn ctx = do
    (taken, req) ← get_free_req_buffer wctx
    filled ← worker_enqueue_common taken req shard item cb_fn ctx get
    submit_req_buffer filled req

  -- `worker_enqueue_put`
  unfoldable pub worker_enqueue_put : WorkerContext ops → ℕ → ℕ → ℕ → ℕ → Option (WorkerContext ops)
  worker_enqueue_put wctx shard item cb_fn ctx = do
    (taken, req) ← get_free_req_buffer wctx
    filled ← worker_enqueue_common taken req shard item cb_fn ctx put
    submit_req_buffer filled req
