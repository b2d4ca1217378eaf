-- ===== src/Worker/Requests.antt =====
-- The processing of requests in src/worker.c: the switch on the operation, the loop over the submit
-- queue, and the poll as a whole.
use bagdb_spdk.Base.{ℕ, suc, Option, some, List, [], ◌∷◌, ◌>>=◌, ◌==◌, if◌then◌else◌}
use bagdb_spdk.Base.Int.{ℤ}
use bagdb_spdk.Pool.{pool_release}
use bagdb_spdk.Worker.Ring.{RingOps}
use bagdb_spdk.Worker.State.{
  get, put, delete, first, seek, next, unknown, KvRequestInternal, WorkerContext,
}
use bagdb_spdk.Worker.Poll.{accept}

-- The functions `worker_process_get`, …, of other files, as what they make of the worker's context, and
-- the error number `-KV_EOP_UNKNOWN`.
pub record Handlers (ops : RingOps) : Type 0 where
  pub process_get : WorkerContext ops → KvRequestInternal → WorkerContext ops
  pub process_put : WorkerContext ops → KvRequestInternal → WorkerContext ops
  pub process_delete : WorkerContext ops → KvRequestInternal → WorkerContext ops
  pub process_first : WorkerContext ops → KvRequestInternal → WorkerContext ops
  pub process_seek : WorkerContext ops → KvRequestInternal → WorkerContext ops
  pub process_next : WorkerContext ops → KvRequestInternal → WorkerContext ops
  pub op_unknown : ℤ

-- `TAILQ_REMOVE` of the request at this address.
unfoldable pub remove : ℕ → List KvRequestInternal → List KvRequestInternal
remove object [] = []
remove object (req ∷ reqs) = if req.object == object then reqs else req ∷ remove object reqs

module _ (ops : RingOps) (handlers : Handlers ops) where
  -- The branch `default` of `_process_one_kv_request`.
  unfoldable pub process_unknown :
      WorkerContext ops → KvRequestInternal → Option (WorkerContext ops)
  process_unknown wctx req = do
    (pool, done) ← pool_release wctx.kv_request_internal_pool req.object
    some (record wctx {
      kv_request_internal_pool = pool;
      called =
          record { cb_fn = req.request.cb_fn; ctx = req.request.ctx; kverrno = handlers.op_unknown }
          ∷ wctx.called;
    })

  -- `_process_one_kv_request`
  unfoldable pub process_one_kv_request :
      WorkerContext ops → KvRequestInternal → Option (WorkerContext ops)
  process_one_kv_request wctx req = elim req.request.op_code [
    | get ↦ some (handlers.process_get wctx req)
    | put ↦ some (handlers.process_put wctx req)
    | delete ↦ some (handlers.process_delete wctx req)
    | first ↦ some (handlers.process_first wctx req)
    | seek ↦ some (handlers.process_seek wctx req)
    | next ↦ some (handlers.process_next wctx req)
    | unknown code ↦ process_unknown wctx req
  ]

  -- The loop over the submit queue as it stands when the loop begins; the number is `events`.
  unfoldable pub process_all :
      List KvRequestInternal → WorkerContext ops → Option (WorkerContext ops × ℕ)
  process_all [] wctx = some (wctx, 0)
  process_all (req ∷ reqs) wctx = do
    processed ←
        process_one_kv_request (record wctx { submit_queue = remove req.object wctx.submit_queue })
          req
    (done, events) ← process_all reqs processed
    some (done, suc events)

  -- `_worker_business_processor_poll`
  unfoldable pub business_processor_poll : WorkerContext ops → Option (WorkerContext ops × ℕ)
  business_processor_poll wctx =
      accept ops wctx >>= λ accepted. process_all accepted.submit_queue accepted
