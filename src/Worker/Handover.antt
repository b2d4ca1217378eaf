-- ===== src/Worker/Handover.antt =====
-- What the user's thread hands over to a worker of src/worker.c.
use bagdb_spdk.Base.{
  ℕ, ◌<◌, ◌≡◌, refl, some, List, [], ◌∷◌, ◌++◌, arith, length, get_or, set, store-eq-set,
  get_elem?-eq-get_or, get_or-set_self,
}
use bagdb_spdk.Worker.Ring.{RingOps, IsQueue}
use bagdb_spdk.Worker.State.{OpCode, get, put, KvRequest, WorkerContext}
use bagdb_spdk.Worker.Enqueue.{
  get_free_req_buffer, worker_enqueue_common, submit_req_buffer, worker_enqueue_get,
  worker_enqueue_put,
}
use bagdb_spdk.Worker.Batch.{no_request}

-- The next free buffer `b` has gone to the end of the used ring, with the request in it.
pub record HasHanded (ops : RingOps) (q : IsQueue ops) (wctx : WorkerContext ops)
    (used_cap free_cap b : ℕ) (used free : List ℕ) (op : OpCode) (shard item cb_fn ctx : ℕ)
    (wctx' : WorkerContext ops) : Type 0 where
  pub filled : get_or wctx'.request_queue b no_request ≡ record {
    op_code = op;
    shard = shard;
    item = item;
    cb_fn = cb_fn;
    ctx = ctx;
    scan_cb_fn = (get_or wctx.request_queue b no_request).scan_cb_fn;
    scan_batch = (get_or wctx.request_queue b no_request).scan_batch;
  }
  pub waiting : q.Holds wctx'.req_used_ring used_cap (used ++ b ∷ [])
  pub unused : q.Holds wctx'.req_free_ring free_cap free
  pub untouched : wctx'.submit_queue ≡ wctx.submit_queue

module _ (ops : RingOps) (q : IsQueue ops) (wctx : WorkerContext ops) (used_cap free_cap b : ℕ)
    (used free : List ℕ) (shard item cb_fn ctx : ℕ)
    (waiting : q.Holds wctx.req_used_ring used_cap used)
    (unused : q.Holds wctx.req_free_ring free_cap (b ∷ free)) (room : length used < used_cap)
    (inside : b < length wctx.request_queue) where
  abbrev pub request : OpCode → KvRequest
  request op = record (get_or wctx.request_queue b no_request) {
    cb_fn = cb_fn;
    ctx = ctx;
    item = item;
    op_code = op;
    shard = shard;
  }

  abbrev pub handed : OpCode → WorkerContext ops
  handed op = record wctx {
    req_free_ring = (ops.dequeue wctx.req_free_ring 1).0;
    request_queue = set wctx.request_queue b (request op);
    req_used_ring = (ops.enqueue wctx.req_used_ring (b ∷ [])).0;
  }

  pub dequeue_one :
      (q.Holds (ops.dequeue wctx.req_free_ring 1).0 free_cap free)
      × ((ops.dequeue wctx.req_free_ring 1).1 ≡ b ∷ [])
  dequeue_one = q.dequeue_lem wctx.req_free_ring free_cap (b ∷ []) free unused

  pub enqueue_one :
      (q.Holds (ops.enqueue wctx.req_used_ring (b ∷ [])).0 used_cap (used ++ b ∷ []))
      × ((ops.enqueue wctx.req_used_ring (b ∷ [])).1 ≡ 1)
  enqueue_one = q.enqueue_lem wctx.req_used_ring used_cap used (b ∷ []) waiting (omega arith)

  handed-HasHanded :
      (op : OpCode)
      → HasHanded ops q wctx used_cap free_cap b used free op shard item cb_fn ctx (handed op)
  handed-HasHanded op = record {
    filled = get_or-set_self wctx.request_queue b (request op) no_request inside;
    waiting = enqueue_one.0;
    unused = dequeue_one.0;
    untouched = refl;
  }

  abbrev taken : WorkerContext ops
  taken = record wctx { req_free_ring = (ops.dequeue wctx.req_free_ring 1).0 }

  abbrev filled : OpCode → WorkerContext ops
  filled op = record taken { request_queue = set wctx.request_queue b (request op) }

  get_free_req_buffer-eq : get_free_req_buffer ops wctx ≡ some (taken, b)
  unfolding get_free_req_buffer
  get_free_req_buffer-eq = ground (arith, dequeue_one.1)

  worker_enqueue_common-eq :
      (op : OpCode) → worker_enqueue_common ops taken b shard item cb_fn ctx op ≡ some (filled op)
  unfolding worker_enqueue_common
  worker_enqueue_common-eq op =
      rw
        (
          get_elem?-eq-get_or wctx.request_queue b no_request inside,
          store-eq-set wctx.request_queue b (request op) inside,
        )
        refl

  submit_req_buffer-eq : (op : OpCode) → submit_req_buffer ops (filled op) b ≡ some (handed op)
  unfolding submit_req_buffer
  submit_req_buffer-eq op = ground (arith, enqueue_one.1)

  pub worker_enqueue_get-eq : worker_enqueue_get ops wctx shard item cb_fn ctx ≡ some (handed get)
  unfolding worker_enqueue_get
  worker_enqueue_get-eq =
      rw (get_free_req_buffer-eq, worker_enqueue_common-eq get, submit_req_buffer-eq get) refl

  pub worker_enqueue_put-eq : worker_enqueue_put ops wctx shard item cb_fn ctx ≡ some (handed put)
  unfolding worker_enqueue_put
  worker_enqueue_put-eq =
      rw (get_free_req_buffer-eq, worker_enqueue_common-eq put, submit_req_buffer-eq put) refl

  -- With a free buffer and room in the used ring, the two enqueuing functions return at once, and the
  -- worker finds the request, with its operation, at the end of the used ring.
  pub worker_enqueue-HasHanded :
      ((wctx' : WorkerContext ops) × (worker_enqueue_get ops wctx shard item cb_fn ctx ≡ some wctx')
        × HasHanded ops q wctx used_cap free_cap b used free get shard item cb_fn ctx wctx')
      × ((wctx' : WorkerContext ops) × (worker_enqueue_put ops wctx shard item cb_fn ctx
            ≡ some wctx')
          × HasHanded ops q wctx used_cap free_cap b used free put shard item cb_fn ctx wctx')
  worker_enqueue-HasHanded = (
    (handed get, worker_enqueue_get-eq, handed-HasHanded get),
    (handed put, worker_enqueue_put-eq, handed-HasHanded put),
  )
