-- ===== src/Worker/Example.antt =====
-- A ring as a list, and a worker of src/worker.c with two buffers.
use bagdb_spdk.Base.{
  ℕ, ◌+◌, ◌≤◌, ◌≡◌, refl, ◌∙◌, ap, true, List, [], ◌∷◌, ◌++◌, arith, length, take, drop, leb,
  if◌then◌else◌,
}
use bagdb_spdk.Pool.Example.{fresh}
use bagdb_spdk.Worker.Ring.{RingOps, IsQueue}
use bagdb_spdk.Worker.State.{get, KvRequest, WorkerContext}
use bagdb_spdk.Worker.Batch.{no_request}

-- A ring as its elements and its capacity.
abbrev pub list_ops : RingOps
list_ops = record {
  Ring = List ℕ × ℕ;
  count = λ r. length r.0;
  dequeue = λ r n. ((drop n r.0, r.1), take n r.0);
  enqueue =
      λ r ys. if leb (length r.0 + length ys) r.1 then ((r.0 ++ ys, r.1), length ys) else (r, 0);
}

pub take_append : (xs ys : List ℕ) → take (length xs) (xs ++ ys) ≡ xs
take_append [] ys = refl
take_append (x ∷ xs) ys = ap {B = List ℕ} (λ r. x ∷ r) (take_append xs ys)

pub drop_append : (xs ys : List ℕ) → drop (length xs) (xs ++ ys) ≡ ys
drop_append [] ys = refl
drop_append (x ∷ xs) ys = drop_append xs ys

pub leb_room :
    (r : List ℕ × ℕ) (cap : ℕ) (xs ys : List ℕ)
    → r.0 ≡ xs
    → r.1 ≡ cap
    → length xs + length ys ≤ cap
    → leb (length r.0 + length ys) r.1 ≡ true
leb_room r cap xs ys e c room = ground (arith, ap length e, c)

abbrev pub list_queue : IsQueue list_ops
list_queue = record {
  Holds = λ r cap xs. (r.0 ≡ xs) × (r.1 ≡ cap);
  count_lem = λ r cap xs h. ap length h.0;
  dequeue_lem = λ r cap xs ys h. (
    (ap (drop (length xs)) h.0 ∙ drop_append xs ys, h.1),
    ap (take (length xs)) h.0 ∙ take_append xs ys,
  );
  enqueue_lem = λ r cap xs ys h room.
      rw (leb_room r cap xs ys h.0 h.1 room) ((ap (λ l. l ++ ys) h.0, h.1), refl);
}

abbrev pub a_get : KvRequest
a_get = record no_request { op_code = get; item = 70; cb_fn = 80; ctx = 90 }

-- Buffer 0 has a request, and buffer 1 is free.
abbrev pub worker : WorkerContext list_ops
worker = record {
  request_queue = a_get ∷ a_get ∷ [];
  max_pending_kv_request = 2;
  req_used_ring = (0 ∷ [], 2);
  req_free_ring = (1 ∷ [], 2);
  submit_queue = [];
  resubmit_queue = [];
  kv_request_internal_pool = fresh;
  max_pending_io = 8;
  nb_pending_io = 0;
  called = [];
}
