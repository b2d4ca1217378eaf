-- ===== src/Worker/Events.antt =====
-- A whole poll of src/worker.c: every request that it has is processed, once.
use mathlib.Core.List.{reverse, reverse-cons}
use bagdb_spdk.Base.{
  ℕ, suc, ◌+◌, ◌<◌, ◌≡◌, refl, ◌∙◌, sym, ap, some, List, [], ◌∷◌, ◌++◌, arith, length, get_or, take,
  length-take, length-append, if◌then◌else◌, ◌==◌, AllBelow, AllBelow-take,
}
use bagdb_spdk.Pool.Free.{address}
use bagdb_spdk.Worker.Ring.{RingOps, IsQueue}
use bagdb_spdk.Worker.State.{
  OpCode, get, put, delete, first, seek, next, unknown, KvRequest, KvRequestInternal, WorkerContext,
}
use bagdb_spdk.Worker.Poll.{process_size}
use bagdb_spdk.Worker.Requests.{
  Handlers, process_one_kv_request, process_all, business_processor_poll, remove,
}
use bagdb_spdk.Worker.Batch.{no_request, wrapped}
use bagdb_spdk.Worker.Accept.{IsReady, HasAccepted, accept-HasAccepted, size_le}

abbrev pub IsKnown : OpCode → Type 0
IsKnown get = Unit
IsKnown put = Unit
IsKnown delete = Unit
IsKnown first = Unit
IsKnown seek = Unit
IsKnown next = Unit
IsKnown (unknown code) = ⊥

abbrev pub AllKnown : List KvRequestInternal → Type 0
AllKnown [] = Unit
AllKnown (req ∷ reqs) = IsKnown req.request.op_code × AllKnown reqs

AllKnown-append : (xs ys : List KvRequestInternal) → AllKnown xs → AllKnown ys → AllKnown (xs ++ ys)
AllKnown-append [] ys p q = q
AllKnown-append (x ∷ xs) ys p q = (p.0, AllKnown-append xs ys p.1 q)

AllKnown-reverse : (xs : List KvRequestInternal) → AllKnown xs → AllKnown (reverse xs)
AllKnown-reverse [] p = tt
AllKnown-reverse (x ∷ xs) p =
    rw (reverse-cons x xs)
      (AllKnown-append (reverse xs) (x ∷ []) (AllKnown-reverse xs p.1) (p.0, tt))

length-reverse_lem : (xs : List KvRequestInternal) → length (reverse xs) ≡ length xs
length-reverse_lem [] = refl
length-reverse_lem (x ∷ xs) =
    rw (reverse-cons x xs)
      (omega (arith, length-append (reverse xs) (x ∷ []), length-reverse_lem xs))

module _ (addr : ℕ → ℕ) (queue : List KvRequest) where
  AllKnown-wrapped :
      (reqs objects : List ℕ)
      → AllBelow (length queue) reqs
      → ((b : ℕ) → b < length queue → IsKnown (get_or queue b no_request).op_code)
      → AllKnown (wrapped addr queue reqs objects)
  AllKnown-wrapped [] objects below known = tt
  AllKnown-wrapped (req ∷ reqs) [] below known = tt
  AllKnown-wrapped (req ∷ reqs) (i ∷ objects) below known =
      (known req below.0, AllKnown-wrapped reqs objects below.1 known)

  length-wrapped :
      (reqs objects : List ℕ)
      → length reqs ≡ length objects
      → length (wrapped addr queue reqs objects) ≡ length reqs
  length-wrapped [] objects e = refl
  length-wrapped (req ∷ reqs) [] e = absurd (omega arith)
  length-wrapped (req ∷ reqs) (i ∷ objects) e = ap suc (length-wrapped reqs objects (omega arith))

-- The queue without the request of this object.
abbrev pub without : ℕ → List KvRequestInternal → List KvRequestInternal
without object [] = []
without object (req ∷ reqs) = if req.object == object then reqs else req ∷ without object reqs

remove-without :
    (object : ℕ) (reqs : List KvRequestInternal) → remove object reqs ≡ without object reqs
unfolding remove
remove-without object [] = refl
remove-without object (req ∷ reqs) =
    ap (λ l. if req.object == object then reqs else req ∷ l) (remove-without object reqs)

module _ (ops : RingOps) (handlers : Handlers ops) where
  -- The function for an operation.
  abbrev pub handler_of : OpCode → WorkerContext ops → KvRequestInternal → WorkerContext ops
  handler_of get wctx req = handlers.process_get wctx req
  handler_of put wctx req = handlers.process_put wctx req
  handler_of delete wctx req = handlers.process_delete wctx req
  handler_of first wctx req = handlers.process_first wctx req
  handler_of seek wctx req = handlers.process_seek wctx req
  handler_of next wctx req = handlers.process_next wctx req
  handler_of (unknown code) wctx req = wctx

  -- Each request in turn is taken off the submit queue and handed to the function for its operation.
  abbrev pub served : List KvRequestInternal → WorkerContext ops → WorkerContext ops
  served [] wctx = wctx
  served (req ∷ reqs) wctx = served reqs (
      handler_of req.request.op_code
        (record wctx { submit_queue = without req.object wctx.submit_queue }) req)

  process_one-known :
      (wctx : WorkerContext ops) (req : KvRequestInternal) (op : OpCode)
      → req.request.op_code ≡ op
      → IsKnown op
      → process_one_kv_request ops handlers wctx req ≡ some (handler_of op wctx req)
  unfolding process_one_kv_request
  process_one-known wctx req get e p = rw e refl
  process_one-known wctx req put e p = rw e refl
  process_one-known wctx req delete e p = rw e refl
  process_one-known wctx req first e p = rw e refl
  process_one-known wctx req seek e p = rw e refl
  process_one-known wctx req next e p = rw e refl
  process_one-known wctx req (unknown code) e p = absurd p

  process_all-known :
      (reqs : List KvRequestInternal) (wctx : WorkerContext ops)
      → AllKnown reqs
      → process_all ops handlers reqs wctx ≡ some (served reqs wctx, length reqs)
  unfolding process_all
  process_all-known [] wctx known = refl
  process_all-known (req ∷ reqs) wctx known =
      let taken : WorkerContext ops = record wctx {
        submit_queue = without req.object wctx.submit_queue;
      } in
      let one = process_one-known taken req req.request.op_code refl known.0 in
      let rest = process_all-known reqs (handler_of req.request.op_code taken req) known.1 in
      rw (remove-without req.object wctx.submit_queue, one, rest) refl

  -- A poll of a ready worker whose requests have known operations ends. It takes in the requests as they
  -- come, the resubmitted ones, the queued ones and as many new ones as it may, and hands each of
  -- them, once and in that order, to the function for its operation, with the context that the one before
  -- has left and the request taken off the submit queue. The number that it returns is that of the requests.
  pub business_processor_poll-events :
      (q : IsQueue ops) (wctx : WorkerContext ops) (cap : ℕ) (used free fs : List ℕ)
      → IsReady ops q wctx cap used free fs
      → AllKnown wctx.resubmit_queue
      → AllKnown wctx.submit_queue
      → ((b : ℕ)
          → b < length wctx.request_queue
          → IsKnown (get_or wctx.request_queue b no_request).op_code)
      → (accepted : WorkerContext ops) × HasAccepted ops q wctx cap used free fs
          (process_size ops wctx)
          accepted
        × (business_processor_poll ops handlers wctx
            ≡ some (
              served
                  ((reverse wctx.resubmit_queue ++ wctx.submit_queue)
                    ++ wrapped
                        (address wctx.kv_request_internal_pool)
                        wctx.request_queue
                        (take (process_size ops wctx) used)
                        (take (process_size ops wctx) fs))
                  accepted,
              length wctx.resubmit_queue + length wctx.submit_queue + process_size ops wctx,
            ))
  unfolding business_processor_poll
  business_processor_poll-events q wctx cap used free fs h resubmitted submitted buffers =
      let (accepted, run, has) = accept-HasAccepted ops q wctx cap used free fs h in
      let n = process_size ops wctx in
      let (low, high) = size_le ops q wctx cap used free fs h in
      let new =
        wrapped (address wctx.kv_request_internal_pool) wctx.request_queue (take n used)
          (take n fs) in
      let known : AllKnown accepted.submit_queue = rw has.submitted (
        AllKnown-append (reverse wctx.resubmit_queue ++ wctx.submit_queue) new
          (AllKnown-append (reverse wctx.resubmit_queue) wctx.submit_queue
            (AllKnown-reverse wctx.resubmit_queue resubmitted) submitted)
          (AllKnown-wrapped (address wctx.kv_request_internal_pool) wctx.request_queue (take n used)
            (take n fs) (AllBelow-take (length wctx.request_queue) n used h.buffers) buffers)) in
      let count : length accepted.submit_queue
          ≡ length wctx.resubmit_queue + length wctx.submit_queue + n =
        rw has.submitted (
          omega (
            arith,
            length-append (reverse wctx.resubmit_queue ++ wctx.submit_queue) new,
            length-append (reverse wctx.resubmit_queue) wctx.submit_queue,
            length-reverse_lem wctx.resubmit_queue,
            length-wrapped (address wctx.kv_request_internal_pool) wctx.request_queue (take n used)
                (take n fs) (length-take n used low ∙ sym (length-take n fs high)),
            length-take n used low,
          )) in
      let all = process_all-known accepted.submit_queue accepted known in
      (
        accepted,
        has,
        rw run (
            all
            ∙ ap (λ k. some (served accepted.submit_queue accepted, k)) count
            ∙ ap
                (λ l.
                  some
                    (served l accepted, length wctx.resubmit_queue + length wctx.submit_queue + n))
                has.submitted),
      )
