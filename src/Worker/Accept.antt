-- ===== src/Worker/Accept.antt =====
-- What a poll of src/worker.c takes in: it never fails for want of objects or of room.
use mathlib.Core.List.{reverse, reverse-cons, append_assoc, append-nil}
use bagdb_spdk.Base.{
  ℕ, ◌+◌, ◌^◌, ◌<◌, ◌≤◌, ◌≡◌, refl, ◌∙◌, ap, sym, some, List, [], ◌∷◌, ◌++◌, arith, length, take,
  drop, take-drop, length-take, AllBelow, AllBelow-take, Bool-cases, ==_iff, inl, inr, ltb,
}
use bagdb_spdk.Pool.Free.{address, IsFree}
use bagdb_spdk.Worker.Ring.{RingOps, IsQueue}
use bagdb_spdk.Worker.State.{KvRequestInternal, WorkerContext}
use bagdb_spdk.Worker.Poll.{process_size, link_all, link_resubmitted, take_requests, accept}
use bagdb_spdk.Worker.Batch.{wrapped, wrap_all-wrapped}

-- The requests `used` wait in the used ring, the buffers `free` are in the free one, which has room
-- for all, and the objects `fs` are free.
pub record IsReady (ops : RingOps) (q : IsQueue ops) (wctx : WorkerContext ops) (cap : ℕ)
    (used free fs : List ℕ) : Type 0 where
  pub waiting : q.Holds wctx.req_used_ring cap used
  pub unused : q.Holds wctx.req_free_ring cap free
  pub objects : IsFree wctx.kv_request_internal_pool fs
  pub buffers : AllBelow (length wctx.request_queue) used
  pub room : length free + length used ≤ cap
  pub small : cap < 2 ^ 32
  pub few : length fs < 2 ^ 32

-- What a poll that takes `n` new requests makes of such a worker: the submit queue has the resubmitted
-- requests, the last of them first, then what it had, then the new ones in the order of the ring, each
-- in its own object; their buffers are free again.
pub record HasAccepted (ops : RingOps) (q : IsQueue ops) (wctx : WorkerContext ops) (cap : ℕ)
    (used free fs : List ℕ) (n : ℕ) (wctx' : WorkerContext ops) : Type 0 where
  pub submitted :
      wctx'.submit_queue
      ≡ (reverse wctx.resubmit_queue ++ wctx.submit_queue)
        ++ wrapped
            (address wctx.kv_request_internal_pool)
            wctx.request_queue
            (take n used)
            (take n fs)
  pub no_resubmit : wctx'.resubmit_queue ≡ []
  pub waiting : q.Holds wctx'.req_used_ring cap (drop n used)
  pub unused : q.Holds wctx'.req_free_ring cap (free ++ take n used)
  pub objects : IsFree wctx'.kv_request_internal_pool (drop n fs)

link_all-reverse :
    (reqs submit : List KvRequestInternal) → link_all reqs submit ≡ reverse reqs ++ submit
unfolding link_all
link_all-reverse [] submit = refl
link_all-reverse (req ∷ reqs) submit =
    link_all-reverse reqs (req ∷ submit)
    ∙ sym (append_assoc (reverse reqs) (req ∷ []) submit)
    ∙ ap (λ l. l ++ submit) (sym (reverse-cons req reqs))

module _ (ops : RingOps) (q : IsQueue ops) (wctx : WorkerContext ops) (cap : ℕ)
    (used free fs : List ℕ) (h : IsReady ops q wctx cap used free fs) where
  abbrev size : ℕ
  size = process_size ops wctx

  pub size_le : (size ≤ length used) × (size ≤ length fs)
  unfolding process_size
  size_le = ground (
    arith,
    q.count_lem wctx.req_used_ring cap used h.waiting,
    h.objects.counted,
    h.room,
    h.small,
    h.few,
  )

  -- The context once the resubmitted requests are linked in and the new ones are dequeued.
  abbrev dequeued : WorkerContext ops
  dequeued = record (link_resubmitted ops wctx) {
    req_used_ring = (ops.dequeue wctx.req_used_ring size).0;
  }

  dequeue_taken :
      (q.Holds (ops.dequeue wctx.req_used_ring size).0 cap (drop size used))
      × ((ops.dequeue wctx.req_used_ring size).1 ≡ take size used)
  dequeue_taken = rw (length-take size used size_le.0) at (
      q.dequeue_lem wctx.req_used_ring cap (take size used) (drop size used)
        (rw (take-drop size used) h.waiting))

  enqueue_taken :
      (q.Holds (ops.enqueue wctx.req_free_ring (take size used)).0 cap (free ++ take size used))
      × ((ops.enqueue wctx.req_free_ring (take size used)).1 ≡ length (take size used))
  enqueue_taken =
      q.enqueue_lem wctx.req_free_ring cap free (take size used) h.unused
        (omega (arith, length-take size used size_le.0, size_le.0, h.room))

  take_requests-HasAccepted :
      (wctx' : WorkerContext ops) × (take_requests ops size (link_resubmitted ops wctx)
        ≡ some wctx')
      × HasAccepted ops q wctx cap used free fs size wctx'
  unfolding take_requests link_resubmitted
  take_requests-HasAccepted =
      let (pool, run, objects) =
        wrap_all-wrapped ops (address wctx.kv_request_internal_pool) (take size used) (take size fs)
          (drop size fs) dequeued (rw (take-drop size fs) h.objects) (λ j. refl)
          (length-take size used size_le.0 ∙ sym (length-take size fs size_le.1))
          (AllBelow-take (length wctx.request_queue) size used h.buffers) in
      (
        record dequeued {
          kv_request_internal_pool = pool;
          submit_queue =
              link_all wctx.resubmit_queue wctx.submit_queue
              ++ wrapped (address wctx.kv_request_internal_pool) wctx.request_queue (take size used)
                  (take size fs);
          req_free_ring = (ops.enqueue wctx.req_free_ring (take size used)).0;
        },
        rw
            (
              dequeue_taken.1,
              run,
              enqueue_taken.1,
              length-take size used size_le.0,
              (==_iff size size).1 refl,
            )
            refl,
        record {
          submitted = rw (link_all-reverse wctx.resubmit_queue wctx.submit_queue) refl;
          no_resubmit = refl;
          waiting = dequeue_taken.0;
          unused = enqueue_taken.0;
          objects = objects;
        },
      )

  link_resubmitted-HasAccepted :
      size ≡ 0 → HasAccepted ops q wctx cap used free fs size (link_resubmitted ops wctx)
  unfolding link_resubmitted
  link_resubmitted-HasAccepted e = rw e (record {
    submitted = link_all-reverse wctx.resubmit_queue wctx.submit_queue ∙ sym (append-nil _);
    no_resubmit = refl;
    waiting = h.waiting;
    unused = rw (append-nil free) h.unused;
    objects = h.objects;
  })

  -- A poll of a ready worker never fails up to the processing: it takes as many new requests as wait, as
  -- there are free objects and as disk requests may be issued, in the order of the ring.
  pub accept-HasAccepted :
      (wctx' : WorkerContext ops) × (accept ops wctx ≡ some wctx')
      × HasAccepted ops q wctx cap used free fs (process_size ops wctx) wctx'
  unfolding accept
  accept-HasAccepted = elim (Bool-cases (ltb 0 size)) [
    | inl e ↦ let (wctx', run, has) = take_requests-HasAccepted in (wctx', rw e run, has)
    | inr e ↦ (link_resubmitted ops wctx, rw e refl, link_resubmitted-HasAccepted (ground arith))
  ]
