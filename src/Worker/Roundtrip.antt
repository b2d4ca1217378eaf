-- ===== src/Worker/Roundtrip.antt =====
-- A request of src/worker.c from the user's thread to the worker's poll and its buffer back.
use bagdb_spdk.Base.{
  ℕ, ◌≤◌, ◌<◌, ◌≡◌, subst, ap, ◌∙◌, some, false, List, [], ◌∷◌, ◌++◌, arith, length, length-set,
  get_or-set_self,
}
use mathlib.Core.List.{reverse}
use bagdb_spdk.Pool.Free.{address, IsFree}
use bagdb_spdk.Worker.Ring.{RingOps, IsQueue}
use bagdb_spdk.Worker.State.{OpCode, get, put, KvRequest, WorkerContext}
use bagdb_spdk.Worker.Enqueue.{worker_enqueue_get, worker_enqueue_put}
use bagdb_spdk.Worker.Poll.{available_ios, process_size, accept}
use bagdb_spdk.Worker.Batch.{no_request}
use bagdb_spdk.Worker.Accept.{IsReady, HasAccepted, accept-HasAccepted}
use bagdb_spdk.Worker.Handover.{
  request, handed, enqueue_one, dequeue_one, worker_enqueue_get-eq, worker_enqueue_put-eq,
}

module _ (ops : RingOps) (q : IsQueue ops) (wctx : WorkerContext ops) (cap b i : ℕ)
    (free fs : List ℕ) (shard item cb_fn ctx : ℕ)
    (ready : IsReady ops q wctx cap [] (b ∷ free) (i ∷ fs)) (inside : b < length wctx.request_queue)
    (ios : 1 ≤ available_ios ops wctx) where
  pub room : length {A = ℕ} [] < cap
  room = omega (arith, ready.room)

  abbrev sent : OpCode → WorkerContext ops
  sent op =
      handed ops q wctx cap cap b [] free shard item cb_fn ctx ready.waiting ready.unused room
        inside op

  abbrev asked : OpCode → KvRequest
  asked op =
      request ops q wctx cap cap b [] free shard item cb_fn ctx ready.waiting ready.unused room
        inside op

  sent-IsReady : (op : OpCode) → IsReady ops q (sent op) cap (b ∷ []) free (i ∷ fs)
  sent-IsReady op = record {
    waiting =
        (enqueue_one ops q wctx cap cap b [] free shard item cb_fn ctx ready.waiting ready.unused
          room inside).0;
    unused =
        (dequeue_one ops q wctx cap cap b [] free shard item cb_fn ctx ready.waiting ready.unused
          room inside).0;
    objects = ready.objects;
    buffers = (omega (arith, inside, length-set wctx.request_queue b (asked op)), tt);
    room = omega (arith, ready.room);
    small = ready.small;
    few = ready.few;
  }

  one_request : (op : OpCode) → process_size ops (sent op) ≡ 1
  unfolding process_size available_ios
  one_request op = ground (
    arith,
    q.count_lem (sent op).req_used_ring cap (b ∷ []) (sent-IsReady op).waiting,
    ready.objects.counted,
    ready.few,
    ios,
  )

  -- The worker after the poll has taken the request: it stands at the end of the submit queue in the
  -- pool's next object, its buffer is back, and the worker is ready again.
  pub record HasTaken (op : OpCode) (wctx' : WorkerContext ops) : Type 0 where
    pub submitted :
        wctx'.submit_queue
        ≡ (reverse wctx.resubmit_queue ++ wctx.submit_queue)
          ++ record {
            object = address wctx.kv_request_internal_pool i;
            request = asked op;
            no_lookup = false;
          }
            ∷ []
    pub waiting : q.Holds wctx'.req_used_ring cap []
    pub unused : q.Holds wctx'.req_free_ring cap (free ++ b ∷ [])
    pub objects : IsFree wctx'.kv_request_internal_pool fs

  accept-HasTaken :
      (op : OpCode)
      → (wctx' : WorkerContext ops) × (accept ops (sent op) ≡ some wctx') × HasTaken op wctx'
  accept-HasTaken op =
      let (wctx', run, has) =
        accept-HasAccepted ops q (sent op) cap (b ∷ []) free (i ∷ fs) (sent-IsReady op) in
      let one : HasAccepted ops q (sent op) cap (b ∷ []) free (i ∷ fs) 1 wctx' =
        subst (λ n. HasAccepted ops q (sent op) cap (b ∷ []) free (i ∷ fs) n wctx') (one_request op)
          has in
      (
        wctx',
        run,
        record {
          submitted =
              one.submitted
              ∙ ap
                  (λ r.
                    (reverse wctx.resubmit_queue ++ wctx.submit_queue)
                    ++ record {
                      object = address wctx.kv_request_internal_pool i;
                      request = r;
                      no_lookup = false;
                    }
                      ∷ [])
                  (get_or-set_self wctx.request_queue b (asked op) no_request inside);
          waiting = one.waiting;
          unused = one.unused;
          objects = one.objects;
        },
      )

  -- A request that the user's thread enqueues at an idle worker with a free buffer, a free object and
  -- leave for a disk request comes out of the next poll as it was put in: the same operation, shard, item,
  -- function and context, at the end of the submit queue; and its buffer is back in the free ring.
  pub enqueue_accept :
      ((wctx₁ wctx₂ : WorkerContext ops) × (worker_enqueue_get ops wctx shard item cb_fn ctx
          ≡ some wctx₁)
        × (accept ops wctx₁ ≡ some wctx₂)
        × HasTaken get wctx₂)
      × ((wctx₁ wctx₂ : WorkerContext ops) × (worker_enqueue_put ops wctx shard item cb_fn ctx
            ≡ some wctx₁)
          × (accept ops wctx₁ ≡ some wctx₂)
          × HasTaken put wctx₂)
  enqueue_accept = (
    (
      sent get,
      (accept-HasTaken get).0,
      worker_enqueue_get-eq ops q wctx cap cap b [] free shard item cb_fn ctx ready.waiting
          ready.unused room inside,
      (accept-HasTaken get).1,
      (accept-HasTaken get).2,
    ),
    (
      sent put,
      (accept-HasTaken put).0,
      worker_enqueue_put-eq ops q wctx cap cap b [] free shard item cb_fn ctx ready.waiting
          ready.unused room inside,
      (accept-HasTaken put).1,
      (accept-HasTaken put).2,
    ),
  )
