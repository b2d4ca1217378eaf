-- ===== src/Get/Once.antt =====
-- Each GET of src/kv_get.c is answered once: its callback is called, or its request still waits.
use mathlib.Core.List.{Perm, perm_middle}
use mathlib.Core.List.Perm
use mathlib.Core.Option.{some-injective, none-ne-some}
use bagdb_spdk.Base.{ℕ, zero, suc, ◌≡◌, subst, Option, some, List, [], ◌∷◌, ◌++◌, map, bind_some}
use bagdb_spdk.Base.Int.{ℤ}
use bagdb_spdk.Get.State.{ChunkOps, ErrorCodes, GetRequest, Await, GetWorker}
use bagdb_spdk.Get.Process.{worker_process_get, take_awaited, Event, process, complete, step, run}
use bagdb_spdk.Get.Joined.{
  Handle, handle, await_handle, answered_handle, handles, awaited_request, await_handle-eq,
  call_awaited-Joined, worker_process_get-Joined,
}

take_awaited-perm :
    (k : ℕ) (awaited : List Await) (a : Await) (rest : List Await)
    → take_awaited k awaited ≡ some (a, rest)
    → Perm (a ∷ rest) awaited
unfolding take_awaited
take_awaited-perm k [] a rest h = absurd (none-ne-some _ h)
take_awaited-perm zero (b ∷ others) a rest h =
    let e : (b, others) ≡ (a, rest) = some-injective _ _ h in
    subst (λ p. Perm (p.0 ∷ p.1) (b ∷ others)) e (Perm.refl (b ∷ others))
take_awaited-perm (suc k) (b ∷ others) a rest h =
    let (p, got, out) = bind_some (take_awaited k others) _ (a, rest) h in
    let e : (p.0, b ∷ p.1) ≡ (a, rest) = some-injective _ _ out in
    subst (λ r. Perm (r.0 ∷ r.1) (b ∷ others)) e
      (Perm.trans (Perm.swap b p.0 p.1) (Perm.cons b (take_awaited-perm k others p.0 p.1 got)))

module _ (chunks : ChunkOps) (errors : ErrorCodes) where
  -- The requests that the events bring in.
  abbrev pub brought : List (Event chunks errors) → List Handle
  brought [] = []
  brought (process req found ∷ es) = handle req ∷ brought es
  brought (complete k descs kverrno ∷ es) = brought es

  complete-keeps :
      (w : GetWorker chunks) (k : ℕ) (descs : List chunks.Desc) (kverrno : ℤ)
      (w' : GetWorker chunks)
      → step chunks errors w (complete k descs kverrno) ≡ some w'
      → Perm (handles chunks errors w') (handles chunks errors w)
  unfolding step
  complete-keeps w k descs kverrno w' h =
      let (p, got, out) = bind_some (take_awaited k w.awaited) _ w' h in
      let w₁ : GetWorker chunks = record w { awaited = p.1; descs = descs } in
      let joined : Perm (handles chunks errors w')
          (handle (awaited_request chunks errors p.0) ∷ handles chunks errors w₁) =
        call_awaited-Joined chunks errors w₁ p.0 kverrno w' out in
      let named : Perm (handles chunks errors w') (await_handle p.0 ∷ handles chunks errors w₁) =
        subst (λ x. Perm (handles chunks errors w') (x ∷ handles chunks errors w₁))
          (await_handle-eq chunks errors p.0) joined in
      let back : Perm (map await_handle (p.0 ∷ p.1)) (map await_handle w.awaited) =
        Perm.map await_handle (take_awaited-perm k w.awaited p.0 p.1 got) in
      Perm.trans named (
        Perm.trans (Perm.symm (perm_middle (map answered_handle w.answered) _)) (
          Perm.append_left (map answered_handle w.answered)
            (Perm.append_right (map handle w.resubmit_queue) back)))

  step-process :
      (w : GetWorker chunks) (req : GetRequest) (found : Option ℕ) (w' : GetWorker chunks)
      → step chunks errors w (process req found) ≡ some w'
      → worker_process_get chunks errors (λ item. found) w req ≡ some w'
  unfolding step
  step-process w req found w' h = h

  -- In whatever order a worker's GETs are processed and the calls that they wait for end, each request
  -- that has come in is in one place, once: its callback has been called, or it waits for a call to end,
  -- or it is to be processed again. No callback is called twice and no request is lost.
  pub run-once :
      (w : GetWorker chunks) (es : List (Event chunks errors)) (w' : GetWorker chunks)
      → run chunks errors w es ≡ some w'
      → Perm (handles chunks errors w') (brought es ++ handles chunks errors w)
  unfolding run
  run-once w [] w' h =
      subst (λ v. Perm (handles chunks errors v) (handles chunks errors w)) (some-injective w w' h)
        (Perm.refl _)
  run-once w (process req found ∷ es) w' h =
      let (w₁, got, out) = bind_some (step chunks errors w (process req found)) _ w' h in
      Perm.trans (run-once w₁ es w' out) (
        Perm.trans
          (Perm.append_left (brought es) (
            worker_process_get-Joined chunks errors (λ item. found) w req w₁
              (step-process w req found w₁ got)))
          (perm_middle (brought es) (handles chunks errors w)))
  run-once w (complete k descs kverrno ∷ es) w' h =
      let (w₁, got, out) = bind_some (step chunks errors w (complete k descs kverrno)) _ w' h in
      Perm.trans (run-once w₁ es w' out)
        (Perm.append_left (brought es) (complete-keeps w k descs kverrno w₁ got))
