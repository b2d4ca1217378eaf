-- ===== src/Iterator/Wait.antt =====
-- When the waiting loop of `kv_iterator_first` and `kv_iterator_seek` of src/kvs.c ends.
use native.Mathlib.Decide.{dec_lt, ℕ_discrete}
use mathlib.Core.Option.{some-injective}
use bagdb_spdk.Base.{
  ℕ, zero, suc, ◌+◌, ◌≤◌, ◌<◌, ◌≡◌, refl, subst, sym, ap, ◌∙◌, Bool, true, false, ◌&&◌, none, some,
  List, [], ◌∷◌, arith, length, set, length-set, get_or-set_self, get_or-set_ne,
  get_elem?-eq-get_or, get_elem?-eq-none, store-eq-set, inl, inr, Option-cases,
}
use bagdb_spdk.Iterator.State.{ScanWorkerCtx, Completion, iter_cb_fn, deliver}
use bagdb_spdk.Iterator.Cursor.{all_completed, wait_all}
use bagdb_spdk.Iterator.Sized.{no_ctx, ctx_at}

abbrev pub AllDone : ℕ → List ScanWorkerCtx → Type 0
AllDone workers ctx_array = (w : ℕ) → w < workers → (ctx_at ctx_array w).completed ≡ true

and_false : (b : Bool) → (b && false) ≡ false
and_false true = refl
and_false false = refl

module _ (workers : ℕ) where
  module _ (ctx_array : List ScanWorkerCtx) (size : length ctx_array ≡ workers) where
    all_completed-done :
        (n i : ℕ)
        → i + n ≡ workers
        → AllDone workers ctx_array
        → all_completed n i true ctx_array ≡ some true
    unfolding all_completed
    all_completed-done zero i e done = refl
    all_completed-done (suc n) i e done =
        rw (get_elem?-eq-get_or ctx_array i no_ctx (omega arith), done i (omega arith))
          (all_completed-done n (i + 1) (omega arith) done)

    all_completed-stays :
        (n i : ℕ) → i + n ≡ workers → all_completed n i false ctx_array ≡ some false
    unfolding all_completed
    all_completed-stays zero i e = refl
    all_completed-stays (suc n) i e =
        rw (get_elem?-eq-get_or ctx_array i no_ctx (omega arith))
          (all_completed-stays n (i + 1) (omega arith))

    all_completed-open :
        (n i w : ℕ) (res : Bool)
        → i + n ≡ workers
        → i ≤ w
        → w < workers
        → (ctx_at ctx_array w).completed ≡ false
        → all_completed n i res ctx_array ≡ some false
    unfolding all_completed
    all_completed-open zero i w res e lo hi off = absurd (omega arith)
    all_completed-open (suc n) i w res e lo hi off = elim (ℕ_discrete i w) [
      | yes here ↦
          let off_here : (ctx_at ctx_array i).completed ≡ false =
            ap (λ k. (ctx_at ctx_array k).completed) here ∙ off in
          rw (get_elem?-eq-get_or ctx_array i no_ctx (omega arith), off_here, and_false res)
            (all_completed-stays n (i + 1) (omega arith))
      | no later ↦ rw (get_elem?-eq-get_or ctx_array i no_ctx (omega arith)) (
          all_completed-open n (i + 1) w (res && (ctx_at ctx_array i).completed) (omega arith)
            (omega arith) hi off)
    ]

  completed-stays :
      (swctx : ScanWorkerCtx) (c : Completion)
      → (iter_cb_fn swctx c.scan_res c.kverrno).completed ≡ true
  unfolding iter_cb_fn
  completed-stays swctx c = refl

  deliver-AllDone :
      (cs : List Completion) (ctx_array after : List ScanWorkerCtx)
      → length ctx_array ≡ workers
      → AllDone workers ctx_array
      → deliver cs ctx_array ≡ some after
      → (length after ≡ workers) × AllDone workers after
  unfolding deliver
  deliver-AllDone [] ctx_array after size done run =
      let same : ctx_array ≡ after = some-injective ctx_array after run in
      (ap length (sym same) ∙ size, subst (AllDone workers) same done)
  deliver-AllDone (c ∷ cs) ctx_array after size done run = elim (dec_lt c.worker workers) [
    | no out ↦
        absurd
          (ground (arith, run, get_elem?-eq-none ctx_array c.worker (omega (arith, size, out))))
    | yes inside ↦
        let swctx : ScanWorkerCtx = ctx_at ctx_array c.worker in
        let called : ScanWorkerCtx = iter_cb_fn swctx c.scan_res c.kverrno in
        let next : List ScanWorkerCtx = set ctx_array c.worker called in
        deliver-AllDone cs next after (length-set ctx_array c.worker called ∙ size)
          (λ w h. elim (ℕ_discrete c.worker w) [
            | yes here ↦
                ap (λ k. (ctx_at next k).completed) (sym here)
                ∙ ap (λ d. d.completed)
                    (get_or-set_self ctx_array c.worker called no_ctx (omega (arith, size)))
                ∙ completed-stays swctx c
            | no ne ↦
                ap (λ d. d.completed) (get_or-set_ne ctx_array c.worker w called no_ctx ne)
                ∙ done w h
          ])
          (rw
            (
              get_elem?-eq-get_or ctx_array c.worker no_ctx (omega (arith, size)),
              store-eq-set ctx_array c.worker called (omega (arith, size)),
            )
            at run)
  ]

  -- Once all workers have completed, the loop does not end any more.
  stuck :
      (rounds : List (List Completion)) (ctx_array : List ScanWorkerCtx)
      → length ctx_array ≡ workers
      → AllDone workers ctx_array
      → wait_all workers rounds ctx_array ≡ none
  unfolding wait_all
  stuck [] ctx_array size done = refl
  stuck (calls ∷ rounds) ctx_array size done = elim (Option-cases (deliver calls ctx_array)) [
    | inl e ↦ rw e refl
    | inr (after, e) ↦
        let (size', done') = deliver-AllDone calls ctx_array after size done e in
        rw (e, all_completed-done after size' workers 0 (omega arith) done')
          (stuck rounds after size' done')
  ]

-- The waiting loop leaves off in a round in which some worker has not completed: it does not wait for
-- that worker.
pub wait_all-open :
    (workers w : ℕ) (calls : List Completion) (rounds : List (List Completion))
    (ctx_array after : List ScanWorkerCtx)
    → length after ≡ workers
    → deliver calls ctx_array ≡ some after
    → w < workers
    → (ctx_at after w).completed ≡ false
    → wait_all workers (calls ∷ rounds) ctx_array ≡ some after
unfolding wait_all
wait_all-open workers w calls rounds ctx_array after size run h off =
    rw
      (
        run,
        all_completed-open workers after size workers 0 w true (omega arith) (omega arith) h off,
      )
      refl

-- From a round on in which all workers have completed, the waiting loop does not end, however long it
-- runs and whatever the workers still call.
pub wait_all-stuck :
    (workers : ℕ) (calls : List Completion) (rounds : List (List Completion))
    (ctx_array after : List ScanWorkerCtx)
    → length after ≡ workers
    → deliver calls ctx_array ≡ some after
    → AllDone workers after
    → wait_all workers (calls ∷ rounds) ctx_array ≡ none
unfolding wait_all
wait_all-stuck workers calls rounds ctx_array after size run done =
    rw (run, all_completed-done workers after size workers 0 (omega arith) done)
      (stuck workers rounds after size done)
