-- ===== src/Get/Joined.antt =====
-- The functions of src/kv_get.c and the handle of the request that they serve.
use mathlib.Core.List.{Perm, perm_middle, perm_append_singleton, append_assoc, map-append}
use mathlib.Core.List.Perm
use mathlib.Core.Option.{some-injective}
use bagdb_spdk.Base.{
  ℕ, ◌≡◌, refl, sym, subst, ap, ◌∙◌, true, false, not, ◌||◌, Option, none, some, List, [], ◌∷◌,
  ◌++◌, map, assert, bind_some, get_elem?, store, inl, inr, Bool-cases,
}
use bagdb_spdk.Base.Int.{ℤ, is_set}
use bagdb_spdk.Pool.{pool_release}
use bagdb_spdk.Get.State.{
  IndexEntry, ChunkOps, ErrorCodes, GetRequest, Answered, Await, chunk, data_of, GetWorker,
}
use bagdb_spdk.Get.Process.{
  call_back, release, answer, process_get_load_data_cb, process_get_pagechunk_cb, resubmit,
  read_chunk, process_entry, process_missing, process_found, worker_process_get, call_awaited,
}

-- A request as its user knows it: the callback and its context.
abbrev pub Handle : Type 0
Handle = ℕ × ℕ

abbrev pub handle : GetRequest → Handle
handle req = (req.internal.request.cb_fn, req.internal.request.ctx)

abbrev pub await_handle : Await → Handle
await_handle (chunk req) = handle req
await_handle (data_of req) = handle req

abbrev pub answered_handle : Answered → Handle
answered_handle a = (a.cb_fn, a.ctx)

at_end :
    (xs ys zs : List Handle) (k : Handle)
    → Perm (xs ++ (ys ++ (zs ++ k ∷ []))) (k ∷ (xs ++ (ys ++ zs)))
at_end xs ys zs k =
    subst (λ l. Perm l (k ∷ (xs ++ (ys ++ zs))))
      (append_assoc xs (ys ++ zs) (k ∷ []) ∙ ap (λ l. xs ++ l) (append_assoc ys zs (k ∷ [])))
      (perm_append_singleton k (xs ++ (ys ++ zs)))

module _ (chunks : ChunkOps) (errors : ErrorCodes) where
  -- The requests whose callbacks have been called, those that wait for a page chunk, and those to be
  -- processed again.
  abbrev pub handles : GetWorker chunks → List Handle
  handles w =
      map answered_handle w.answered ++ (map await_handle w.awaited ++ map handle w.resubmit_queue)

  -- One call of a callback, and the other fields that count as they were.
  abbrev Called : GetWorker chunks → GetRequest → GetWorker chunks → Type 0
  Called w req w' = handles w' ≡ handle req ∷ handles w

  release-keeps :
      (w : GetWorker chunks) (req : GetRequest) (w' : GetWorker chunks)
      → release chunks errors w req ≡ some w'
      → handles w' ≡ handles w
  unfolding release
  release-keeps w req w' h =
      let (r, got, out) = bind_some (pool_release w.pool req.internal.object) _ w' h in
      sym (ap handles (some-injective _ w' out))

  answer-Called :
      (w : GetWorker chunks) (req : GetRequest) (desc : chunks.Desc) (slot : ℕ) (kverrno : ℤ)
      (w' : GetWorker chunks)
      → answer chunks errors w req desc slot kverrno ≡ some w'
      → Called w req w'
  unfolding answer call_back
  answer-Called w req desc slot kverrno w' h = elim (Bool-cases (is_set kverrno)) [
    | inl e ↦ sym (ap handles (some-injective _ w' (rw e at h)))
    | inr e ↦
        let (u, got, out) = bind_some (assert (chunks.is_cached desc slot)) _ w' (rw e at h) in
        sym (ap handles (some-injective _ w' out))
  ]

  load_data_cb-Called :
      (w : GetWorker chunks) (req : GetRequest) (kverrno : ℤ) (w' : GetWorker chunks)
      → process_get_load_data_cb chunks errors w req kverrno ≡ some w'
      → Called w req w'
  unfolding process_get_load_data_cb
  load_data_cb-Called w req kverrno w' h₀ =
      let (e, g₀, h₁) = bind_some req.entry _ w' h₀ in
      let (entry, g₁, h₂) = bind_some (get_elem? w.entries e) _ w' h₁ in
      let (d, g₂, h₃) = bind_some entry.chunk_desc _ w' h₂ in
      let (released, g₃, h₄) = bind_some (release chunks errors w req) _ w' h₃ in
      let (desc, g₄, h₅) = bind_some (get_elem? w.descs d) _ w' h₄ in
      let (descs, g₅, h₆) = bind_some (store w.descs d (chunks.mem_lower desc)) _ w' h₅ in
      let (entries, g₆, h₇) =
        bind_some (store w.entries e (record entry { getting = false })) _ w' h₆ in
      answer-Called (record released { descs = descs; entries = entries }) req
        (chunks.mem_lower desc) entry.slot_idx kverrno w' h₇
      ∙ ap (λ l. handle req ∷ l) (release-keeps w req released g₃)

  -- The request has joined those that count, wherever.
  abbrev pub Joined : GetWorker chunks → GetRequest → GetWorker chunks → Type 0
  Joined w req w' = Perm (handles w') (handle req ∷ handles w)

  Called-Joined :
      (w : GetWorker chunks) (req : GetRequest) (w' : GetWorker chunks)
      → Called w req w'
      → Joined w req w'
  Called-Joined w req w' e = subst (λ l. Perm l (handle req ∷ handles w)) (sym e) (Perm.refl _)

  waits-Joined :
      (w : GetWorker chunks) (req : GetRequest) (a : Await)
      → await_handle a ≡ handle req
      → Joined w req (record w { awaited = a ∷ w.awaited })
  waits-Joined w req a e =
      subst
        (λ k.
          Perm
            (map answered_handle w.answered
              ++ (k ∷ (map await_handle w.awaited ++ map handle w.resubmit_queue)))
            (handle req ∷ handles w))
        (sym e) (perm_middle (map answered_handle w.answered) _)

  pagechunk_cb-Joined :
      (w : GetWorker chunks) (req : GetRequest) (kverrno : ℤ) (w' : GetWorker chunks)
      → process_get_pagechunk_cb chunks errors w req kverrno ≡ some w'
      → Joined w req w'
  unfolding process_get_pagechunk_cb
  pagechunk_cb-Joined w req kverrno w' h =
      let (u, got, out) = bind_some (assert (not (is_set kverrno))) _ w' h in
      subst (Joined w req) (some-injective _ w' out) (waits-Joined w req (data_of req) refl)

  resubmit-Joined :
      (w : GetWorker chunks) (req : GetRequest) (entry : IndexEntry)
      → Joined w req (resubmit chunks errors w req entry)
  unfolding resubmit
  resubmit-Joined w req entry =
      subst
        (λ l.
          Perm (map answered_handle w.answered ++ (map await_handle w.awaited ++ l))
            (handle req ∷ handles w))
        (sym (map-append handle w.resubmit_queue _))
        (at_end (map answered_handle w.answered) (map await_handle w.awaited)
          (map handle w.resubmit_queue) (handle req))

  read_chunk-Joined :
      (w : GetWorker chunks) (req : GetRequest) (desc : chunks.Desc) (slot : ℕ)
      (w' : GetWorker chunks)
      → read_chunk chunks errors w req desc slot ≡ some w'
      → Joined w req w'
  unfolding read_chunk
  read_chunk-Joined w req desc slot w' h = elim (Bool-cases (not (chunks.has_mem desc))) [
    | inl e ↦
        subst (Joined w req) (some-injective _ w' (rw e at h)) (waits-Joined w req (chunk req) refl)
    | inr e ↦ elim (Bool-cases (chunks.is_cached desc slot)) [
      | inl f ↦
          Called-Joined w req w' (load_data_cb-Called w req errors.success w' (rw (e, f) at h))
      | inr f ↦
          subst (Joined w req) (some-injective _ w' (rw (e, f) at h))
            (waits-Joined w req (data_of req) refl)
    ]
  ]

  process_entry-Joined :
      (w : GetWorker chunks) (req : GetRequest) (e : ℕ) (w' : GetWorker chunks)
      → process_entry chunks errors w req e ≡ some w'
      → Joined w req w'
  unfolding process_entry
  process_entry-Joined w req e w' h₀ =
      let (entry, g₀, h₁) = bind_some (get_elem? w.entries e) _ w' h₀ in
      elim (Bool-cases (entry.writing || entry.deleting)) [
        | inl busy ↦
            subst (Joined w req) (some-injective _ w' (rw busy at h₁)) (resubmit-Joined w req entry)
        | inr calm ↦
            let (d, g₁, h₂) = bind_some entry.chunk_desc _ w' (rw calm at h₁) in
            let (desc, g₂, h₃) = bind_some (get_elem? w.descs d) _ w' h₂ in
            let (entries, g₃, h₄) =
              bind_some (store w.entries e (record entry { getting = true })) _ w' h₃ in
            let (descs, g₄, h₅) = bind_some (store w.descs d (chunks.mem_lift desc)) _ w' h₄ in
            read_chunk-Joined (record w { entries = entries; descs = descs }) req
              (chunks.mem_lift desc) entry.slot_idx w' h₅
      ]

  process_found-Joined :
      (w : GetWorker chunks) (req : GetRequest) (found : Option ℕ) (w' : GetWorker chunks)
      → process_found chunks errors w req found ≡ some w'
      → Joined w req w'
  unfolding process_found process_missing call_back
  process_found-Joined w req none w' h =
      let (released, got, out) = bind_some (release chunks errors w req) _ w' h in
      Called-Joined w req w' (
        sym (ap handles (some-injective _ w' out))
        ∙ ap (λ l. handle req ∷ l) (release-keeps w req released got))
  process_found-Joined w req (some e) w' h =
      process_entry-Joined w (record req { entry = some e }) e w' h

  abbrev pub awaited_request : Await → GetRequest
  awaited_request (chunk req) = req
  awaited_request (data_of req) = req

  pub await_handle-eq : (a : Await) → handle (awaited_request a) ≡ await_handle a
  await_handle-eq (chunk req) = refl
  await_handle-eq (data_of req) = refl

  pub call_awaited-Joined :
      (w : GetWorker chunks) (a : Await) (kverrno : ℤ) (w' : GetWorker chunks)
      → call_awaited chunks errors w a kverrno ≡ some w'
      → Joined w (awaited_request a) w'
  unfolding call_awaited
  call_awaited-Joined w (chunk req) kverrno w' h = pagechunk_cb-Joined w req kverrno w' h
  call_awaited-Joined w (data_of req) kverrno w' h =
      Called-Joined w req w' (load_data_cb-Called w req kverrno w' h)

  pub worker_process_get-Joined :
      (lookup : ℕ → Option ℕ) (w : GetWorker chunks) (req : GetRequest) (w' : GetWorker chunks)
      → worker_process_get chunks errors lookup w req ≡ some w'
      → Joined w req w'
  unfolding worker_process_get
  worker_process_get-Joined lookup w req w' h = process_found-Joined w req _ w' h
