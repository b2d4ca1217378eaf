-- ===== src/Iterator/Sized.antt =====
-- The sizes that `kv_iterator_alloc` of src/kvs.c gives an iterator, and that `_reset_iterator` and the
-- first loop of `kv_iterator_first` keep.
use native.Mathlib.Decide.{ℕ_discrete}
use native.Mathlib.Nat.{zero-add}
use bagdb_spdk.Base.{
  take, length-take, ◌-◌, [], ◌∷◌, ℕ, zero, suc, ◌+◌, ◌≤◌, ◌<◌, ◌≡◌, refl, sym, subst, ap, ◌∙◌,
  false, none, some, List, arith, length, set, get_or, length-set, get_or-set_self, get_or-set_ne,
  get_elem?-eq-get_or, store-eq-set, ◌/◌,
}
use bagdb_spdk.Base.Int.{pos}
use bagdb_spdk.Iterator.State.{ScanWorkerCtx, KvIterator, Scan}
use bagdb_spdk.Iterator.Reset.{
  Garbage, clear_bytes, alloc_ctxs, init_iterator, forget_result, reset_scan_res, reset_from,
}
use bagdb_spdk.Iterator.Cursor.{send, send_first}

abbrev pub no_ctx : ScanWorkerCtx
no_ctx = record { worker_id = 0; completed = false; kverrno = pos 0; scan_res = none }

abbrev pub ctx_at : List ScanWorkerCtx → ℕ → ScanWorkerCtx
ctx_at ctx_array i = get_or ctx_array i no_ctx

-- A context, a cursor and an entry for each of `workers` workers, the contexts with their numbers.
pub record Sized (workers : ℕ) (it : KvIterator) : Type 0 where
  pub nb_workers : it.nb_workers ≡ workers
  pub cursors : length it.per_worker_idx ≡ workers
  pub ctxs : length it.ctx_array ≡ workers
  pub room : workers ≤ length it.item_array
  pub ids : (w : ℕ) → w < workers → (ctx_at it.ctx_array w).worker_id ≡ w

-- The cursors of the workers before `i` are 0.
abbrev pub Zeros : ℕ → KvIterator → Type 0
Zeros i it = (w : ℕ) → w < i → get_or it.per_worker_idx w 0 ≡ 0

module _ (workers i : ℕ) (it : KvIterator) (hi : i < workers) (sized : Sized workers it) where
  ids-set :
      (c : ScanWorkerCtx)
      → c.worker_id ≡ i
      → (w : ℕ) → w < workers
      → (ctx_at (set it.ctx_array i c) w).worker_id ≡ w
  ids-set c same w hw = elim (ℕ_discrete i w) [
    | yes e ↦
        ap (λ k. (ctx_at (set it.ctx_array i c) k).worker_id) (sym e)
        ∙ ap (λ d. d.worker_id)
            (get_or-set_self it.ctx_array i c no_ctx (omega (arith, sized.ctxs)))
        ∙ same
        ∙ e
    | no ne ↦ ap (λ d. d.worker_id) (get_or-set_ne it.ctx_array i w c no_ctx ne) ∙ sized.ids w hw
  ]

  forgotten-id : (forget_result (ctx_at it.ctx_array i)).worker_id ≡ i
  unfolding forget_result
  forgotten-id = ground (arith, sized.ids i hi)

  abbrev after_reset : KvIterator
  after_reset = record it {
    ctx_array = set it.ctx_array i (forget_result (ctx_at it.ctx_array i));
    per_worker_idx = set it.per_worker_idx i 0;
  }

  reset_runs : reset_scan_res it i ≡ some after_reset
  unfolding reset_scan_res
  reset_runs = ground (
    arith,
    sized.ctxs,
    sized.cursors,
    sized.ids i hi,
    get_elem?-eq-get_or it.ctx_array i no_ctx,
    store-eq-set it.ctx_array i (forget_result (ctx_at it.ctx_array i)),
    store-eq-set it.per_worker_idx i 0,
  )

  reset-Sized : Sized workers after_reset
  reset-Sized = record {
    nb_workers = sized.nb_workers;
    cursors = length-set it.per_worker_idx i 0 ∙ sized.cursors;
    ctxs = length-set it.ctx_array i _ ∙ sized.ctxs;
    room = sized.room;
    ids = ids-set (forget_result (ctx_at it.ctx_array i)) forgotten-id;
  }

  reset-Zeros : Zeros i it → Zeros (i + 1) after_reset
  reset-Zeros zeros w hw = elim (ℕ_discrete i w) [
    | yes e ↦
        subst (λ k. get_or (set it.per_worker_idx i 0) k 0 ≡ 0) e
          (get_or-set_self it.per_worker_idx i 0 0 (omega (arith, sized.cursors)))
    | no ne ↦ get_or-set_ne it.per_worker_idx i w 0 0 ne ∙ zeros w (omega arith)
  ]

  abbrev cleared : ScanWorkerCtx
  cleared = record (ctx_at it.ctx_array i) { completed = false; kverrno = pos 0 }

  abbrev after_send : Scan → KvIterator
  after_send scan = record it { ctx_array = set it.ctx_array i cleared; sent = scan ∷ it.sent }

  send_runs : (scan : Scan) → send scan i it ≡ some (after_send scan)
  unfolding send
  send_runs scan = ground (
    arith,
    sized.ctxs,
    get_elem?-eq-get_or it.ctx_array i no_ctx,
    store-eq-set it.ctx_array i cleared,
  )

  send-Sized : (scan : Scan) → Sized workers (after_send scan)
  send-Sized scan = record {
    nb_workers = sized.nb_workers;
    cursors = sized.cursors;
    ctxs = length-set it.ctx_array i cleared ∙ sized.ctxs;
    room = sized.room;
    ids = ids-set cleared (sized.ids i hi);
  }

pub reset_from-Sized :
    (n i workers : ℕ) (it : KvIterator)
    → i + n ≡ workers
    → Sized workers it
    → Zeros i it
    → (it' : KvIterator) × (reset_from n i it ≡ some it') × Sized workers it' × Zeros workers it'
unfolding reset_from
reset_from-Sized zero i workers it e sized zeros = (it, refl, sized, λ w h. zeros w (omega arith))
reset_from-Sized (suc n) i workers it e sized zeros =
    let hi : i < workers = omega arith in
    let (it', run, sized', zeros') =
      reset_from-Sized n (i + 1) workers (after_reset workers i it hi sized) (omega arith)
        (reset-Sized workers i it hi sized) (reset-Zeros workers i it hi sized zeros) in
    (it', rw (reset_runs workers i it hi sized) run, sized', zeros')

-- The loop of calls changes the contexts and what has been sent, and nothing else.
pub send_first-Sized :
    (n i workers : ℕ) (it : KvIterator)
    → i + n ≡ workers
    → Sized workers it
    → Zeros workers it
    → (it' : KvIterator) × (send_first n i it ≡ some it')
      × Sized workers it'
      × Zeros workers it'
      × (it'.nb_items ≡ it.nb_items)
unfolding send_first
send_first-Sized zero i workers it e sized zeros = (it, refl, sized, zeros, refl)
send_first-Sized (suc n) i workers it e sized zeros =
    let hi : i < workers = omega arith in
    let scan : Scan = Scan.first i (it.batch_size / it.nb_workers) in
    let (it', run, sized', zeros', same) =
      send_first-Sized n (i + 1) workers (after_send workers i it hi sized scan) (omega arith)
        (send-Sized workers i it hi sized scan) zeros in
    (it', rw (send_runs workers i it hi sized scan) run, sized', zeros', same)

alloc_ctxs-at : (g : Garbage) (n i w : ℕ) → w < n → (ctx_at (alloc_ctxs g n i) w).worker_id ≡ i + w
unfolding alloc_ctxs
alloc_ctxs-at g zero i w h = absurd (omega arith)
alloc_ctxs-at g (suc n) i zero h = omega arith
alloc_ctxs-at g (suc n) i (suc w) h = alloc_ctxs-at g n (i + 1) w (omega arith) ∙ next
  where
    next : i + 1 + w ≡ i + suc w
    next = omega arith

length-alloc_ctxs : (g : Garbage) (n i : ℕ) → length (alloc_ctxs g n i) ≡ n
unfolding alloc_ctxs
length-alloc_ctxs g zero i = refl
length-alloc_ctxs g (suc n) i = ap suc (length-alloc_ctxs g n (i + 1))

length-clear_bytes : (n : ℕ) (ws : List ℕ) → length (clear_bytes n ws) ≡ length ws
unfolding clear_bytes
length-clear_bytes n [] = refl
length-clear_bytes n (w ∷ ws) = ap suc (length-clear_bytes (n - 8) ws)

-- Whatever the new memory holds, if it is large enough for a cursor and an entry of each worker.
pub init_iterator-Sized :
    (g : Garbage) (workers batch_size : ℕ)
    → workers ≤ length g.words
    → workers ≤ length g.entries
    → Sized workers (init_iterator g workers batch_size)
unfolding init_iterator
init_iterator-Sized g workers batch_size words entries = record {
  nb_workers = refl;
  cursors = length-clear_bytes workers (take workers g.words) ∙ length-take workers g.words words;
  ctxs = length-alloc_ctxs g workers 0;
  room = omega (arith, length-take workers g.entries entries);
  ids = λ w h. alloc_ctxs-at g workers 0 w h ∙ zero-add w;
}
