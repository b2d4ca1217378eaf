-- ===== src/Iterator/Load.antt =====
-- The last loop of `kv_iterator_first` of src/kvs.c: each worker that has items gets an entry.
use mathlib.Core.List.{
  Perm, Mem, mem-cons, Nodup, Nodup-cons, perm_append_singleton, append_assoc, perm_append_comm,
  append-nil,
}
use mathlib.Core.List.Perm
use mathlib.Core.Logic.Or
use native.Mathlib.Bridge.{le_prop}
use bagdb_spdk.Base.{
  if◌then◌else◌, ℕ, zero, suc, ◌+◌, ◌^◌, ◌≤◌, ◌<◌, ◌≡◌, refl, sym, subst, ap, ap₂, ◌∙◌, true,
  Option, some, List, [], ◌∷◌, ◌++◌, arith, length, drop, set, get_or, get_elem?, length-set,
  get_or-set_self, get_or-set_ne, get_elem?-eq-get_or, drop-get_elem, store-eq-set, inl, inr,
  Bool-cases, ◌==◌, uint64_max, take-set_last,
}
use bagdb_spdk.Item.{KvItem, SortedItem}
use bagdb_spdk.Iterator.State.{WorkerScanResult, ScanWorkerCtx, KvIterator}
use bagdb_spdk.Iterator.Cursor.{load_first, close_worker, load_all}
use bagdb_spdk.Iterator.View.{
  batch, all_pending, all_pending-perm, all_pending-set, wids, entries, remaining, ctx_ready, ready,
}
use bagdb_spdk.Iterator.Loaded.{Loaded, ready-Loaded}

-- The batches of the workers `i, …, i + n - 1`.
abbrev pub all_batches : List ScanWorkerCtx → ℕ → ℕ → List KvItem
all_batches ctx_array zero i = []
all_batches ctx_array (suc n) i = batch ctx_array i ++ all_batches ctx_array n (i + 1)

-- The state when the workers before `i` are done, of `workers` in all.
pub record Loading (workers i : ℕ) (it : KvIterator) : Type 0 where
  pub cursors : length it.per_worker_idx ≡ workers
  pub room : workers ≤ length it.item_array
  pub few : it.nb_items ≤ i
  pub fresh : (w : ℕ) → i ≤ w → w < workers → get_or it.per_worker_idx w 0 ≡ 0
  pub below : (w : ℕ) → Mem w (wids (entries it)) → w < i
  pub distinct : Nodup (wids (entries it))

-- The contexts that the workers' calls have left: each has a result, whose batch was not filled.
abbrev pub AllReady : ℕ → List ScanWorkerCtx → Type 0
AllReady workers ctx_array = (w : ℕ) → w < workers → ctx_ready w (get_elem? ctx_array w) ≡ true

module _ (workers i : ℕ) (it : KvIterator) (hi : i < workers) (small : workers < 2 ^ 32)
    (at : Loading workers i it) where
  abbrev Loads : Option KvIterator → Type 0
  Loads r =
      (it' : KvIterator) × (r ≡ some it')
      × Loading workers (i + 1) it'
      × (it'.ctx_array ≡ it.ctx_array)
      × Perm (remaining it') (batch it.ctx_array i ++ remaining it)

  absent : ¬ Mem i (wids (entries it))
  absent m = omega (arith, at.below i m)

  close-Loads : batch it.ctx_array i ≡ [] → Loads (close_worker it i)
  unfolding close_worker remaining
  close-Loads nothing = (
    record it { per_worker_idx = set it.per_worker_idx i uint64_max },
    ground (arith, store-eq-set it.per_worker_idx i uint64_max, at.cursors),
    record {
      cursors = length-set it.per_worker_idx i uint64_max ∙ at.cursors;
      room = at.room;
      few = omega (arith, at.few);
      fresh = λ w h k.
          get_or-set_ne it.per_worker_idx i w uint64_max 0 (λ e. omega arith)
          ∙ at.fresh w (omega arith) k;
      below = λ w m. omega (arith, at.below w m);
      distinct = at.distinct;
    },
    refl,
    subst
        (λ l.
          Perm (all_pending it.ctx_array (set it.per_worker_idx i uint64_max) (entries it))
            (l ++ remaining it))
        (sym nothing)
        (subst (λ l. Perm l (remaining it))
          (sym (all_pending-set it.ctx_array it.per_worker_idx i uint64_max (entries it) absent))
          (Perm.refl (remaining it))),
  )

  module _ (r : WorkerScanResult) (all : batch it.ctx_array i ≡ r.items)
      (some_item : 0 < length r.items) where
    abbrev item : KvItem
    item = (drop-get_elem r.items 0 some_item).0

    abbrev entry : SortedItem
    entry = record { wid = i; item = item }

    abbrev idxs : List ℕ
    idxs = set it.per_worker_idx i 1

    abbrev loaded_one : KvIterator
    loaded_one = record it {
      item_array = set it.item_array it.nb_items entry;
      nb_items = suc it.nb_items;
      per_worker_idx = idxs;
    }

    runs : load_first it i r ≡ some loaded_one
    unfolding load_first
    runs =
        let (x, got, split) = drop-get_elem r.items 0 some_item in
        ground (
          arith,
          got,
          at.cursors,
          at.room,
          at.few,
          at.fresh i,
          store-eq-set it.item_array it.nb_items entry,
          get_elem?-eq-get_or it.per_worker_idx i 0,
          store-eq-set it.per_worker_idx i 1,
        )

    entries-perm : Perm (entries loaded_one) (entry ∷ entries it)
    entries-perm =
        subst (λ l. Perm l (entry ∷ entries it))
          (sym (take-set_last it.item_array it.nb_items entry (omega (arith, at.few, at.room))))
          (perm_append_singleton entry (entries it))

    wids-perm : Perm (wids (entries loaded_one)) (i ∷ wids (entries it))
    wids-perm = Perm.map (λ e. e.wid) entries-perm

    pending_new :
        all_pending it.ctx_array idxs (entry ∷ entries it) ≡ batch it.ctx_array i ++ remaining it
    unfolding all_pending remaining
    pending_new =
        let (x, got, split) = drop-get_elem r.items 0 some_item in
        let here : item ∷ drop 1 (batch it.ctx_array i) ≡ batch it.ctx_array i =
          rw all (sym split) in
        ap₂ (λ k rest. item ∷ drop k (batch it.ctx_array i) ++ rest)
          (get_or-set_self it.per_worker_idx i 1 0 (omega (arith, at.cursors)))
          (all_pending-set it.ctx_array it.per_worker_idx i 1 (entries it) absent)
        ∙ ap (λ l. l ++ remaining it) here

    first-Loads : Loads (load_first it i r)
    unfolding remaining
    first-Loads = (
      loaded_one,
      runs,
      record {
        cursors = length-set it.per_worker_idx i 1 ∙ at.cursors;
        room = omega (arith, at.room, length-set it.item_array it.nb_items entry);
        few = omega (arith, at.few);
        fresh = λ w h k.
            get_or-set_ne it.per_worker_idx i w 1 0 (λ e. omega arith) ∙ at.fresh w (omega arith) k;
        below = λ w m.
            Or.elim le_prop (mem-cons.0 ((Perm.mem_iff wids-perm).0 m)) (λ e. omega (arith, e))
              (λ old. omega (arith, at.below w old));
        distinct = Perm.nodup (Perm.symm wids-perm) (Nodup-cons.1 (absent, at.distinct));
      },
      refl,
      subst (λ l. Perm (all_pending it.ctx_array idxs (entries loaded_one)) l) pending_new
          (all_pending-perm it.ctx_array idxs _ _ entries-perm),
    )

  module _ (is : ctx_ready i (get_elem? it.ctx_array i) ≡ true) where
    l : Loaded it.ctx_array it.per_worker_idx i
    unfolding ready
    l = ready-Loaded it.ctx_array it.per_worker_idx i (ground (arith, at.cursors, is))

    one_step :
        Loads (if l.scan_res.nb_items == 0 then close_worker it i else load_first it i l.scan_res)
    one_step = elim (Bool-cases (l.scan_res.nb_items == 0)) [
      | inl nothing ↦
          rw nothing (close-Loads (l.items ∙ no_items l.scan_res.items (ground (arith, l.whole))))
      | inr something ↦ rw something (first-Loads l.scan_res l.items (ground (arith, l.whole)))
    ]
      where
        no_items : (xs : List KvItem) → length xs ≡ 0 → xs ≡ []
        no_items [] e = refl
        no_items (x ∷ xs) e = absurd (omega arith)

    load_step :
        (n : ℕ) (it' : KvIterator)
        → (if l.scan_res.nb_items == 0 then close_worker it i else load_first it i l.scan_res)
          ≡ some it'
        → load_all (suc n) i it ≡ load_all n (i + 1) it'
    unfolding load_all
    load_step n it' run = rw (l.ctx, l.result, run) refl

regroup : (xs ys zs new : List KvItem) → Perm new (ys ++ xs) → Perm (new ++ zs) (xs ++ (ys ++ zs))
regroup xs ys zs new p =
    subst (λ l. Perm (new ++ zs) l) (append_assoc xs ys zs)
      (Perm.append_right zs (Perm.trans p (perm_append_comm ys xs)))

-- The loop ends in range, and what is still to be delivered has grown by the workers' batches.
pub load_all-Loading :
    (n i workers : ℕ) (it : KvIterator)
    → i + n ≡ workers
    → workers < 2 ^ 32
    → Loading workers i it
    → AllReady workers it.ctx_array
    → (it' : KvIterator) × (load_all n i it ≡ some it')
      × Loading workers workers it'
      × (it'.ctx_array ≡ it.ctx_array)
      × Perm (remaining it') (remaining it ++ all_batches it.ctx_array n i)
unfolding load_all
load_all-Loading zero i workers it e small at all = (
  it,
  refl,
  subst (λ k. Loading workers k it) (omega arith) at,
  refl,
  subst (λ l. Perm (remaining it) l) (sym (append-nil (remaining it))) (Perm.refl (remaining it)),
)
load_all-Loading (suc n) i workers it e small at all =
    let hi : i < workers = omega arith in
    let (it₁, run, at₁, same, perm) = one_step workers i it hi small at (all i hi) in
    let (it₂, run₂, at₂, same₂, perm₂) =
      load_all-Loading n (i + 1) workers it₁ (omega arith) small at₁
        (subst (AllReady workers) (sym same) all) in
    (
      it₂,
      load_step workers i it hi small at (all i hi) n it₁ run ∙ run₂,
      at₂,
      same₂ ∙ same,
      Perm.trans
          (subst (λ c. Perm (remaining it₂) (remaining it₁ ++ all_batches c n (i + 1))) same perm₂)
          (regroup (remaining it) (batch it.ctx_array i) (all_batches it.ctx_array n (i + 1))
            (remaining it₁) perm),
    )
