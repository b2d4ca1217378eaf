-- ===== src/Iterator/View.antt =====
-- The abstract view of the iterator of src/kvs.c: the items that it still has to deliver, without their
-- order.
use mathlib.Core.List.{
  Perm, Permᴰ, Mem, mem-cons_self, mem-cons_of_mem, append_assoc, perm_append_comm, Perm-prop,
  Nodup,
}
use mathlib.Core.List.Perm
use mathlib.Core.Logic.{∥∥₁_elim}
use bagdb_spdk.Base.{
  ℕ, ◌≤◌, ◌^◌, ◌≡◌, refl, ap₂, subst, Bool, true, false, ◌&&◌, Option, none, some, List, [], ◌∷◌,
  ◌++◌, map, length, get_elem?, get_or, set, get_or-set_ne, take, drop, ltb, leb, ◌==◌,
}
use bagdb_spdk.Item.{KvItem, SortedItem}
use bagdb_spdk.Iterator.State.{WorkerScanResult, ScanWorkerCtx, KvIterator}

-- The items of worker `w`'s batch.
abbrev pub result_items : Option WorkerScanResult → List KvItem
result_items none = []
result_items (some r) = r.items

abbrev pub ctx_items : Option ScanWorkerCtx → List KvItem
ctx_items none = []
ctx_items (some c) = result_items c.scan_res

flip : (x y z : List KvItem) → Perm (x ++ (y ++ z)) (y ++ (x ++ z))
flip x y z =
    subst (λ l. Perm l (y ++ (x ++ z))) (append_assoc x y z)
      (subst (λ r. Perm (x ++ y ++ z) r) (append_assoc y x z)
        (Perm.append_right z (perm_append_comm x y)))

-- The workers of entries.
abbrev pub wids : List SortedItem → List ℕ
wids = map (λ e. e.wid)

module _ (ctx_array : List ScanWorkerCtx) where
  abbrev pub batch : ℕ → List KvItem
  batch w = ctx_items (get_elem? ctx_array w)

  -- What an entry stands for: its item and the rest of the batch of its worker.
  abbrev pub pending : List ℕ → SortedItem → List KvItem
  pending idxs e = e.item ∷ drop (get_or idxs e.wid 0) (batch e.wid)

  unfoldable pub all_pending : List ℕ → List SortedItem → List KvItem
  all_pending idxs [] = []
  all_pending idxs (e ∷ es) = pending idxs e ++ all_pending idxs es

  all_pending-permᴰ :
      (idxs : List ℕ) {es fs : List SortedItem}
      → Permᴰ es fs
      → Perm (all_pending idxs es) (all_pending idxs fs)
  unfolding all_pending
  all_pending-permᴰ idxs Permᴰ.nil = Perm.refl []
  all_pending-permᴰ idxs (Permᴰ.cons {a = a} {l₁ = l} {l₂ = k} e p) =
      subst
        (λ y. Perm (pending idxs a ++ all_pending idxs l) (pending idxs y ++ all_pending idxs k)) e
        (Perm.append_left (pending idxs a) (all_pending-permᴰ idxs p))
  all_pending-permᴰ idxs (Permᴰ.swap {a = a} {b = b} {a' = c} {b' = d} {l = l} e f) =
      subst (λ y. Perm (all_pending idxs (a ∷ b ∷ l)) (all_pending idxs (y ∷ d ∷ l))) f
        (subst (λ y. Perm (all_pending idxs (a ∷ b ∷ l)) (all_pending idxs (b ∷ y ∷ l))) e
          (flip (pending idxs a) (pending idxs b) (all_pending idxs l)))
  all_pending-permᴰ idxs (Permᴰ.trans p q) =
      Perm.trans (all_pending-permᴰ idxs p) (all_pending-permᴰ idxs q)

  pub all_pending-perm :
      (idxs : List ℕ) (es fs : List SortedItem)
      → Perm es fs
      → Perm (all_pending idxs es) (all_pending idxs fs)
  all_pending-perm idxs es fs p = ∥∥₁_elim p Perm-prop (λ q. all_pending-permᴰ idxs q)

  -- The cursor of a worker without an entry does not matter.
  pub all_pending-set :
      (idxs : List ℕ) (w v : ℕ) (es : List SortedItem)
      → ¬ Mem w (wids es)
      → all_pending (set idxs w v) es ≡ all_pending idxs es
  unfolding all_pending
  all_pending-set idxs w v [] h = refl
  all_pending-set idxs w v (e ∷ es) h =
      ap₂ (λ i rest. e.item ∷ drop i (batch e.wid) ++ rest)
        (get_or-set_ne idxs w e.wid v 0
          (λ same. h (subst (λ y. Mem w (y ∷ wids es)) same mem-cons_self)))
        (all_pending-set idxs w v es (λ m. h (mem-cons_of_mem e.wid m)))

-- The entries in use, and what is still to be delivered.
abbrev pub entries : KvIterator → List SortedItem
entries it = take it.nb_items it.item_array

unfoldable pub remaining : KvIterator → List KvItem
remaining it = all_pending it.ctx_array it.per_worker_idx (entries it)

-- The result is one of `w`'s context: it is complete, and its batch was not filled.
abbrev pub fits : Option WorkerScanResult → Bool
fits none = false
fits (some r) =
    r.nb_items == length r.items && ltb r.nb_items r.batch_size && leb r.batch_size (2 ^ 32)

abbrev pub ctx_ready : ℕ → Option ScanWorkerCtx → Bool
ctx_ready w none = false
ctx_ready w (some c) = c.worker_id == w && fits c.scan_res

-- Worker `w` has a cursor and a batch that was not filled.
unfoldable pub ready : List ScanWorkerCtx → List ℕ → ℕ → Bool
ready ctx_array idxs w = ltb w (length idxs) && ctx_ready w (get_elem? ctx_array w)

-- The state of an iterator between two calls, once the last batch of every worker is loaded.
pub record IsMerging (it : KvIterator) : Type 0 where
  pub room : it.nb_items ≤ length it.item_array
  pub distinct : Nodup (wids (entries it))
  pub loaded : (w : ℕ) → Mem w (wids (entries it)) → ready it.ctx_array it.per_worker_idx w ≡ true
