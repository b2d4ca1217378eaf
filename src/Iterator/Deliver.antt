-- ===== src/Iterator/Deliver.antt =====
-- `kv_iterator_next` of src/kvs.c, once the last batch of every worker is loaded: it takes the item at
-- the front out of those that are still to be delivered.
use mathlib.Core.List.{Perm, mem-cons_self}
use bagdb_spdk.Base.{
  ℕ, zero, suc, ◌<◌, ◌≡◌, refl, sym, subst, ap, ap₂, not, Option, some, List, [], ◌∷◌, arith,
  length, ◌==◌,
}
use bagdb_spdk.Base.Int.{ℤ}
use bagdb_spdk.Item.{KvItem, SortedItem}
use bagdb_spdk.Iterator.State.{WorkerScanResult, KvIterator}
use bagdb_spdk.Iterator.Next.{kv_iterator_next, kv_iterator_item}
use bagdb_spdk.Iterator.View.{remaining, IsMerging}
use bagdb_spdk.Iterator.Loaded.{ready-Loaded}
use bagdb_spdk.Iterator.Step.{cur, advance_step, no_refill}

-- What `kv_iterator_item` gives is what `kv_iterator_next` takes away.
abbrev pub Delivers : KvIterator → Option (Option WorkerScanResult × ℤ) → Type 0
Delivers it answer =
    (x : KvItem) × (it' : KvIterator) × (kv_iterator_item it ≡ some x)
    × (kv_iterator_next it answer ≡ some (it', not (it'.nb_items == 0)))
    × IsMerging it'
    × Perm (x ∷ remaining it') (remaining it)

cur-Delivers :
    (it : KvIterator) (m : ℕ) (e0 : SortedItem) (a : List SortedItem)
    (answer : Option (Option WorkerScanResult × ℤ))
    → IsMerging (cur it m e0 a)
    → Delivers (cur it m e0 a) answer
unfolding kv_iterator_item kv_iterator_next
cur-Delivers it m e0 a answer inv =
    let l = ready-Loaded it.ctx_array it.per_worker_idx e0.wid (inv.loaded e0.wid mem-cons_self) in
    let (it', run, inv', perm) = advance_step it m e0 a inv l in
    (e0.item, it', ground arith, ground (arith, no_refill it m e0 a inv l answer, run), inv', perm)

-- Between two calls, with every last batch loaded and an item left, `kv_iterator_next` succeeds
-- whatever a worker might answer: the item that `kv_iterator_item` gave before, and no other, is taken
-- out of those still to be delivered, the state is well formed again, and the result is whether an
-- item is at the front.
pub kv_iterator_next-delivers :
    (it : KvIterator) (answer : Option (Option WorkerScanResult × ℤ))
    → IsMerging it
    → 0 < it.nb_items
    → (x : KvItem) × (it' : KvIterator) × (kv_iterator_item it ≡ some x)
      × (kv_iterator_next it answer ≡ some (it', not (it'.nb_items == 0)))
      × IsMerging it'
      × Perm (x ∷ remaining it') (remaining it)
kv_iterator_next-delivers it answer inv some_left = go it.nb_items it.item_array refl refl
  where
    go : (n : ℕ) (a : List SortedItem) → it.nb_items ≡ n → it.item_array ≡ a → Delivers it answer
    go zero a e f = absurd (omega arith)
    go (suc m) [] e f = absurd (omega (arith, inv.room, ap length f))
    go (suc m) (e0 ∷ a) e f =
        let same : it ≡ cur it m e0 a =
          ap₂ (λ n l. record it { nb_items = n; item_array = l }) e f in
        subst (λ i. Delivers i answer) (sym same)
          (cur-Delivers it m e0 a answer (subst IsMerging same inv))
