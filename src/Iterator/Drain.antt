-- ===== src/Iterator/Drain.antt =====
-- An iteration with the iterator of src/kvs.c, from the last batches to the end of the database.
use mathlib.Core.List.{Perm}
use mathlib.Core.List.Perm
use bagdb_spdk.Base.{
  ℕ, zero, suc, ◌<◌, ◌≡◌, refl, sym, subst, take, Option, none, some, List, [], ◌∷◌, ◌>>=◌, arith,
  length, ◌==◌, if◌then◌else◌, inl, inr, Bool-cases, take,
}
use bagdb_spdk.Base.Perms.{length-perm}
use bagdb_spdk.Item.{KvItem}
use bagdb_spdk.Iterator.State.{KvIterator}
use bagdb_spdk.Iterator.Next.{kv_iterator_next, kv_iterator_item}
use bagdb_spdk.Iterator.View.{all_pending, remaining, IsMerging}
use bagdb_spdk.Iterator.Deliver.{kv_iterator_next-delivers}

-- What a user does: `while((item = kv_iterator_item(it))) kv_iterator_next(it);`, with the items that it
-- gets. No worker answers.
unfoldable pub drain : ℕ → KvIterator → Option (List KvItem)
drain zero it = none
drain (suc fuel) it =
    let on = (do
      item ← kv_iterator_item it
      (advanced, more) ← kv_iterator_next it none
      items ← drain fuel advanced
      some (item ∷ items)) in
    if it.nb_items == 0 then some [] else on

nothing_left : (it : KvIterator) → it.nb_items ≡ 0 → Perm [] (remaining it)
unfolding remaining all_pending
nothing_left it none_left =
    subst (λ n. Perm [] (all_pending it.ctx_array it.per_worker_idx (take n it.item_array)))
      (sym none_left) Perm.nil

-- Between two calls, with every last batch loaded, an iteration ends, and it delivers each item that is
-- still to be delivered as often as it occurs.
pub drain-perm :
    (fuel : ℕ) (it : KvIterator)
    → IsMerging it
    → length (remaining it) < fuel
    → (items : List KvItem) × (drain fuel it ≡ some items) × Perm items (remaining it)
unfolding drain
drain-perm zero it inv enough = absurd (omega arith)
drain-perm (suc fuel) it inv enough = elim (Bool-cases (it.nb_items == 0)) [
  | inl over ↦ ([], rw over refl, nothing_left it (ground arith))
  | inr on ↦
      let (x, it', front, run, inv', perm) = kv_iterator_next-delivers it none inv (ground arith) in
      let (items, run', perm') = drain-perm fuel it' inv' (omega (arith, length-perm _ _ perm)) in
      (x ∷ items, ground (arith, front, run, run'), Perm.trans (Perm.cons x perm') perm)
]
