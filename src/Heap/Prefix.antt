-- ===== src/Heap/Prefix.antt =====
-- `_heap_adjust` of src/kvs.c and `_make_heap` permute the entries of the heap, and leave those behind it.
use mathlib.Core.List.{Perm}
use mathlib.Core.List.Perm
use bagdb_spdk.Base.{
  suc, ◌+◌, refl, zero, Option, ltb, ◌*◌, inl, inr, Bool-cases, ℕ, ◌≤◌, ◌<◌, ◌≡◌, sym, subst, ap,
  ◌∙◌, some, List, arith, length, take, length-take,
}
use bagdb_spdk.Item.{SortedItem}
use bagdb_spdk.Heap.{heap_adjust, heap_fuel, make_heap_from, make_heap}
use bagdb_spdk.Heap.Swap.{length-swapped, swapped-perm, take-swapped}
use bagdb_spdk.Heap.Step.{Adjusted, kept, moved, heap_adjust_lem}

-- What adjusting entry `i` does to the heap's own entries.
module _ (a : List SortedItem) (n i : ℕ) (hi : i < n) (room : n ≤ length a) where
  Adjusted-length : (b : List SortedItem) → Adjusted a i n b → length b ≡ length a
  Adjusted-length b (kept e h) = ap length e
  Adjusted-length b (moved c child e top h) = ap length e ∙ length-swapped a i c

  Adjusted-perm : (b : List SortedItem) → Adjusted a i n b → Perm (take n b) (take n a)
  Adjusted-perm b (kept e h) =
      subst (λ l. Perm (take n l) (take n a)) (sym e) (Perm.refl (take n a))
  Adjusted-perm b (moved c child e top h) =
      subst (λ l. Perm l (take n a)) (sym (ap (take n) e ∙ take-swapped a n i c hi child.0))
        (swapped-perm (take n a) i c (omega (arith, length-take n a room))
          (omega (arith, length-take n a room)) (λ same. omega arith))

  abbrev pub Permuted : Option (List SortedItem) → Type 0
  Permuted r =
      (b : List SortedItem) × (r ≡ some b) × (length b ≡ length a) × Perm (take n b) (take n a)

  pub heap_adjust-perm : Permuted (heap_adjust heap_fuel a i n)
  heap_adjust-perm =
      let (b, run, adjusted) = heap_adjust_lem a i n 0 hi room in
      (b, run, Adjusted-length b adjusted, Adjusted-perm b adjusted)

make_heap_from-perm :
    (i n : ℕ) (a : List SortedItem)
    → i ≤ n
    → n ≤ length a
    → (b : List SortedItem) × (make_heap_from i a n ≡ some b)
      × (length b ≡ length a)
      × Perm (take n b) (take n a)
unfolding make_heap_from
make_heap_from-perm zero n a h room = (a, refl, refl, Perm.refl (take n a))
make_heap_from-perm (suc i) n a h room = elim (Bool-cases (ltb n (2 * i + 1 + 1))) [
  | inl leaf ↦ rw leaf (make_heap_from-perm i n a (omega arith) room)
  | inr inner ↦
      let (b, run, same, perm) = heap_adjust-perm a n i (omega arith) room in
      let (c, run', same', perm') =
        make_heap_from-perm i n b (omega arith) (omega (arith, same, room)) in
      (c, rw (inner, run) run', same' ∙ same, Perm.trans perm' perm)
]

-- `_make_heap` permutes the entries of the heap among themselves.
pub make_heap-perm :
    (a : List SortedItem) (n : ℕ)
    → n ≤ length a
    → (b : List SortedItem) × (make_heap a n ≡ some b)
      × (length b ≡ length a)
      × Perm (take n b) (take n a)
unfolding make_heap
make_heap-perm a n room = make_heap_from-perm n n a (omega arith) room
