-- ===== src/Heap/Step.antt =====
-- What one `_heap_adjust` of src/kvs.c does: it leaves the array, or swaps the entry with its greater
-- child.

use bagdb_spdk.Base.{
  ℕ, suc, ◌+◌, ◌*◌, ◌<◌, ◌≤◌, ◌≡◌, refl, ◌⊎◌, inl, inr, Bool, true, false, ◌||◌, some, List, arith,
  length, Bool-cases,
}
use native.Mathlib.Decide.{dec_lt, ℕ_discrete}
use bagdb_spdk.Item.{SortedItem, item_cmp}
use bagdb_spdk.Item.Order.{Le, item_cmp_preorder}
use bagdb_spdk.Heap.Swap.{no_item, at, swapped, item_swap-eq, cmp_at-eq}
use bagdb_spdk.Heap.{is_lt, adjust_left, heap_adjust}

-- The call that `_heap_adjust` makes in the end finds no child and returns.
pub heap_adjust_ends :
    (f : ℕ) (a : List SortedItem) (len child : ℕ)
    → child < len
    → heap_adjust (suc f) a len child ≡ some a
unfolding heap_adjust
heap_adjust_ends f a len child h = ground arith

-- `c` is a child of `i` within the heap.
abbrev pub IsChild : ℕ → ℕ → ℕ → Type 0
IsChild len i c = (c < len) × ((c ≡ 2 * i + 1) ⊎ (c ≡ 2 * i + 2))

-- What becomes of `a` when entry `i` is adjusted.
pub data Adjusted (a : List SortedItem) (i len : ℕ) (b : List SortedItem) : Type 0 where
  kept : b ≡ a → ((c : ℕ) → IsChild len i c → Le (at a c) (at a i)) → Adjusted a i len b
  moved :
      (c : ℕ)
      → IsChild len i c
      → b ≡ swapped a i c
      → Le (at a i) (at a c)
      → ((d : ℕ) → IsChild len i d → Le (at a d) (at a c))
      → Adjusted a i len b

Le_of_lt : (x y : SortedItem) → is_lt (item_cmp (some x) (some y)) ≡ true → Le x y
Le_of_lt x y h = ground (arith, (item_cmp_preorder x y x).1)

Le_of_not_lt : (x y : SortedItem) → is_lt (item_cmp (some x) (some y)) ≡ false → Le y x
Le_of_not_lt x y h = ground arith

module _ (a : List SortedItem) (i len f : ℕ) (hi : i < len) (hl : len ≤ length a) where
  abbrev Goal : Type 0
  Goal = (b : List SortedItem) × (heap_adjust (suc (suc f)) a i len ≡ some b) × Adjusted a i len b

  leaf_case : len < 2 * i + 1 + 1 → Goal
  unfolding heap_adjust
  leaf_case h = (a, ground arith, kept refl (λ c p. absurd (omega arith)))

  abbrev il : Bool
  il = is_lt (item_cmp (some (at a i)) (some (at a (2 * i + 1))))

  abbrev ir : Bool
  ir = is_lt (item_cmp (some (at a i)) (some (at a (2 * i + 2))))

  abbrev lr : Bool
  lr = is_lt (item_cmp (some (at a (2 * i + 1))) (some (at a (2 * i + 2))))

  one_child : len ≡ 2 * i + 1 + 1 → (c : ℕ) → IsChild len i c → c ≡ 2 * i + 1
  one_child h c p = omega arith

  single_case : len ≡ 2 * i + 1 + 1 → Goal
  unfolding heap_adjust adjust_left
  single_case h = elim (Bool-cases il) [
    | inl less ↦ (
      swapped a i (2 * i + 1),
      ground (arith, cmp_at-eq a i (2 * i + 1), item_swap-eq a i (2 * i + 1)),
      moved (2 * i + 1) (omega arith, inl refl) refl (Le_of_lt _ _ less)
          (λ d p. rw (one_child h d p) (item_cmp_preorder (at a (2 * i + 1)) no_item no_item).0),
    )
    | inr more ↦ (
      a,
      ground (arith, cmp_at-eq a i (2 * i + 1)),
      kept refl (λ c p. rw (one_child h c p) (Le_of_not_lt _ _ more)),
    )
  ]

  module _ (both : 2 * i + 2 < len) where
    both_children :
        (x : SortedItem)
        → Le (at a (2 * i + 1)) x
        → Le (at a (2 * i + 2)) x
        → (d : ℕ) → IsChild len i d
        → Le (at a d) x
    both_children x l r d (inside, inl e) = rw e l
    both_children x l r d (inside, inr e) = rw e r

    Le-right : (il || ir) ≡ true → lr ≡ true → Le (at a i) (at a (2 * i + 2))
    Le-right h e = elim (Bool-cases ir) [
      | inl less ↦ Le_of_lt _ _ less
      | inr more ↦
          (item_cmp_preorder (at a i) (at a (2 * i + 1)) (at a (2 * i + 2))).2
            (Le_of_lt _ _ (ground arith)) (Le_of_lt _ _ e)
    ]

    Le-left : (il || ir) ≡ true → lr ≡ false → Le (at a i) (at a (2 * i + 1))
    Le-left h e = elim (Bool-cases il) [
      | inl less ↦ Le_of_lt _ _ less
      | inr more ↦
          (item_cmp_preorder (at a i) (at a (2 * i + 2)) (at a (2 * i + 1))).2
            (Le_of_lt _ _ (ground arith)) (Le_of_not_lt _ _ e)
    ]

    right_case : (il || ir) ≡ true → lr ≡ true → Goal
    unfolding heap_adjust
    right_case h e = (
      swapped a i (2 * i + 2),
      ground (
        arith,
        cmp_at-eq a i (2 * i + 1),
        cmp_at-eq a i (2 * i + 2),
        cmp_at-eq a (2 * i + 1) (2 * i + 2),
        item_swap-eq a i (2 * i + 2),
      ),
      moved (2 * i + 2) (both, inr refl) refl (Le-right h e)
          (both_children (at a (2 * i + 2)) (Le_of_lt _ _ e)
            (item_cmp_preorder (at a (2 * i + 2)) no_item no_item).0),
    )

    left_case : (il || ir) ≡ true → lr ≡ false → Goal
    unfolding heap_adjust
    left_case h e = (
      swapped a i (2 * i + 1),
      ground (
        arith,
        cmp_at-eq a i (2 * i + 1),
        cmp_at-eq a i (2 * i + 2),
        cmp_at-eq a (2 * i + 1) (2 * i + 2),
        item_swap-eq a i (2 * i + 1),
      ),
      moved (2 * i + 1) (omega arith, inl refl) refl (Le-left h e)
          (both_children (at a (2 * i + 1)) (item_cmp_preorder (at a (2 * i + 1)) no_item no_item).0
            (Le_of_not_lt _ _ e)),
    )

    kept_case : (il || ir) ≡ false → Goal
    unfolding heap_adjust
    kept_case h = (
      a,
      ground (
        arith,
        cmp_at-eq a i (2 * i + 1),
        cmp_at-eq a i (2 * i + 2),
        cmp_at-eq a (2 * i + 1) (2 * i + 2),
      ),
      kept refl (
          both_children (at a i) (Le_of_not_lt _ _ (ground arith))
            (Le_of_not_lt _ _ (ground arith))),
    )

    both_case : Goal
    both_case = elim (Bool-cases (il || ir)) [
      | inl h ↦ elim (Bool-cases lr) [ inl e ↦ right_case h e | inr e ↦ left_case h e ]
      | inr h ↦ kept_case h
    ]

  -- On an entry inside the heap `_heap_adjust` ends without leaving the array, however deep its calls
  -- may go: it keeps the array if no child is greater, and else swaps the entry with its greater child.
  pub heap_adjust_lem : Goal
  heap_adjust_lem = elim (dec_lt len (2 * i + 1 + 1)) [
    | yes h ↦ leaf_case h
    | no h ↦ elim (ℕ_discrete len (2 * i + 1 + 1)) [
      | yes e ↦ single_case e
      | no ne ↦ both_case (omega arith)
    ]
  ]
