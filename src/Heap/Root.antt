-- ===== src/Heap/Root.antt =====
-- `_make_heap` of src/kvs.c brings the greatest item to the front.
use mathlib.Core.List.{Perm}
use mathlib.Core.List.Perm
use native.Mathlib.Decide.{ℕ_discrete}
use bagdb_spdk.Base.{
  ℕ, zero, suc, ◌+◌, ◌*◌, ◌/◌, ◌<◌, ◌≤◌, ◌≡◌, refl, sym, subst, ◌⊎◌, inl, inr, Bool-cases,
  if◌then◌else◌, Option, some, List, arith, length, ltb,
}
use bagdb_spdk.Item.{SortedItem}
use bagdb_spdk.Item.Order.{Le, item_cmp_preorder}
use bagdb_spdk.Heap.{heap_adjust, heap_fuel, make_heap_from, make_heap}
use bagdb_spdk.Heap.Swap.{
  no_item, at, swapped, length-swapped, swapped-perm, at-swapped_left, at-swapped_right,
  at-swapped_ne,
}
use bagdb_spdk.Heap.Step.{IsChild, Adjusted, kept, moved, heap_adjust_lem}

-- Entry `k` lies in the subtree of entry `j`.
data Below (j : ℕ) : ℕ → Type 0 where
  here : {k : ℕ} → k ≡ j → Below j k
  down : {p k : ℕ} → Below j p → (k ≡ 2 * p + 1) ⊎ (k ≡ 2 * p + 2) → Below j k

Below-le : (j k : ℕ) → Below j k → j ≤ k
Below-le j k (here e) = omega arith
Below-le j k (down {p = p} d e) = omega (arith, Below-le j p d)

Below-split : (i k : ℕ) → Below i k → (k ≡ i) ⊎ (Below (2 * i + 1) k ⊎ Below (2 * i + 2) k)
Below-split i k (here e) = inl e
Below-split i k (down {p = p} d e) = elim (Below-split i p d) [
  | inl at_i ↦ elim e [
    | inl left ↦ inr (inl (here (omega arith)))
    | inr right ↦ inr (inr (here (omega arith)))
  ]
  | inr (inl d') ↦ inr (inl (down d' e))
  | inr (inr d') ↦ inr (inr (down d' e))
]

-- A child of `i` does not lie below an entry between `i` and the child.
not-Below-child : (i j c : ℕ) → i < j → j ≤ 2 * i → (c ≡ 2 * i + 1) ⊎ (c ≡ 2 * i + 2) → ¬ Below j c
not-Below-child i j c lo hi e (here f) = omega arith
not-Below-child i j c lo hi e (down {p = p} d f) = omega (arith, Below-le j p d)

Below-zero : (n k : ℕ) → k ≤ n → Below 0 k
Below-zero n zero h = here refl
Below-zero zero (suc k) h = absurd (omega arith)
Below-zero (suc n) (suc k) h = down (Below-zero n (k / 2) (omega arith)) (omega arith)

module _ (len : ℕ) where
  -- Entry `j` is the greatest of its subtree.
  abbrev Dominates : List SortedItem → ℕ → Type 0
  Dominates a j = (k : ℕ) → k < len → Below j k → Le (at a k) (at a j)

  -- Once the rounds down to `i` are done, this holds where the parent has not had its round.
  abbrev Tops : List SortedItem → ℕ → Type 0
  Tops a i = (j : ℕ) → i ≤ j → j ≤ 2 * i → j < len → Dominates a j

  module _ (a : List SortedItem) (i : ℕ) (tops : Tops a (suc i)) where
    child_bound :
        (x : SortedItem)
        → ((d : ℕ) → IsChild len i d → Le (at a d) x)
        → (c k : ℕ) → (c ≡ 2 * i + 1) ⊎ (c ≡ 2 * i + 2)
        → k < len
        → Below c k
        → Le (at a k) x
    child_bound x h c k e lt d =
        (item_cmp_preorder (at a k) (at a c) x).2
          (tops c (omega arith) (omega arith) (omega (arith, Below-le c k d)) k lt d)
          (h c (omega (arith, Below-le c k d), e))

    bound :
        (x : SortedItem)
        → Le (at a i) x
        → ((d : ℕ) → IsChild len i d → Le (at a d) x)
        → (k : ℕ) → k < len
        → Below i k
        → Le (at a k) x
    bound x top h k lt d = elim (Below-split i k d) [
      | inl e ↦ rw e top
      | inr (inl d') ↦ child_bound x h (2 * i + 1) k (inl refl) lt d'
      | inr (inr d') ↦ child_bound x h (2 * i + 2) k (inr refl) lt d'
    ]

    module _ (c : ℕ) (child : IsChild len i c) (hl : len ≤ length a) where
      after_swap :
          ((d : ℕ) → IsChild len i d → Le (at a d) (at a c))
          → Le (at a i) (at a c)
          → (k : ℕ) → k < len
          → Below i k
          → Le (at (swapped a i c) k) (at a c)
      after_swap h top k lt d = elim (ℕ_discrete i k) [
        | yes e ↦
            rw (← e, at-swapped_left a i c (omega arith) (omega arith) (omega arith))
              (item_cmp_preorder (at a c) no_item no_item).0
        | no ne ↦ elim (ℕ_discrete c k) [
          | yes f ↦ rw (← f, at-swapped_right a i c (omega arith) (omega arith)) top
          | no nf ↦ rw (at-swapped_ne a i c k ne nf) (bound (at a c) top h k lt d)
        ]
      ]

      away_from_swap : (j k : ℕ) → i < j → j ≤ 2 * i → Below j k → at (swapped a i c) k ≡ at a k
      away_from_swap j k lo hi d =
          at-swapped_ne a i c k (omega (arith, Below-le j k d))
            (λ e. not-Below-child i j c lo hi child.1 (subst (λ n. Below j n) (sym e) d))

      Tops-swapped :
          ((d : ℕ) → IsChild len i d → Le (at a d) (at a c))
          → Le (at a i) (at a c)
          → Tops (swapped a i c) i
      Tops-swapped h top j lo hi inside = elim (ℕ_discrete i j) [
        | yes e ↦ λ k lt d.
            rw (← e, at-swapped_left a i c (omega arith) (omega arith) (omega arith))
              (after_swap h top k lt (subst (λ n. Below n k) (sym e) d))
        | no ne ↦ λ k lt d.
            rw
              (
                away_from_swap j k (omega arith) hi d,
                away_from_swap j j (omega arith) hi (here refl),
              )
              (tops j (omega arith) (omega arith) inside k lt d)
      ]

    Tops-kept : ((c : ℕ) → IsChild len i c → Le (at a c) (at a i)) → Tops a i
    Tops-kept h j lo hi inside = elim (ℕ_discrete i j) [
      | yes e ↦ λ k lt d. rw (← e) (
          bound (at a i) (item_cmp_preorder (at a i) no_item no_item).0 h k lt
            (subst (λ n. Below n k) (sym e) d))
      | no ne ↦ tops j (omega arith) (omega arith) inside
    ]

  Tops-Adjusted :
      (a b : List SortedItem) (i : ℕ)
      → i < len
      → len ≤ length a
      → Tops a (suc i)
      → Adjusted a i len b
      → Tops b i × Perm b a × (length b ≡ length a)
  Tops-Adjusted a b i hi hl tops (kept e h) = rw e (Tops-kept a i tops h, Perm.refl a, refl)
  Tops-Adjusted a b i hi hl tops (moved c child e top h) = rw e (
    Tops-swapped a i tops c child hl h top,
    swapped-perm a i c (omega arith) (omega arith) (omega arith),
    length-swapped a i c,
  )

  -- One round of the loop.
  abbrev round : List SortedItem → ℕ → Option (List SortedItem)
  round a i = if ltb len (2 * i + 1 + 1) then some a else heap_adjust heap_fuel a i len

  round-Adjusted :
      (a : List SortedItem) (i : ℕ)
      → i < len
      → len ≤ length a
      → (b : List SortedItem) × (round a i ≡ some b) × Adjusted a i len b
  round-Adjusted a i hi hl = elim (Bool-cases (ltb len (2 * i + 1 + 1))) [
    | inl leaf ↦ (a, rw leaf, kept refl (λ c p. absurd (ground arith)))
    | inr inner ↦ rw inner (heap_adjust_lem a i len 0 hi hl)
  ]

  make_heap_from-Tops :
      (k : ℕ) (a : List SortedItem)
      → k ≤ len
      → len ≤ length a
      → Tops a k
      → (b : List SortedItem) × (make_heap_from k a len ≡ some b) × Tops b 0 × Perm b a
  unfolding make_heap_from
  make_heap_from-Tops zero a hk hl tops = (a, refl, tops, Perm.refl a)
  make_heap_from-Tops (suc i) a hk hl tops =
      let (b, run, adj) = round-Adjusted a i hk hl in
      let (tops', perm, same) = Tops-Adjusted a b i hk hl tops adj in
      let (c, run', tops'', perm') = make_heap_from-Tops i b (omega arith) (omega arith) tops' in
      (c, rw run run', tops'', Perm.trans perm' perm)

-- `_make_heap` over the first `len` entries ends without leaving the array; the array is permuted,
-- and its first entry is then at least as great as each of the `len`. So the heap is a great-top
-- one.
pub make_heap_root :
    (a : List SortedItem) (len : ℕ)
    → len ≤ length a
    → (b : List SortedItem) × (make_heap a len ≡ some b)
      × Perm b a
      × ((k : ℕ) → k < len → Le (at b k) (at b 0))
unfolding make_heap
make_heap_root a len hl =
    let (b, run, tops, perm) =
      make_heap_from-Tops len len a (omega arith) hl (λ j lo hi inside. absurd (omega arith)) in
    (
      b,
      run,
      perm,
      λ k lt. tops 0 (omega arith) (omega arith) (omega arith) k lt (Below-zero k k (omega arith)),
    )
