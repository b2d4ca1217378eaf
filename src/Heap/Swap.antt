-- ===== src/Heap/Swap.antt =====
-- `_item_swap` of src/kvs.c: which entries it changes, and that it permutes the array.

use mathlib.Core.List.{Perm, perm-cons}
use mathlib.Core.List.Perm
use bagdb_spdk.Base.{
  ℕ, ◌<◌, ◌≡◌, sym, ◌∙◌, subst, ◌≢◌, some, List, [], ◌∷◌, arith, store-eq-set, length, get_or, set,
  length-set, get_elem?-eq-get_or, get_or-set_self, get_or-set_ne, take, take-set, get_or-take, ap,
  ap₂,
}
use bagdb_spdk.Base.Swap.{set-perm}
use bagdb_spdk.Item.{SortedItem, item_cmp}
use bagdb_spdk.Heap.{cmp_at, item_swap}

abbrev pub no_item : SortedItem
no_item = record {
  wid = 0;
  item = record { meta = record { rdt = 0; ksize = 0; vsize = 0 }; bytes = [] };
}

abbrev pub at : List SortedItem → ℕ → SortedItem
at a i = get_or a i no_item

pub swapped : List SortedItem → ℕ → ℕ → List SortedItem
swapped a i j = set (set a i (at a j)) j (at a i)

pub length-swapped : (a : List SortedItem) (i j : ℕ) → length (swapped a i j) ≡ length a
unfolding swapped
length-swapped a i j = length-set (set a i (at a j)) j (at a i) ∙ length-set a i (at a j)

module _ (a : List SortedItem) (i j : ℕ) (hi : i < length a) (hj : j < length a) where
  pub item_swap-eq : item_swap a i j ≡ some (swapped a i j)
  unfolding item_swap swapped
  item_swap-eq = ground (
    arith,
    get_elem?-eq-get_or a i no_item,
    get_elem?-eq-get_or a j no_item,
    store-eq-set a i (at a j),
    length-set a i (at a j),
    store-eq-set (set a i (at a j)) j (at a i),
  )

  pub cmp_at-eq : cmp_at a i j ≡ some (item_cmp (some (at a i)) (some (at a j)))
  unfolding cmp_at
  cmp_at-eq = ground (arith, get_elem?-eq-get_or a i no_item, get_elem?-eq-get_or a j no_item)

  pub at-swapped_right : at (swapped a i j) j ≡ at a i
  unfolding swapped
  at-swapped_right =
      get_or-set_self (set a i (at a j)) j (at a i) no_item (omega (arith, length-set a i (at a j)))

  pub at-swapped_left : i ≢ j → at (swapped a i j) i ≡ at a j
  unfolding swapped
  at-swapped_left ne =
      get_or-set_ne (set a i (at a j)) j i (at a i) no_item (λ e. ne (sym e))
      ∙ get_or-set_self a i (at a j) no_item hi

pub at-swapped_ne :
    (a : List SortedItem) (i j k : ℕ) → i ≢ k → j ≢ k → at (swapped a i j) k ≡ at a k
unfolding swapped
at-swapped_ne a i j k p q =
    get_or-set_ne (set a i (at a j)) j k (at a i) no_item q ∙ get_or-set_ne a i k (at a j) no_item p

pub swapped-perm :
    (a : List SortedItem) (i j : ℕ) → i < length a → j < length a → i ≢ j → Perm (swapped a i j) a
unfolding swapped
swapped-perm a i j hi hj ne = (perm-cons (at a j)).0 (
    Perm.trans
      (subst (λ y. Perm (y ∷ set (set a i (at a j)) j (at a i)) (at a i ∷ set a i (at a j)))
        (get_or-set_ne a i j (at a j) no_item ne)
        (set-perm no_item (set a i (at a j)) j (at a i) (omega (arith, length-set a i (at a j)))))
      (set-perm no_item a i (at a j) hi))

pub take-swapped :
    (a : List SortedItem) (n i j : ℕ)
    → i < n
    → j < n
    → take n (swapped a i j) ≡ swapped (take n a) i j
unfolding swapped
take-swapped a n i j hi hj =
    take-set n (set a i (at a j)) j (at a i)
    ∙ ap₂ (λ l v. set l j v)
        (take-set n a i (at a j) ∙ ap (set (take n a) i) (sym (get_or-take n a j no_item hj)))
        (sym (get_or-take n a i no_item hi))
