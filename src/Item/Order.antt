-- ===== src/Item/Order.antt =====
-- `_item_cmp` of src/kvs.c is the lexicographic order of the keys, a total preorder.
use Prim.Native.Nat.{compare, Ordering, lt, eq, gt}
use bagdb_spdk.Base.{ℕ, zero, suc, ◌≡◌, refl, ◌≢◌, ◌⊎◌, some, List, [], ◌∷◌, arith, u32}
use bagdb_spdk.Item.{SortedItem, byte, rest, memcmp, min_len, item_cmp_keys, item_cmp}

-- The first `n` bytes from a pointer on.
abbrev pub prefix : ℕ → List ℕ → List ℕ
prefix zero p = []
prefix (suc n) p = byte p ∷ prefix n (rest p)

abbrev pub key : SortedItem → List ℕ
key s = prefix (u32 s.item.meta.ksize) s.item.bytes

-- The lexicographic order of byte strings, a prefix first.
pub key_cmp : List ℕ → List ℕ → Ordering
key_cmp [] [] = Ordering.eq
key_cmp [] (_ ∷ _) = Ordering.lt
key_cmp (_ ∷ _) [] = Ordering.gt
key_cmp (x ∷ xs) (y ∷ ys) = elim (compare x y) [
  | lt ↦ Ordering.lt
  | eq ↦ key_cmp xs ys
  | gt ↦ Ordering.gt
]

abbrev pub swap_sides : Ordering → Ordering
swap_sides lt = Ordering.gt
swap_sides eq = Ordering.eq
swap_sides gt = Ordering.lt

key_cmp_refl : (xs : List ℕ) → key_cmp xs xs ≡ Ordering.eq
unfolding key_cmp
key_cmp_refl [] = refl
key_cmp_refl (x ∷ xs) = ground (arith, key_cmp_refl xs)

key_cmp-swap : (xs ys : List ℕ) → key_cmp ys xs ≡ swap_sides (key_cmp xs ys)
unfolding key_cmp
key_cmp-swap [] [] = refl
key_cmp-swap [] (y ∷ ys) = refl
key_cmp-swap (x ∷ xs) [] = refl
key_cmp-swap (x ∷ xs) (y ∷ ys) = ground (arith, key_cmp-swap xs ys)

key_cmp_trans :
    (xs ys zs : List ℕ)
    → key_cmp xs ys ≢ Ordering.lt
    → key_cmp ys zs ≢ Ordering.lt
    → key_cmp xs zs ≢ Ordering.lt
unfolding key_cmp
key_cmp_trans [] [] zs p q = q
key_cmp_trans [] (y ∷ ys) zs p q = absurd (p refl)
key_cmp_trans (x ∷ xs) ys [] p q = ground arith
key_cmp_trans (x ∷ xs) [] (z ∷ zs) p q = absurd (q refl)
key_cmp_trans (x ∷ xs) (y ∷ ys) (z ∷ zs) p q = ground (arith, key_cmp_trans xs ys zs)

min_len-suc : (m n : ℕ) → min_len (suc m) (suc n) ≡ suc (min_len m n)
min_len-suc m n = ground arith

min_len-zero : (n : ℕ) → min_len zero n ≡ zero
min_len-zero n = ground arith

min_len-suc-zero : (m : ℕ) → min_len (suc m) zero ≡ zero
min_len-suc-zero m = ground arith

-- What the source computes from the lengths where the common part agrees.
key_cmp-prefix :
    (m n : ℕ) (p q : List ℕ)
    → key_cmp (prefix m p) (prefix n q)
      ≡ elim (memcmp (min_len m n) p q) [ lt ↦ Ordering.lt | eq ↦ compare m n | gt ↦ Ordering.gt ]
unfolding key_cmp memcmp
key_cmp-prefix zero zero p q = refl
key_cmp-prefix zero (suc n) p q = rw min_len-zero (ground arith)
key_cmp-prefix (suc m) zero p q = rw min_len-suc-zero (ground arith)
key_cmp-prefix (suc m) (suc n) p q =
    rw (min_len-suc m n) (ground (arith, key_cmp-prefix m n (rest p) (rest q)))

-- `_item_cmp` compares the keys lexicographically.
pub item_cmp-eq-key_cmp : (a b : SortedItem) → item_cmp (some a) (some b) ≡ key_cmp (key a) (key b)
unfolding item_cmp item_cmp_keys
item_cmp-eq-key_cmp a b =
    rw (key_cmp-prefix (u32 a.item.meta.ksize) (u32 b.item.meta.ksize) a.item.bytes b.item.bytes)
      (ground arith)

-- `a` comes before `b`, or their keys are equal.
abbrev pub Le : SortedItem → SortedItem → Type 0
Le a b = item_cmp (some b) (some a) ≢ Ordering.lt

module _ (a b c : SortedItem) where
  Le-refl : Le a a
  Le-refl = rw (item_cmp-eq-key_cmp a a, key_cmp_refl (key a)) (λ e. cc)

  Le-total : Le a b ⊎ Le b a
  Le-total =
      ground (arith, item_cmp-eq-key_cmp a b, item_cmp-eq-key_cmp b a, key_cmp-swap (key a) (key b))

  Le-trans : Le a b → Le b c → Le a c
  Le-trans p q = rw (item_cmp-eq-key_cmp c a) (
      key_cmp_trans (key c) (key b) (key a) (rw (item_cmp-eq-key_cmp c b) at q)
        (rw (item_cmp-eq-key_cmp b a) at p))

  -- `_item_cmp` is a total preorder on items: every item is at most itself, of two items one is at
  -- most the other, and the order is transitive.
  pub item_cmp_preorder : Le a a × (Le a b ⊎ Le b a) × (Le a b → Le b c → Le a c)
  item_cmp_preorder = (Le-refl, Le-total, Le-trans)
