-- ===== src/Base/Unique.antt =====
-- Lists without repetition: a list of distinct numbers below `n` has at most `n` entries.
use Prim.Native.Nat.{ℕ, zero, suc, ◌<◌, ◌≤◌}
use mathlib.Core.Logic.{◌≢◌}
use mathlib.Core.List.{List, [], ◌∷◌}
use native.Mathlib.Omega.{arith}
use bagdb_spdk.Base.Tests.{◌==◌, if◌then◌else◌}
use bagdb_spdk.Base.Lists.{length, take}

-- `i` is no entry of the list.
abbrev pub NotIn : ℕ → List ℕ → Type 0
NotIn i [] = Unit
NotIn i (x ∷ xs) = (i ≢ x) × NotIn i xs

abbrev pub Distinct : List ℕ → Type 0
Distinct [] = Unit
Distinct (x ∷ xs) = NotIn x xs × Distinct xs

abbrev pub AllBelow : ℕ → List ℕ → Type 0
AllBelow n [] = Unit
AllBelow n (x ∷ xs) = (x < n) × AllBelow n xs

pub AllBelow-take : (n k : ℕ) (xs : List ℕ) → AllBelow n xs → AllBelow n (take k xs)
AllBelow-take n zero xs h = tt
AllBelow-take n (suc k) [] h = tt
AllBelow-take n (suc k) (x ∷ xs) h = (h.0, AllBelow-take n k xs h.1)

pub AllBelow-NotIn : (n : ℕ) (xs : List ℕ) → AllBelow n xs → NotIn n xs
AllBelow-NotIn n [] h = tt
AllBelow-NotIn n (x ∷ xs) h = (omega arith, AllBelow-NotIn n xs h.1)

-- Takes out the first entry that is `a`.
remove : ℕ → List ℕ → List ℕ
remove a [] = []
remove a (x ∷ xs) = if a == x then xs else x ∷ remove a xs

NotIn-remove : (a b : ℕ) (xs : List ℕ) → NotIn b xs → NotIn b (remove a xs)
unfolding remove
NotIn-remove a b [] h = tt
NotIn-remove a b (x ∷ xs) h = ground (arith, NotIn-remove a b xs h.1)

Distinct-remove : (a : ℕ) (xs : List ℕ) → Distinct xs → Distinct (remove a xs)
unfolding remove
Distinct-remove a [] h = tt
Distinct-remove a (x ∷ xs) h = ground (arith, NotIn-remove a x xs h.0, Distinct-remove a xs h.1)

AllBelow-of_NotIn : (n : ℕ) (xs : List ℕ) → AllBelow (suc n) xs → NotIn n xs → AllBelow n xs
AllBelow-of_NotIn n [] b h = tt
AllBelow-of_NotIn n (x ∷ xs) b h = (omega arith, AllBelow-of_NotIn n xs b.1 h.1)

AllBelow-remove :
    (n : ℕ) (xs : List ℕ) → AllBelow (suc n) xs → Distinct xs → AllBelow n (remove n xs)
unfolding remove
AllBelow-remove n [] b d = tt
AllBelow-remove n (x ∷ xs) b d =
    ground (arith, AllBelow-remove n xs b.1 d.1, AllBelow-of_NotIn n xs b.1)

length-remove : (a : ℕ) (xs : List ℕ) → length xs ≤ suc (length (remove a xs))
unfolding remove
length-remove a [] = omega arith
length-remove a (x ∷ xs) = ground (arith, length-remove a xs)

pub length-Distinct : (n : ℕ) (xs : List ℕ) → AllBelow n xs → Distinct xs → length xs ≤ n
length-Distinct zero [] b d = omega arith
length-Distinct zero (x ∷ xs) b d = omega arith
length-Distinct (suc n) xs b d = omega (
  arith,
  length-remove n xs,
  length-Distinct n (remove n xs) (AllBelow-remove n xs b d) (Distinct-remove n xs d),
)
