-- ===== src/Base/Powers.antt =====
-- The test `(n & (n - 1)) == 0` of a power of two.
use Prim.Native.Nat.{
  ℕ, zero, suc, ◌-◌, ◌/◌, ◌%◌, ◌^◌, ◌≤◌, ◌<◌, min, bit_and, digits, bit_and-bitwise,
}
use mathlib.Core.Path.{◌≡◌, refl, sym, ◌∙◌}
use native.Mathlib.Nat.{pow-suc}
use native.Mathlib.Decide.{dec_lt}
use native.Mathlib.Omega.{arith}

-- The conjunction of the `n` lowest digits.
abbrev conj : ℕ → ℕ → ℕ → ℕ
conj n a b = digits (λ y. 0) min n a b

-- A power of two.
abbrev pub IsPowerOfTwo : ℕ → Type 0
IsPowerOfTwo a = (k : ℕ) × (a ≡ 2 ^ k)

conj_self : (n a : ℕ) → a ≤ n → conj n a a ≡ a
conj_self zero zero le = refl
conj_self (suc n) zero le = refl
conj_self zero (suc a) le = absurd (omega arith)
conj_self (suc n) (suc a) le = omega (arith, conj_self n (suc a / 2) (omega arith))

conj_pred : (n a b : ℕ) → a ≤ n → suc b ≡ a → conj n a b ≡ 0 → IsPowerOfTwo a
conj_pred n zero b le e none = absurd (omega arith)
conj_pred zero (suc a) b le e none = absurd (omega arith)
conj_pred (suc n) (suc a) b le e none = elim (dec_lt 0 (suc a % 2)) [
  | no even ↦
      let (k, half) =
        conj_pred n (suc a / 2) (b / 2) (omega arith) (omega arith) (omega (arith, none)) in
      (suc k, omega (arith, half, pow-suc 2 k))
  | yes odd ↦
      let same : b / 2 ≡ suc a / 2 = omega arith in
      let self : conj n (suc a / 2) (b / 2) ≡ suc a / 2 =
        rw same (conj_self n (suc a / 2) (omega arith)) in
      (0, omega (arith, none, self))
]

-- A positive number that has no digit in common with its predecessor is a power of two.
pub bit_and_pred-IsPowerOfTwo : (a : ℕ) → 0 < a → bit_and a (a - 1) ≡ 0 → IsPowerOfTwo a
bit_and_pred-IsPowerOfTwo a pos none =
    conj_pred a a (a - 1) (omega arith) (omega arith) (sym (bit_and-bitwise a (a - 1)) ∙ none)
