-- ===== src/Base/Bits.antt =====
-- Masks: what `bit_and` with ones above some bit makes of a number.
use Prim.Native.Nat.{
  ℕ, zero, suc, ◌-◌, ◌*◌, ◌/◌, ◌^◌, ◌≤◌, ◌<◌, min, bit_and, digits, bit_and-bitwise,
}
use mathlib.Core.Path.{◌≡◌, refl, ap, sym, ◌∙◌}
use native.Mathlib.Nat.{zero-div, mul_assoc, pow-suc, pow-succ', div-div-eq-div-mul}
use native.Mathlib.Omega.{arith}

-- The conjunction of the `n` lowest digits.
abbrev conj : ℕ → ℕ → ℕ → ℕ
conj n a b = digits (λ y. 0) min n a b

conj_ones : (w n a : ℕ) → a ≤ n → a < 2 ^ w → conj n a (2 ^ w - 1) ≡ a
conj_ones w zero zero le lt = refl
conj_ones w (suc n) zero le lt = refl
conj_ones w zero (suc a) le lt = absurd (omega arith)
conj_ones zero (suc n) (suc a) le lt = absurd (omega arith)
conj_ones (suc w) (suc n) (suc a) le lt =
    let twice : 2 ^ suc w ≡ 2 ^ w * 2 = pow-suc 2 w in
    let half : (2 ^ suc w - 1) / 2 ≡ 2 ^ w - 1 = omega arith in
    omega
      (arith, ap (conj n (suc a / 2)) half, conj_ones w n (suc a / 2) (omega arith) (omega arith))

conj_mask :
    (k w n a : ℕ) → a ≤ n → a / 2 ^ k < 2 ^ w → conj n a ((2 ^ w - 1) * 2 ^ k) ≡ a / 2 ^ k * 2 ^ k
conj_mask k w zero zero le lt = rw zero-div (omega arith)
conj_mask k w zero (suc a) le lt = absurd (omega arith)
conj_mask zero w (suc n) a le lt =
    let one : (2 ^ w - 1) * 1 ≡ 2 ^ w - 1 = omega arith in
    omega (arith, ap (conj (suc n) a) one, conj_ones w (suc n) a le (omega arith))
conj_mask (suc k) w (suc n) zero le lt = rw zero-div (omega arith)
conj_mask (suc k) w (suc n) (suc a) le lt =
    let m : ℕ = (2 ^ w - 1) * 2 ^ k in
    let whole : (2 ^ w - 1) * 2 ^ suc k ≡ m * 2 =
      ap (λ d. (2 ^ w - 1) * d) (pow-suc 2 k) ∙ sym (mul_assoc (2 ^ w - 1) (2 ^ k) 2) in
    let quot : suc a / 2 / 2 ^ k ≡ suc a / 2 ^ suc k =
      div-div-eq-div-mul (suc a) 2 (2 ^ k) ∙ ap (λ d. suc a / d) (sym (pow-succ' 2 k)) in
    let half : (2 ^ w - 1) * 2 ^ suc k / 2 ≡ m = omega arith in
    let rec : conj n (suc a / 2) m ≡ suc a / 2 / 2 ^ k * 2 ^ k =
      conj_mask k w n (suc a / 2) (omega arith) (omega arith) in
    let out : suc a / 2 ^ suc k * 2 ^ suc k ≡ suc a / 2 / 2 ^ k * 2 ^ k * 2 =
      ap (λ d. d * 2 ^ suc k) (sym quot)
      ∙ ap (λ d. suc a / 2 / 2 ^ k * d) (pow-suc 2 k)
      ∙ sym (mul_assoc (suc a / 2 / 2 ^ k) (2 ^ k) 2) in
    omega (arith, ap (conj n (suc a / 2)) half)

-- A mask of `w` ones above `k` zeros clears the `k` low bits of a number of `k + w` bits.
pub bit_and-mask :
    (k w a : ℕ) → a / 2 ^ k < 2 ^ w → bit_and a ((2 ^ w - 1) * 2 ^ k) ≡ a / 2 ^ k * 2 ^ k
bit_and-mask k w a lt = bit_and-bitwise a _ ∙ conj_mask k w a a (omega arith) lt
