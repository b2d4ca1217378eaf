-- ===== src/Hash/Double.antt =====
-- The doubles of `_hash` in src/kvutil.c: all lie from 1 to 2^63, so each is a number of units of
-- 2^-52. Division and multiplication round the exact result to 53 binary digits, to the nearest
-- and on a tie to the even one.
use native.Mathlib.Nat.{
  pow-suc, mul-one, add-zero, add-suc, one-le-pow, pow-le-pow_right, mul_assoc, mul_comm,
  mul-le-mul, mul-le-mul_right, le-div_iff_mul-le, div-div-eq-div-mul,
}
use native.Mathlib.Decide.{dec_lt}
use bagdb_spdk.Base.{
  ℕ, zero, suc, ◌+◌, ◌-◌, ◌*◌, ◌/◌, ◌%◌, ◌^◌, ◌≤◌, ◌<◌, ◌≡◌, ◌∙◌, ap, sym, subst, ◌||◌, ◌&&◌, ltb,
  ◌==◌, if◌then◌else◌, arith, inl, inr, Bool-cases,
}

-- The binary exponent of a number of ones: how often it can be halved before it is below 2.
unfoldable pub exponent : ℕ → ℕ → ℕ
exponent zero x = 0
exponent (suc fuel) x = let rest = suc (exponent fuel (x / 2)) in if ltb x 2 then 0 else rest

-- `num / den` to the nearest integer, on a tie to the even one.
unfoldable pub round_half_even : ℕ → ℕ → ℕ
round_half_even num den =
    let q = num / den in
    let r = num % den in if ltb den (2 * r) || (2 * r == den && q % 2 == 1) then q + 1 else q

-- The double nearest to `num / den` units, at least 2^52 of them.
unfoldable pub nearest : ℕ → ℕ → ℕ
nearest num den =
    let ulp = 2 ^ exponent 64 (num / den / 2 ^ 52) in round_half_even num (den * ulp) * ulp

-- The quotient of two integers, as a double.
unfoldable pub div_double : ℕ → ℕ → ℕ
div_double num den = nearest (num * 2 ^ 52) den

-- The product of an integer and a double.
unfoldable pub mul_double : ℕ → ℕ → ℕ
mul_double n x = nearest (n * x) 1

-- The conversion to an integer.
abbrev pub truncate : ℕ → ℕ
truncate x = x / 2 ^ 52

pub le-exponent : (fuel x : ℕ) → 1 ≤ x → 2 ^ exponent fuel x ≤ x
unfolding exponent
le-exponent zero x h = omega arith
le-exponent (suc fuel) x h = elim (Bool-cases (ltb x 2)) [
  | inl low ↦ rw low (omega arith)
  | inr high ↦
      rw high
        (omega (arith, pow-suc 2 (exponent fuel (x / 2)), le-exponent fuel (x / 2) (ground arith)))
]

le-round : (num den : ℕ) → num / den ≤ round_half_even num den
unfolding round_half_even
le-round num den = ground arith

pow_add : (i j : ℕ) → 2 ^ (i + j) ≡ 2 ^ i * 2 ^ j
pow_add i zero = ap (λ n. 2 ^ n) (add-zero i) ∙ sym (mul-one (2 ^ i))
pow_add i (suc j) =
    ap (λ n. 2 ^ n) (add-suc i j)
    ∙ pow-suc 2 (i + j)
    ∙ ap (λ d. d * 2) (pow_add i j)
    ∙ mul_assoc (2 ^ i) (2 ^ j) 2
    ∙ ap (λ d. 2 ^ i * d) (sym (pow-suc 2 j))

-- A whole number of ones that is at most `v` units stays at most `v` rounded down to a multiple of the
-- last digit.
module _ (v k e : ℕ) (below : k * 2 ^ 52 ≤ v) where
  pos : 0 < 2 ^ e
  pos = one-le-pow e 2 (omega arith)

  on_grid_low : e ≤ 52 → k * 2 ^ 52 ≤ v / 2 ^ e * 2 ^ e
  on_grid_low low =
      let together : 52 ≡ 52 - e + e = omega arith in
      let split : 2 ^ 52 ≡ 2 ^ (52 - e) * 2 ^ e = ap (λ d. 2 ^ d) together ∙ pow_add (52 - e) e in
      let whole : k * 2 ^ 52 ≡ k * 2 ^ (52 - e) * 2 ^ e =
        ap (λ d. k * d) split ∙ sym (mul_assoc k (2 ^ (52 - e)) (2 ^ e)) in
      let fits : k * 2 ^ (52 - e) ≤ v / 2 ^ e =
        (le-div_iff_mul-le pos).1 (omega (arith, whole, below)) in
      omega (arith, whole, mul-le-mul_right (2 ^ e) fits)

  on_grid_high : 52 < e → k ≤ 2 ^ 52 → 2 ^ e * 2 ^ 52 ≤ v → k * 2 ^ 52 ≤ v / 2 ^ e * 2 ^ e
  on_grid_high high small large =
      let fits : 2 ^ 52 ≤ v / 2 ^ e =
        (le-div_iff_mul-le pos).1 (omega (arith, mul_comm (2 ^ 52) (2 ^ e), large)) in
      let wide : 2 ^ 52 ≤ 2 ^ e =
        pow-le-pow_right {n = 2} (omega arith) {i = 52} {j = e} (omega arith) in
      let square : 2 ^ 52 * 2 ^ 52 ≤ v / 2 ^ e * 2 ^ e = mul-le-mul fits wide in
      omega (arith, square, mul-le-mul_right (2 ^ 52) small)

  on_grid : k ≤ 2 ^ 52 → 2 ^ e * 2 ^ 52 ≤ v → k * 2 ^ 52 ≤ v / 2 ^ e * 2 ^ e
  on_grid small large = elim (dec_lt 52 e) [
    | yes high ↦ on_grid_high high small large
    | no low ↦ on_grid_low (omega arith)
  ]

-- Rounding to a double does not fall below a whole number that the exact result reaches.
pub le-nearest :
    (num den k : ℕ)
    → 0 < den
    → 1 ≤ k
    → k ≤ 2 ^ 52
    → k * 2 ^ 52 * den ≤ num
    → k * 2 ^ 52 ≤ nearest num den
unfolding nearest
le-nearest num den k pos_den one small h =
    let v : ℕ = num / den in
    let e : ℕ = exponent 64 (v / 2 ^ 52) in
    let below : k * 2 ^ 52 ≤ v = (le-div_iff_mul-le pos_den).1 h in
    let large : 2 ^ e * 2 ^ 52 ≤ v = omega (arith, le-exponent 64 (v / 2 ^ 52) (omega arith)) in
    let grid : k * 2 ^ 52 ≤ v / 2 ^ e * 2 ^ e = on_grid v k e below small large in
    let up : v / 2 ^ e ≤ round_half_even num (den * 2 ^ e) =
      subst (λ d. d ≤ round_half_even num (den * 2 ^ e)) (sym (div-div-eq-div-mul num den (2 ^ e)))
        (le-round num (den * 2 ^ e)) in
    omega (arith, grid, mul-le-mul_right (2 ^ e) up)
