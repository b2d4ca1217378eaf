-- ===== src/Base/Xor.antt =====
-- Laws of the exclusive or: it is read digit by digit, and what holds for digits holds for numbers.
use Prim.Native.Nat.{
  ℕ, zero, suc, ◌+◌, ◌*◌, ◌/◌, ◌%◌, ◌^◌, ◌≤◌, ◌<◌, bit_xor, digits, differ, bit_xor-bitwise,
}
use mathlib.Core.Path.{◌≡◌, refl, ap, sym, ◌∙◌}
use native.Mathlib.Nat.{mul_assoc, pow-suc}
use native.Mathlib.Omega.{arith}

-- The exclusive or of the `n` lowest digits.
abbrev odd : ℕ → ℕ → ℕ → ℕ
odd n a b = digits (λ y. y) differ n a b

differ-mod : (x y : ℕ) → x < 2 → y < 2 → differ x y ≡ (x + y) % 2
differ-mod zero y p q = omega arith
differ-mod (suc zero) zero p q = refl
differ-mod (suc zero) (suc zero) p q = refl
differ-mod (suc zero) (suc (suc y)) p q = absurd (omega arith)
differ-mod (suc (suc x)) y p q = absurd (omega arith)

-- The number of digits does not matter, once there are enough.
odd_enough : (n m a b : ℕ) → a ≤ n → a ≤ m → odd n a b ≡ odd m a b
odd_enough zero zero zero b p q = refl
odd_enough zero (suc m) zero b p q = refl
odd_enough (suc n) zero zero b p q = refl
odd_enough (suc n) (suc m) zero b p q = refl
odd_enough zero m (suc a) b p q = absurd (omega arith)
odd_enough (suc n) zero (suc a) b p q = absurd (omega arith)
odd_enough (suc n) (suc m) (suc a) b p q =
    ap (λ x. x * 2 + differ (suc a % 2) (b % 2))
      (odd_enough n m (suc a / 2) (b / 2) (omega arith) (omega arith))

pub zero-bit_xor : (b : ℕ) → bit_xor 0 b ≡ b
zero-bit_xor b = bit_xor-bitwise 0 b

pub bit_xor_step : (a b : ℕ) → bit_xor a b ≡ bit_xor (a / 2) (b / 2) * 2 + (a % 2 + b % 2) % 2
bit_xor_step zero b = omega (arith, zero-bit_xor b, zero-bit_xor (b / 2))
bit_xor_step (suc a) b =
    let digit : differ (suc a % 2) (b % 2) ≡ (suc a % 2 + b % 2) % 2 =
      differ-mod (suc a % 2) (b % 2) (omega arith) (omega arith) in
    bit_xor-bitwise (suc a) b
    ∙ ap (λ x. x * 2 + differ (suc a % 2) (b % 2))
        (odd_enough a (suc a / 2) (suc a / 2) (b / 2) (omega arith) (omega arith)
          ∙ sym (bit_xor-bitwise (suc a / 2) (b / 2)))
    ∙ ap (λ d. bit_xor (suc a / 2) (b / 2) * 2 + d) digit

-- The laws for numbers up to `n`, from those for their halves.
comm_below : (n a b : ℕ) → a ≤ n → b ≤ n → bit_xor a b ≡ bit_xor b a
comm_below zero zero zero p q = refl
comm_below zero (suc a) b p q = absurd (omega arith)
comm_below zero zero (suc b) p q = absurd (omega arith)
comm_below (suc n) a b p q = omega (
  arith,
  bit_xor_step a b,
  bit_xor_step b a,
  comm_below n (a / 2) (b / 2) (omega arith) (omega arith),
)

assoc_below :
    (n a b c : ℕ) → a ≤ n → b ≤ n → c ≤ n → bit_xor (bit_xor a b) c ≡ bit_xor a (bit_xor b c)
assoc_below zero zero zero zero p q r = refl
assoc_below zero (suc a) b c p q r = absurd (omega arith)
assoc_below zero zero (suc b) c p q r = absurd (omega arith)
assoc_below zero zero zero (suc c) p q r = absurd (omega arith)
assoc_below (suc n) a b c p q r =
    let half₀ : bit_xor a b / 2 ≡ bit_xor (a / 2) (b / 2) = omega (arith, bit_xor_step a b) in
    let half₁ : bit_xor b c / 2 ≡ bit_xor (b / 2) (c / 2) = omega (arith, bit_xor_step b c) in
    omega (
      arith,
      bit_xor_step a b,
      bit_xor_step b c,
      bit_xor_step (bit_xor a b) c,
      bit_xor_step a (bit_xor b c),
      ap (λ x. bit_xor x (c / 2)) half₀,
      ap (bit_xor (a / 2)) half₁,
      assoc_below n (a / 2) (b / 2) (c / 2) (omega arith) (omega arith) (omega arith),
    )

pub bit_xor_comm : (a b : ℕ) → bit_xor a b ≡ bit_xor b a
bit_xor_comm a b = comm_below (a + b) a b (omega arith) (omega arith)

pub bit_xor_assoc : (a b c : ℕ) → bit_xor (bit_xor a b) c ≡ bit_xor a (bit_xor b c)
bit_xor_assoc a b c = assoc_below (a + b + c) a b c (omega arith) (omega arith) (omega arith)

pub bit_xor-zero : (a : ℕ) → bit_xor a 0 ≡ a
bit_xor-zero a = bit_xor_comm a 0 ∙ zero-bit_xor a

pub bit_xor_swap :
    (a b c d : ℕ) → bit_xor (bit_xor a b) (bit_xor c d) ≡ bit_xor (bit_xor a c) (bit_xor b d)
bit_xor_swap a b c d =
    bit_xor_assoc a b (bit_xor c d)
    ∙ ap (bit_xor a)
        (sym (bit_xor_assoc b c d) ∙ ap (λ x. bit_xor x d) (bit_xor_comm b c) ∙ bit_xor_assoc c b d)
    ∙ sym (bit_xor_assoc a c (bit_xor b d))

-- Numbers without common digits: the exclusive or is the sum.
pub bit_xor-add : (n lo hi : ℕ) → lo < 2 ^ n → bit_xor lo (hi * 2 ^ n) ≡ lo + hi * 2 ^ n
bit_xor-add zero lo hi h =
    let none : lo ≡ 0 = omega arith in rw none (omega (arith, zero-bit_xor (hi * 1)))
bit_xor-add (suc n) lo hi h =
    let twice : hi * 2 ^ suc n ≡ hi * 2 ^ n * 2 =
      ap (λ d. hi * d) (pow-suc 2 n) ∙ sym (mul_assoc hi (2 ^ n) 2) in
    let room : 2 ^ suc n ≡ 2 ^ n * 2 = pow-suc 2 n in
    let half : hi * 2 ^ suc n / 2 ≡ hi * 2 ^ n = omega arith in
    omega (
      arith,
      bit_xor_step lo (hi * 2 ^ suc n),
      ap (bit_xor (lo / 2)) half,
      bit_xor-add n (lo / 2) hi (omega arith),
    )

pub bit_xor-lt : (n a b : ℕ) → a < 2 ^ n → b < 2 ^ n → bit_xor a b < 2 ^ n
bit_xor-lt zero a b p q = let none : a ≡ 0 = omega arith in rw none (rw (zero-bit_xor b) q)
bit_xor-lt (suc n) a b p q =
    let room : 2 ^ suc n ≡ 2 ^ n * 2 = pow-suc 2 n in
    omega (arith, bit_xor_step a b, bit_xor-lt n (a / 2) (b / 2) (omega arith) (omega arith))
