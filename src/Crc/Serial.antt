-- ===== src/Crc/Serial.antt =====
-- The checksum of src/kvutil.c is the bit-by-bit one: the table holds the remainder of each byte.
use Prim.Native.Nat.{bit_xor}
use native.Mathlib.Nat.{mul_assoc, pow-suc}
use bagdb_spdk.Base.{
  ℕ, zero, suc, ◌+◌, ◌*◌, ◌/◌, ◌%◌, ◌^◌, ◌<◌, ◌≡◌, refl, sym, ap, ◌∙◌, Bool, true, ◌&&◌, List, [],
  ◌∷◌, arith, get_or, AllBelow, AllBelow-take, take, ◌==◌,
}
use bagdb_spdk.Base.Xor.{
  bit_xor_comm, bit_xor_assoc, bit_xor-zero, bit_xor_swap, bit_xor-add, bit_xor-lt, bit_xor_step,
}
use bagdb_spdk.Crc.{crc64, crc64_from, crc64_byte}
use bagdb_spdk.Crc.Table.{crc64_tab}

-- The polynomial, its highest power first in the lowest bit.
abbrev pub polynomial : ℕ
polynomial = 0x95ac9329ac4bc9b5

-- One bit of the division by the polynomial, and `n` of them.
unfoldable pub crc_bit : ℕ → ℕ
crc_bit c = bit_xor (c / 2) (c % 2 * polynomial)

unfoldable pub crc_bits : ℕ → ℕ → ℕ
crc_bits zero c = c
crc_bits (suc n) c = crc_bits n (crc_bit c)

-- The checksum bit by bit.
unfoldable pub serial : ℕ → List ℕ → ℕ
serial crc [] = crc
serial crc (byte ∷ bytes) = serial (crc_bits 8 (bit_xor crc byte)) bytes

agree_below : ℕ → Bool
agree_below zero = true
agree_below (suc n) = (get_or crc64_tab n 0 == crc_bits 8 n) && agree_below n

agree_below-eq : (n i : ℕ) → agree_below n ≡ true → i < n → get_or crc64_tab i 0 ≡ crc_bits 8 i
unfolding agree_below
agree_below-eq zero i all lt = absurd (omega arith)
agree_below-eq (suc n) i all lt = ground (arith, agree_below-eq n i)

table_agrees : agree_below 256 ≡ true
unfolding agree_below crc64_tab crc_bits crc_bit
table_agrees = refl

multiples :
    (x y : ℕ) → x < 2 → y < 2 → (x + y) % 2 * polynomial ≡ bit_xor (x * polynomial) (y * polynomial)
multiples zero zero p q = refl
multiples zero (suc zero) p q = refl
multiples (suc zero) zero p q = refl
multiples (suc zero) (suc zero) p q = refl
multiples (suc (suc x)) y p q = absurd (omega arith)
multiples zero (suc (suc y)) p q = absurd (omega arith)
multiples (suc zero) (suc (suc y)) p q = absurd (omega arith)

crc_bit-bit_xor : (a b : ℕ) → crc_bit (bit_xor a b) ≡ bit_xor (crc_bit a) (crc_bit b)
unfolding crc_bit
crc_bit-bit_xor a b =
    let half : bit_xor a b / 2 ≡ bit_xor (a / 2) (b / 2) = omega (arith, bit_xor_step a b) in
    let low : bit_xor a b % 2 ≡ (a % 2 + b % 2) % 2 = omega (arith, bit_xor_step a b) in
    rw (half, low, multiples (a % 2) (b % 2) (omega arith) (omega arith))
      (bit_xor_swap (a / 2) (b / 2) (a % 2 * polynomial) (b % 2 * polynomial))

crc_bits-bit_xor : (n a b : ℕ) → crc_bits n (bit_xor a b) ≡ bit_xor (crc_bits n a) (crc_bits n b)
unfolding crc_bits
crc_bits-bit_xor zero a b = refl
crc_bits-bit_xor (suc n) a b =
    ap (crc_bits n) (crc_bit-bit_xor a b) ∙ crc_bits-bit_xor n (crc_bit a) (crc_bit b)

crc_bit_even : (y : ℕ) → crc_bit (y * 2) ≡ y
unfolding crc_bit
crc_bit_even y =
    let half : y * 2 / 2 ≡ y = omega arith in
    let low : y * 2 % 2 ≡ 0 = omega arith in rw (half, low) (bit_xor-zero y)

crc_bits_power : (n y : ℕ) → crc_bits n (y * 2 ^ n) ≡ y
unfolding crc_bits
crc_bits_power zero y = omega arith
crc_bits_power (suc n) y =
    let twice : y * 2 ^ suc n ≡ y * 2 ^ n * 2 =
      ap (λ d. y * d) (pow-suc 2 n) ∙ sym (mul_assoc y (2 ^ n) 2) in
    ap (crc_bits n) (ap crc_bit twice ∙ crc_bit_even (y * 2 ^ n)) ∙ crc_bits_power n y

-- One byte through the table is eight bits.
crc64_byte-crc_bits :
    (crc byte : ℕ) → byte < 256 → crc64_byte crc byte ≡ crc_bits 8 (bit_xor crc byte)
unfolding crc64_byte
crc64_byte-crc_bits crc byte h =
    let lo : ℕ = crc % 256 in
    let hi : ℕ = crc / 256 in
    let whole : bit_xor lo (hi * 256) ≡ crc = bit_xor-add 8 lo hi (omega arith) ∙ omega arith in
    let apart : bit_xor (bit_xor lo byte) (hi * 256) ≡ bit_xor crc byte =
      bit_xor_assoc lo byte (hi * 256)
      ∙ ap (bit_xor lo) (bit_xor_comm byte (hi * 256))
      ∙ sym (bit_xor_assoc lo (hi * 256) byte)
      ∙ ap (λ x. bit_xor x byte) whole in
    ap (λ x. bit_xor x hi)
      (agree_below-eq 256 (bit_xor lo byte) table_agrees (bit_xor-lt 8 lo byte (omega arith) h))
    ∙ ap (bit_xor (crc_bits 8 (bit_xor lo byte))) (sym (crc_bits_power 8 hi))
    ∙ sym (crc_bits-bit_xor 8 (bit_xor lo byte) (hi * 256))
    ∙ ap (crc_bits 8) apart

crc64_from-serial :
    (crc : ℕ) (bytes : List ℕ) → AllBelow 256 bytes → crc64_from crc bytes ≡ serial crc bytes
unfolding crc64_from serial
crc64_from-serial crc [] h = refl
crc64_from-serial crc (byte ∷ bytes) h =
    ap (λ c. crc64_from c bytes) (crc64_byte-crc_bits crc byte h.0)
    ∙ crc64_from-serial (crc_bits 8 (bit_xor crc byte)) bytes h.1

-- `_crc64` over a table of 256 words gives what the division by the polynomial gives bit by bit, on
-- any bytes.
pub crc64-serial : (s : List ℕ) (l : ℕ) → AllBelow 256 s → crc64 s l ≡ serial 0 (take l s)
unfolding crc64
crc64-serial s l h = crc64_from-serial 0 (take l s) (AllBelow-take 256 l s h)
