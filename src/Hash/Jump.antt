-- ===== src/Hash/Jump.antt =====
-- `_hash` of src/kvutil.c ends, and its result is a bucket.
use native.Mathlib.Nat.{mul-le-mul_left}
use bagdb_spdk.Base.{
  ℕ, zero, suc, ◌+◌, ◌-◌, ◌*◌, ◌/◌, ◌^◌, ◌≤◌, ◌<◌, ◌≡◌, refl, ap, ◌∙◌, ◌⊎◌, some, ltb, arith, inl,
  inr, Bool-cases, u32,
}
use bagdb_spdk.Hash.{next_key, jump, hash_from, positive_int, hash}
use bagdb_spdk.Hash.Double.{div_double, mul_double, nearest, le-nearest}

-- A 64-bit key leaves 31 bits for the divisor.
next_key-lt : (key : ℕ) → next_key key / 2 ^ 33 + 1 ≤ 2 ^ 31
next_key-lt key = omega arith

-- The quotient is at least 1, so the next `j` is past `b`.
pub le-jump : (b_next key : ℕ) → 1 ≤ b_next → b_next ≤ 2 ^ 31 → b_next ≤ jump b_next (next_key key)
unfolding jump mul_double div_double
le-jump b_next key one small =
    let den : ℕ = next_key key / 2 ^ 33 + 1 in
    let quot : 1 * 2 ^ 52 ≤ nearest (2 ^ 31 * 2 ^ 52) den =
      le-nearest (2 ^ 31 * 2 ^ 52) den 1 (omega arith) (omega arith) (omega arith)
        (omega (arith, next_key-lt key)) in
    let prod : b_next * 2 ^ 52 ≤ nearest (b_next * nearest (2 ^ 31 * 2 ^ 52) den) 1 =
      le-nearest (b_next * nearest (2 ^ 31 * 2 ^ 52) den) 1 b_next (omega arith) one (omega arith)
        (omega (arith, mul-le-mul_left b_next quot)) in
    omega (arith, prod)

hash_from-lem :
    (fuel key b_next j buckets : ℕ)
    → buckets ≤ 2 ^ 31
    → b_next ≤ buckets
    → b_next ≤ j
    → (j < buckets) ⊎ (1 ≤ b_next)
    → buckets < fuel + b_next
    → (b : ℕ) × (hash_from fuel key b_next j buckets ≡ some b) × (1 ≤ b) × (b ≤ buckets)
unfolding hash_from
hash_from-lem zero key b_next j buckets small inside step entered enough = absurd (omega arith)
hash_from-lem (suc fuel) key b_next j buckets small inside step entered enough =
    elim (Bool-cases (ltb j buckets)) [
      | inl more ↦ rw more (
          hash_from-lem fuel (next_key key) (j + 1) (jump (j + 1) (next_key key)) buckets small
            (ground arith) (le-jump (j + 1) key (omega arith) (ground arith)) (inr (omega arith))
            (ground arith))
      | inr done ↦ rw done (b_next, refl, ground arith, inside)
    ]

hash-eq :
    (key num_buckets b : ℕ)
    → hash_from (num_buckets + 1) key 0 0 (positive_int num_buckets) ≡ some b
    → hash key num_buckets ≡ some (u32 (b + (2 ^ 32 - 1)))
unfolding hash
hash-eq key num_buckets b h = rw h refl

-- The loop ends, and `_hash` returns what it left in `b`.
pub hash-run :
    (key num_buckets : ℕ)
    → 0 < num_buckets
    → num_buckets < 2 ^ 31
    → (b : ℕ) × (hash_from (num_buckets + 1) key 0 0 num_buckets ≡ some b)
      × (hash key num_buckets ≡ some (b - 1))
      × (1 ≤ b)
      × (b ≤ num_buckets)
hash-run key num_buckets pos fits =
    let positive : positive_int num_buckets ≡ num_buckets = ground arith in
    let (b, run, low, high) =
      hash_from-lem (num_buckets + 1) key 0 0 num_buckets (omega arith) (omega arith) (omega arith)
        (inl pos) (omega arith) in
    let back : u32 (b + (2 ^ 32 - 1)) ≡ b - 1 = omega arith in
    (
      b,
      run,
      hash-eq key num_buckets b (ap (λ n. hash_from (num_buckets + 1) key 0 0 n) positive ∙ run)
          ∙ ap some back,
      low,
      high,
    )

-- `_hash` ends for every key and every number of buckets that an `int` holds, and the result is a
-- bucket: each round takes `j` past `b`, for the rounding of the two double operations never falls
-- below the whole number `b + 1`.
pub hash-lt :
    (key num_buckets : ℕ)
    → 0 < num_buckets
    → num_buckets < 2 ^ 31
    → (bucket : ℕ) × (hash key num_buckets ≡ some bucket) × (bucket < num_buckets)
hash-lt key num_buckets pos fits =
    let (b, run, result, low, high) = hash-run key num_buckets pos fits in
    (b - 1, result, omega arith)
