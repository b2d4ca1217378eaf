-- ===== src/Hash/Consistent.antt =====
-- `_hash` of src/kvutil.c is consistent: one more bucket only moves keys to the new bucket.
use bagdb_spdk.Base.{
  ℕ, zero, suc, ◌+◌, ◌-◌, ◌^◌, ◌≤◌, ◌<◌, ◌≡◌, ◌⊎◌, some, true, ltb, arith, inl, inr, Bool-cases,
}
use bagdb_spdk.Hash.{next_key, jump, hash_from, hash}
use bagdb_spdk.Hash.Jump.{le-jump, hash-run}

hash_from-stop : (f key b_next j n a : ℕ) → n ≤ j → hash_from f key b_next j n ≡ some a → a ≡ b_next
unfolding hash_from
hash_from-stop zero key b_next j n a h p = absurd (ground arith)
hash_from-stop (suc f) key b_next j n a h p = ground arith

-- The loops for `n` and for `n + 1` buckets make the same rounds until `j` reaches `n`.
hash_from-grow :
    (f g key b_next j n a b : ℕ)
    → n < 2 ^ 31
    → hash_from f key b_next j n ≡ some a
    → hash_from g key b_next j (n + 1) ≡ some b
    → (b ≡ a) ⊎ (b ≡ n + 1)
unfolding hash_from
hash_from-grow zero g key b_next j n a b small p q = absurd (ground arith)
hash_from-grow (suc f) zero key b_next j n a b small p q = absurd (ground arith)
hash_from-grow (suc f) (suc g) key b_next j n a b small p q = elim (Bool-cases (ltb j n)) [
  | inl more ↦
      let both : ltb j (n + 1) ≡ true = ground arith in
      hash_from-grow f g (next_key key) (j + 1) (jump (j + 1) (next_key key)) n a b small
        (rw more at p) (rw both at q)
  | inr done ↦ elim (Bool-cases (ltb j (n + 1))) [
    | inl last ↦
        let at_n : j ≡ n = ground arith in
        let past : n + 1 ≤ jump (j + 1) (next_key key) =
          omega (arith, le-jump (j + 1) key (omega arith) (omega arith)) in
        let next : b ≡ j + 1 =
          hash_from-stop g (next_key key) (j + 1) (jump (j + 1) (next_key key)) (n + 1) b past
            (rw last at q) in
        inr (omega arith)
    | inr over ↦ inl (ground arith)
  ]
]

-- With one more bucket, a key keeps its bucket or goes to the new one, `num_buckets`.
pub hash-grow :
    (key num_buckets : ℕ)
    → 0 < num_buckets
    → num_buckets + 1 < 2 ^ 31
    → (old new : ℕ) × (hash key num_buckets ≡ some old)
      × (hash key (num_buckets + 1) ≡ some new)
      × ((new ≡ old) ⊎ (new ≡ num_buckets))
hash-grow key num_buckets pos fits =
    let (a, run, result, low, high) = hash-run key num_buckets pos (omega arith) in
    let (b, run', result', low', high') = hash-run key (num_buckets + 1) (omega arith) fits in
    (
      a - 1,
      b - 1,
      result,
      result',
      elim (hash_from-grow (num_buckets + 1) (num_buckets + 1 + 1) key 0 0 num_buckets a b
          (omega arith) run run') [ inl same ↦ inl (omega arith) | inr moved ↦ inr (omega arith) ],
    )
