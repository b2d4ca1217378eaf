-- ===== src/Hash/Tests.antt =====
-- Runs of the hash of src/kvutil.c, and its theorem at a concrete key.
use bagdb_spdk.Base.{ℕ, ◌<◌, ◌≡◌, ◌+◌, ◌⊎◌, refl, some, arith}
use bagdb_spdk.Hash.{jump, hash_from, hash}
use bagdb_spdk.Hash.Double.{exponent, round_half_even, nearest, div_double, mul_double}
use bagdb_spdk.Hash.Consistent.{hash-grow}
use bagdb_spdk.Hash.Jump.{hash-lt}

buckets_run : hash 12_345 10 ≡ some 1
unfolding hash hash_from jump mul_double div_double nearest round_half_even exponent
buckets_run = refl

-- No buckets, or as many as make the `int` negative: the result is that of -1.
no_bucket : hash 12_345 0 ≡ some 4_294_967_295
unfolding hash hash_from
no_bucket = refl

hash-lt_example : (bucket : ℕ) × (hash 12_345 10 ≡ some bucket) × (bucket < 10)
hash-lt_example = hash-lt 12_345 10 (omega arith) (omega arith)

hash-grow_example :
    (old new : ℕ) × (hash 12_345 10 ≡ some old)
    × (hash 12_345 (10 + 1) ≡ some new)
    × ((new ≡ old) ⊎ (new ≡ 10))
hash-grow_example = hash-grow 12_345 10 (omega arith) (omega arith)
