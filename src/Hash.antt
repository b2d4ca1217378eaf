-- ===== src/Hash.antt =====
-- src/kvutil.c: `_hash`, the jump consistent hash over doubles, `kv_hash` and `kv_cycles_to_us`.
pub mod Double
pub mod Jump
pub mod Consistent
mod Tests
use bagdb_spdk.Base.{
  ℕ, zero, suc, ◌+◌, ◌-◌, ◌*◌, ◌/◌, ◌^◌, Option, none, some, List, ltb, leb, if◌then◌else◌, u32,
  u64, ◌>>=◌, ◌>>◌, assert,
}
use bagdb_spdk.Crc.{crc64}
use bagdb_spdk.Hash.Double.{div_double, mul_double, truncate}

-- `key*2862933555777941757 + 1`
abbrev pub next_key : ℕ → ℕ
next_key key = u64 (u64 (key * 2_862_933_555_777_941_757) + 1)

-- The next `j`: `(int64_t)((double)(b+1)*((double)((int64_t)1<<31)/(double)((key>>33)+1)))`. The sources
-- reach it with `b + 1` at most 2^31 and `key` already stepped.
unfoldable pub jump : ℕ → ℕ → ℕ
jump b_next key = truncate (mul_double b_next (div_double (2 ^ 31) (key / 2 ^ 33 + 1)))

-- The loop of `_hash`. `b` starts at -1, so `b_next` is `b + 1`.
unfoldable pub hash_from : ℕ → ℕ → ℕ → ℕ → ℕ → Option ℕ
hash_from zero key b_next j buckets = none
hash_from (suc fuel) key b_next j buckets =
    let rest = hash_from fuel (next_key key) (j + 1) (jump (j + 1) (next_key key)) buckets in
    if ltb j buckets then rest else some b_next

-- `numBuckets` is a 32-bit pattern that `_hash` reads as an `int`: from 2^31 on it is negative.
abbrev pub positive_int : ℕ → ℕ
positive_int n = if ltb n (2 ^ 31) then n else 0

-- `_hash`. As many rounds as there are buckets are enough.
unfoldable pub hash : ℕ → ℕ → Option ℕ
hash key num_buckets = do
  b_next ← hash_from (num_buckets + 1) key 0 0 (positive_int num_buckets)
  some (u32 (b_next + (2 ^ 32 - 1)))

-- `kv_hash`. The length is a 32-bit pattern that `_crc64` reads as an `int`, and so is the number of
-- buckets in `_hash`: no byte is read of a length from 2^31 on.
unfoldable pub kv_hash : List ℕ → ℕ → ℕ → Option ℕ
kv_hash key key_len num_buckets = hash (crc64 key (positive_int key_len)) num_buckets

-- `kv_cycles_to_us`, with what `spdk_get_ticks_hz` returns; `none` is a division by zero.
unfoldable pub kv_cycles_to_us : ℕ → ℕ → Option ℕ
kv_cycles_to_us ticks_hz cycles =
    assert (ltb 0 ticks_hz) >> some (u64 (cycles * 1_000_000) / ticks_hz)
