-- ===== src/Dispatch.antt =====
-- src/kvs.c: which worker gets the requests of a shard.
pub mod Requests
pub mod Owner
mod Tests
use bagdb_spdk.Base.{
  ℕ, ◌+◌, ◌*◌, ◌/◌, ◌%◌, ◌^◌, ◌<◌, ◌≤◌, ◌≡◌, Option, some, List, arith, ◌>>◌, assert, ltb, u32,
  get_or,
}
use native.Mathlib.Nat.{div-add-mod, div-lt_iff_lt-mul, div-mul-le_self, lt-div-mul-add}
use native.Mathlib.Decide.{dec_lt}
use bagdb_spdk.Base.{ap, leb}
use bagdb_spdk.Item.{KvItem}
use bagdb_spdk.Hash.{kv_hash}
use bagdb_spdk.Spdk.{Reply}
use bagdb_spdk.Slab.{SuperLayout}
use bagdb_spdk.Startup.State.{StartOpts, Kvs, WorkerInitOpts}
use bagdb_spdk.Startup.Chain.{IsRuntime}

-- `_assert_parameters`, for a runtime, an item and a function that are there.
unfoldable pub assert_parameters : Kvs → KvItem → Option (Unit {0})
assert_parameters kvs item =
    assert (ltb 0 item.meta.ksize) >> assert (leb item.meta.ksize kvs.max_key_length)

-- `_hash_item_to_shard`. The length of the key, a `size_t`, becomes a `uint32_t`.
unfoldable pub hash_item_to_shard : Kvs → KvItem → Option ℕ
hash_item_to_shard kvs item = kv_hash item.bytes (u32 item.meta.ksize) kvs.nb_shards

-- `_hash_shard_to_worker`; `none` is a division by zero.
unfoldable pub hash_shard_to_worker : Kvs → ℕ → Option ℕ
hash_shard_to_worker kvs shard_id = do
  assert (ltb 0 kvs.nb_workers)
  assert (ltb 0 (kvs.nb_shards / kvs.nb_workers))
  some (shard_id / (kvs.nb_shards / kvs.nb_workers))

per-pos : (s w : ℕ) → 0 < w → s % w ≡ 0 → 0 < s → 0 < s / w
per-pos s w some_worker even some_shard = elim (dec_lt 0 (s / w)) [
  | yes h ↦ h
  | no h ↦
      let none_each : s / w ≡ 0 = omega arith in
      absurd (omega (arith, div-add-mod s w, ap (λ d. w * d) none_each))
]

-- In a runtime whose workers share its shards evenly, the requests of every shard go to a worker that
-- is there, and the shard is in the range of shards that this worker was given at the start.
pub hash_shard_to_worker-owner :
    (opts : StartOpts) (sl : SuperLayout) (os : List Reply) (kvs : Kvs) (shard_id : ℕ)
    (d : WorkerInitOpts)
    → IsRuntime opts sl os kvs
    → 0 < opts.nb_works
    → sl.nb_shards % opts.nb_works ≡ 0
    → sl.nb_shards < 2 ^ 32
    → shard_id < sl.nb_shards
    → (w : ℕ) × (hash_shard_to_worker kvs shard_id ≡ some w)
      × (w < opts.nb_works)
      × ((get_or kvs.workers w d).reclaim_shard_start_id ≤ shard_id)
      × (shard_id
          < (get_or kvs.workers w d).reclaim_shard_start_id
            + (get_or kvs.workers w d).nb_reclaim_shards)
unfolding hash_shard_to_worker
hash_shard_to_worker-owner opts sl os kvs shard_id d is some_worker even small lt =
    let each : 0 < sl.nb_shards / opts.nb_works =
      per-pos sl.nb_shards opts.nb_works some_worker even (omega arith) in
    let w : ℕ = shard_id / (sl.nb_shards / opts.nb_works) in
    let inside : w < opts.nb_works =
      (div-lt_iff_lt-mul each).1 (omega (arith, div-add-mod sl.nb_shards opts.nb_works, even)) in
    let low : w * (sl.nb_shards / opts.nb_works) ≤ shard_id = div-mul-le_self shard_id _ in
    let high : shard_id < w * (sl.nb_shards / opts.nb_works) + sl.nb_shards / opts.nb_works =
      lt-div-mul-add each in
    let (start, count, core) = is.worker w d inside in
    (
      w,
      rw (is.nb_shards, is.nb_workers) (ground (arith, each, some_worker)),
      inside,
      omega (arith, start, low, small, lt),
      omega (arith, start, count, low, high, small, lt),
    )
