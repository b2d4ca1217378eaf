-- ===== src/Statistics.antt =====
-- The statistics of src/kvs.c: over the slabs, over the workers, and the number of items.
pub mod Slabs
mod Tests
use bagdb_spdk.Base.{
  ℕ, zero, suc, ◌+◌, ◌-◌, ◌*◌, ◌/◌, ◌%◌, ◌^◌, Bool, Option, none, some, List, [], ◌∷◌, ◌>>=◌, ◌>>◌,
  assert, get_elem?, ltb, u32, u64, if◌then◌else◌,
}
use bagdb_spdk.Startup.State.{Kvs, Slab, WorkerInitOpts}

-- The counters of a slab's `reclaim`. Its assignment in src/kvs_startup.c is under comment.
pub record Reclaim : Type 0 where
  pub nb_total_slots : ℕ
  pub nb_free_slots : ℕ

-- An entry of `struct slab_statistics`, whose declaration is not in the repository; its counters are
-- taken as `uint64_t`.
pub record SlabStatistic : Type 0 where
  pub slab_size : ℕ
  pub nb_slots : ℕ
  pub nb_free_slots : ℕ

pub record SlabStatistics : Type 0 where
  pub nb_shards : ℕ
  pub nb_slabs_per_shard : ℕ
  pub slabs : List SlabStatistic

abbrev pub statistic : Reclaim → Slab → SlabStatistic
statistic reclaim slab = record {
  slab_size = slab.slab_size;
  nb_slots = reclaim.nb_total_slots;
  nb_free_slots = reclaim.nb_free_slots;
}

-- `reclaim` has the counters of the slabs by their index. Of a result, `none` is an access out of
-- range or through NULL, and `some none` a result that is NULL.
module _ (reclaim : ℕ → Reclaim) where
  -- The body of the loop over the slabs.
  unfoldable pub slab_statistic : Kvs → ℕ → ℕ → Option SlabStatistic
  slab_statistic kvs nb_slabs i = do
    assert (ltb 0 nb_slabs)
    shard ← get_elem? kvs.shards (i / nb_slabs)
    slab ← get_elem? kvs.slabs (shard.slab_set + i % nb_slabs)
    some (statistic (reclaim (shard.slab_set + i % nb_slabs)) slab)

  -- The loop from `i` on, for so many slabs.
  unfoldable pub statistics_from : Kvs → ℕ → ℕ → ℕ → Option (List SlabStatistic)
  statistics_from kvs nb_slabs i zero = some []
  statistics_from kvs nb_slabs i (suc n) = do
    s ← slab_statistic kvs nb_slabs i
    rest ← statistics_from kvs nb_slabs (suc i) n
    some (s ∷ rest)

  -- `kvs_get_slab_statistcs`; the truth value says whether `malloc` succeeds. A store that is not there
  -- is read before it is tested.
  unfoldable pub kvs_get_slab_statistcs : Option Kvs → Bool → Option (Option SlabStatistics)
  kvs_get_slab_statistcs none has_memory = none
  kvs_get_slab_statistcs (some kvs) has_memory = do
    shard ← get_elem? kvs.shards 0
    let filled = (do
      slabs ← statistics_from kvs shard.nb_slabs 0 (u32 (kvs.nb_shards * shard.nb_slabs))
      some (
          some (record {
            nb_shards = kvs.nb_shards;
            nb_slabs_per_shard = shard.nb_slabs;
            slabs = slabs;
          })))
    if has_memory then filled else some none

  -- The loop of `kvs_get_nb_items`, from `i` on, for so many slabs.
  unfoldable pub items_from : List SlabStatistic → ℕ → ℕ → ℕ → Option ℕ
  items_from slabs nb_items i zero = some nb_items
  items_from slabs nb_items i (suc n) = do
    s ← get_elem? slabs i
    items_from slabs (u64 (nb_items + u64 (s.nb_slots + 2 ^ 64 - s.nb_free_slots))) (suc i) n

  unfoldable pub items_of : Option SlabStatistics → Option ℕ
  items_of none = some 0
  items_of (some ss) = items_from ss.slabs 0 0 (u32 (ss.nb_shards * ss.nb_slabs_per_shard))

  -- `kvs_get_nb_items`
  unfoldable pub kvs_get_nb_items : Option Kvs → Bool → Option ℕ
  kvs_get_nb_items none has_memory = some 0
  kvs_get_nb_items (some kvs) has_memory = do
    ss ← kvs_get_slab_statistcs (some kvs) has_memory
    items_of ss

-- The loop of `kvs_get_runtime_statistics` with `worker_get_statistics`, from `i` on, for so many workers.
unfoldable pub runtime_from : {A : Type 0} → (WorkerInitOpts → A) → Kvs → ℕ → ℕ → Option (List A)
runtime_from worker_get_statistics kvs i zero = some []
runtime_from worker_get_statistics kvs i (suc n) = do
  w ← get_elem? kvs.workers i
  rest ← runtime_from worker_get_statistics kvs (suc i) n
  some (worker_get_statistics w ∷ rest)

-- `kvs_get_runtime_statistics`; a store that is not there is read before it is tested.
unfoldable pub kvs_get_runtime_statistics :
    {A : Type 0} → (WorkerInitOpts → A) → Option Kvs → Bool → Option (Option (List A))
kvs_get_runtime_statistics worker_get_statistics none has_memory = none
kvs_get_runtime_statistics worker_get_statistics (some kvs) has_memory =
    let filled = (do
      ws ← runtime_from worker_get_statistics kvs 0 kvs.nb_workers
      some (some ws)) in
    if has_memory then filled else some none
