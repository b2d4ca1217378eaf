-- ===== src/Startup/Runtime.antt =====
-- The runtime that src/kvs_startup.c builds once all slabs are open: `_kvs_start_create_kvs_runtime`
-- and `_kvs_worker_init`.
use bagdb_spdk.Base.{
  ℕ, zero, suc, ◌+◌, ◌*◌, ◌/◌, ◌%◌, Option, none, some, List, [], ◌∷◌, ◌>>=◌, ◌>>◌, assert,
  get_elem?, ltb, ◌==◌, u32,
}
use bagdb_spdk.Spdk.{Spdk}
use bagdb_spdk.Slab.{SuperLayout}
use bagdb_spdk.Startup.State.{
  StartCtx, Slab, SlabShard, ChunkmgrInitOpts, WorkerInitOpts, Kvs, State, running, failed,
}

-- The loop over the shards, from `i` on.
unfoldable pub shards_from : ℕ → ℕ → ℕ → List SlabShard
shards_from nb_slabs i zero = []
shards_from nb_slabs i (suc n) =
    record { nb_slabs = nb_slabs; slab_set = u32 (i * nb_slabs) } ∷ shards_from nb_slabs (suc i) n

module _ (spdk : Spdk) (nb_chunks_per_node : ℕ → ℕ) where
  -- The loop over the slabs, from `i` on. The assertion divides by `reclaim.nb_chunks_per_node` of the
  -- slab, which is as `malloc` left it.
  unfoldable pub slabs_from : SuperLayout → ℕ → ℕ → Option (List Slab)
  slabs_from sl i zero = some []
  slabs_from sl i (suc n) = do
    layout ← get_elem? sl.slab i
    assert (ltb 0 (nb_chunks_per_node i))
    assert (spdk.blob_get_num_clusters layout.resv % nb_chunks_per_node i == 0)
    rest ← slabs_from sl (suc i) n
    some (record { slab_size = layout.slab_size; blob = layout.resv; flag = 0 } ∷ rest)

-- The loop of `_kvs_worker_init` over the workers, from `i` on.
unfoldable pub workers_from : WorkerInitOpts → ℕ → ℕ → List WorkerInitOpts
workers_from opts i zero = []
workers_from opts i (suc n) =
    record opts { reclaim_shard_start_id = u32 (i * opts.nb_reclaim_shards); core_id = u32 (i + 1) }
    ∷ workers_from opts (suc i) n

-- What `_kvs_worker_init` puts into the runtime.
unfoldable pub with_workers : StartCtx → SuperLayout → Kvs → Kvs
with_workers ctx sl kvs = record kvs {
  chunkmgr_worker = record {
    nb_business_workers = ctx.opts.nb_works;
    nb_pages_per_chunk = sl.nb_pages_per_chunk;
    nb_max_cache_chunks = ctx.opts.max_cache_chunks;
    core_id = 0;
  };
  workers =
      workers_from
        (record {
          chunk_cache_water_mark = ctx.opts.max_cache_chunks / ctx.opts.nb_works;
          max_io_pending_queue_size_per_worker = kvs.max_io_pending_queue_size_per_worker;
          max_request_queue_size_per_worker = kvs.max_request_queue_size_per_worker;
          nb_reclaim_shards = kvs.nb_shards / kvs.nb_workers;
          nb_shards = kvs.nb_shards;
          reclaim_shard_start_id = 0;
          core_id = 0;
        })
        0 ctx.opts.nb_works;
}

-- `_kvs_worker_init`, up to the wait for the workers; a store without workers is a division by zero.
unfoldable pub kvs_worker_init : StartCtx → SuperLayout → Kvs → Option Kvs
kvs_worker_init ctx sl kvs = do assert (ltb 0 kvs.nb_workers); some (with_workers ctx sl kvs)

abbrev pub no_chunkmgr : ChunkmgrInitOpts
no_chunkmgr = record {
  nb_business_workers = 0;
  nb_pages_per_chunk = 0;
  nb_max_cache_chunks = 0;
  core_id = 0;
}

abbrev pub running_or_failed : Option Kvs → State
running_or_failed none = failed
running_or_failed (some kvs) = running kvs

-- What `_kvs_start_create_kvs_runtime` fills in before it calls `_kvs_worker_init`.
unfoldable pub kvs_of : StartCtx → SuperLayout → List Slab → Kvs
kvs_of ctx sl slabs = record {
  kvs_name = ctx.opts.kvs_name;
  max_key_length = sl.max_key_length;
  nb_workers = ctx.opts.nb_works;
  nb_shards = sl.nb_shards;
  max_request_queue_size_per_worker = ctx.opts.max_request_queue_size_per_worker;
  max_io_pending_queue_size_per_worker = ctx.opts.max_io_pending_queue_size_per_worker;
  super_blob = ctx.super_blob;
  bs_target = ctx.bs;
  meta_channel = ctx.channel;
  shards = shards_from sl.nb_slabs_per_shard 0 sl.nb_shards;
  slabs = slabs;
  chunkmgr_worker = no_chunkmgr;
  workers = [];
}

module _ (spdk : Spdk) (nb_chunks_per_node : ℕ → ℕ) where
  -- `_kvs_start_create_kvs_runtime`
  unfoldable pub create_kvs_runtime : StartCtx → SuperLayout → State
  create_kvs_runtime ctx sl = running_or_failed (
      slabs_from spdk nb_chunks_per_node sl 0 (u32 (sl.nb_shards * sl.nb_slabs_per_shard))
      >>= λ slabs. kvs_worker_init ctx sl (kvs_of ctx sl slabs))
