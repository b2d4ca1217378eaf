-- ===== src/Startup/State.antt =====
-- The data of src/kvs_startup.c: options, context, the runtime that is built, and the calls that are
-- waited for.
use Prim.Native.String.{String}
use bagdb_spdk.Base.{ℕ, Option, List}
use bagdb_spdk.Base.Int.{ℤ}
use bagdb_spdk.Slab.{SuperLayout}

-- `struct kvs_start_opts`, without SPDK's own options and the function that is called in the end.
pub record StartOpts : Type 0 where
  pub kvs_name : String
  pub nb_works : ℕ
  pub max_request_queue_size_per_worker : ℕ
  pub max_io_pending_queue_size_per_worker : ℕ
  pub max_cache_chunks : ℕ
  pub devname : String

-- `struct slab`, as far as the start fills it.
pub record Slab : Type 0 where
  pub slab_size : ℕ
  pub blob : ℕ
  pub flag : ℕ

-- `struct slab_shard`. A pointer to slabs is the index of the first.
pub record SlabShard : Type 0 where
  pub nb_slabs : ℕ
  pub slab_set : ℕ

-- `struct chunkmgr_worker_init_opts`
pub record ChunkmgrInitOpts : Type 0 where
  pub nb_business_workers : ℕ
  pub nb_pages_per_chunk : ℕ
  pub nb_max_cache_chunks : ℕ
  pub core_id : ℕ

-- `struct worker_init_opts`, without the two parameters of the reclaiming, which the start of the
-- runtime leaves unset, and without what is the same pointer for all workers.
pub record WorkerInitOpts : Type 0 where
  pub chunk_cache_water_mark : ℕ
  pub max_io_pending_queue_size_per_worker : ℕ
  pub max_request_queue_size_per_worker : ℕ
  pub nb_reclaim_shards : ℕ
  pub nb_shards : ℕ
  pub reclaim_shard_start_id : ℕ
  pub core_id : ℕ

-- `struct kvs`. The workers stand as the options that `worker_alloc` got for each; `slabs` is the array
-- behind the shards, into which their `slab_set` points.
pub record Kvs : Type 0 where
  pub kvs_name : String
  pub max_key_length : ℕ
  pub nb_workers : ℕ
  pub nb_shards : ℕ
  pub max_request_queue_size_per_worker : ℕ
  pub max_io_pending_queue_size_per_worker : ℕ
  pub super_blob : ℕ
  pub bs_target : ℕ
  pub meta_channel : Option ℕ
  pub shards : List SlabShard
  pub slabs : List Slab
  pub chunkmgr_worker : ChunkmgrInitOpts
  pub workers : List WorkerInitOpts

-- `struct kvs_start_ctx`; `sl` is none before it is allocated.
pub record StartCtx : Type 0 where
  pub bs : ℕ
  pub opts : StartOpts
  pub io_unit_size : ℕ
  pub super_blob_id : ℕ
  pub super_blob : ℕ
  pub channel : Option ℕ
  pub sl : Option SuperLayout

-- The call whose callback is waited for. `open_slab` has the iteration's `slab_idx` and `total_slabs`,
-- and the id of the blob that is opened.
pub data Call : Type 0 where
  get_super : Call
  open_super : ℕ → Call
  read_super_page : Call
  read_all_super_pages : ℕ → Call
  open_slab : ℕ → ℕ → ℕ → Call

-- `loading`: `spdk_bs_load` is waited for, and there is no context yet. `unload_bs`: `_unload_bs` is
-- called with the context, or NULL, and the error number; it is not part of the repository. `running`:
-- the workers have been started. `failed`: a failed assertion, a NULL pointer, a division by zero or
-- an index out of range.
pub data State : Type 0 where
  loading : StartOpts → State
  waiting : Call → StartCtx → State
  unload_bs : Option StartCtx → ℤ → State
  stopped : ℤ → State
  running : Kvs → State
  failed : State
