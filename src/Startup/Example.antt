-- ===== src/Startup/Example.antt =====
-- A start with two workers over two shards of two slabs, for the tests.
use bagdb_spdk.Base.{ℕ, ◌%◌, ◌<◌, ◌≡◌, refl, none, some, List, [], ◌∷◌, arith, length, get_or}
use bagdb_spdk.Base.Int.{pos, negsuc}
use bagdb_spdk.Spdk.{Spdk, Reply}
use bagdb_spdk.Slab.{SlabLayout, SuperLayout, default_kvs_pin}
use bagdb_spdk.Startup.State.{StartOpts, StartCtx, Kvs, WorkerInitOpts, running}
use bagdb_spdk.Startup.Create.{kvs_start}
use bagdb_spdk.Startup.Step.{Memory, run}
use bagdb_spdk.Startup.Chain.{Accepts, IsRuntime, start_runs}

abbrev pub device : Spdk
device = record {
  bdev_get_by_name = λ name. some 1;
  bdev_get_block_size = λ bdev. 4096;
  bdev_create_bs_dev = λ bdev. some 2;
  bs_get_io_unit_size = λ bs. 4096;
  bs_alloc_io_channel = λ bs. some 3;
  get_io_channel = λ bs. some 3;
  blob_get_num_clusters = λ blob. 8;
  malloc_slabs = λ n. [];
  kvs_page_size = 4096;
}

abbrev pub opts : StartOpts
opts = record {
  kvs_name = "kvs";
  nb_works = 2;
  max_request_queue_size_per_worker = 128;
  max_io_pending_queue_size_per_worker = 64;
  max_cache_chunks = 16;
  devname = "Nvme0n1";
}

abbrev entry : ℕ → ℕ → SlabLayout
entry size id = record { slab_size = size; blob_id = id; resv = 0 }

abbrev pub layout : SuperLayout
layout = record {
  kvs_pin = default_kvs_pin;
  nb_shards = 2;
  nb_slabs_per_shard = 2;
  nb_chunks_per_reclaim_node = 4;
  nb_pages_per_chunk = 135;
  max_key_length = 256;
  slab = entry 0 10 ∷ entry 1 11 ∷ entry 0 12 ∷ entry 1 13 ∷ [];
}

abbrev pub cleared : StartCtx
cleared = record {
  bs = 0;
  opts = opts;
  io_unit_size = 0;
  super_blob_id = 0;
  super_blob = 0;
  channel = none;
  sl = none;
}

abbrev pub memory : Memory
memory = record { ctx = cleared; layout = layout; nb_chunks_per_node = λ j. 4 }

abbrev pub fine : ℕ → Reply
fine value = record { bserrno = pos 0; value = value; layout = layout }

abbrev pub broken : Reply
broken = record { bserrno = negsuc 4; value = 0; layout = layout }

abbrev pub handles : List Reply
handles = fine 20 ∷ fine 21 ∷ fine 22 ∷ fine 23 ∷ []

pub device-Accepts : Accepts device opts (fine 7) (fine 6) (fine 0)
device-Accepts = record {
  bdev = 1;
  found = refl;
  block = refl;
  dev = 2;
  made = refl;
  unit = refl;
  not_empty = omega arith;
  pin = refl;
  some_worker = omega arith;
  shared = refl;
}

pub handles-HasChunks :
    (j : ℕ)
    → j < length handles
    → (0 < memory.nb_chunks_per_node j)
      × (device.blob_get_num_clusters (get_or handles j (fine 7)).value
            % memory.nb_chunks_per_node j
          ≡ 0)
handles-HasChunks j lt = (omega arith, refl)

-- The runtime that this start builds.
abbrev pub started :
    (kvs : Kvs) × (run device memory
        (kvs_start device opts)
        (fine 7 ∷ fine 5 ∷ fine 6 ∷ fine 0 ∷ fine 0 ∷ handles)
      ≡ running kvs)
    × IsRuntime opts layout handles kvs
started =
    let (kvs, ran, is, asks) =
      start_runs device memory opts (fine 7) (fine 5) (fine 6) (fine 0) (fine 0) handles
        device-Accepts (refl, (refl, (refl, (refl, (refl, tt))))) (refl, (refl, (refl, (refl, tt))))
        (omega arith) (omega arith) refl (omega arith) handles-HasChunks in
    (kvs, ran, is)

abbrev pub no_worker : WorkerInitOpts
no_worker = record {
  chunk_cache_water_mark = 0;
  max_io_pending_queue_size_per_worker = 0;
  max_request_queue_size_per_worker = 0;
  nb_reclaim_shards = 0;
  nb_shards = 0;
  reclaim_shard_start_id = 0;
  core_id = 0;
}
