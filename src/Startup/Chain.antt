-- ===== src/Startup/Chain.antt =====
-- The start of src/kvs_startup.c as a whole, when no reply brings an error.
use bagdb_spdk.Base.{
  ℕ, ◌+◌, ◌*◌, ◌/◌, ◌%◌, ◌^◌, ◌<◌, ◌≤◌, ◌≡◌, refl, ap, ◌∙◌, none, some, List, [], ◌∷◌, ◌++◌, arith,
  length, get_or, u32,
}
use bagdb_spdk.Spdk.{Spdk, Reply}
use bagdb_spdk.Slab.{SlabLayout, SuperLayout, default_kvs_pin, kv_align, super_size_of}
use bagdb_spdk.Base.Int.{pos}
use bagdb_spdk.Format.State as F
use bagdb_spdk.Format.Marks.{no_slab, length-mark_from, mark_from_entry}
use bagdb_spdk.Format.Slabs.{NoError}
use bagdb_spdk.Startup.State.{
  StartOpts, StartCtx, Slab, WorkerInitOpts, Kvs, running, loading, waiting, get_super, open_super,
  read_super_page, read_all_super_pages,
}
use bagdb_spdk.Startup.Runtime.{kvs_worker_init, with_workers, kvs_of, create_kvs_runtime}
use bagdb_spdk.Startup.Create.{
  unless_error, kvs_start_open_all_blobs, blob_read_all_super_pages_complete,
  blob_read_super_page_complete, kvs_start_super_open_complete, kvs_start_load_bs_complete,
  kvs_start, kvs_start_get_super_complete,
}
use bagdb_spdk.Startup.Step.{Memory, callback, step, run}
use bagdb_spdk.Startup.Open.{opened_from, run-kvs_start_open_all_blobs}
use bagdb_spdk.Startup.Asked.{asked, asked-step, opens_from}
use bagdb_spdk.Startup.Layout.{
  slab_of, no_shard, shards_from-entry, workers_from-fields, HasChunks, slabs_from-entry,
}

-- A device with a store whose super block, read twice, suits the options.
pub record Accepts (spdk : Spdk) (opts : StartOpts) (r0 r2 r3 : Reply) : Type 0 where
  pub bdev : ℕ
  pub found : spdk.bdev_get_by_name opts.devname ≡ some bdev
  pub block : spdk.bdev_get_block_size bdev ≡ spdk.kvs_page_size
  pub dev : ℕ
  pub made : spdk.bdev_create_bs_dev bdev ≡ some dev
  pub unit : spdk.bs_get_io_unit_size r0.value ≡ spdk.kvs_page_size
  pub not_empty : 0 < spdk.blob_get_num_clusters r2.value
  pub pin : r3.layout.kvs_pin ≡ default_kvs_pin
  pub some_worker : 0 < opts.nb_works
  pub shared : r3.layout.nb_shards % opts.nb_works ≡ 0

-- The runtime takes the key length from the super block; its slabs have the sizes that stand there
-- and the handles of the replies `os`; shard `s` has the slabs from `s * nb_slabs_per_shard` on;
-- and worker `w` the shards from `w * (nb_shards / nb_works)` on, on core `w + 1`; the chunk
-- manager is on core 0.
pub record IsRuntime (opts : StartOpts) (sl : SuperLayout) (os : List Reply) (kvs : Kvs)
    : Type 0 where
  pub nb_shards : kvs.nb_shards ≡ sl.nb_shards
  pub nb_workers : kvs.nb_workers ≡ opts.nb_works
  pub max_key_length : kvs.max_key_length ≡ sl.max_key_length
  pub slab :
      (k : ℕ) (d : Reply) (e : Slab)
      → k < length os
      → get_or kvs.slabs k e ≡ record {
        slab_size = (get_or sl.slab k no_slab).slab_size;
        blob = (get_or os k d).value;
        flag = 0;
      }
  pub shard :
      (s : ℕ)
      → s < sl.nb_shards
      → get_or kvs.shards s no_shard
        ≡ record { nb_slabs = sl.nb_slabs_per_shard; slab_set = u32 (s * sl.nb_slabs_per_shard) }
  pub chunkmgr : kvs.chunkmgr_worker.core_id ≡ 0
  pub worker :
      (w : ℕ) (d : WorkerInitOpts)
      → w < opts.nb_works
      → ((get_or kvs.workers w d).reclaim_shard_start_id ≡ u32 (w * (sl.nb_shards / opts.nb_works)))
        × ((get_or kvs.workers w d).nb_reclaim_shards ≡ sl.nb_shards / opts.nb_works)
        × ((get_or kvs.workers w d).core_id ≡ u32 (w + 1))

-- The pages of the super blob that the start reads.
abbrev pub super_pages : SuperLayout → ℕ
super_pages sl = kv_align (super_size_of sl.nb_shards sl.nb_slabs_per_shard) 0x1000 / 0x1000

module _ (spdk : Spdk) (memory : Memory) (opts : StartOpts) (r0 r1 r2 r3 r4 : Reply)
    (acc : Accepts spdk opts r0 r2 r3) where
  -- The context when the super block has been read.
  abbrev read_ctx : StartCtx
  read_ctx = record {
    bs = r0.value;
    opts = opts;
    io_unit_size = spdk.bs_get_io_unit_size r0.value;
    super_blob_id = r1.value;
    super_blob = r2.value;
    channel = spdk.get_io_channel r0.value;
    sl = some r3.layout;
  }

  up_to_open :
      (rest : List Reply)
      → NoError (r0 ∷ r1 ∷ r2 ∷ r3 ∷ r4 ∷ [])
      → run spdk memory (kvs_start spdk opts) (r0 ∷ r1 ∷ r2 ∷ r3 ∷ r4 ∷ rest)
        ≡ run spdk memory (kvs_start_open_all_blobs read_ctx r4.layout) rest
  unfolding run step callback unless_error kvs_start kvs_start_load_bs_complete
      kvs_start_get_super_complete kvs_start_super_open_complete blob_read_super_page_complete
      blob_read_all_super_pages_complete
  up_to_open rest ok = ground (
    arith, ok.0, ok.1.0, ok.1.1.0, ok.1.1.1.0, ok.1.1.1.1.0, acc.found, acc.block, acc.made,
    acc.unit, acc.not_empty, acc.pin, acc.some_worker, acc.shared,
  )

  abbrev given : StartCtx
  given = record memory.ctx {
    bs = r0.value;
    opts = opts;
    io_unit_size = spdk.bs_get_io_unit_size r0.value;
    sl = none;
  }

  abbrev with_id : StartCtx
  with_id = record given { super_blob_id = r1.value }

  abbrev with_blob : StartCtx
  with_blob = record read_ctx { sl = some memory.layout }

  starts : kvs_start spdk opts ≡ loading opts
  unfolding kvs_start
  starts = ground (arith, acc.found, acc.block, acc.made)

  loads : r0.bserrno ≡ pos 0 → step spdk memory (loading opts) r0 ≡ waiting get_super given
  unfolding step kvs_start_load_bs_complete
  loads ok = ground (arith, ok, acc.unit)

  finds :
      r1.bserrno ≡ pos 0
      → step spdk memory (waiting get_super given) r1 ≡ waiting (open_super r1.value) with_id
  unfolding step callback unless_error kvs_start_get_super_complete
  finds ok = rw ok refl

  opens :
      r2.bserrno ≡ pos 0
      → step spdk memory (waiting (open_super r1.value) with_id) r2
        ≡ waiting read_super_page with_blob
  unfolding step callback unless_error kvs_start_super_open_complete
  opens ok = ground (arith, ok, acc.not_empty)

  reads :
      r3.bserrno ≡ pos 0
      → step spdk memory (waiting read_super_page with_blob) r3
        ≡ waiting (read_all_super_pages (super_pages r3.layout)) read_ctx
  unfolding step callback unless_error blob_read_super_page_complete
  reads ok = ground (arith, ok, acc.pin, acc.some_worker, acc.shared)

  goes_on :
      r4.bserrno ≡ pos 0
      → step spdk memory (waiting (read_all_super_pages (super_pages r3.layout)) read_ctx) r4
        ≡ kvs_start_open_all_blobs read_ctx r4.layout
  unfolding step callback unless_error blob_read_all_super_pages_complete
  goes_on ok = rw ok refl

  asked_up_to_open :
      (rest : List Reply)
      → NoError (r0 ∷ r1 ∷ r2 ∷ r3 ∷ r4 ∷ [])
      → asked spdk memory (kvs_start spdk opts) (r0 ∷ r1 ∷ r2 ∷ r3 ∷ r4 ∷ rest)
        ≡ (get_super
            ∷ open_super r1.value
            ∷ read_super_page
            ∷ read_all_super_pages (super_pages r3.layout)
            ∷ [])
          ++ asked spdk memory (kvs_start_open_all_blobs read_ctx r4.layout) rest
  asked_up_to_open rest ok =
      ap (λ t. asked spdk memory t (r0 ∷ r1 ∷ r2 ∷ r3 ∷ r4 ∷ rest)) starts
      ∙ ap (λ t. asked spdk memory t (r1 ∷ r2 ∷ r3 ∷ r4 ∷ rest)) (loads ok.0)
      ∙ asked-step spdk memory _ get_super given r1 (r2 ∷ r3 ∷ r4 ∷ rest) (finds ok.1.0)
      ∙ ap (λ l. get_super ∷ l)
          (asked-step spdk memory _ (open_super r1.value) with_id r2 (r3 ∷ r4 ∷ rest)
              (opens ok.1.1.0)
            ∙ ap (λ l. open_super r1.value ∷ l)
                (asked-step spdk memory _ read_super_page with_blob r3 (r4 ∷ rest)
                    (reads ok.1.1.1.0)
                  ∙ ap (λ l. read_super_page ∷ l)
                      (asked-step spdk memory _ (read_all_super_pages (super_pages r3.layout))
                        read_ctx r4 rest (goes_on ok.1.1.1.1.0))))

  abbrev opened : List Reply → List SlabLayout
  opened os = opened_from spdk memory read_ctx r4.layout 0 os r4.layout.slab

  abbrev opened_layout : List Reply → SuperLayout
  opened_layout os = record r4.layout { slab = opened os }

  module _ (os : List Reply) (some_slab : 0 < length os) (small : length os < 2 ^ 32)
      (total : length os ≡ r4.layout.nb_shards * r4.layout.nb_slabs_per_shard)
      (room : length os ≤ length r4.layout.slab)
      (chunks : (j : ℕ)
        → j < length os
        → (0 < memory.nb_chunks_per_node j)
          × (spdk.blob_get_num_clusters (get_or os j r0).value % memory.nb_chunks_per_node j
              ≡ 0)) where
    opened_entry :
        (d : Reply) (k : ℕ)
        → k < length os
        → get_or (opened os) k no_slab
          ≡ record (get_or r4.layout.slab k no_slab) { resv = (get_or os k d).value }
    opened_entry d k lt = mark_from_entry F.OpType.open_blob [] 1 d k os r4.layout.slab lt room

    opened_chunks :
        (j : ℕ) → j < length os → HasChunks spdk memory.nb_chunks_per_node (opened_layout os) j
    opened_chunks j lt = rw (opened_entry r0 j lt) (chunks j lt)

    kvs_with : List Slab → Kvs
    kvs_with slabs =
        with_workers read_ctx (opened_layout os) (kvs_of read_ctx (opened_layout os) slabs)

    kvs_with-IsRuntime :
        (slabs : List Slab)
        → ((k : ℕ) (d : Slab)
            → k < length os
            → get_or slabs k d ≡ slab_of (get_or (opened os) k no_slab))
        → IsRuntime opts r4.layout os (kvs_with slabs)
    unfolding kvs_with with_workers kvs_of
    kvs_with-IsRuntime slabs same = record {
      nb_shards = refl;
      nb_workers = refl;
      max_key_length = refl;
      slab = λ k d e lt. same k e lt ∙ ap slab_of (opened_entry d k lt);
      shard = λ s lt.
          rw (let e : 0 + s ≡ s = omega arith in e) at
            (shards_from-entry r4.layout.nb_slabs_per_shard 0 r4.layout.nb_shards s lt);
      chunkmgr = refl;
      worker = λ w d lt. workers_from-fields _ d opts.nb_works w lt;
    }

    built :
        (kvs : Kvs) × (create_kvs_runtime spdk memory.nb_chunks_per_node
            (record read_ctx { sl = some (opened_layout os) })
            (opened_layout os)
          ≡ running kvs)
        × IsRuntime opts r4.layout os kvs
    unfolding create_kvs_runtime kvs_worker_init kvs_with with_workers kvs_of
    built =
        let (slabs, made, same) =
          slabs_from-entry spdk memory.nb_chunks_per_node (opened_layout os) (length os)
            (omega (arith, length-mark_from F.OpType.open_blob [] 1 0 os r4.layout.slab, room))
            opened_chunks in
        let word : u32 (r4.layout.nb_shards * r4.layout.nb_slabs_per_shard) ≡ length os =
          omega arith in
        (kvs_with slabs, ground (arith, word, made, acc.some_worker), kvs_with-IsRuntime slabs same)

-- The start of a store on a device that SPDK accepts, whose super block has the pin and a number of
-- shards that the workers share evenly: when no reply brings an error, there is one for each slab,
-- and the assertion about each slab's clusters holds, the runtime is built. Its slab `k` has the
-- size of entry `k` of the super block and the handle of the `k`-th blob opened; each shard has its
-- own range of the slabs, and each worker its own range of the shards, on its own core. Up to there
-- it asks for the super blob, to open it, to read its first page and then the pages of its size,
-- and to open the blob of the id in each entry of the super block that was read, once, in their
-- order.
pub start_runs :
    (spdk : Spdk) (memory : Memory) (opts : StartOpts) (r0 r1 r2 r3 r4 : Reply) (os : List Reply)
    → Accepts spdk opts r0 r2 r3
    → NoError (r0 ∷ r1 ∷ r2 ∷ r3 ∷ r4 ∷ [])
    → NoError os
    → 0 < length os
    → length os < 2 ^ 32
    → length os ≡ r4.layout.nb_shards * r4.layout.nb_slabs_per_shard
    → length os ≤ length r4.layout.slab
    → ((j : ℕ)
        → j < length os
        → (0 < memory.nb_chunks_per_node j)
          × (spdk.blob_get_num_clusters (get_or os j r0).value % memory.nb_chunks_per_node j ≡ 0))
    → (kvs : Kvs) × (run spdk memory (kvs_start spdk opts) (r0 ∷ r1 ∷ r2 ∷ r3 ∷ r4 ∷ os)
        ≡ running kvs)
      × IsRuntime opts r4.layout os kvs
      × (asked spdk memory (kvs_start spdk opts) (r0 ∷ r1 ∷ r2 ∷ r3 ∷ r4 ∷ os)
          ≡ (get_super
              ∷ open_super r1.value
              ∷ read_super_page
              ∷ read_all_super_pages (super_pages r3.layout)
              ∷ [])
            ++ opens_from (length os) 0 os r4.layout.slab)
start_runs spdk memory opts r0 r1 r2 r3 r4 os acc ok oko some_slab small total room chunks =
    let (kvs, made, is) =
      built spdk memory opts r0 r1 r2 r3 r4 acc os some_slab small total room chunks in
    let (ran, asks) =
      run-kvs_start_open_all_blobs spdk memory (read_ctx spdk memory opts r0 r1 r2 r3 r4 acc)
        r4.layout os some_slab small total room oko in
    (
      kvs,
      up_to_open spdk memory opts r0 r1 r2 r3 r4 acc os ok ∙ ran ∙ made,
      is,
      asked_up_to_open spdk memory opts r0 r1 r2 r3 r4 acc os ok
          ∙ ap
              (λ l.
                (get_super
                  ∷ open_super r1.value
                  ∷ read_super_page
                  ∷ read_all_super_pages (super_pages r3.layout)
                  ∷ [])
                ++ l)
              asks,
    )
