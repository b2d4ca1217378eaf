-- ===== src/Startup/Create.antt =====
-- The callbacks of src/kvs_startup.c, from `_kvs_start` to the opening of the slabs.
use bagdb_spdk.Base.{
  ℕ, ◌+◌, ◌-◌, ◌*◌, ◌/◌, ◌%◌, ◌^◌, none, some, get_elem?, set, ◌==◌, if◌then◌else◌, u32,
}
use bagdb_spdk.Base.Int.{negsuc, is_set}
use bagdb_spdk.Spdk.{Spdk, Reply}
use bagdb_spdk.Slab.{SuperLayout, default_kvs_pin, kv_align, super_size_of}
use bagdb_spdk.Format.Create.{minus_einval}
use bagdb_spdk.Startup.State.{
  StartOpts, StartCtx, get_super, open_super, read_super_page, read_all_super_pages, open_slab,
  State, loading, waiting, unload_bs, stopped, failed,
}
use bagdb_spdk.Startup.Runtime.{create_kvs_runtime}

-- `if (bserrno) { _unload_bs(kctx, …, bserrno); return; }`
unfoldable pub unless_error : StartCtx → Reply → State → State
unless_error ctx r next = if is_set r.bserrno then unload_bs (some ctx) r.bserrno else next

-- `spdk_bs_open_blob` for the entry of slab `idx`.
unfoldable pub open_blob : StartCtx → SuperLayout → ℕ → ℕ → State
open_blob ctx sl idx total = elim (get_elem? sl.slab idx) [
  | none ↦ failed
  | some slab ↦ waiting (open_slab idx total slab.blob_id) (record ctx { sl = some sl })
]

module _ (spdk : Spdk) (nb_chunks_per_node : ℕ → ℕ) where
  -- What `_kvs_start_open_blob_next` does with the blob's handle.
  unfoldable pub record_blob : StartCtx → SuperLayout → ℕ → ℕ → ℕ → State
  record_blob ctx sl idx total blob = elim (get_elem? sl.slab idx) [
    | none ↦ failed
    | some slab ↦
        let sl' : SuperLayout = record sl {
          slab = set sl.slab idx (record slab { resv = blob });
        } in
        if idx == u32 (total + 2 ^ 32 - 1)
        then create_kvs_runtime spdk nb_chunks_per_node (record ctx { sl = some sl' }) sl'
        else open_blob ctx sl' (u32 (idx + 1)) total
  ]

  -- `_kvs_start_open_blob_next`
  unfoldable pub kvs_start_open_blob_next : ℕ → ℕ → StartCtx → Reply → State
  kvs_start_open_blob_next idx total ctx r =
      unless_error ctx r
        (elim ctx.sl [ none ↦ failed | some sl ↦ record_blob ctx sl idx total r.value ])

-- `_kvs_start_open_all_blobs`
unfoldable pub kvs_start_open_all_blobs : StartCtx → SuperLayout → State
kvs_start_open_all_blobs ctx sl = open_blob ctx sl 0 (u32 (sl.nb_shards * sl.nb_slabs_per_shard))

-- `_blob_read_all_super_pages_complete`: what the read has brought is the reply's super block.
unfoldable pub blob_read_all_super_pages_complete : StartCtx → Reply → State
blob_read_all_super_pages_complete ctx r =
    unless_error ctx r (kvs_start_open_all_blobs ctx r.layout)

-- `_blob_read_super_page_complete`. The new buffer's content is not written out: the next read fills it.
unfoldable pub blob_read_super_page_complete : StartCtx → Reply → State
blob_read_super_page_complete ctx r =
    let ctx' : StartCtx = record ctx { sl = some r.layout } in
    let nb_pages =
      kv_align (super_size_of r.layout.nb_shards r.layout.nb_slabs_per_shard) 0x1000 / 0x1000 in
    unless_error ctx r (
      if r.layout.kvs_pin == default_kvs_pin
      then (if ctx.opts.nb_works == 0
          then failed
          else if r.layout.nb_shards % ctx.opts.nb_works == 0
          then waiting (read_all_super_pages nb_pages) ctx'
          else unload_bs (some ctx') minus_einval)
      else unload_bs (some ctx') minus_einval)

module _ (spdk : Spdk) where
  -- `_kvs_start_super_open_complete`: an empty super blob is unloaded with this reply's error number,
  -- which is 0. The buffer that is allocated for the super block has any content.
  unfoldable pub kvs_start_super_open_complete : SuperLayout → StartCtx → Reply → State
  kvs_start_super_open_complete junk ctx r = unless_error ctx r (
      if spdk.blob_get_num_clusters r.value == 0
      then unload_bs (some ctx) r.bserrno
      else waiting read_super_page (record ctx {
        super_blob = r.value;
        channel = spdk.get_io_channel ctx.bs;
        sl = some junk;
      }))

  -- `_kvs_start_load_bs_complete`. The context comes from `malloc`, with any content.
  unfoldable pub kvs_start_load_bs_complete : StartCtx → StartOpts → Reply → State
  kvs_start_load_bs_complete junk opts r =
      let size = spdk.bs_get_io_unit_size r.value in
      if is_set r.bserrno
      then unload_bs none r.bserrno
      else if size == spdk.kvs_page_size
      then waiting get_super
          (record junk { bs = r.value; opts = opts; io_unit_size = size; sl = none })
      else stopped (negsuc 0)

  -- `_kvs_start`
  unfoldable pub kvs_start : StartOpts → State
  kvs_start opts = elim (spdk.bdev_get_by_name opts.devname) [
    | none ↦ stopped (negsuc 0)
    | some bdev ↦
        if spdk.bdev_get_block_size bdev == spdk.kvs_page_size
        then elim (spdk.bdev_create_bs_dev bdev) [
          | none ↦ stopped (negsuc 0)
          | some dev ↦ loading opts
        ]
        else stopped (negsuc 0)
  ]

-- `_kvs_start_get_super_complete`
unfoldable pub kvs_start_get_super_complete : StartCtx → Reply → State
kvs_start_get_super_complete ctx r =
    unless_error ctx r (waiting (open_super r.value) (record ctx { super_blob_id = r.value }))
