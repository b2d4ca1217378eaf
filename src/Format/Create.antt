-- ===== src/Format/Create.antt =====
-- The formatting chain of src/apps/format/kvs_format.c, from `_kvs_create` to the last callback.
use Prim.Native.String.{String}
use bagdb_spdk.Base.{
  ℕ, ◌+◌, ◌*◌, ◌/◌, ◌%◌, Bool, false, none, some, ltb, ◌==◌, u32, if◌then◌else◌, u32,
}
use bagdb_spdk.Base.Int.{ℤ, negsuc}
use bagdb_spdk.Spdk.{Spdk, Reply}
use bagdb_spdk.Slab.{default_kvs_pin, slab_get_slab_conf, kv_align, super_size_of, slab_room}
use bagdb_spdk.Format.State.{
  FormatCtx, create, close, all_create_complete, all_close_complete, bs_init, create_super_blob,
  set_super, open_super, resize_super, sync_super, close_super, State, waiting, stopped, idle,
  failed, unload_bs, unless_error, with_sl,
}
use bagdb_spdk.Format.Iter.{slab_iter_foreach}

-- `struct kvs_create_opts`, and its values `_g_default_opts`.
pub record CreateOpts : Type 0 where
  pub devname : String
  pub nb_shards : ℕ
  pub max_key_length : ℕ
  pub nb_chunks_per_reclaim_node : ℕ
  pub nb_init_nodes_per_slab : ℕ
  pub force_format : Bool
  pub dump_only : Bool

abbrev pub default_opts : CreateOpts
default_opts = record {
  devname = "Nvme0n1";
  nb_shards = 64;
  max_key_length = 256;
  nb_chunks_per_reclaim_node = 4;
  nb_init_nodes_per_slab = 10;
  force_format = false;
  dump_only = false;
}

-- -EINVAL, -ENOMEM
abbrev pub minus_einval : ℤ
minus_einval = negsuc 21

abbrev pub minus_enomem : ℤ
minus_enomem = negsuc 11

module _ (spdk : Spdk) where
  -- `_fill_super_parameters`, on a context that `calloc` has cleared.
  unfoldable pub fill_super_parameters : CreateOpts → FormatCtx
  fill_super_parameters opts =
      let conf = slab_get_slab_conf in
      let super_size = super_size_of opts.nb_shards conf.nb_slabs in
      record {
        bs = none;
        super_blob_id = 0;
        super_blob = 0;
        io_unit_size = 0;
        nb_init_nodes_per_slab = opts.nb_init_nodes_per_slab;
        channel = none;
        devname = opts.devname;
        super_size = super_size;
        sl = some (record {
          kvs_pin = default_kvs_pin;
          nb_shards = opts.nb_shards;
          nb_slabs_per_shard = conf.nb_slabs;
          nb_chunks_per_reclaim_node = opts.nb_chunks_per_reclaim_node;
          nb_pages_per_chunk = conf.chunk_pages;
          max_key_length = opts.max_key_length;
          slab = spdk.malloc_slabs (slab_room super_size);
        });
        slab_size_array = conf.slab_size_array;
        nb_slabs = conf.nb_slabs;
      }

  -- `_kvs_create`
  unfoldable pub kvs_create : CreateOpts → State
  kvs_create opts =
      let ctx = fill_super_parameters opts in
      elim (spdk.bdev_get_by_name ctx.devname) [
        | none ↦ stopped (negsuc 0)
        | some bdev ↦
            if spdk.bdev_get_block_size bdev == spdk.kvs_page_size
            then elim (spdk.bdev_create_bs_dev bdev) [
              | none ↦ stopped (negsuc 0)
              | some dev ↦
                  with_sl ctx
                    λ sl. waiting (bs_init (u32 (sl.nb_pages_per_chunk * spdk.kvs_page_size))) ctx
            ]
            else stopped (negsuc 0)
      ]

  -- `bs_init_complete`, and `_create_super_blob`, which it calls in the end.
  unfoldable pub bs_init_complete : FormatCtx → Reply → State
  bs_init_complete ctx r =
      let size = spdk.bs_get_io_unit_size r.value in
      unless_error ctx r (
        if size == spdk.kvs_page_size
        then waiting create_super_blob (record ctx { bs = some r.value; io_unit_size = size })
        else stopped (negsuc 0))

  -- What `_super_blob_open_complete` does once the channel is there: the super blob is resized to as
  -- many clusters as its pages take.
  unfoldable pub resize_super_blob : FormatCtx → State
  resize_super_blob ctx = with_sl ctx λ sl.
      let nb_pages = kv_align ctx.super_size 0x1000 / spdk.kvs_page_size in
      waiting
        (resize_super (
          nb_pages / sl.nb_pages_per_chunk
          + (if nb_pages % sl.nb_pages_per_chunk == 0 then 0 else 1)))
        ctx

  -- `_super_blob_open_complete`
  unfoldable pub super_blob_open_complete : FormatCtx → Reply → State
  super_blob_open_complete ctx r = unless_error ctx r (elim ctx.bs [
    | none ↦ failed
    | some bs ↦ elim (spdk.bs_alloc_io_channel bs) [
      | none ↦ unload_bs (record ctx { super_blob = r.value; channel = none }) minus_enomem
      | some channel ↦
          resize_super_blob (record ctx { super_blob = r.value; channel = some channel })
    ]
  ])

-- `_super_blob_create_complete`
unfoldable pub super_blob_create_complete : FormatCtx → Reply → State
super_blob_create_complete ctx r =
    unless_error ctx r (waiting (set_super r.value) (record ctx { super_blob_id = r.value }))

-- `_set_super_root_complete`
unfoldable pub set_super_root_complete : FormatCtx → Reply → State
set_super_root_complete ctx r = unless_error ctx r (waiting (open_super ctx.super_blob_id) ctx)

-- `_super_resize_complete`
unfoldable pub super_resize_complete : FormatCtx → Reply → State
super_resize_complete ctx r = unless_error ctx r (slab_iter_foreach ctx create all_create_complete)

-- `_super_write_complete`
unfoldable pub super_write_complete : FormatCtx → Reply → State
super_write_complete ctx r = unless_error ctx r (waiting sync_super ctx)

-- `_super_sync_complete`
unfoldable pub super_sync_complete : FormatCtx → Reply → State
super_sync_complete ctx r = unless_error ctx r (waiting close_super ctx)

-- `_super_blob_close_complete`: nothing is waited for where no slab has been opened.
unfoldable pub super_blob_close_complete : FormatCtx → Reply → State
super_blob_close_complete ctx r = unless_error ctx r (
    if ltb 0 ctx.nb_init_nodes_per_slab
    then slab_iter_foreach ctx close all_close_complete
    else idle)
