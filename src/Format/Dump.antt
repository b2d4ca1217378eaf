-- ===== src/Format/Dump.antt =====
-- The dump of src/apps/format/kvs_format.c: `_kvs_dump` and its callbacks up to the iteration that
-- opens the slabs. What it prints is left out.
use Prim.Native.String.{String}
use bagdb_spdk.Base.{◌/◌, none, some, ◌==◌, if◌then◌else◌}
use bagdb_spdk.Base.Int.{negsuc, is_set}
use bagdb_spdk.Spdk.{Spdk, Reply}
use bagdb_spdk.Slab.{default_kvs_pin, kv_align, super_size_of}
use bagdb_spdk.Format.State.{
  FormatCtx, open_blob, close, dump_real_data, dump_all_close_complete, get_super, dump_open_super,
  dump_read_page, dump_read_super, State, waiting, loading, stopped, failed, unload_bs,
  unless_error,
}
use bagdb_spdk.Format.Iter.{slab_iter_foreach}

module _ (spdk : Spdk) where
  -- `_kvs_dump`
  unfoldable pub kvs_dump : String → State
  kvs_dump devname = elim (spdk.bdev_get_by_name devname) [
    | none ↦ stopped (negsuc 0)
    | some bdev ↦ elim (spdk.bdev_create_bs_dev bdev) [
      | none ↦ stopped (negsuc 0)
      | some dev ↦ loading devname
    ]
  ]

  -- `_kvs_dump_load_complete`. An error finds no context; the context comes from `malloc`, with any
  -- content.
  unfoldable pub kvs_dump_load_complete : FormatCtx → String → Reply → State
  kvs_dump_load_complete junk devname r =
      if is_set r.bserrno
      then stopped r.bserrno
      else waiting get_super (record junk {
        bs = some r.value;
        devname = devname;
        sl = none;
        io_unit_size = spdk.bs_get_io_unit_size r.value;
      })

  -- `_kvs_dump_super_complete`
  unfoldable pub kvs_dump_super_complete : FormatCtx → Reply → State
  kvs_dump_super_complete ctx r = unless_error ctx r (elim ctx.bs [
    | none ↦ failed
    | some bs ↦
        waiting dump_read_page
          (record ctx { super_blob = r.value; channel = spdk.get_io_channel bs })
  ])

-- `_kvs_dump_get_super_complete`
unfoldable pub kvs_dump_get_super_complete : FormatCtx → Reply → State
kvs_dump_get_super_complete ctx r =
    unless_error ctx r (waiting (dump_open_super r.value) (record ctx { super_blob_id = r.value }))

-- `_blob_dump_read_super_page_complete`: where the pin is wrong it unloads with this reply's error
-- number, which is 0. What a read brings is the reply's super block.
unfoldable pub blob_dump_read_super_page_complete : FormatCtx → Reply → State
blob_dump_read_super_page_complete ctx r = unless_error ctx r (
    if r.layout.kvs_pin == default_kvs_pin
    then waiting
        (dump_read_super
          (kv_align (super_size_of r.layout.nb_shards r.layout.nb_slabs_per_shard) 0x1000 / 0x1000))
        (record ctx { sl = some r.layout })
    else unload_bs (record ctx { sl = some r.layout }) r.bserrno)

-- `_blob_dump_super_complete`
unfoldable pub blob_dump_super_complete : FormatCtx → Reply → State
blob_dump_super_complete ctx r =
    unless_error ctx r
      (slab_iter_foreach (record ctx { sl = some r.layout }) open_blob dump_real_data)

-- `_kvs_close_super_complete`
unfoldable pub kvs_close_super_complete : FormatCtx → Reply → State
kvs_close_super_complete ctx r =
    unless_error ctx r (slab_iter_foreach ctx close dump_all_close_complete)
