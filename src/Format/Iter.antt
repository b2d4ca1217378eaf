-- ===== src/Format/Iter.antt =====
-- The iteration of src/apps/format/kvs_format.c over the slabs, and the chain of callbacks that formats
-- a device once the iterations are done.
use bagdb_spdk.Base.{
  ℕ, ◌+◌, ◌-◌, ◌*◌, ◌/◌, ◌%◌, ◌^◌, Option, none, some, get_elem?, set, ltb, ◌==◌, if◌then◌else◌,
  u32, ◌>>=◌,
}
use bagdb_spdk.Base.Int.{pos}
use bagdb_spdk.Spdk.{Reply}
use bagdb_spdk.Slab.{SlabLayout, SuperLayout, kv_align}
use bagdb_spdk.Format.State.{
  FormatCtx, OpType, create, open_blob, resize, close, Finished, all_create_complete,
  all_open_complete, do_super_write, all_close_complete, dump_real_data, dump_all_close_complete,
  BlobIter, SlabCall, create_blob, bs_open_blob, blob_resize, blob_close, slab_call, write_super,
  dump_close_super, State, waiting, failed, unload_bs, unless_error, with_sl,
}

-- What `_slab_iter_do_op` asks of the blobstore.
unfoldable pub request : SuperLayout → ℕ → SlabLayout → OpType → SlabCall
request sl nodes slab create = create_blob
request sl nodes slab open_blob = bs_open_blob slab.blob_id
request sl nodes slab resize = blob_resize slab.resv (u32 (nodes * sl.nb_chunks_per_reclaim_node))
request sl nodes slab close = blob_close slab.resv

-- `_slab_iter_do_op` on the slab `iter->slab_idx`.
unfoldable pub slab_iter_do_op : BlobIter → FormatCtx → State
slab_iter_do_op iter ctx = with_sl ctx λ sl. elim (get_elem? sl.slab iter.slab_idx) [
  | none ↦ failed
  | some slab ↦
      waiting (slab_call (request sl ctx.nb_init_nodes_per_slab slab iter.op_type) iter) ctx
]

-- `_slab_iter_foreach`
unfoldable pub slab_iter_foreach : FormatCtx → OpType → Finished → State
slab_iter_foreach ctx op finished = with_sl ctx λ sl.
    slab_iter_do_op
      (record {
        op_type = op;
        slab_idx = 0;
        total_slabs = u32 (sl.nb_shards * sl.nb_slabs_per_shard);
        finished_cb = finished;
      })
      ctx

-- `_do_super_write`: what is written is the super block as it is then.
unfoldable pub super_write : FormatCtx → State
super_write ctx =
    with_sl ctx λ sl. waiting (write_super (kv_align ctx.super_size 0x1000 / 0x1000) sl) ctx

-- `_slab_all_create_complete`
unfoldable pub slab_all_create_complete : FormatCtx → State
slab_all_create_complete ctx =
    if ltb 0 ctx.nb_init_nodes_per_slab
    then slab_iter_foreach ctx open_blob all_open_complete
    else super_write ctx

-- `_slab_all_open_complete`
unfoldable pub slab_all_open_complete : FormatCtx → State
slab_all_open_complete ctx = slab_iter_foreach ctx resize do_super_write

-- `_slab_all_close_complete`
unfoldable pub slab_all_close_complete : FormatCtx → State
slab_all_close_complete ctx = unload_bs ctx (pos 0)

-- `_kvs_dump_real_data`: it prints, and closes the super blob.
unfoldable pub kvs_dump_real_data : FormatCtx → State
kvs_dump_real_data ctx = waiting dump_close_super ctx

-- `_kvs_dump_slab_all_close_complete`
unfoldable pub kvs_dump_slab_all_close_complete : FormatCtx → State
kvs_dump_slab_all_close_complete ctx = unload_bs ctx (pos 0)

-- The call `finished_cb(kctx)`.
unfoldable pub finish : Finished → FormatCtx → State
finish all_create_complete ctx = slab_all_create_complete ctx
finish all_open_complete ctx = slab_all_open_complete ctx
finish do_super_write ctx = super_write ctx
finish all_close_complete ctx = slab_all_close_complete ctx
finish dump_real_data ctx = kvs_dump_real_data ctx
finish dump_all_close_complete ctx = kvs_dump_slab_all_close_complete ctx

-- `_slab_iter_foreach_next`. `total_slabs - 1` is unsigned.
unfoldable pub slab_iter_foreach_next : BlobIter → FormatCtx → State
slab_iter_foreach_next iter ctx =
    if iter.slab_idx == u32 (iter.total_slabs + 2 ^ 32 - 1)
    then finish iter.finished_cb ctx
    else slab_iter_do_op (record iter { slab_idx = u32 (iter.slab_idx + 1) }) ctx

-- The entry of slab `idx` rewritten; `none` is a NULL pointer or an index out of range.
unfoldable pub update_slab :
    FormatCtx → ℕ → (SuperLayout → SlabLayout → Option SlabLayout) → Option FormatCtx
update_slab ctx idx f = do
  sl ← ctx.sl
  slab ← get_elem? sl.slab idx
  slab' ← f sl slab
  some (record ctx { sl = some (record sl { slab = set sl.slab idx slab' }) })

abbrev pub or_failed : Option FormatCtx → (FormatCtx → State) → State
or_failed none next = failed
or_failed (some ctx) next = next ctx

-- `_slab_iter_foreach_create_cb`: the entry gets the slab's size and the blob's id.
unfoldable pub slab_iter_foreach_create_cb : BlobIter → FormatCtx → Reply → State
slab_iter_foreach_create_cb iter ctx r = unless_error ctx r (
    or_failed
      (update_slab ctx iter.slab_idx λ sl slab.
        get_elem? ctx.slab_size_array (iter.slab_idx % sl.nb_slabs_per_shard) >>= λ size.
        some (record slab { slab_size = size; blob_id = r.value }))
      (slab_iter_foreach_next iter))

-- `_slab_iter_foreach_open_cb`: the entry gets the blob's handle.
unfoldable pub slab_iter_foreach_open_cb : BlobIter → FormatCtx → Reply → State
slab_iter_foreach_open_cb iter ctx r = unless_error ctx r (
    or_failed (update_slab ctx iter.slab_idx λ sl slab. some (record slab { resv = r.value }))
      (slab_iter_foreach_next iter))

-- `_slab_iter_foreach_resize_cb`
unfoldable pub slab_iter_foreach_resize_cb : BlobIter → FormatCtx → Reply → State
slab_iter_foreach_resize_cb iter ctx r = unless_error ctx r (slab_iter_foreach_next iter ctx)

-- `_slab_iter_foreach_close_cb`
unfoldable pub slab_iter_foreach_close_cb : BlobIter → FormatCtx → Reply → State
slab_iter_foreach_close_cb iter ctx r = unless_error ctx r (slab_iter_foreach_next iter ctx)
