-- ===== src/Format/Step.antt =====
-- The dispatch of replies to the callbacks of src/apps/format/kvs_format.c, and runs over many replies.
use bagdb_spdk.Base.{◌≡◌, List, [], ◌∷◌, ◌++◌, refl}
use bagdb_spdk.Spdk.{Spdk, Reply}
use bagdb_spdk.Format.State.{
  FormatCtx, create_blob, bs_open_blob, blob_resize, blob_close, Call, bs_init, create_super_blob,
  set_super, open_super, resize_super, slab_call, write_super, sync_super, close_super, get_super,
  dump_open_super, dump_read_page, dump_read_super, dump_close_super, State, waiting, loading,
  unloading, stopped, idle, failed, unload_complete,
}
use bagdb_spdk.Format.Iter.{
  slab_iter_foreach_create_cb, slab_iter_foreach_open_cb, slab_iter_foreach_resize_cb,
  slab_iter_foreach_close_cb,
}
use bagdb_spdk.Format.Create.{
  bs_init_complete, super_blob_create_complete, set_super_root_complete, super_blob_open_complete,
  super_resize_complete, super_write_complete, super_sync_complete, super_blob_close_complete,
}
use bagdb_spdk.Format.Dump.{
  kvs_dump_load_complete, kvs_dump_get_super_complete, kvs_dump_super_complete,
  blob_dump_read_super_page_complete, blob_dump_super_complete, kvs_close_super_complete,
}

-- The callback of a call gets its reply.
unfoldable pub callback : Spdk → Call → FormatCtx → Reply → State
callback spdk (bs_init cluster_sz) ctx r = bs_init_complete spdk ctx r
callback spdk create_super_blob ctx r = super_blob_create_complete ctx r
callback spdk (set_super id) ctx r = set_super_root_complete ctx r
callback spdk (open_super id) ctx r = super_blob_open_complete spdk ctx r
callback spdk (resize_super n) ctx r = super_resize_complete ctx r
callback spdk (slab_call create_blob iter) ctx r = slab_iter_foreach_create_cb iter ctx r
callback spdk (slab_call (bs_open_blob id) iter) ctx r = slab_iter_foreach_open_cb iter ctx r
callback spdk (slab_call (blob_resize blob n) iter) ctx r = slab_iter_foreach_resize_cb iter ctx r
callback spdk (slab_call (blob_close blob) iter) ctx r = slab_iter_foreach_close_cb iter ctx r
callback spdk (write_super n sl) ctx r = super_write_complete ctx r
callback spdk sync_super ctx r = super_sync_complete ctx r
callback spdk close_super ctx r = super_blob_close_complete ctx r
callback spdk get_super ctx r = kvs_dump_get_super_complete ctx r
callback spdk (dump_open_super id) ctx r = kvs_dump_super_complete spdk ctx r
callback spdk dump_read_page ctx r = blob_dump_read_super_page_complete ctx r
callback spdk (dump_read_super n) ctx r = blob_dump_super_complete ctx r
callback spdk dump_close_super ctx r = kvs_close_super_complete ctx r

-- One reply. The context `junk` is what `malloc` returns to a dump.
unfoldable pub step : Spdk → FormatCtx → State → Reply → State
step spdk junk (waiting call ctx) r = callback spdk call ctx r
step spdk junk (loading devname) r = kvs_dump_load_complete spdk junk devname r
step spdk junk unloading r = unload_complete r
step spdk junk (stopped rc) r = stopped rc
step spdk junk idle r = idle
step spdk junk failed r = failed

unfoldable pub run : Spdk → FormatCtx → State → List Reply → State
run spdk junk s [] = s
run spdk junk s (r ∷ rs) = run spdk junk (step spdk junk s r) rs

pub run-append :
    (spdk : Spdk) (junk : FormatCtx) (s : State) (rs qs : List Reply)
    → run spdk junk s (rs ++ qs) ≡ run spdk junk (run spdk junk s rs) qs
unfolding run
run-append spdk junk s [] qs = refl
run-append spdk junk s (r ∷ rs) qs = run-append spdk junk (step spdk junk s r) rs qs
