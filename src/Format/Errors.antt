-- ===== src/Format/Errors.antt =====
-- Errors in the chains of src/apps/format/kvs_format.c.
use bagdb_spdk.Base.{◌≡◌, refl, true, none, some, List, [], ◌∷◌, arith, Option-cases, inl, inr}
use bagdb_spdk.Base.Int.{ℤ, is_set}
use bagdb_spdk.Spdk.{Spdk, Reply}
use bagdb_spdk.Format.State.{
  FormatCtx, create_blob, bs_open_blob, blob_resize, blob_close, Call, bs_init, create_super_blob,
  set_super, open_super, resize_super, slab_call, write_super, sync_super, close_super, get_super,
  dump_open_super, dump_read_page, dump_read_super, dump_close_super, State, waiting, stopped,
  unload_complete, unload_bs, unless_error,
}
use bagdb_spdk.Format.Iter.{
  slab_iter_foreach_create_cb, slab_iter_foreach_open_cb, slab_iter_foreach_resize_cb,
  slab_iter_foreach_close_cb,
}
use bagdb_spdk.Format.Create.{
  bs_init_complete, super_blob_create_complete, set_super_root_complete, super_blob_open_complete,
  super_resize_complete, super_write_complete, super_sync_complete, super_blob_close_complete,
}
use bagdb_spdk.Format.Dump.{
  kvs_dump_get_super_complete, kvs_dump_super_complete, blob_dump_read_super_page_complete,
  blob_dump_super_complete, kvs_close_super_complete,
}
use bagdb_spdk.Format.Step.{callback, step, run}

run-stopped :
    (spdk : Spdk) (junk : FormatCtx) (rc : ℤ) (rs : List Reply)
    → run spdk junk (stopped rc) rs ≡ stopped rc
unfolding run step
run-stopped spdk junk rc [] = refl
run-stopped spdk junk rc (r ∷ rs) = run-stopped spdk junk rc rs

unless_error-error :
    (ctx : FormatCtx) (r : Reply) (next : State)
    → is_set r.bserrno ≡ true
    → unless_error ctx r next ≡ unload_bs ctx r.bserrno
unfolding unless_error
unless_error-error ctx r next e = rw e refl

-- Every callback begins with the test for an error.
callback-error :
    (spdk : Spdk) (call : Call) (ctx : FormatCtx) (r : Reply)
    → is_set r.bserrno ≡ true
    → callback spdk call ctx r ≡ unload_bs ctx r.bserrno
unfolding callback bs_init_complete super_blob_create_complete set_super_root_complete
    super_blob_open_complete super_resize_complete super_write_complete super_sync_complete
    super_blob_close_complete slab_iter_foreach_create_cb slab_iter_foreach_open_cb
    slab_iter_foreach_resize_cb slab_iter_foreach_close_cb kvs_dump_get_super_complete
    kvs_dump_super_complete blob_dump_read_super_page_complete blob_dump_super_complete
    kvs_close_super_complete
callback-error spdk (bs_init cluster_sz) ctx r e = unless_error-error ctx r _ e
callback-error spdk create_super_blob ctx r e = unless_error-error ctx r _ e
callback-error spdk (set_super id) ctx r e = unless_error-error ctx r _ e
callback-error spdk (open_super id) ctx r e = unless_error-error ctx r _ e
callback-error spdk (resize_super n) ctx r e = unless_error-error ctx r _ e
callback-error spdk (slab_call create_blob iter) ctx r e = unless_error-error ctx r _ e
callback-error spdk (slab_call (bs_open_blob id) iter) ctx r e = unless_error-error ctx r _ e
callback-error spdk (slab_call (blob_resize blob n) iter) ctx r e = unless_error-error ctx r _ e
callback-error spdk (slab_call (blob_close blob) iter) ctx r e = unless_error-error ctx r _ e
callback-error spdk (write_super n sl) ctx r e = unless_error-error ctx r _ e
callback-error spdk sync_super ctx r e = unless_error-error ctx r _ e
callback-error spdk close_super ctx r e = unless_error-error ctx r _ e
callback-error spdk get_super ctx r e = unless_error-error ctx r _ e
callback-error spdk (dump_open_super id) ctx r e = unless_error-error ctx r _ e
callback-error spdk dump_read_page ctx r e = unless_error-error ctx r _ e
callback-error spdk (dump_read_super n) ctx r e = unless_error-error ctx r _ e
callback-error spdk dump_close_super ctx r e = unless_error-error ctx r _ e

-- What the program stops with after the error of `r`, when `u` is the next reply.
abbrev pub exit_code : FormatCtx → Reply → Reply → ℤ
exit_code ctx r u = elim ctx.bs [ none ↦ r.bserrno | some bs ↦ u.bserrno ]

-- An error in the reply to any call that is waited for with a context ends the chain: whatever replies
-- follow, the program stops. It stops with the error while there is no blobstore. With one it
-- unloads, and stops with what the unloading returns: the error is lost.
pub error_stops :
    (spdk : Spdk) (junk : FormatCtx) (call : Call) (ctx : FormatCtx) (r u : Reply)
    (rest : List Reply)
    → is_set r.bserrno ≡ true
    → run spdk junk (waiting call ctx) (r ∷ u ∷ rest) ≡ stopped (exit_code ctx r u)
unfolding run step unload_bs unload_complete
error_stops spdk junk call ctx r u rest e = elim (Option-cases ctx.bs) [
  | inl missing ↦
      ground (arith, callback-error spdk call ctx r e, run-stopped spdk junk r.bserrno rest)
  | inr (bs, eq) ↦
      ground (arith, callback-error spdk call ctx r e, run-stopped spdk junk u.bserrno rest)
]
