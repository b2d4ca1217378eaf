-- ===== src/Startup/Step.antt =====
-- The dispatch of replies to the callbacks of src/kvs_startup.c, and runs over many replies.
use bagdb_spdk.Base.{ℕ, List, [], ◌∷◌}
use bagdb_spdk.Spdk.{Spdk, Reply}
use bagdb_spdk.Slab.{SuperLayout}
use bagdb_spdk.Startup.State.{
  StartCtx, Call, get_super, open_super, read_super_page, read_all_super_pages, open_slab, State,
  loading, waiting, unload_bs, stopped, running, failed,
}
use bagdb_spdk.Startup.Create.{
  kvs_start_get_super_complete, kvs_start_super_open_complete, blob_read_super_page_complete,
  blob_read_all_super_pages_complete, kvs_start_open_blob_next, kvs_start_load_bs_complete,
}

-- What `malloc` returns: a context, a super block, and a slab's `nb_chunks_per_node`.
pub record Memory : Type 0 where
  pub ctx : StartCtx
  pub layout : SuperLayout
  pub nb_chunks_per_node : ℕ → ℕ

module _ (spdk : Spdk) (memory : Memory) where
  -- The callback of a call gets its reply.
  unfoldable pub callback : Call → StartCtx → Reply → State
  callback get_super ctx r = kvs_start_get_super_complete ctx r
  callback (open_super id) ctx r = kvs_start_super_open_complete spdk memory.layout ctx r
  callback read_super_page ctx r = blob_read_super_page_complete ctx r
  callback (read_all_super_pages n) ctx r = blob_read_all_super_pages_complete ctx r
  callback (open_slab idx total id) ctx r =
      kvs_start_open_blob_next spdk memory.nb_chunks_per_node idx total ctx r

  unfoldable pub step : State → Reply → State
  step (loading opts) r = kvs_start_load_bs_complete spdk memory.ctx opts r
  step (waiting call ctx) r = callback call ctx r
  step (unload_bs ctx rc) r = unload_bs ctx rc
  step (stopped rc) r = stopped rc
  step (running kvs) r = running kvs
  step failed r = failed

  unfoldable pub run : State → List Reply → State
  run s [] = s
  run s (r ∷ rs) = run (step s r) rs
