-- ===== src/Format/Finish.antt =====
-- The end of the formatting chain of src/apps/format/kvs_format.c: from the write of the super block on.
use bagdb_spdk.Base.{
  ℕ, ◌*◌, ◌^◌, ◌<◌, ◌≤◌, ◌≡◌, refl, u32, ap, ◌∙◌, some, List, [], ◌∷◌, ◌++◌, arith, length,
}
use bagdb_spdk.Spdk.{Spdk, Reply}
use bagdb_spdk.Slab.{SuperLayout}
use bagdb_spdk.Format.State.{
  FormatCtx, close, all_close_complete, waiting, stopped, write_super, sync_super, close_super,
  State, unload_bs, unload_complete, unless_error,
}
use bagdb_spdk.Format.Iter.{slab_iter_foreach, slab_all_close_complete, finish}
use bagdb_spdk.Format.Create.{super_write_complete, super_sync_complete, super_blob_close_complete}
use bagdb_spdk.Format.Step.{callback, step, run, run-append}
use bagdb_spdk.Format.Marks.{mark_from}
use bagdb_spdk.Format.Asked.{of_super, asked, asked-append, asked-step, wanted_from}
use mathlib.Core.List.{append-nil}
use bagdb_spdk.Format.Slabs.{NoError, HasSizes, with_slabs, run-slab_iter_foreach}

module _ (spdk : Spdk) (junk ctx : FormatCtx) (sl : SuperLayout) (n bs : ℕ) (w s c u : Reply)
    (cls : List Reply) (sizes : HasSizes ctx sl) (loaded : ctx.bs ≡ some bs)
    (init : 0 < ctx.nb_init_nodes_per_slab) (some_slab : 0 < length cls)
    (small : length cls < 2 ^ 32) (total : length cls ≡ sl.nb_shards * sl.nb_slabs_per_shard)
    (room : length cls ≤ length sl.slab) (ok : NoError (w ∷ s ∷ c ∷ cls)) where
  abbrev written : FormatCtx
  written = with_slabs ctx sl sl.slab

  synced : step spdk junk (waiting (write_super n sl) written) w ≡ waiting sync_super written
  unfolding step callback unless_error super_write_complete
  synced = rw ok.0 refl

  closes_super : step spdk junk (waiting sync_super written) s ≡ waiting close_super written
  unfolding step callback unless_error super_sync_complete
  closes_super = rw ok.1.0 refl

  closes :
      step spdk junk (waiting close_super written) c
      ≡ slab_iter_foreach written close all_close_complete
  unfolding step callback unless_error super_blob_close_complete
  closes = ground (arith, ok.1.1.0, init)

  abbrev closed : State
  closed =
      finish all_close_complete (
        with_slabs ctx sl (mark_from close ctx.slab_size_array sl.nb_slabs_per_shard 0 cls sl.slab))

  closing :
      (run spdk junk (slab_iter_foreach written close all_close_complete) cls ≡ closed)
      × (asked spdk junk (slab_iter_foreach written close all_close_complete) cls
          ≡ wanted_from
              (u32 (ctx.nb_init_nodes_per_slab * sl.nb_chunks_per_reclaim_node))
              close
              0
              cls
              sl.slab)
  closing =
      run-slab_iter_foreach spdk junk ctx sl sizes close all_close_complete sl.slab cls some_slab
        small total room ok.1.1.1

  unloads :
      (run spdk junk closed (u ∷ []) ≡ stopped u.bserrno) × (asked spdk junk closed (u ∷ []) ≡ [])
  unfolding run finish slab_all_close_complete unload_bs unload_complete step
  unloads = rw loaded (refl, refl)

  -- Once the super block is being written, with initial nodes for each slab, replies without an error to
  -- the write, the sync, the closing of the super blob and of each slab's blob lead to unloading,
  -- and the program stops with what that returns. On the way it asks to sync and to close the super
  -- blob, and to close the blob of the handle of each slab, once, in their order.
  pub write_stops :
      (run spdk junk (waiting (write_super n sl) written) (w ∷ s ∷ c ∷ cls ++ u ∷ [])
        ≡ stopped u.bserrno)
      × (asked spdk junk (waiting (write_super n sl) written) (w ∷ s ∷ c ∷ cls ++ u ∷ [])
          ≡ (of_super (write_super n sl) ∷ of_super sync_super ∷ of_super close_super ∷ [])
            ++ wanted_from
                (u32 (ctx.nb_init_nodes_per_slab * sl.nb_chunks_per_reclaim_node))
                close
                0
                cls
                sl.slab)
  unfolding run
  write_stops =
      let iteration = slab_iter_foreach written close all_close_complete in
      let rest = cls ++ u ∷ [] in
      (
        ap (λ t. run spdk junk (step spdk junk (step spdk junk t s) c) rest) synced
            ∙ ap (λ t. run spdk junk (step spdk junk t c) rest) closes_super
            ∙ ap (λ t. run spdk junk t rest) closes
            ∙ run-append spdk junk iteration cls (u ∷ [])
            ∙ ap (λ t. run spdk junk t (u ∷ [])) closing.0
            ∙ unloads.0,
        asked-step spdk junk _ _ (write_super n sl) written w (s ∷ c ∷ rest) refl synced
            ∙ ap (λ l. of_super (write_super n sl) ∷ l)
                (asked-step spdk junk _ _ sync_super written s (c ∷ rest) refl closes_super
                  ∙ ap (λ l. of_super sync_super ∷ l)
                      (asked-step spdk junk _ _ close_super written c rest refl closes
                        ∙ ap (λ l. of_super close_super ∷ l)
                            (asked-append spdk junk iteration cls (u ∷ [])
                              ∙ rw (closing.1, closing.0, unloads.1) (append-nil _)))),
      )
