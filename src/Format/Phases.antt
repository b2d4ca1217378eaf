-- ===== src/Format/Phases.antt =====
-- The three iterations of the formatting chain of src/apps/format/kvs_format.c, when no reply
-- brings an error.
use bagdb_spdk.Base.{
  ℕ, ◌+◌, ◌*◌, ◌/◌, ◌%◌, ◌^◌, ◌<◌, ◌≤◌, ◌≡◌, refl, ap, ◌∙◌, List, [], ◌∷◌, ◌++◌, arith, length,
  get_or, u32, map, u32, map,
}
use bagdb_spdk.Spdk.{Spdk, Reply}
use bagdb_spdk.Slab.{SlabLayout, kv_align, super_size_of, slab_room, slab_sizes}
use bagdb_spdk.Slab.Align.{kv_align_page}
use bagdb_spdk.Format.State.{
  FormatCtx, create, open_blob, resize, all_create_complete, all_open_complete, do_super_write,
  create_blob, bs_open_blob, blob_resize, waiting, write_super,
}
use bagdb_spdk.Format.Iter.{
  slab_iter_foreach, finish, slab_all_create_complete, slab_all_open_complete, super_write,
}
use bagdb_spdk.Format.Create.{CreateOpts, kvs_create}
use bagdb_spdk.Format.Step.{run, run-append}
use bagdb_spdk.Format.Marks.{mark_from, no_slab, length-mark_from, mark_from_entry}
use bagdb_spdk.Format.Asked.{Asked, of_slab, asked, asked-append, wanted_from, wanted_from-map}
use bagdb_spdk.Format.Slabs.{NoError, HasSizes, with_slabs, run-slab_iter_foreach}
use bagdb_spdk.Format.Opening.{
  Accepts, super_block, opening_ctx, fresh, first_calls, up_to_create, asked_up_to_create,
}

module _ (spdk : Spdk) (junk : FormatCtx) (opts : CreateOpts) (r0 r1 r2 r3 r4 : Reply)
    (acc : Accepts spdk opts r0.value) where
  abbrev begun : List SlabLayout
  begun = fresh spdk junk opts r0 r1 r2 r3 r4 acc

  abbrev opened_ctx : FormatCtx
  opened_ctx = opening_ctx spdk junk opts r0 r1 r2 r3 r4 acc

  -- The clusters of a slab's blob.
  abbrev clusters : ℕ
  clusters = u32 (opts.nb_init_nodes_per_slab * opts.nb_chunks_per_reclaim_node)

  abbrev created : List Reply → List SlabLayout
  created cs = mark_from create slab_sizes 2 0 cs begun

  abbrev opened : List Reply → List Reply → List SlabLayout
  opened cs os = mark_from open_blob slab_sizes 2 0 os (created cs)

  abbrev pub resized : List Reply → List Reply → List Reply → List SlabLayout
  resized cs os zs = mark_from resize slab_sizes 2 0 zs (opened cs os)

  abbrev pub ctx_with : List SlabLayout → FormatCtx
  ctx_with slabs = with_slabs opened_ctx (super_block opts begun) slabs

  sizes : HasSizes opened_ctx (super_block opts begun)
  sizes = omega arith

  module _ (init : 0 < opts.nb_init_nodes_per_slab) where
    finish_create :
        (slabs : List SlabLayout)
        → finish all_create_complete (ctx_with slabs)
          ≡ slab_iter_foreach (ctx_with slabs) open_blob all_open_complete
    unfolding finish slab_all_create_complete
    finish_create slabs = ground arith

    finish_open :
        (slabs : List SlabLayout)
        → finish all_open_complete (ctx_with slabs)
          ≡ slab_iter_foreach (ctx_with slabs) resize do_super_write
    unfolding finish slab_all_open_complete
    finish_open slabs = refl

    finish_resize :
        (slabs : List SlabLayout)
        → finish do_super_write (ctx_with slabs)
          ≡ waiting
              (write_super
                (kv_align (super_size_of opts.nb_shards 2) 0x1000 / 0x1000)
                (super_block opts slabs))
              (ctx_with slabs)
    unfolding finish super_write
    finish_resize slabs = refl

    module _ (cs os zs : List Reply) (some_shard : 0 < opts.nb_shards)
        (fits : 24 + opts.nb_shards * 2 * 16 + 0xfff < 2 ^ 32) (nc : length cs ≡ opts.nb_shards * 2)
        (lo : length os ≡ opts.nb_shards * 2) (nz : length zs ≡ opts.nb_shards * 2) where
      room : opts.nb_shards * 2 ≤ length begun
      unfolding super_size_of slab_room
      room =
          let whole : super_size_of opts.nb_shards 2 ≡ 24 + opts.nb_shards * 2 * 16 = omega arith in
          omega (
            arith,
            acc.memory (slab_room (super_size_of opts.nb_shards 2)),
            kv_align_page (super_size_of opts.nb_shards 2) (omega arith),
          )

      creating :
          NoError cs
          → (run spdk junk (slab_iter_foreach (ctx_with begun) create all_create_complete) cs
              ≡ slab_iter_foreach (ctx_with (created cs)) open_blob all_open_complete)
            × (asked spdk junk (slab_iter_foreach (ctx_with begun) create all_create_complete) cs
                ≡ wanted_from clusters create 0 cs begun)
      creating okc =
          let (ran, asks) =
            run-slab_iter_foreach spdk junk opened_ctx (super_block opts begun) sizes create
              all_create_complete begun cs (omega arith) (omega arith) nc (omega (arith, room))
              okc in
          (ran ∙ finish_create (created cs), asks)

      opening :
          NoError os
          → (run spdk junk
                (slab_iter_foreach (ctx_with (created cs)) open_blob all_open_complete)
                os
              ≡ slab_iter_foreach (ctx_with (opened cs os)) resize do_super_write)
            × (asked spdk junk
                  (slab_iter_foreach (ctx_with (created cs)) open_blob all_open_complete)
                  os
                ≡ wanted_from clusters open_blob 0 os (created cs))
      opening oko =
          let (ran, asks) =
            run-slab_iter_foreach spdk junk opened_ctx (super_block opts begun) sizes open_blob
              all_open_complete (created cs) os (omega arith) (omega arith) lo
              (omega (arith, room, length-mark_from create slab_sizes 2 0 cs begun)) oko in
          (ran ∙ finish_open (opened cs os), asks)

      resizing :
          NoError zs
          → (run spdk junk (slab_iter_foreach (ctx_with (opened cs os)) resize do_super_write) zs
              ≡ waiting
                  (write_super
                    (kv_align (super_size_of opts.nb_shards 2) 0x1000 / 0x1000)
                    (super_block opts (resized cs os zs)))
                  (ctx_with (resized cs os zs)))
            × (asked spdk junk
                  (slab_iter_foreach (ctx_with (opened cs os)) resize do_super_write)
                  zs
                ≡ wanted_from clusters resize 0 zs (opened cs os))
      resizing okz =
          let (ran, asks) =
            run-slab_iter_foreach spdk junk opened_ctx (super_block opts begun) sizes resize
              do_super_write (opened cs os) zs (omega arith) (omega arith) nz
              (omega (
                arith,
                room,
                length-mark_from create slab_sizes 2 0 cs begun,
                length-mark_from open_blob slab_sizes 2 0 os (created cs),
              ))
              okz in
          (ran ∙ finish_resize (resized cs os zs), asks)

      pub up_to_write :
          NoError (r0 ∷ r1 ∷ r2 ∷ r3 ∷ r4 ∷ [])
          → NoError cs
          → NoError os
          → NoError zs
          → run spdk junk (kvs_create spdk opts) (r0 ∷ r1 ∷ r2 ∷ r3 ∷ r4 ∷ cs ++ (os ++ zs))
            ≡ waiting
                (write_super
                  (kv_align (super_size_of opts.nb_shards 2) 0x1000 / 0x1000)
                  (super_block opts (resized cs os zs)))
                (ctx_with (resized cs os zs))
      up_to_write ok okc oko okz =
          up_to_create spdk junk opts r0 r1 r2 r3 r4 acc (cs ++ (os ++ zs)) ok
          ∙ run-append spdk junk _ cs (os ++ zs)
          ∙ ap (λ s. run spdk junk s (os ++ zs)) (creating okc).0
          ∙ run-append spdk junk _ os zs
          ∙ ap (λ s. run spdk junk s zs) (opening oko).0
          ∙ (resizing okz).0

      -- The slabs' calls, by the replies to the calls before.
      abbrev slab_calls : List Asked
      slab_calls =
          map (λ c. of_slab create_blob) cs
          ++ (map (λ (c : Reply). of_slab (bs_open_blob c.value)) cs
              ++ map (λ (o : Reply). of_slab (blob_resize o.value clusters)) os)

      wanted_calls :
          wanted_from clusters create 0 cs begun
            ++ (wanted_from clusters open_blob 0 os (created cs)
                ++ wanted_from clusters resize 0 zs (opened cs os))
          ≡ slab_calls
      wanted_calls =
          let z : (k : ℕ) → 0 + k ≡ k = λ k. omega arith in
          let creates =
            wanted_from-map clusters create (λ c. create_blob) r0 0 cs cs begun refl
              (λ k lt. refl) in
          let opens =
            wanted_from-map clusters open_blob (λ (c : Reply). bs_open_blob c.value) r0 0 os cs
              (created cs) (omega arith)
              λ k lt. rw (z k) (
                ap (λ (t : SlabLayout). bs_open_blob t.blob_id)
                  (mark_from_entry create slab_sizes 2 r0 k cs begun (omega arith)
                    (omega (arith, room)))) in
          let resizes =
            wanted_from-map clusters resize (λ (o : Reply). blob_resize o.value clusters) r0 0 zs os
              (opened cs os) (omega arith)
              λ k lt. rw (z k) (
                ap (λ (t : SlabLayout). blob_resize t.resv clusters)
                  (mark_from_entry open_blob slab_sizes 2 r0 k os (created cs) (omega arith)
                    (omega (arith, room, length-mark_from create slab_sizes 2 0 cs begun)))) in
          rw (creates, opens, resizes) refl

      pub asked_up_to_write :
          NoError (r0 ∷ r1 ∷ r2 ∷ r3 ∷ r4 ∷ [])
          → NoError cs
          → NoError os
          → NoError zs
          → asked spdk junk (kvs_create spdk opts) (r0 ∷ r1 ∷ r2 ∷ r3 ∷ r4 ∷ cs ++ (os ++ zs))
            ≡ first_calls spdk junk opts r0 r1 r2 r3 r4 acc ++ slab_calls
      asked_up_to_write ok okc oko okz =
          asked_up_to_create spdk junk opts r0 r1 r2 r3 r4 acc (cs ++ (os ++ zs)) ok
          ∙ ap (λ l. first_calls spdk junk opts r0 r1 r2 r3 r4 acc ++ l)
              (asked-append spdk junk _ cs (os ++ zs)
                ∙ rw
                    (
                      (creating okc).1,
                      (creating okc).0,
                      asked-append spdk junk
                          (slab_iter_foreach (ctx_with (created cs)) open_blob all_open_complete) os
                          zs,
                      (opening oko).1,
                      (opening oko).0,
                      (resizing okz).1,
                    )
                    wanted_calls)

      pub entry :
          (d : Reply) (k : ℕ)
          → k < opts.nb_shards * 2
          → get_or (resized cs os zs) k no_slab ≡ record {
            slab_size = get_or slab_sizes (k % 2) 0;
            blob_id = (get_or cs k d).value;
            resv = (get_or os k d).value;
          }
      entry d k h =
          mark_from_entry resize slab_sizes 2 d k zs (opened cs os) (omega arith) (
            omega (
              arith,
              room,
              length-mark_from create slab_sizes 2 0 cs begun,
              length-mark_from open_blob slab_sizes 2 0 os (created cs),
            ))
          ∙ mark_from_entry open_blob slab_sizes 2 d k os (created cs) (omega arith)
              (omega (arith, room, length-mark_from create slab_sizes 2 0 cs begun))
          ∙ ap (λ (s : SlabLayout). record s { resv = (get_or os k d).value })
              (mark_from_entry create slab_sizes 2 d k cs begun (omega arith) (omega (arith, room)))
