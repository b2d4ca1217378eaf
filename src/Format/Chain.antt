-- ===== src/Format/Chain.antt =====
-- The formatting chain of src/apps/format/kvs_format.c as a whole, when no reply brings an error.
use bagdb_spdk.Base.{
  ℕ, ◌+◌, ◌*◌, ◌/◌, ◌%◌, ◌^◌, ◌<◌, ◌≡◌, List, [], ◌∷◌, ◌++◌, arith, length, get_or, u32, map, u32,
  map,
}
use bagdb_spdk.Spdk.{Spdk, Reply}
use bagdb_spdk.Slab.{SlabLayout, kv_align, super_size_of, slab_sizes, slab_chunk_pages}
use bagdb_spdk.Format.State.{
  FormatCtx, bs_init, create_super_blob, set_super, open_super, resize_super, create_blob,
  bs_open_blob, blob_resize, waiting, write_super,
}
use bagdb_spdk.Format.Create.{CreateOpts, kvs_create}
use bagdb_spdk.Format.Step.{run}
use bagdb_spdk.Format.Marks.{no_slab}
use bagdb_spdk.Format.Asked.{of_slab, of_super, asked}
use bagdb_spdk.Format.Slabs.{NoError}
use bagdb_spdk.Format.Opening.{Accepts, super_block, super_clusters}
use bagdb_spdk.Format.Phases.{ctx_with, resized, up_to_write, entry, asked_up_to_write}

-- Formatting a device that SPDK accepts, with initial nodes for each slab: when the replies to the first
-- five calls, and to the creation, the opening and the resizing of each slab's blob, bring no error, the
-- program comes to write its super block. That has the pin and the options, and the entry of each slab
-- has its size, the id of the blob that was created for it and the handle that was opened for it. Up to
-- there it asks, in this order: to initialise the blobstore, to create the super blob, to set it, to
-- open it and to resize it to its pages; to create a blob for each slab; to open the blob with each id
-- that was brought; and to resize the blob of each handle that was brought to the clusters of its nodes.
pub format_writes :
    (spdk : Spdk) (junk : FormatCtx) (opts : CreateOpts) (r0 r1 r2 r3 r4 : Reply)
    (cs os zs : List Reply) (k : ℕ)
    → Accepts spdk opts r0.value
    → 0 < opts.nb_init_nodes_per_slab
    → 24 + opts.nb_shards * 2 * 16 + 0xfff < 2 ^ 32
    → length cs ≡ opts.nb_shards * 2
    → length os ≡ opts.nb_shards * 2
    → length zs ≡ opts.nb_shards * 2
    → NoError (r0 ∷ r1 ∷ r2 ∷ r3 ∷ r4 ∷ [])
    → NoError cs
    → NoError os
    → NoError zs
    → k < opts.nb_shards * 2
    → (ctx : FormatCtx) × (slabs : List SlabLayout) × (run spdk junk
          (kvs_create spdk opts)
          (r0 ∷ r1 ∷ r2 ∷ r3 ∷ r4 ∷ cs ++ (os ++ zs))
        ≡ waiting
            (write_super
              (kv_align (super_size_of opts.nb_shards 2) 0x1000 / 0x1000)
              (super_block opts slabs))
            ctx)
      × (get_or slabs k no_slab ≡ record {
        slab_size = get_or slab_sizes (k % 2) 0;
        blob_id = (get_or cs k r0).value;
        resv = (get_or os k r0).value;
      })
      × (asked spdk junk (kvs_create spdk opts) (r0 ∷ r1 ∷ r2 ∷ r3 ∷ r4 ∷ cs ++ (os ++ zs))
          ≡ (of_super (bs_init (u32 (slab_chunk_pages * spdk.kvs_page_size)))
              ∷ of_super create_super_blob
              ∷ of_super (set_super r1.value)
              ∷ of_super (open_super r1.value)
              ∷ of_super (resize_super (super_clusters spdk opts))
              ∷ [])
            ++ (map (λ c. of_slab create_blob) cs
                ++ (map (λ (c : Reply). of_slab (bs_open_blob c.value)) cs
                    ++ map
                        (λ (o : Reply). of_slab (
                          blob_resize o.value
                            (u32 (opts.nb_init_nodes_per_slab * opts.nb_chunks_per_reclaim_node))))
                        os)))
format_writes spdk junk opts r0 r1 r2 r3 r4 cs os zs k acc init fits nc lo nz ok okc oko okz h = (
  ctx_with spdk junk opts r0 r1 r2 r3 r4 acc slabs,
  slabs,
  up_to_write spdk junk opts r0 r1 r2 r3 r4 acc init cs os zs (omega arith) fits nc lo nz ok okc oko
      okz,
  entry spdk junk opts r0 r1 r2 r3 r4 acc init cs os zs (omega arith) fits nc lo nz r0 k h,
  asked_up_to_write spdk junk opts r0 r1 r2 r3 r4 acc init cs os zs (omega arith) fits nc lo nz ok
      okc oko okz,
)
  where
    slabs : List SlabLayout
    slabs = resized spdk junk opts r0 r1 r2 r3 r4 acc cs os zs
