-- ===== src/Format/Opening.antt =====
-- The first five calls of the formatting chain of src/apps/format/kvs_format.c, up to the super blob's size.
use bagdb_spdk.Base.{
  ℕ, ◌+◌, ◌*◌, ◌/◌, ◌%◌, ◌≡◌, refl, ap, ◌∙◌, some, List, [], ◌∷◌, ◌++◌, arith, length, u32, ◌==◌,
  if◌then◌else◌, u32,
}
use bagdb_spdk.Spdk.{Spdk, Reply}
use bagdb_spdk.Slab.{
  SlabLayout, SuperLayout, default_kvs_pin, slab_get_slab_conf, kv_align, super_size_of, slab_room,
  slab_sizes, slab_chunk_pages,
}
use bagdb_spdk.Format.State.{
  FormatCtx, create, all_create_complete, bs_init, create_super_blob, set_super, open_super,
  resize_super, waiting, unless_error, State,
}
use bagdb_spdk.Format.Iter.{slab_iter_foreach}
use bagdb_spdk.Format.Create.{
  CreateOpts, fill_super_parameters, kvs_create, bs_init_complete, resize_super_blob,
  super_blob_open_complete, super_blob_create_complete, set_super_root_complete,
  super_resize_complete,
}
use bagdb_spdk.Format.Step.{callback, step, run}
use bagdb_spdk.Base.Int.{pos}
use bagdb_spdk.Format.Asked.{asked-step, Asked, of_super, asked}
use bagdb_spdk.Format.Slabs.{NoError, with_slabs}

-- A device that SPDK accepts, with the page size of the store, and memory of the size asked for.
pub record Accepts (spdk : Spdk) (opts : CreateOpts) (bs : ℕ) : Type 0 where
  pub bdev : ℕ
  pub found : spdk.bdev_get_by_name opts.devname ≡ some bdev
  pub block : spdk.bdev_get_block_size bdev ≡ spdk.kvs_page_size
  pub dev : ℕ
  pub made : spdk.bdev_create_bs_dev bdev ≡ some dev
  pub unit : spdk.bs_get_io_unit_size bs ≡ spdk.kvs_page_size
  pub channel : ℕ
  pub opened : spdk.bs_alloc_io_channel bs ≡ some channel
  pub memory : (n : ℕ) → length (spdk.malloc_slabs n) ≡ n

-- The super block as `_fill_super_parameters` makes it.
abbrev pub super_block : CreateOpts → List SlabLayout → SuperLayout
super_block opts slabs = record {
  kvs_pin = default_kvs_pin;
  nb_shards = opts.nb_shards;
  nb_slabs_per_shard = 2;
  nb_chunks_per_reclaim_node = opts.nb_chunks_per_reclaim_node;
  nb_pages_per_chunk = slab_chunk_pages;
  max_key_length = opts.max_key_length;
  slab = slabs;
}

-- The clusters of the super blob: as many as its pages take.
abbrev pub super_clusters : Spdk → CreateOpts → ℕ
super_clusters spdk opts =
    let nb_pages = kv_align (super_size_of opts.nb_shards 2) 0x1000 / spdk.kvs_page_size in
    nb_pages / slab_chunk_pages + (if nb_pages % slab_chunk_pages == 0 then 0 else 1)

module _ (spdk : Spdk) (junk : FormatCtx) (opts : CreateOpts) (r0 r1 r2 r3 r4 : Reply)
    (acc : Accepts spdk opts r0.value) where
  abbrev pub size : ℕ
  size = super_size_of opts.nb_shards 2

  abbrev pub fresh : List SlabLayout
  fresh = spdk.malloc_slabs (slab_room size)

  -- The context when the super blob is open.
  abbrev pub opening_ctx : FormatCtx
  opening_ctx = record {
    bs = some r0.value;
    super_blob_id = r1.value;
    super_blob = r3.value;
    io_unit_size = spdk.bs_get_io_unit_size r0.value;
    nb_init_nodes_per_slab = opts.nb_init_nodes_per_slab;
    channel = some acc.channel;
    devname = opts.devname;
    super_size = size;
    sl = some (super_block opts fresh);
    slab_size_array = slab_sizes;
    nb_slabs = 2;
  }

  pub up_to_create :
      (rest : List Reply)
      → NoError (r0 ∷ r1 ∷ r2 ∷ r3 ∷ r4 ∷ [])
      → run spdk junk (kvs_create spdk opts) (r0 ∷ r1 ∷ r2 ∷ r3 ∷ r4 ∷ rest)
        ≡ run spdk junk
            (slab_iter_foreach
              (with_slabs opening_ctx (super_block opts fresh) fresh)
              create
              all_create_complete)
            rest
  unfolding run step callback unless_error kvs_create fill_super_parameters slab_get_slab_conf
      bs_init_complete super_blob_create_complete set_super_root_complete super_blob_open_complete
      resize_super_blob super_resize_complete
  up_to_create rest ok = ground (
    arith, ok.0, ok.1.0, ok.1.1.0, ok.1.1.1.0, ok.1.1.1.1.0, acc.found, acc.block, acc.made,
    acc.unit, acc.opened,
  )

  abbrev pub first_calls : List Asked
  first_calls =
      of_super (bs_init (u32 (slab_chunk_pages * spdk.kvs_page_size)))
      ∷ of_super create_super_blob
      ∷ of_super (set_super r1.value)
      ∷ of_super (open_super r1.value)
      ∷ of_super (resize_super (super_clusters spdk opts))
      ∷ []

  abbrev filled : FormatCtx
  filled = fill_super_parameters spdk opts

  abbrev loaded : FormatCtx
  loaded = record filled { bs = some r0.value; io_unit_size = spdk.bs_get_io_unit_size r0.value }

  abbrev with_id : FormatCtx
  with_id = record loaded { super_blob_id = r1.value }

  abbrev after_load : State
  after_load = waiting create_super_blob loaded

  creates :
      kvs_create spdk opts ≡ waiting (bs_init (u32 (slab_chunk_pages * spdk.kvs_page_size))) filled
  unfolding kvs_create fill_super_parameters slab_get_slab_conf
  creates = ground (arith, acc.found, acc.block, acc.made)

  loads :
      r0.bserrno ≡ pos 0
      → step spdk junk (waiting (bs_init (u32 (slab_chunk_pages * spdk.kvs_page_size))) filled) r0
        ≡ after_load
  unfolding step callback unless_error bs_init_complete
  loads ok = ground (arith, ok, acc.unit)

  identifies :
      r1.bserrno ≡ pos 0 → step spdk junk after_load r1 ≡ waiting (set_super r1.value) with_id
  unfolding step callback unless_error super_blob_create_complete
  identifies ok = rw ok refl

  opens :
      r2.bserrno ≡ pos 0
      → step spdk junk (waiting (set_super r1.value) with_id) r2
        ≡ waiting (open_super r1.value) with_id
  unfolding step callback unless_error set_super_root_complete
  opens ok = rw ok refl

  resizes :
      r3.bserrno ≡ pos 0
      → step spdk junk (waiting (open_super r1.value) with_id) r3
        ≡ waiting (resize_super (super_clusters spdk opts)) opening_ctx
  unfolding step callback unless_error super_blob_open_complete resize_super_blob
      fill_super_parameters slab_get_slab_conf
  resizes ok = ground (arith, ok, acc.opened)

  goes_on :
      r4.bserrno ≡ pos 0
      → step spdk junk (waiting (resize_super (super_clusters spdk opts)) opening_ctx) r4
        ≡ slab_iter_foreach opening_ctx create all_create_complete
  unfolding step callback unless_error super_resize_complete
  goes_on ok = rw ok refl

  pub asked_up_to_create :
      (rest : List Reply)
      → NoError (r0 ∷ r1 ∷ r2 ∷ r3 ∷ r4 ∷ [])
      → asked spdk junk (kvs_create spdk opts) (r0 ∷ r1 ∷ r2 ∷ r3 ∷ r4 ∷ rest)
        ≡ first_calls
          ++ asked spdk junk
              (slab_iter_foreach
                (with_slabs opening_ctx (super_block opts fresh) fresh)
                create
                all_create_complete)
              rest
  asked_up_to_create rest ok =
      asked-step spdk junk (kvs_create spdk opts) _ _ _ r0 (r1 ∷ r2 ∷ r3 ∷ r4 ∷ rest) creates
        (loads ok.0)
      ∙ ap (λ l. of_super (bs_init (u32 (slab_chunk_pages * spdk.kvs_page_size))) ∷ l)
          (asked-step spdk junk _ _ create_super_blob loaded r1 (r2 ∷ r3 ∷ r4 ∷ rest) refl
              (identifies ok.1.0)
            ∙ ap (λ l. of_super create_super_blob ∷ l)
                (asked-step spdk junk _ _ (set_super r1.value) with_id r2 (r3 ∷ r4 ∷ rest) refl
                    (opens ok.1.1.0)
                  ∙ ap (λ l. of_super (set_super r1.value) ∷ l)
                      (asked-step spdk junk _ _ (open_super r1.value) with_id r3 (r4 ∷ rest) refl
                          (resizes ok.1.1.1.0)
                        ∙ ap (λ l. of_super (open_super r1.value) ∷ l)
                            (asked-step spdk junk _ _ (resize_super (super_clusters spdk opts))
                              opening_ctx r4 rest refl (goes_on ok.1.1.1.1.0)))))
