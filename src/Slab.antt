-- ===== src/Slab.antt =====
-- src/slab.c and src/include/slab.h: the slab configuration and the super block of a store; the macro
-- KV_ALIGN of src/kvutil.h and src/apps/format/kvs_format.c. `slab.h` has fields of `super_layout` and
-- `slab_layout` under comment that the sources use; they stand here. The two sizes are those of the
-- structs as declared.
pub mod Align
mod Tests
use Prim.Native.Nat.{bit_and}
use bagdb_spdk.Base.{ℕ, zero, suc, ◌+◌, ◌-◌, ◌*◌, ◌/◌, ◌%◌, ◌^◌, List, [], ◌∷◌, length, u32}

-- `struct slab_layout`
pub record SlabLayout : Type 0 where
  pub slab_size : ℕ
  pub blob_id : ℕ
  pub resv : ℕ

-- `struct super_layout`
pub record SuperLayout : Type 0 where
  pub kvs_pin : ℕ
  pub nb_shards : ℕ
  pub nb_slabs_per_shard : ℕ
  pub nb_chunks_per_reclaim_node : ℕ
  pub nb_pages_per_chunk : ℕ
  pub max_key_length : ℕ
  pub slab : List SlabLayout

abbrev pub default_kvs_pin : ℕ
default_kvs_pin = 0x1022199405121993

abbrev pub sizeof_super_layout : ℕ
sizeof_super_layout = 24

abbrev pub sizeof_slab_layout : ℕ
sizeof_slab_layout = 16

-- `_g_slab_chunk_pages`, and the array of slab sizes: 0 a leaf node, 1 a bag node.
abbrev pub slab_chunk_pages : ℕ
slab_chunk_pages = 135

abbrev pub slab_sizes : List ℕ
slab_sizes = 0 ∷ 1 ∷ []

-- The three results of `slab_get_slab_conf`.
pub record SlabConf : Type 0 where
  pub slab_size_array : List ℕ
  pub nb_slabs : ℕ
  pub chunk_pages : ℕ

unfoldable pub slab_get_slab_conf : SlabConf
slab_get_slab_conf = record {
  slab_size_array = slab_sizes;
  nb_slabs = length slab_sizes;
  chunk_pages = slab_chunk_pages;
}

-- `KV_ALIGN(size, align)` on `uint32_t`: `(size + align - 1) & ~(align - 1)`.
unfoldable pub kv_align : ℕ → ℕ → ℕ
kv_align size align =
    bit_and (u32 (u32 (size + align) + 2 ^ 32 - 1)) (2 ^ 32 - 1 - u32 (align + 2 ^ 32 - 1))

-- The size of a super block with room for every slab.
unfoldable pub super_size_of : ℕ → ℕ → ℕ
super_size_of nb_shards nb_slabs =
    u32 (sizeof_super_layout + u32 (nb_shards * nb_slabs) * sizeof_slab_layout)

-- How many slab entries the buffer has that is allocated for a super block of this size.
unfoldable pub slab_room : ℕ → ℕ
slab_room super_size = (kv_align super_size 0x1000 - sizeof_super_layout) / sizeof_slab_layout
