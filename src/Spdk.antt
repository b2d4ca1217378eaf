-- ===== src/Spdk.antt =====
-- What src/apps/format/kvs_format.c and src/kvs_startup.c use of SPDK, which is no part of the
-- repository. A synchronous function is a field here; an asynchronous one is answered by a `Reply`,
-- which is handed to its callback. A pointer is a number, NULL `none`.
use Prim.Native.String.{String}
use bagdb_spdk.Base.{ℕ, Option, List}
use bagdb_spdk.Base.Int.{ℤ}
use bagdb_spdk.Slab.{SlabLayout, SuperLayout}

-- `spdk_malloc` hands out a super block with room for the given number of slabs, with any content.
pub record Spdk : Type 0 where
  pub bdev_get_by_name : String → Option ℕ
  pub bdev_get_block_size : ℕ → ℕ
  pub bdev_create_bs_dev : ℕ → Option ℕ
  pub bs_get_io_unit_size : ℕ → ℕ
  pub bs_alloc_io_channel : ℕ → Option ℕ
  pub get_io_channel : ℕ → Option ℕ
  pub blob_get_num_clusters : ℕ → ℕ
  pub malloc_slabs : ℕ → List SlabLayout
  pub kvs_page_size : ℕ

-- The arguments of a callback: the error number, the id or handle, and what a read has brought.
pub record Reply : Type 0 where
  pub bserrno : ℤ
  pub value : ℕ
  pub layout : SuperLayout
