-- ===== src/Get/State.antt =====
-- The data of src/kv_get.c and src/include/index.h, and what it uses of the page chunks, which are not
-- part of the repository.
use bagdb_spdk.Base.{ℕ, Bool, Option, List}
use bagdb_spdk.Base.Int.{ℤ}
use bagdb_spdk.Pool.{ObjectCachePool}
use bagdb_spdk.Worker.State.{KvRequestInternal}

-- `struct index_entry`. A pointer to a chunk's descriptor is its index, NULL `none`.
pub record IndexEntry : Type 0 where
  pub getting : Bool
  pub writing : Bool
  pub deleting : Bool
  pub slot_idx : ℕ
  pub chunk_desc : Option ℕ

-- A chunk's descriptor: whether it has memory, `pagechunk_is_cached` and `pagechunk_get_item` for a
-- slot, and what `pagechunk_mem_lift` and `pagechunk_mem_lower` make of it.
pub record ChunkOps : Type 1 where
  pub Desc : Type 0
  pub has_mem : Desc → Bool
  pub is_cached : Desc → ℕ → Bool
  pub get_item : Desc → ℕ → ℕ
  pub mem_lift : Desc → Desc
  pub mem_lower : Desc → Desc

-- The error numbers `-KV_ESUCCESS`, `-KV_EIO` and `-KV_EITEM_NOT_EXIST`.
pub record ErrorCodes : Type 0 where
  pub success : ℤ
  pub eio : ℤ
  pub item_not_exist : ℤ

-- A request with the field `entry` of its `pctx`, an index of an entry or NULL.
pub record GetRequest : Type 0 where
  pub internal : KvRequestInternal
  pub entry : Option ℕ

-- A call of the user's callback.
pub record Answered : Type 0 where
  pub cb_fn : ℕ
  pub ctx : ℕ
  pub item : Option ℕ
  pub kverrno : ℤ

-- A call that is waited for: `pagechunk_request_one_async` or `pagechunk_load_item_async`.
pub data Await : Type 0 where
  chunk : GetRequest → Await
  data_of : GetRequest → Await

-- `struct worker_context`, as far as a GET goes, with the index's entries and the chunks' descriptors,
-- the calls that are waited for, and the calls of users' callbacks so far, the last one first.
pub record GetWorker (chunks : ChunkOps) : Type 0 where
  pub pool : ObjectCachePool
  pub resubmit_queue : List GetRequest
  pub entries : List IndexEntry
  pub descs : List chunks.Desc
  pub awaited : List Await
  pub answered : List Answered
