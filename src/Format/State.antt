-- ===== src/Format/State.antt =====
-- The data of src/apps/format/kvs_format.c: its context, the iteration over the slabs, the calls that
-- are waited for, and the end of the program.
use Prim.Native.String.{String}
use bagdb_spdk.Base.{ℕ, Option, none, some, List, if◌then◌else◌}
use bagdb_spdk.Base.Int.{ℤ, is_set}
use bagdb_spdk.Spdk.{Reply}
use bagdb_spdk.Slab.{SuperLayout}

-- `struct kvs_format_ctx`, without the field `rc`, which nothing uses.
pub record FormatCtx : Type 0 where
  pub bs : Option ℕ
  pub super_blob_id : ℕ
  pub super_blob : ℕ
  pub io_unit_size : ℕ
  pub nb_init_nodes_per_slab : ℕ
  pub channel : Option ℕ
  pub devname : String
  pub super_size : ℕ
  pub sl : Option SuperLayout
  pub slab_size_array : List ℕ
  pub nb_slabs : ℕ

-- KVS_OP_CREATE, KVS_OP_OPEN, KVS_OP_RESIZE, KVS_OP_CLOSE
pub data OpType : Type 0 where
  create open_blob resize close : OpType

-- The functions that are passed as `finished_cb`.
pub data Finished : Type 0 where
  all_create_complete all_open_complete do_super_write all_close_complete : Finished
  dump_real_data dump_all_close_complete : Finished

-- `struct _blob_iter`. Its context is the state's, and its super block that of the context.
pub record BlobIter : Type 0 where
  pub op_type : OpType
  pub slab_idx : ℕ
  pub total_slabs : ℕ
  pub finished_cb : Finished

-- What is asked of the blobstore for one slab.
pub data SlabCall : Type 0 where
  create_blob : SlabCall
  bs_open_blob : ℕ → SlabCall
  blob_resize : ℕ → ℕ → SlabCall
  blob_close : ℕ → SlabCall

-- The call whose callback is waited for.
pub data Call : Type 0 where
  bs_init : ℕ → Call
  create_super_blob : Call
  set_super : ℕ → Call
  open_super : ℕ → Call
  resize_super : ℕ → Call
  slab_call : SlabCall → BlobIter → Call
  write_super : ℕ → SuperLayout → Call
  sync_super : Call
  close_super : Call
  get_super : Call
  dump_open_super : ℕ → Call
  dump_read_page : Call
  dump_read_super : ℕ → Call
  dump_close_super : Call

-- `loading`: `spdk_bs_load` is waited for, and there is no context yet. `unloading`:
-- `spdk_bs_unload` is waited for, and the context is freed. `idle`: no callback is waited for.
-- `failed`: a failed assertion, a NULL pointer or an index out of range.
pub data State : Type 0 where
  waiting : Call → FormatCtx → State
  loading : String → State
  unloading : State
  stopped : ℤ → State
  idle : State
  failed : State

-- `_unload_complete`
unfoldable pub unload_complete : Reply → State
unload_complete r = stopped r.bserrno

-- `_unload_bs`, for a context; without one it stops, as with no blobstore.
unfoldable pub unload_bs : FormatCtx → ℤ → State
unload_bs ctx bserrno = elim ctx.bs [ none ↦ stopped bserrno | some bs ↦ unloading ]

-- `if (bserrno) { … _unload_bs(kctx, …, bserrno); return; }`, as most callbacks begin.
unfoldable pub unless_error : FormatCtx → Reply → State → State
unless_error ctx r next = if is_set r.bserrno then unload_bs ctx r.bserrno else next

abbrev pub with_sl : FormatCtx → (SuperLayout → State) → State
with_sl ctx k = elim ctx.sl [ none ↦ failed | some sl ↦ k sl ]
