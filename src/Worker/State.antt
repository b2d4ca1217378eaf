-- ===== src/Worker/State.antt =====
-- The data of src/worker.c: requests, and the context of a worker.
use bagdb_spdk.Base.{ℕ, Bool, List}
use bagdb_spdk.Base.Int.{ℤ}
use bagdb_spdk.Pool.{ObjectCachePool}
use bagdb_spdk.Worker.Ring.{RingOps}

-- `enum op_code`; a code beyond it is `unknown`.
pub data OpCode : Type 0 where
  get put delete first seek next : OpCode
  unknown : ℕ → OpCode

-- `struct kv_request`, a request's buffer. Items, functions and contexts are pointers.
pub record KvRequest : Type 0 where
  pub op_code : OpCode
  pub shard : ℕ
  pub item : ℕ
  pub cb_fn : ℕ
  pub ctx : ℕ
  pub scan_cb_fn : ℕ
  pub scan_batch : ℕ

-- `struct kv_request_internal`, with the address of its object. Of its
-- `pctx` stands the field that a poll sets; what `_process_one_kv_request` resets there is left out.
pub record KvRequestInternal : Type 0 where
  pub object : ℕ
  pub request : KvRequest
  pub no_lookup : Bool

-- A call of a request's callback: the function, its context and the error number.
pub record Called : Type 0 where
  pub cb_fn : ℕ
  pub ctx : ℕ
  pub kverrno : ℤ

-- `struct worker_context`, as far as requests go. Rings hold indices of `request_queue`; a queue of
-- internal requests is a list, its head first. `called` are the calls made so far.
pub record WorkerContext (ops : RingOps) : Type 0 where
  pub request_queue : List KvRequest
  pub max_pending_kv_request : ℕ
  pub req_used_ring : ops.Ring
  pub req_free_ring : ops.Ring
  pub submit_queue : List KvRequestInternal
  pub resubmit_queue : List KvRequestInternal
  pub kv_request_internal_pool : ObjectCachePool
  pub max_pending_io : ℕ
  pub nb_pending_io : ℕ
  pub called : List Called
