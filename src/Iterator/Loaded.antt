-- ===== src/Iterator/Loaded.antt =====
-- A worker of the iterator of src/kvs.c whose last batch is loaded.

use bagdb_spdk.Base.{
  ℕ, ◌^◌, ◌≤◌, ◌<◌, ◌≡◌, refl, true, some, List, arith, length, get_elem?, inl, inr, Option-cases,
}
use bagdb_spdk.Iterator.State.{WorkerScanResult, ScanWorkerCtx}
use bagdb_spdk.Iterator.View.{batch, ready}

-- What `ready` says of a worker.
pub record Loaded (ctx_array : List ScanWorkerCtx) (idxs : List ℕ) (w : ℕ) : Type 0 where
  pub swctx : ScanWorkerCtx
  pub scan_res : WorkerScanResult
  pub ctx : get_elem? ctx_array w ≡ some swctx
  pub result : swctx.scan_res ≡ some scan_res
  pub worker_id : swctx.worker_id ≡ w
  pub whole : scan_res.nb_items ≡ length scan_res.items
  pub open_batch : scan_res.nb_items < scan_res.batch_size
  pub small : scan_res.batch_size ≤ 2 ^ 32
  pub inside : w < length idxs
  pub items : batch ctx_array w ≡ scan_res.items

pub ready-Loaded :
    (ctx_array : List ScanWorkerCtx) (idxs : List ℕ) (w : ℕ)
    → ready ctx_array idxs w ≡ true
    → Loaded ctx_array idxs w
unfolding ready
ready-Loaded ctx_array idxs w h = elim (Option-cases (get_elem? ctx_array w)) [
  | inl e ↦ absurd (ground arith)
  | inr (c, e) ↦ elim (Option-cases c.scan_res) [
    | inl f ↦ absurd (ground arith)
    | inr (r, f) ↦ record {
      swctx = c;
      scan_res = r;
      ctx = e;
      result = f;
      worker_id = ground arith;
      whole = ground arith;
      open_batch = ground arith;
      small = ground arith;
      inside = ground arith;
      items = rw (e, f) refl;
    }
  ]
]
