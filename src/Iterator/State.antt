-- ===== src/Iterator/State.antt =====
-- The data of the iterator of src/kvs.c, and the callbacks that a worker's thread calls.
use bagdb_spdk.Base.{
  ℕ, Bool, true, Option, none, some, List, [], ◌∷◌, ◌>>=◌, ◌==◌, if◌then◌else◌, get_elem?, store,
  take, drop, ◌++◌,
}
use bagdb_spdk.Base.Int.{ℤ, is_set}
use bagdb_spdk.Item.{KvItem, SortedItem}

-- `struct worker_scan_result`, of which the sources use these fields but have no declaration.
pub record WorkerScanResult : Type 0 where
  pub nb_items : ℕ
  pub batch_size : ℕ
  pub items : List KvItem

-- `struct _scan_worker_ctx`, without the pointer back to the iterator. A pointer is an option, NULL
-- `none`.
pub record ScanWorkerCtx : Type 0 where
  pub worker_id : ℕ
  pub completed : Bool
  pub kverrno : ℤ
  pub scan_res : Option WorkerScanResult

-- A call of `worker_enqueue_seek`, `worker_enqueue_first` or `worker_enqueue_next`, which the
-- repository does not implement: the worker, the item and the batch.
pub data Scan : Type 0 where
  seek : ℕ → KvItem → Scan
  first : ℕ → ℕ → Scan
  next : ℕ → KvItem → ℕ → Scan

-- `struct kv_iterator`. Entries hold their items by value, but after a seek one entry's pointer is that
-- of `seek_item`, whose buffer later calls overwrite: `shared` is the worker of this entry. `sent` are
-- the calls made so far, the last one first.
pub record KvIterator : Type 0 where
  pub nb_workers : ℕ
  pub batch_size : ℕ
  pub nb_items : ℕ
  pub seek_item : SortedItem
  pub per_worker_idx : List ℕ
  pub ctx_array : List ScanWorkerCtx
  pub item_array : List SortedItem
  pub shared : Option ℕ
  pub sent : List Scan

-- `_seek_cb_fn`
unfoldable pub seek_cb_fn : ScanWorkerCtx → ℤ → ScanWorkerCtx
seek_cb_fn swctx kverrno = record swctx { kverrno = kverrno; completed = true }

-- `_iter_cb_fn`
unfoldable pub iter_cb_fn : ScanWorkerCtx → Option WorkerScanResult → ℤ → ScanWorkerCtx
iter_cb_fn swctx scan_res kverrno =
    let kept = if is_set kverrno then swctx.scan_res else scan_res in
    record swctx { scan_res = kept; kverrno = kverrno; completed = true }

-- A worker's call of `_iter_cb_fn`, in the thread of the worker.
pub record Completion : Type 0 where
  pub worker : ℕ
  pub scan_res : Option WorkerScanResult
  pub kverrno : ℤ

-- The calls of the workers, in their order.
unfoldable pub deliver : List Completion → List ScanWorkerCtx → Option (List ScanWorkerCtx)
deliver [] ctx_array = some ctx_array
deliver (c ∷ cs) ctx_array = do
  swctx ← get_elem? ctx_array c.worker
  changed ← store ctx_array c.worker (iter_cb_fn swctx c.scan_res c.kverrno)
  deliver cs changed

-- The item that is copied into the buffer of `seek_item`: the key's bytes over the old ones.
unfoldable pub copy_key : KvItem → KvItem → KvItem
copy_key buffer item = record {
  meta = record { rdt = buffer.meta.rdt; ksize = item.meta.ksize; vsize = 0 };
  bytes = take item.meta.ksize item.bytes ++ drop item.meta.ksize buffer.bytes;
}

-- An entry whose pointer is that of `seek_item` changes with it.
unfoldable pub refresh : Option ℕ → KvItem → List SortedItem → List SortedItem
refresh none item entries = entries
refresh (some w) item [] = []
refresh (some w) item (e ∷ es) =
    (if e.wid == w then record e { item = item } else e) ∷ refresh (some w) item es

-- The copy of an item's key into `seek_item`, for worker `wid`.
unfoldable pub fill_seek : KvIterator → ℕ → KvItem → KvIterator
fill_seek it wid item =
    let key = copy_key it.seek_item.item item in
    record it {
      seek_item = record { wid = wid; item = key };
      item_array = refresh it.shared key it.item_array;
    }
