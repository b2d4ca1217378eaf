-- ===== src/Iterator/Cursor.antt =====
-- src/kvs.c: `kv_iterator_first` and `kv_iterator_seek`, which load the first items of all workers.
use bagdb_spdk.Base.{
  ℕ, zero, suc, ◌+◌, ◌-◌, ◌/◌, ◌^◌, Bool, true, false, ◌&&◌, Option, none, some, List, [], ◌∷◌,
  ◌>>=◌, ◌==◌, if◌then◌else◌, get_elem?, store, u32, u64, uint64_max,
}
use bagdb_spdk.Base.Int.{ℤ, pos, is_set}
use bagdb_spdk.Item.{KvItem}
use bagdb_spdk.Heap.{make_heap}
use bagdb_spdk.Startup.State.{Kvs}
use bagdb_spdk.Dispatch.{assert_parameters, hash_item_to_shard, hash_shard_to_worker}
use bagdb_spdk.Iterator.State.{
  WorkerScanResult, ScanWorkerCtx, KvIterator, Completion, Scan, seek_cb_fn, deliver, fill_seek,
}
use bagdb_spdk.Iterator.Reset.{reset_iterator}

-- `swctx->completed = false; swctx->kverrno = 0`, and the call that is sent to worker `i`.
unfoldable pub send : Scan → ℕ → KvIterator → Option KvIterator
send scan i it = do
  swctx ← get_elem? it.ctx_array i
  ctxs ← store it.ctx_array i (record swctx { completed = false; kverrno = pos 0 })
  some (record it { ctx_array = ctxs; sent = scan ∷ it.sent })

-- The first loop of `kv_iterator_first`, for `n` workers from `i` on.
unfoldable pub send_first : ℕ → ℕ → KvIterator → Option KvIterator
send_first zero i it = some it
send_first (suc n) i it = do
  sent ← send (Scan.first i (it.batch_size / it.nb_workers)) i it
  send_first n (i + 1) sent

-- The loop of `kv_iterator_seek` that loads from all workers, where `worker_id` has the item.
unfoldable pub send_next : ℕ → ℕ → ℕ → KvIterator → Option KvIterator
send_next worker_id zero i it = some it
send_next worker_id (suc n) i it =
    let batch = if i == worker_id then u32 (it.batch_size + (2 ^ 32 - 1)) else it.batch_size in
    (do sent ← send (Scan.next i it.seek_item.item batch) i it; send_next worker_id n (i + 1) sent)

-- The `for` under `while(res)`: the reads of `completed`, for `n` workers from `i` on.
unfoldable pub all_completed : ℕ → ℕ → Bool → List ScanWorkerCtx → Option Bool
all_completed zero i res ctx_array = some res
all_completed (suc n) i res ctx_array = do
  swctx ← get_elem? ctx_array i
  all_completed n (i + 1) (res && swctx.completed) ctx_array

-- The loop `while(res)`, entered with `res` true. Each round comes with the calls of the workers since
-- the round before; `none` when the rounds are over and the loop is not.
unfoldable pub wait_all :
    ℕ → List (List Completion) → List ScanWorkerCtx → Option (List ScanWorkerCtx)
wait_all workers [] ctx_array = none
wait_all workers (calls ∷ rounds) ctx_array = do
  changed ← deliver calls ctx_array
  res ← all_completed workers 0 true changed
  let rest = wait_all workers rounds changed
  if res then rest else some changed

-- The worker's first item becomes an entry.
unfoldable pub load_first : KvIterator → ℕ → WorkerScanResult → Option KvIterator
load_first it i scan_res = do
  item ← get_elem? scan_res.items 0
  entries ← store it.item_array it.nb_items (record { wid = i; item = item })
  idx ← get_elem? it.per_worker_idx i
  idxs ← store it.per_worker_idx i (u64 (idx + 1))
  some (record it { item_array = entries; nb_items = u32 (it.nb_items + 1); per_worker_idx = idxs })

-- The worker has no more items.
unfoldable pub close_worker : KvIterator → ℕ → Option KvIterator
close_worker it i = do
  idxs ← store it.per_worker_idx i uint64_max
  some (record it { per_worker_idx = idxs })

-- The last loop of `kv_iterator_first`, for `n` workers from `i` on. A NULL result is dereferenced.
unfoldable pub load_all : ℕ → ℕ → KvIterator → Option KvIterator
load_all zero i it = some it
load_all (suc n) i it = do
  swctx ← get_elem? it.ctx_array i
  scan_res ← swctx.scan_res
  loaded ← if scan_res.nb_items == 0 then close_worker it i else load_first it i scan_res
  load_all n (i + 1) loaded

-- `kv_iterator_first` up to the waiting loop.
unfoldable pub begin_first : ℕ → KvIterator → Option KvIterator
begin_first workers it = do reset ← reset_iterator workers it; send_first reset.nb_workers 0 reset

-- `kv_iterator_first` after the waiting loop, with what the contexts then hold.
unfoldable pub finish_first : KvIterator → List ScanWorkerCtx → Option KvIterator
finish_first it ctxs = do
  loaded ← load_all it.nb_workers 0 (record it { ctx_array = ctxs })
  entries ← make_heap loaded.item_array loaded.nb_items
  some (record loaded { item_array = entries })

-- `kv_iterator_first`, which returns true. `rounds` are the rounds of the waiting loop and `late` the
-- calls of workers between that loop and the next.
unfoldable pub kv_iterator_first :
    ℕ → KvIterator → List (List Completion) → List Completion → Option KvIterator
kv_iterator_first workers it rounds late = do
  sent ← begin_first workers it
  waited ← wait_all workers rounds sent.ctx_array
  ctxs ← deliver late waited
  finish_first sent ctxs

-- `!scan_res || scan_res->nb_items==0`
unfoldable pub exhausted : Option WorkerScanResult → Bool
exhausted none = true
exhausted (some r) = r.nb_items == 0

-- The last loop of `kv_iterator_seek`. The worker that has the item is skipped.
unfoldable pub load_others : ℕ → ℕ → ℕ → KvIterator → Option KvIterator
load_others worker_id zero i it = some it
load_others worker_id (suc n) i it = do
  swctx ← get_elem? it.ctx_array i
  loaded ←
      if exhausted swctx.scan_res
      then close_worker it i
      else if i == worker_id
      then some it
      else (swctx.scan_res >>= λ scan_res. load_first it i scan_res)
  load_others worker_id n (i + 1) loaded

-- The copy of the item into `seek_item`, which becomes the only entry.
unfoldable pub start_seek : KvIterator → ℕ → KvItem → Option KvIterator
start_seek it worker_id item =
    let filled = fill_seek it worker_id item in
    (do
      entries ← store filled.item_array 0 filled.seek_item
      idxs ← store filled.per_worker_idx worker_id 0
      some (record filled {
        nb_items = 1;
        item_array = entries;
        per_worker_idx = idxs;
        shared = some worker_id;
      }))

-- The call of `_seek_cb_fn`, if it comes before `while(!completed)` ends; `none` if that loop does not
-- end.
unfoldable pub await_seek : Option ℤ → ScanWorkerCtx → Option ScanWorkerCtx
await_seek none swctx = if swctx.completed then some swctx else none
await_seek (some kverrno) swctx = some (seek_cb_fn swctx kverrno)

-- `kv_iterator_seek` after the worker has found the item.
unfoldable pub seek_from :
    ℕ → ℕ → KvIterator → KvItem → List (List Completion) → List Completion → Option KvIterator
seek_from workers worker_id it item rounds late = do
  started ← start_seek it worker_id item
  sent ← send_next worker_id started.nb_workers 0 started
  waited ← wait_all workers rounds sent.ctx_array
  ctxs ← deliver late waited
  loaded ← load_others worker_id sent.nb_workers 0 (record sent { ctx_array = ctxs })
  entries ← make_heap loaded.item_array loaded.nb_items
  some (record loaded { item_array = entries })

-- `kv_iterator_seek`, with what it returns. `found` is the call of `_seek_cb_fn`, `rounds` and `late` as
-- for `kv_iterator_first`.
unfoldable pub kv_iterator_seek :
    Kvs
    → KvIterator
    → KvItem
    → Option ℤ
    → List (List Completion)
    → List Completion
    → Option (KvIterator × Bool)
kv_iterator_seek kvs it item found rounds late = do
  checked ← assert_parameters kvs item
  reset ← reset_iterator kvs.nb_workers it
  shard_id ← hash_item_to_shard kvs item
  worker_id ← hash_shard_to_worker kvs shard_id
  swctx ← get_elem? reset.ctx_array worker_id
  answered ← await_seek found swctx
  ctxs ← store reset.ctx_array worker_id answered
  let it' = record reset { ctx_array = ctxs; sent = Scan.seek worker_id item ∷ reset.sent }
  let on = seek_from kvs.nb_workers worker_id it' item rounds late >>= λ r. some (r, true)
  if is_set answered.kverrno then some (it', false) else on
