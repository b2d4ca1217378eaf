-- ===== src/Iterator/Next.antt =====
-- src/kvs.c: `kv_iterator_next` and `kv_iterator_item`.
use bagdb_spdk.Base.{
  ℕ, ◌+◌, ◌-◌, ◌^◌, Bool, false, not, Option, none, some, ◌∷◌, ◌>>=◌, ltb, leb, ◌==◌, if◌then◌else◌,
  get_elem?, store, u32, u64, uint64_max,
}
use bagdb_spdk.Base.Int.{ℤ}
use bagdb_spdk.Item.{KvItem}
use bagdb_spdk.Heap.{heap_adjust, heap_fuel}
use bagdb_spdk.Iterator.State.{
  WorkerScanResult, ScanWorkerCtx, KvIterator, Scan, iter_cb_fn, fill_seek,
}
use bagdb_spdk.Iterator.Reset.{reset_scan_res}

-- The next batch of worker `wid` is asked for and waited for; `none` if no answer comes.
unfoldable pub preload :
    KvIterator → ℕ → WorkerScanResult → Option (Option WorkerScanResult × ℤ) → Option KvIterator
preload it wid scan_res answer = do
  swctx ← get_elem? it.ctx_array wid
  last_item ← get_elem? scan_res.items (u32 (scan_res.nb_items + (2 ^ 32 - 1)))
  let filled = fill_seek it swctx.worker_id last_item
  reset ← reset_scan_res filled wid
  (batch, kverrno) ← answer
  waiting ← get_elem? reset.ctx_array wid
  ctxs ← store reset.ctx_array wid (iter_cb_fn waiting batch kverrno)
  some (record reset {
    ctx_array = ctxs;
    sent = Scan.next wid reset.seek_item.item reset.batch_size ∷ reset.sent;
  })

-- The entry at the front is replaced; if it was the one that points to `seek_item`, none does any more.
unfoldable pub unshare : Option ℕ → ℕ → Option ℕ
unshare none wid = none
unshare (some w) wid = if w == wid then none else some w

-- `There are items left in the batch`: item `idx` of the batch comes to the front.
unfoldable pub take_item : KvIterator → ℕ → ℕ → ScanWorkerCtx → WorkerScanResult → Option KvIterator
take_item it wid idx swctx scan_res = do
  item ← get_elem? scan_res.items idx
  entries ← store it.item_array 0 (record { wid = swctx.worker_id; item = item })
  idxs ← store it.per_worker_idx wid (u64 (idx + 1))
  adjusted ← heap_adjust heap_fuel entries 0 it.nb_items
  some (record it { item_array = adjusted; per_worker_idx = idxs; shared = unshare it.shared wid })

-- `No more items left for the worker`: the last entry comes to the front.
unfoldable pub drop_worker : KvIterator → ℕ → Option KvIterator
drop_worker it wid = do
  idxs ← store it.per_worker_idx wid uint64_max
  last ← get_elem? it.item_array (it.nb_items - 1)
  entries ← store it.item_array 0 last
  adjusted ← heap_adjust heap_fuel entries 0 (it.nb_items - 1)
  some (record it {
    item_array = adjusted;
    per_worker_idx = idxs;
    nb_items = it.nb_items - 1;
    shared = unshare it.shared wid;
  })

-- The branches without items left: of the worker, or of the whole database.
unfoldable pub end_worker : KvIterator → ℕ → Option KvIterator
end_worker it wid =
    if ltb 1 it.nb_items then drop_worker it wid else some (record it { nb_items = 0 })

-- The second half of `kv_iterator_next`, from `if(it->per_worker_idx[wid] < …)` on.
unfoldable pub advance : KvIterator → ℕ → Option KvIterator
advance it wid = do
  swctx ← get_elem? it.ctx_array wid
  scan_res ← swctx.scan_res
  idx ← get_elem? it.per_worker_idx wid
  if ltb idx scan_res.nb_items then take_item it wid idx swctx scan_res else end_worker it wid

-- The batch is used up: if it was full, the worker may have more.
unfoldable pub refill_used :
    KvIterator → ℕ → WorkerScanResult → Option (Option WorkerScanResult × ℤ) → Option KvIterator
refill_used it wid scan_res answer =
    if scan_res.nb_items == scan_res.batch_size then preload it wid scan_res answer else some it

-- The first half: the worker at the front, whose batch is filled again when it was full and is used up.
unfoldable pub refill : KvIterator → ℕ → Option (Option WorkerScanResult × ℤ) → Option KvIterator
refill it wid answer = do
  swctx ← get_elem? it.ctx_array wid
  idx ← get_elem? it.per_worker_idx wid
  scan_res ← swctx.scan_res
  if leb scan_res.nb_items idx then refill_used it wid scan_res answer else some it

-- `kv_iterator_next`, with what it returns. `answer` is what the worker calls `_iter_cb_fn` with, if
-- the batch is filled again.
unfoldable pub kv_iterator_next :
    KvIterator → Option (Option WorkerScanResult × ℤ) → Option (KvIterator × Bool)
kv_iterator_next it answer =
    let on = (do
      front ← get_elem? it.item_array 0
      refilled ← refill it front.wid answer
      advanced ← advance refilled front.wid
      some (advanced, not (advanced.nb_items == 0))) in
    if it.nb_items == 0 then some (it, false) else on

-- `kv_iterator_item`: NULL, or the item at the front.
unfoldable pub kv_iterator_item : KvIterator → Option KvItem
kv_iterator_item it =
    let front = get_elem? it.item_array 0 >>= λ e. some e.item in
    if it.nb_items == 0 then none else front
