-- ===== src/Get/Process.antt =====
-- The functions of src/kv_get.c.
use bagdb_spdk.Base.{
  ℕ, zero, suc, true, false, not, ◌||◌, Option, none, some, List, [], ◌∷◌, ◌++◌, ◌>>=◌, ◌>>◌,
  assert, if◌then◌else◌, get_elem?, store,
}
use bagdb_spdk.Base.Int.{ℤ, is_set}
use bagdb_spdk.Pool.{pool_release}
use bagdb_spdk.Get.State.{
  IndexEntry, ChunkOps, ErrorCodes, GetRequest, Await, chunk, data_of, GetWorker,
}

-- The `k`-th of the calls that are waited for, and the others.
unfoldable pub take_awaited : ℕ → List Await → Option (Await × List Await)
take_awaited k [] = none
take_awaited zero (a ∷ rest) = some (a, rest)
take_awaited (suc k) (a ∷ others) = do (b, rest) ← take_awaited k others; some (b, a ∷ rest)

module _ (chunks : ChunkOps) (errors : ErrorCodes) where
  -- `req->cb_fn(req->ctx, item, kverrno)`
  unfoldable pub call_back : GetWorker chunks → GetRequest → Option ℕ → ℤ → GetWorker chunks
  call_back w req item kverrno =
      let r = req.internal.request in
      record w {
        answered =
            record { cb_fn = r.cb_fn; ctx = r.ctx; item = item; kverrno = kverrno } ∷ w.answered;
      }

  -- `pool_release(wctx->kv_request_internal_pool,req)`
  unfoldable pub release : GetWorker chunks → GetRequest → Option (GetWorker chunks)
  release w req = do
    (pool, done) ← pool_release w.pool req.internal.object
    some (record w { pool = pool })

  -- The two branches at the end of `_process_get_load_data_cb`.
  unfoldable pub answer :
      GetWorker chunks → GetRequest → chunks.Desc → ℕ → ℤ → Option (GetWorker chunks)
  answer w req desc slot kverrno =
      if is_set kverrno
      then some (call_back w req none errors.eio)
      else (assert (chunks.is_cached desc slot)
          >> some (call_back w req (some (chunks.get_item desc slot)) errors.success))

  -- `_process_get_load_data_cb`
  unfoldable pub process_get_load_data_cb :
      GetWorker chunks → GetRequest → ℤ → Option (GetWorker chunks)
  process_get_load_data_cb w req kverrno = do
    e ← req.entry
    entry ← get_elem? w.entries e
    d ← entry.chunk_desc
    released ← release w req
    desc ← get_elem? w.descs d
    descs ← store w.descs d (chunks.mem_lower desc)
    entries ← store w.entries e (record entry { getting = false })
    answer (record released { descs = descs; entries = entries }) req (chunks.mem_lower desc)
        entry.slot_idx kverrno

  -- `_process_get_pagechunk_cb`, which asks for the data.
  unfoldable pub process_get_pagechunk_cb :
      GetWorker chunks → GetRequest → ℤ → Option (GetWorker chunks)
  process_get_pagechunk_cb w req kverrno =
      assert (not (is_set kverrno)) >> some (record w { awaited = data_of req ∷ w.awaited })

  -- The branch of a modifying operation: the entry is kept for the next time if it is being written.
  unfoldable pub resubmit : GetWorker chunks → GetRequest → IndexEntry → GetWorker chunks
  resubmit w req entry =
      let no_lookup = if entry.writing then true else req.internal.no_lookup in
      let queued = record req { internal = record req.internal { no_lookup = no_lookup } } in
      record w { resubmit_queue = w.resubmit_queue ++ queued ∷ [] }

  -- The three branches at the end of `worker_process_get`.
  unfoldable pub read_chunk :
      GetWorker chunks → GetRequest → chunks.Desc → ℕ → Option (GetWorker chunks)
  read_chunk w req desc slot =
      let hit = process_get_load_data_cb w req errors.success in
      if not (chunks.has_mem desc)
      then some (record w { awaited = chunk req ∷ w.awaited })
      else if chunks.is_cached desc slot
      then hit
      else some (record w { awaited = data_of req ∷ w.awaited })

  -- `worker_process_get` with the entry that was found.
  unfoldable pub process_entry : GetWorker chunks → GetRequest → ℕ → Option (GetWorker chunks)
  process_entry w req e = do
    entry ← get_elem? w.entries e
    let on = (do
      d ← entry.chunk_desc
      desc ← get_elem? w.descs d
      entries ← store w.entries e (record entry { getting = true })
      descs ← store w.descs d (chunks.mem_lift desc)
      read_chunk (record w { entries = entries; descs = descs }) req (chunks.mem_lift desc)
          entry.slot_idx)
    if entry.writing || entry.deleting then some (resubmit w req entry) else on

  -- `worker_process_get` with a NULL entry: the item does not exist.
  unfoldable pub process_missing : GetWorker chunks → GetRequest → Option (GetWorker chunks)
  process_missing w req = do
    released ← release w req
    some (call_back released req none errors.item_not_exist)

  unfoldable pub process_found :
      GetWorker chunks → GetRequest → Option ℕ → Option (GetWorker chunks)
  process_found w req none = process_missing w req
  process_found w req (some e) = process_entry w (record req { entry = some e }) e

  -- `worker_process_get`, where `lookup` is `mem_index_lookup` for an item's pointer.
  unfoldable pub worker_process_get :
      (ℕ → Option ℕ) → GetWorker chunks → GetRequest → Option (GetWorker chunks)
  worker_process_get lookup w req =
      process_found w req
        (if req.internal.no_lookup then req.entry else lookup req.internal.request.item)

  -- The callback of a call that was waited for.
  unfoldable pub call_awaited : GetWorker chunks → Await → ℤ → Option (GetWorker chunks)
  call_awaited w (chunk req) kverrno = process_get_pagechunk_cb w req kverrno
  call_awaited w (data_of req) kverrno = process_get_load_data_cb w req kverrno

  -- What happens at a worker: a request is processed, with what `mem_index_lookup` returns for its item; or
  -- a call that is waited for ends, with the chunks as it leaves them.
  pub data Event : Type 0 where
    process : GetRequest → Option ℕ → Event
    complete : ℕ → List chunks.Desc → ℤ → Event

  unfoldable pub step : GetWorker chunks → Event → Option (GetWorker chunks)
  step w (process req found) = worker_process_get (λ item. found) w req
  step w (complete k descs kverrno) = do
    (a, rest) ← take_awaited k w.awaited
    call_awaited (record w { awaited = rest; descs = descs }) a kverrno

  unfoldable pub run : GetWorker chunks → List Event → Option (GetWorker chunks)
  run w [] = some w
  run w (e ∷ es) = do next ← step w e; run next es
