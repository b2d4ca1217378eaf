-- ===== src/Get/Answer.antt =====
-- A GET of src/kv_get.c whose item is there is answered, after at most two calls that it waits for.
use bagdb_spdk.Base.{
  ℕ, ◌≡◌, refl, sym, ap, subst, ◌∙◌, true, false, not, ◌||◌, some, List, [], ◌∷◌, arith, get_elem?,
  get_elem?-set_self, set, inl, inr, Bool-cases, if◌then◌else◌,
}
use bagdb_spdk.Base.Int.{is_set}
use bagdb_spdk.Get.State.{
  IndexEntry, ChunkOps, ErrorCodes, GetRequest, Answered, chunk, data_of, GetWorker,
}
use bagdb_spdk.Get.Process.{
  process_get_pagechunk_cb, read_chunk, process_entry, process_found, worker_process_get,
  call_awaited, take_awaited, Event, process, complete, step, run,
}
use bagdb_spdk.Get.Load.{PinsOnly, Holds, HasData, IsAnswered, found_request, load-IsAnswered}

module _ (chunks : ChunkOps) (errors : ErrorCodes) (pins : PinsOnly chunks)
    (ok : is_set errors.success ≡ false) (req : GetRequest) (e d i : ℕ) (entry : IndexEntry)
    (fs : List ℕ) where
  abbrev Held : GetWorker chunks → Type 0
  Held = Holds chunks errors pins ok req e d i entry fs

  abbrev Supplied : List chunks.Desc → Type 0
  Supplied = HasData chunks errors pins ok req e d i entry fs

  abbrev Served : ℕ → GetWorker chunks → GetWorker chunks → Type 0
  Served = IsAnswered chunks errors pins ok req e d i entry fs

  abbrev mine : GetRequest
  mine = found_request chunks errors pins ok req e d i entry fs

  -- The calls that end, one after the other, for a chunk `desc`: `chunked` and `loaded` are the chunks
  -- after a request for the chunk's memory and after a load of its data.
  abbrev pub calls : chunks.Desc → List chunks.Desc → List chunks.Desc → List (Event chunks errors)
  calls desc chunked with_data =
      if not (chunks.has_mem desc)
      then complete 0 chunked errors.success ∷ complete 0 with_data errors.success ∷ []
      else if chunks.is_cached desc entry.slot_idx
      then []
      else complete 0 with_data errors.success ∷ []

  -- The item that the user is to get: the one in the slot of the entry, of the chunk when it has it, and
  -- else of the chunk that is loaded.
  abbrev pub item_of : chunks.Desc → chunks.Desc → ℕ
  item_of desc loaded =
      if not (chunks.has_mem desc)
      then chunks.get_item loaded entry.slot_idx
      else if chunks.is_cached desc entry.slot_idx
      then chunks.get_item desc entry.slot_idx
      else chunks.get_item loaded entry.slot_idx

  module _ (w : GetWorker chunks) (h : Held w) (desc : chunks.Desc)
      (at : get_elem? w.descs d ≡ some desc) (calm : (entry.writing || entry.deleting) ≡ false)
      (fresh : req.internal.no_lookup ≡ false) (chunked with_data : List chunks.Desc)
      (data_there : Supplied with_data) where
    abbrev lifted : chunks.Desc
    lifted = chunks.mem_lift desc

    abbrev marked : GetWorker chunks
    marked = record w {
      entries = set w.entries e (record entry { getting = true });
      descs = set w.descs d lifted;
    }

    marked-Holds : Held marked
    marked-Holds = record {
      entry_there = (
        true,
        get_elem?-set_self w.entries e _ (record entry { getting = true }) h.entry_there.1,
      );
      chunk_there = h.chunk_there;
      free = h.free;
      object = h.object;
      inside = h.inside;
      in_use = h.in_use;
    }

    process-eq :
        step chunks errors w (process req (some e))
        ≡ read_chunk chunks errors marked mine lifted entry.slot_idx
    unfolding step worker_process_get process_found process_entry
    process-eq =
        let (b, found) = h.entry_there in
        let there = h.chunk_there in ground (arith, fresh, found, there, at, calm)

    -- The worker once only the data is waited for, and the chunks are `descs`.
    abbrev loading : List chunks.Desc → GetWorker chunks
    loading descs = record marked { awaited = data_of mine ∷ w.awaited; descs = descs }

    abbrev requesting : GetWorker chunks
    requesting = record marked { awaited = chunk mine ∷ w.awaited }

    abbrev arrived : GetWorker chunks
    arrived = record marked { descs = with_data }

    arrived-Holds : Held arrived
    arrived-Holds = record {
      entry_there = marked-Holds.entry_there;
      chunk_there = h.chunk_there;
      free = h.free;
      object = h.object;
      inside = h.inside;
      in_use = h.in_use;
    }

    -- The same answer, seen from the worker before the request.
    since :
        (item : ℕ) (before w' : GetWorker chunks)
        → before.answered ≡ w.answered
        → before.awaited ≡ w.awaited
        → Served item before w'
        → Served item w w'
    since item before w' same_answers same_awaited a = record {
      answered =
          a.answered
          ∙ ap
              (λ (l : List Answered).
                record {
                  cb_fn = req.internal.request.cb_fn;
                  ctx = req.internal.request.ctx;
                  item = some item;
                  kverrno = errors.success;
                }
                ∷ l)
              same_answers;
      nothing_awaited = a.nothing_awaited ∙ same_awaited;
      freed = a.freed;
      unmarked = a.unmarked;
    }

    abbrev Ends : ℕ → GetWorker chunks → List (Event chunks errors) → Type 0
    Ends item before es =
        (w' : GetWorker chunks) × (run chunks errors before es ≡ some w') × Served item w w'

    abbrev loaded_item : ℕ
    loaded_item = chunks.get_item data_there.0 entry.slot_idx

    done : (w' : GetWorker chunks) → run chunks errors w' [] ≡ some w'
    unfolding run
    done w' = refl

    data_arrives :
        (descs : List chunks.Desc)
        → Ends loaded_item (loading descs) (complete 0 with_data errors.success ∷ [])
    unfolding run step call_awaited take_awaited
    data_arrives descs =
        let (w', out, is) =
          load-IsAnswered chunks errors pins ok req e d i entry fs arrived arrived-Holds
            data_there in
        (w', rw out refl, since loaded_item arrived w' refl refl is)

    chunk_arrives :
        Ends loaded_item requesting
          (complete 0 chunked errors.success ∷ complete 0 with_data errors.success ∷ [])
    unfolding run step call_awaited take_awaited process_get_pagechunk_cb
    chunk_arrives = let (w', out, is) = data_arrives chunked in (w', rw ok out, is)

    after_process :
        (item : ℕ) (next : GetWorker chunks) (es : List (Event chunks errors))
        → read_chunk chunks errors marked mine lifted entry.slot_idx ≡ some next
        → Ends item next es
        → Ends item w (process req (some e) ∷ es)
    unfolding run
    after_process item next es out (w', rest, is) = (w', rw (process-eq, out) rest, is)

    -- The claim for the chunk as it is: the item that the user gets, and the calls that end before.
    abbrev Answers : Type 0
    Answers =
        Ends (item_of lifted data_there.0) w (process req (some e) ∷ calls lifted chunked with_data)

    answers_by :
        (item : ℕ) (next : GetWorker chunks) (es : List (Event chunks errors))
        → read_chunk chunks errors marked mine lifted entry.slot_idx ≡ some next
        → Ends item next es
        → item_of lifted data_there.0 ≡ item
        → calls lifted chunked with_data ≡ es
        → Answers
    answers_by item next es out ends same eq =
        subst (λ k. Ends k w (process req (some e) ∷ calls lifted chunked with_data)) (sym same)
          (subst (λ l. Ends item w (process req (some e) ∷ l)) (sym eq)
            (after_process item next es out ends))

    without_memory : (chunks.has_mem lifted ≡ false) → Answers
    unfolding read_chunk
    without_memory none_yet =
        answers_by loaded_item requesting _ (rw none_yet refl) chunk_arrives (rw none_yet refl)
          (rw none_yet refl)

    hit_or_miss : (chunks.has_mem lifted ≡ true) → Answers
    unfolding read_chunk
    hit_or_miss has = elim (Bool-cases (chunks.is_cached lifted entry.slot_idx)) [
      | inl hit ↦
          let item = chunks.get_item lifted entry.slot_idx in
          let (w', out, is) =
            load-IsAnswered chunks errors pins ok req e d i entry fs marked marked-Holds
              (lifted, get_elem?-set_self w.descs d desc lifted at, hit) in
          answers_by item w' [] (rw (has, hit) out) (w', done w', since item marked w' refl refl is)
            (rw (has, hit) refl) (rw (has, hit) refl)
      | inr miss ↦
          answers_by loaded_item (loading marked.descs) _ (rw (has, miss) refl)
            (data_arrives marked.descs) (rw (has, miss) refl) (rw (has, miss) refl)
    ]

    -- A GET of an item that the index has and that is not being modified is answered with the item in the
    -- entry's slot of the entry's chunk, after the calls that it has to wait for, which are at most two:
    -- none when the chunk has the item's data, and then the item is the chunk's; the load of the data when
    -- the chunk has memory, and before it the request for memory when it has none, and then the item
    -- is that of the chunk as it is loaded. The request's object is then free and the entry is not marked
    -- as being read. It is assumed that pinning a chunk does not change what it caches and releasing it
    -- neither that nor its items, and that the data is there when its load ends.
    pub worker_process_get-answers :
        Ends (item_of lifted data_there.0) w (process req (some e) ∷ calls lifted chunked with_data)
    worker_process_get-answers = elim (Bool-cases (chunks.has_mem lifted)) [
      | inl has ↦ hit_or_miss has
      | inr none_yet ↦ without_memory none_yet
    ]
