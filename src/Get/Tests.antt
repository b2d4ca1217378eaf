-- ===== src/Get/Tests.antt =====
-- Runs of a GET of src/kv_get.c, at a worker whose index has one entry.
use mathlib.Core.List.{Perm}
use bagdb_spdk.Base.{
  ℕ, suc, ◌≡◌, refl, Bool, true, false, ◌||◌, none, some, List, [], ◌∷◌, arith, ◌==◌, if◌then◌else◌,
}
use bagdb_spdk.Base.Int.{pos, negsuc}
use bagdb_spdk.Pool.Example.{fresh, one_free, one_free-IsFree, release_runs}
use bagdb_spdk.Worker.State.{get}
use bagdb_spdk.Worker.Batch.{no_request}
use bagdb_spdk.Get.State.{IndexEntry, ChunkOps, ErrorCodes, GetRequest, chunk, GetWorker}
use bagdb_spdk.Get.Process.{
  call_back, release, answer, process_get_load_data_cb, process_get_pagechunk_cb, read_chunk,
  process_entry, process_missing, process_found, worker_process_get, call_awaited, take_awaited,
  Event, process, complete, step, run,
}
use bagdb_spdk.Get.Once.{run-once}
use bagdb_spdk.Get.Load.{PinsOnly, Holds, IsAnswered}
use bagdb_spdk.Get.Answer.{worker_process_get-answers}

-- The items of a chunk by their slots.
abbrev has_slot : List (ℕ × ℕ) → ℕ → Bool
has_slot [] slot = false
has_slot ((s, item) ∷ rest) slot = (s == slot) || has_slot rest slot

abbrev item_at : List (ℕ × ℕ) → ℕ → ℕ
item_at [] slot = 0
item_at ((s, item) ∷ rest) slot = if s == slot then item else item_at rest slot

-- A descriptor: whether it has memory, the items in it, and how often it is pinned.
abbrev list_chunks : ChunkOps
list_chunks = record {
  Desc = Bool × (List (ℕ × ℕ) × ℕ);
  has_mem = λ d. d.0;
  is_cached = λ d slot. has_slot d.1.0 slot;
  get_item = λ d slot. item_at d.1.0 slot;
  mem_lift = λ d. (d.0, (d.1.0, suc d.1.1));
  mem_lower = λ d. (d.0, (d.1.0, d.1.1));
}

abbrev codes : ErrorCodes
codes = record { success = pos 0; eio = negsuc 4; item_not_exist = negsuc 9 }

abbrev a_request : GetRequest
a_request = record {
  internal = record {
    object = 4096;
    request = record no_request { op_code = get; item = 70; cb_fn = 80; ctx = 90 };
    no_lookup = false;
  };
  entry = none;
}

abbrev an_entry : IndexEntry
an_entry = record {
  getting = false;
  writing = false;
  deleting = false;
  slot_idx = 5;
  chunk_desc = some 0;
}

abbrev evicted : list_chunks.Desc
evicted = (false, ([], 0))

abbrev empty_chunk : list_chunks.Desc
empty_chunk = (true, ([], 1))

abbrev full_chunk : list_chunks.Desc
full_chunk = (true, ((5, 700) ∷ [], 1))

abbrev a_worker : GetWorker list_chunks
a_worker = record {
  pool = one_free;
  resubmit_queue = [];
  entries = an_entry ∷ [];
  descs = evicted ∷ [];
  awaited = [];
  answered = [];
}

-- The chunk is asked for, then its data, and then the user gets the item.
abbrev events : List (Event list_chunks codes)
events =
    process a_request (some 0)
    ∷ complete 0 (empty_chunk ∷ []) (pos 0)
    ∷ complete 0 (full_chunk ∷ []) (pos 0)
    ∷ []

abbrev served : GetWorker list_chunks
served = record {
  pool = fresh;
  resubmit_queue = [];
  entries = an_entry ∷ [];
  descs = full_chunk ∷ [];
  awaited = [];
  answered = record { cb_fn = 80; ctx = 90; item = some 700; kverrno = pos 0 } ∷ [];
}

run-events : run list_chunks codes a_worker events ≡ some served
unfolding run step worker_process_get process_found process_entry read_chunk call_awaited
    take_awaited process_get_pagechunk_cb process_get_load_data_cb release answer call_back
run-events = rw release_runs refl

-- An item that is not there.
run_missing :
    run list_chunks codes a_worker (process a_request none ∷ [])
    ≡ some (record a_worker {
      pool = fresh;
      answered = record { cb_fn = 80; ctx = 90; item = none; kverrno = negsuc 9 } ∷ [];
    })
unfolding run step worker_process_get process_found process_missing release call_back
run_missing = rw release_runs refl

-- Of two GETs of one entry, the first that ends takes the mark off the entry while the other one still
-- waits for the data.
mark_lost :
    run list_chunks codes a_worker (
      process a_request (some 0)
      ∷ process
          (record a_request { internal = record a_request.internal { object = 4120 } })
          (some 0)
      ∷ complete 1 (empty_chunk ∷ []) (pos 0)
      ∷ complete 0 (full_chunk ∷ []) (pos 0)
      ∷ [])
    ≡ some (record served {
      awaited =
          chunk (record a_request {
            internal = record a_request.internal { object = 4120 };
            entry = some 0;
          })
          ∷ [];
    })
unfolding run step worker_process_get process_found process_entry read_chunk call_awaited
    take_awaited process_get_pagechunk_cb process_get_load_data_cb release answer call_back
mark_lost = rw release_runs refl

run-once_example : Perm {A = ℕ × ℕ} ((80, 90) ∷ []) ((80, 90) ∷ [])
run-once_example = run-once list_chunks codes a_worker events served run-events

list_pins : PinsOnly list_chunks
list_pins = record { lift = λ d slot. refl; lower = λ d slot. refl; lower_item = λ d slot. refl }

a_worker-Holds : Holds list_chunks codes list_pins refl a_request 0 0 0 an_entry (1 ∷ []) a_worker
a_worker-Holds = record {
  entry_there = (false, refl);
  chunk_there = refl;
  free = one_free-IsFree;
  object = refl;
  inside = omega arith;
  in_use = omega arith;
}

worker_process_get-answers_example :
    (w' : GetWorker list_chunks) × (run list_chunks codes a_worker events ≡ some w')
    × IsAnswered list_chunks codes list_pins refl a_request 0 0 0 an_entry (1 ∷ []) 700 a_worker w'
worker_process_get-answers_example =
    worker_process_get-answers list_chunks codes list_pins refl a_request 0 0 0 an_entry (1 ∷ [])
      a_worker a_worker-Holds evicted refl refl refl (empty_chunk ∷ []) (full_chunk ∷ [])
      (full_chunk, refl, refl)
