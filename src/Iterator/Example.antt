-- ===== src/Iterator/Example.antt =====
-- An iterator of src/kvs.c over two workers: the first has two items, the second one.
use bagdb_spdk.Base.{
  replicate, ◌++◌, ◌/◌, ◌^◌, ◌-◌, ℕ, zero, suc, refl, false, true, some, none, List, [], ◌∷◌, arith,
}
use bagdb_spdk.Base.Int.{pos}
use bagdb_spdk.Item.{KvItem, SortedItem}
use bagdb_spdk.Iterator.State.{WorkerScanResult, ScanWorkerCtx, KvIterator, Completion, Scan}
use bagdb_spdk.Iterator.Reset.{Garbage, kv_iterator_alloc}
use bagdb_spdk.Iterator.Load.{AllReady}

-- The item with the key `k`.
abbrev pub key_item : ℕ → KvItem
key_item k = record { meta = record { rdt = 0; ksize = 1; vsize = 0 }; bytes = k ∷ [] }

abbrev pub entry : ℕ → ℕ → SortedItem
entry w k = record { wid = w; item = key_item k }

-- New memory: all ones.
abbrev pub garbage : Garbage
garbage = record {
  seek_buffer = key_item 255;
  words = (2 ^ 64 - 1) ∷ (2 ^ 64 - 1) ∷ [];
  completed = λ i. true;
  kverrno = λ i. pos 1;
  entries = entry 7 7 ∷ entry 8 8 ∷ [];
}

-- A block of so many bytes.
abbrev pub block : ℕ → Garbage
block size = record garbage {
  words = garbage.words ++ replicate (size / 56) 0;
  entries = garbage.entries ++ replicate (size / 56) (entry 7 7);
}

abbrev pub new_iterator : KvIterator
new_iterator = kv_iterator_alloc block 65536 2 8

abbrev pub result_of : List KvItem → ℕ → WorkerScanResult
result_of items n = record { nb_items = n; batch_size = 4; items = items }

abbrev pub first_result : WorkerScanResult
first_result = result_of (key_item 1 ∷ key_item 4 ∷ []) 2

abbrev pub second_result : WorkerScanResult
second_result = result_of (key_item 3 ∷ []) 1

abbrev pub answers : List Completion
answers =
    record { worker = 0; scan_res = some first_result; kverrno = pos 0 }
    ∷ record { worker = 1; scan_res = some second_result; kverrno = pos 0 }
    ∷ []

-- The contexts before and after the workers have answered.
abbrev pub asked : ℕ → ScanWorkerCtx
asked i = record { worker_id = i; completed = false; kverrno = pos 0; scan_res = none }

abbrev pub answered : ℕ → WorkerScanResult → ScanWorkerCtx
answered i r = record { worker_id = i; completed = true; kverrno = pos 0; scan_res = some r }

abbrev pub all_asked : List ScanWorkerCtx
all_asked = asked 0 ∷ asked 1 ∷ []

abbrev pub all_answered : List ScanWorkerCtx
all_answered = answered 0 first_result ∷ answered 1 second_result ∷ []

pub all_answered-ready : AllReady 2 all_answered
all_answered-ready zero h = refl
all_answered-ready (suc zero) h = refl
all_answered-ready (suc (suc w)) h = absurd (omega arith)

-- The iterator that waits for the first items.
abbrev pub sent_iterator : KvIterator
sent_iterator = record {
  nb_workers = 2;
  batch_size = 8;
  nb_items = 0;
  seek_item = record { wid = 0; item = key_item 255 };
  per_worker_idx = 0 ∷ 0 ∷ [];
  ctx_array = all_asked;
  item_array = entry 7 7 ∷ entry 8 8 ∷ [];
  shared = none;
  sent = Scan.first 1 4 ∷ Scan.first 0 4 ∷ [];
}

-- The iterator after `kv_iterator_first`: the greater item is at the front.
abbrev pub merging : KvIterator
merging = record sent_iterator {
  nb_items = 2;
  per_worker_idx = 1 ∷ 1 ∷ [];
  ctx_array = all_answered;
  item_array = entry 1 3 ∷ entry 0 1 ∷ [];
}
