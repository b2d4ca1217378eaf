-- ===== src/Iterator/Reset.antt =====
-- src/kvs.c: how an iterator is allocated, reset and released.
use bagdb_spdk.Base.{
  u32, ◌+◌, ℕ, zero, suc, ◌+◌, ◌-◌, ◌*◌, ◌/◌, ◌^◌, Bool, false, Option, none, some, List, [], ◌∷◌,
  ◌>>=◌, ltb, if◌then◌else◌, get_elem?, store, take,
}
use bagdb_spdk.Base.Int.{ℤ, pos}
use bagdb_spdk.Item.{KvItem, SortedItem}
use bagdb_spdk.Iterator.State.{ScanWorkerCtx, KvIterator}

-- `memset(words, 0, n)` on 64-bit words, little-endian: of a word that is cleared in part, the low
-- bytes are zero.
unfoldable pub clear_bytes : ℕ → List ℕ → List ℕ
clear_bytes n [] = []
clear_bytes n (w ∷ ws) =
    let low = 2 ^ (8 * n) in (if ltb n 8 then w / low * low else 0) ∷ clear_bytes (n - 8) ws

-- What the new memory holds where `kv_iterator_alloc` does not write: per worker a context and a word,
-- and the entries of the heap.
pub record Garbage : Type 0 where
  pub seek_buffer : KvItem
  pub words : List ℕ
  pub completed : ℕ → Bool
  pub kverrno : ℕ → ℤ
  pub entries : List SortedItem

-- The loop of `kv_iterator_alloc`, for `n` workers from `i` on.
unfoldable pub alloc_ctxs : Garbage → ℕ → ℕ → List ScanWorkerCtx
alloc_ctxs g zero i = []
alloc_ctxs g (suc n) i =
    record { worker_id = i; completed = g.completed i; kverrno = g.kverrno i; scan_res = none }
    ∷ alloc_ctxs g n (i + 1)

-- The sizes of `struct kv_iterator`, `struct _scan_worker_ctx` and `struct sorted_item` on a 64-bit machine.
abbrev pub sizeof_kv_iterator : ℕ
sizeof_kv_iterator = 56

abbrev pub sizeof_scan_worker_ctx : ℕ
sizeof_scan_worker_ctx = 32

abbrev pub sizeof_sorted_item : ℕ
sizeof_sorted_item = 16

-- The size that `kv_iterator_alloc` asks for, in a `uint32_t`. MAX_SLAB_SIZE is not in the repository.
unfoldable pub alloc_size : ℕ → ℕ → ℕ
alloc_size max_slab_size workers = u32 (
    sizeof_kv_iterator
    + workers * 8
    + workers * sizeof_scan_worker_ctx
    + sizeof_sorted_item * workers
    + max_slab_size)

-- What `kv_iterator_alloc` writes into the new block.
unfoldable pub init_iterator : Garbage → ℕ → ℕ → KvIterator
init_iterator g workers batch_size = record {
  nb_workers = workers;
  batch_size = batch_size;
  nb_items = 0;
  seek_item = record { wid = 0; item = g.seek_buffer };
  per_worker_idx = clear_bytes workers (take workers g.words);
  ctx_array = alloc_ctxs g workers 0;
  item_array = take workers g.entries;
  shared = none;
  sent = [];
}

-- `kv_iterator_alloc`, for a runtime of `workers` workers. `malloc` is a block's content by its size. The
-- block is there: `assert(it)`.
unfoldable pub kv_iterator_alloc : (ℕ → Garbage) → ℕ → ℕ → ℕ → KvIterator
kv_iterator_alloc malloc max_slab_size workers batch_size =
    init_iterator (malloc (alloc_size max_slab_size workers)) workers batch_size

-- What `_reset_scan_res` makes of the context; the result and its items are freed.
unfoldable pub forget_result : ScanWorkerCtx → ScanWorkerCtx
forget_result swctx = elim swctx.scan_res [
  | none ↦ swctx
  | some r ↦ record swctx { scan_res = none; kverrno = pos 0; completed = false }
]

-- `_reset_scan_res` for `&it->ctx_array[i]`.
unfoldable pub reset_scan_res : KvIterator → ℕ → Option KvIterator
reset_scan_res it i = do
  swctx ← get_elem? it.ctx_array i
  ctxs ← store it.ctx_array i (forget_result swctx)
  idxs ← store it.per_worker_idx swctx.worker_id 0
  some (record it { ctx_array = ctxs; per_worker_idx = idxs })

-- The loop of `_reset_iterator`, for `n` workers from `i` on.
unfoldable pub reset_from : ℕ → ℕ → KvIterator → Option KvIterator
reset_from zero i it = some it
reset_from (suc n) i it = do reset ← reset_scan_res it i; reset_from n (i + 1) reset

-- `_reset_iterator` in a runtime of `workers` workers. No entry is in use after it.
unfoldable pub reset_iterator : ℕ → KvIterator → Option KvIterator
reset_iterator workers it = do
  reset ← reset_from workers 0 it
  some (record reset { nb_items = 0; shared = none })
