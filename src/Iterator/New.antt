-- ===== src/Iterator/New.antt =====
-- What `kv_iterator_alloc` of src/kvs.c makes of a new block of memory.
use bagdb_spdk.Base.{
  ℕ, zero, suc, ◌+◌, ◌-◌, ◌*◌, ◌^◌, ◌≤◌, ◌<◌, ◌≡◌, refl, none, List, [], ◌∷◌, arith, length, get_or,
  take,
}
use bagdb_spdk.Iterator.State.{KvIterator}
use bagdb_spdk.Iterator.Reset.{
  Garbage, clear_bytes, alloc_ctxs, sizeof_kv_iterator, sizeof_scan_worker_ctx, sizeof_sorted_item,
  alloc_size, init_iterator, kv_iterator_alloc,
}
use bagdb_spdk.Iterator.Sized.{Sized, ctx_at, init_iterator-Sized}

-- A block has room for as many words, contexts and entries of workers as its size says, behind the header.
abbrev pub HasRoom : (ℕ → Garbage) → Type 0
HasRoom malloc =
    (size k : ℕ)
    → sizeof_kv_iterator + k * (8 + sizeof_scan_worker_ctx + sizeof_sorted_item) ≤ size
    → (k ≤ length (malloc size).words) × (k ≤ length (malloc size).entries)

-- A new iterator: nothing is loaded, asked for or left to deliver, and the cursors whose eight bytes lie in
-- the first `workers` bytes are 0.
pub record IsNew (workers batch_size : ℕ) (it : KvIterator) : Type 0 where
  pub sized : Sized workers it
  pub batch : it.batch_size ≡ batch_size
  pub empty : it.nb_items ≡ 0
  pub unshared : it.shared ≡ none
  pub quiet : it.sent ≡ []
  pub no_result : (w : ℕ) → w < workers → (ctx_at it.ctx_array w).scan_res ≡ none
  pub cleared : (w : ℕ) → w * 8 + 8 ≤ workers → get_or it.per_worker_idx w 0 ≡ 0

alloc_ctxs-none : (g : Garbage) (n i w : ℕ) → w < n → (ctx_at (alloc_ctxs g n i) w).scan_res ≡ none
unfolding alloc_ctxs
alloc_ctxs-none g zero i w h = absurd (omega arith)
alloc_ctxs-none g (suc n) i zero h = refl
alloc_ctxs-none g (suc n) i (suc w) h = alloc_ctxs-none g n (i + 1) w (omega arith)

clear_bytes-zero : (n w : ℕ) (words : List ℕ) → w * 8 + 8 ≤ n → get_or (clear_bytes n words) w 0 ≡ 0
unfolding clear_bytes
clear_bytes-zero n w [] h = refl
clear_bytes-zero n zero (word ∷ words) h = ground arith
clear_bytes-zero n (suc w) (word ∷ words) h = clear_bytes-zero (n - 8) w words (omega arith)

-- `kv_iterator_alloc`, when the size of the block fits in 32 bits: whatever the block holds, the iterator
-- has a context, a cursor and an entry for each worker, the contexts with the workers' numbers and without a
-- result, the batch size that was asked for, and no item. Only the first eighth of the
-- cursors is sure to be 0, as only that many bytes are cleared.
pub kv_iterator_alloc-IsNew :
    (malloc : ℕ → Garbage) (max_slab_size workers batch_size : ℕ)
    → HasRoom malloc
    → sizeof_kv_iterator
        + workers * (8 + sizeof_scan_worker_ctx + sizeof_sorted_item)
        + max_slab_size
      < 2 ^ 32
    → IsNew workers batch_size (kv_iterator_alloc malloc max_slab_size workers batch_size)
unfolding kv_iterator_alloc init_iterator alloc_size
kv_iterator_alloc-IsNew malloc max_slab_size workers batch_size room fits =
    let size = alloc_size max_slab_size workers in
    let g = malloc size in
    let (words, entries) = room size workers (omega arith) in
    record {
      sized = init_iterator-Sized g workers batch_size words entries;
      batch = refl;
      empty = refl;
      unshared = refl;
      quiet = refl;
      no_result = λ w lt. alloc_ctxs-none g workers 0 w lt;
      cleared = λ w le. clear_bytes-zero workers w (take workers g.words) le;
    }
