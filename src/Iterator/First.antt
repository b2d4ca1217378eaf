-- ===== src/Iterator/First.antt =====
-- `kv_iterator_first` of src/kvs.c, and the iteration that follows it.
use mathlib.Core.List.{Perm, Mem, Nodup, Nodup-nil, not-mem-nil}
use mathlib.Core.List.Perm
use mathlib.Core.Option.{some-injective}
use bagdb_spdk.Base.{
  ℕ, ◌^◌, ◌<◌, ◌≡◌, sym, subst, ap, ◌∙◌, true, none, Option, some, List, [], ◌++◌, arith, length,
  take,
}
use bagdb_spdk.Base.Perms.{length-perm}
use bagdb_spdk.Item.{KvItem, SortedItem}
use bagdb_spdk.Heap.{make_heap}
use bagdb_spdk.Heap.Prefix.{make_heap-perm}
use bagdb_spdk.Iterator.State.{ScanWorkerCtx, KvIterator, Completion, deliver}
use bagdb_spdk.Iterator.Reset.{reset_iterator, reset_from}
use bagdb_spdk.Iterator.Cursor.{
  load_all, begin_first, finish_first, wait_all, kv_iterator_first, send_first,
}
use bagdb_spdk.Iterator.View.{
  all_pending, all_pending-perm, wids, entries, remaining, ready, IsMerging,
}
use bagdb_spdk.Iterator.Load.{all_batches, Loading, AllReady, load_all-Loading}
use bagdb_spdk.Iterator.Sized.{Sized, Zeros, reset_from-Sized, send_first-Sized}
use bagdb_spdk.Iterator.Drain.{drain, drain-perm}

-- An iterator that is ready for the workers' first batches.
pub record Begun (workers : ℕ) (it : KvIterator) : Type 0 where
  pub sized : Sized workers it
  pub zeros : Zeros workers it
  pub no_item : it.nb_items ≡ 0

begin_first-eq :
    (workers : ℕ) (it it₁ sent : KvIterator)
    → reset_from workers 0 it ≡ some it₁
    → it₁.nb_workers ≡ workers
    → send_first workers 0 (record it₁ { nb_items = 0; shared = none }) ≡ some sent
    → begin_first workers it ≡ some sent
unfolding begin_first reset_iterator
begin_first-eq workers it it₁ sent reset size run = ground (arith, reset, size, run)

finish_first-eq :
    (workers : ℕ) (it loaded : KvIterator) (ctxs : List ScanWorkerCtx) (b : List SortedItem)
    → it.nb_workers ≡ workers
    → load_all workers 0 (record it { ctx_array = ctxs }) ≡ some loaded
    → make_heap loaded.item_array loaded.nb_items ≡ some b
    → finish_first it ctxs ≡ some (record loaded { item_array = b })
unfolding finish_first
finish_first-eq workers it loaded ctxs b size run heap = ground (arith, size, run, heap)

pub begin_first-Begun :
    (workers : ℕ) (it : KvIterator)
    → Sized workers it
    → (sent : KvIterator) × (begin_first workers it ≡ some sent) × Begun workers sent
begin_first-Begun workers it sized =
    let (it₁, run, sized₁, zeros₁) =
      reset_from-Sized workers 0 workers it (omega arith) sized (λ w h. absurd (omega arith)) in
    let it₂ : KvIterator = record it₁ { nb_items = 0; shared = none } in
    let sized₂ : Sized workers it₂ = record {
      nb_workers = sized₁.nb_workers;
      cursors = sized₁.cursors;
      ctxs = sized₁.ctxs;
      room = sized₁.room;
      ids = sized₁.ids;
    } in
    let (it₃, run₃, sized₃, zeros₃, same) =
      send_first-Sized workers 0 workers it₂ (omega arith) sized₂ zeros₁ in
    (
      it₃,
      begin_first-eq workers it it₁ it₃ run sized₁.nb_workers run₃,
      record { sized = sized₃; zeros = zeros₃; no_item = same },
    )

-- What the last loop and the heap make of the batches of all workers.
abbrev pub Merges : ℕ → List ScanWorkerCtx → Option KvIterator → Type 0
Merges workers ctxs r =
    (it' : KvIterator) × (r ≡ some it')
    × IsMerging it'
    × Perm (remaining it') (all_batches ctxs workers 0)

module _ (workers : ℕ) (it : KvIterator) (ctxs : List ScanWorkerCtx) (small : workers < 2 ^ 32)
    (begun : Begun workers it) (all : AllReady workers ctxs) where
  abbrev answered : KvIterator
  answered = record it { ctx_array = ctxs }

  no_entries : entries answered ≡ []
  no_entries = ap (λ n. take n it.item_array) begun.no_item

  start : Loading workers 0 answered
  start = record {
    cursors = begun.sized.cursors;
    room = begun.sized.room;
    few = omega (arith, begun.no_item);
    fresh = λ w h k. begun.zeros w k;
    below = λ w m. absurd (not-mem-nil (subst (λ l. Mem w (wids l)) no_entries m));
    distinct = subst (λ l. Nodup (wids l)) (sym no_entries) Nodup-nil;
  }

  nothing_before : remaining answered ≡ []
  unfolding remaining all_pending
  nothing_before = ap (all_pending ctxs it.per_worker_idx) no_entries

  Loading-ready :
      (loaded : KvIterator)
      → Loading workers workers loaded
      → loaded.ctx_array ≡ ctxs
      → (w : ℕ) → w < workers
      → ready loaded.ctx_array loaded.per_worker_idx w ≡ true
  unfolding ready
  Loading-ready loaded at same w h =
      subst (λ c. ready c loaded.per_worker_idx w ≡ true) (sym same)
        (ground (arith, at.cursors, all w h))

  pub finish_first-Merges : Merges workers ctxs (finish_first it ctxs)
  unfolding remaining
  finish_first-Merges =
      let (loaded, run, at, same, perm) =
        load_all-Loading workers 0 workers answered (omega arith) small start all in
      let (b, run', long, perm') =
        make_heap-perm loaded.item_array loaded.nb_items (omega (arith, at.few, at.room)) in
      let of_wids : Perm (wids (take loaded.nb_items b)) (wids (entries loaded)) =
        Perm.map (λ e. e.wid) perm' in
      (
        record loaded { item_array = b },
        finish_first-eq workers it loaded ctxs b begun.sized.nb_workers run run',
        record {
          room = omega (arith, long, at.few, at.room);
          distinct = Perm.nodup (Perm.symm of_wids) at.distinct;
          loaded = λ w m. Loading-ready loaded at same w (at.below w ((Perm.mem_iff of_wids).0 m));
        },
        Perm.trans (all_pending-perm loaded.ctx_array loaded.per_worker_idx _ _ perm') (
            subst (λ l. Perm (remaining loaded) (l ++ all_batches ctxs workers 0)) nothing_before
              perm),
      )

first-eq :
    (workers : ℕ) (it sent it' : KvIterator) (rounds : List (List Completion))
    (late : List Completion) (waited ctxs : List ScanWorkerCtx)
    → begin_first workers it ≡ some sent
    → wait_all workers rounds sent.ctx_array ≡ some waited
    → deliver late waited ≡ some ctxs
    → finish_first sent ctxs ≡ some it'
    → kv_iterator_first workers it rounds late ≡ some it'
unfolding kv_iterator_first
first-eq workers it sent it' rounds late waited ctxs begin waits arrive run =
    ground (arith, begin, waits, arrive, run)

-- `kv_iterator_first` on an iterator of the sizes that `kv_iterator_alloc` gives it, when its
-- waiting loop has ended and every worker's answer has arrived in the end, each with a batch that
-- was not filled: it succeeds, and then an iteration ends and delivers each item of the workers'
-- batches as often as it occurs there.
pub kv_iterator_first-drain :
    (workers fuel : ℕ) (it sent : KvIterator) (rounds : List (List Completion))
    (late : List Completion) (waited ctxs : List ScanWorkerCtx)
    → workers < 2 ^ 32
    → Sized workers it
    → begin_first workers it ≡ some sent
    → wait_all workers rounds sent.ctx_array ≡ some waited
    → deliver late waited ≡ some ctxs
    → AllReady workers ctxs
    → length (all_batches ctxs workers 0) < fuel
    → (it' : KvIterator) × (items : List KvItem) × (kv_iterator_first workers it rounds late
        ≡ some it')
      × (drain fuel it' ≡ some items)
      × Perm items (all_batches ctxs workers 0)
kv_iterator_first-drain workers fuel it sent rounds late waited ctxs small sized begin waits arrive
      all enough =
    let (sent', begin', begun) = begin_first-Begun workers it sized in
    let same : sent' ≡ sent = some-injective sent' sent (sym begin' ∙ begin) in
    let (it', run, merging, perm) =
      finish_first-Merges workers sent ctxs small (subst (Begun workers) same begun) all in
    let (items, run', perm') = drain-perm fuel it' merging (omega (arith, length-perm _ _ perm)) in
    (
      it',
      items,
      first-eq workers it sent it' rounds late waited ctxs begin waits arrive run,
      run',
      Perm.trans perm' perm,
    )
