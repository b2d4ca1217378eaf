-- ===== src/Iterator/Tests.antt =====
-- Runs of the iterator of src/kvs.c, and its theorems at concrete iterators.
use mathlib.Core.List.{Perm}
use mathlib.Core.Option.{some-injective}
use bagdb_spdk.Base.{
  sym, subst, ◌∙◌, zero, suc, ℕ, ◌/◌, length-append, length-replicate, replicate, ◌≡◌, refl, not,
  some, none, List, [], ◌∷◌, ◌==◌, arith,
}
use bagdb_spdk.Item.{KvItem, memcmp, item_cmp, item_cmp_keys}
use bagdb_spdk.Heap.{cmp_at, item_swap, adjust_left, heap_adjust, make_heap_from, make_heap}
use bagdb_spdk.Iterator.State.{KvIterator, iter_cb_fn, deliver}
use bagdb_spdk.Iterator.Reset.{
  clear_bytes, alloc_ctxs, kv_iterator_alloc, init_iterator, alloc_size, forget_result,
  reset_scan_res, reset_from, reset_iterator,
}
use bagdb_spdk.Iterator.Cursor.{
  send, send_first, all_completed, wait_all, load_first, close_worker, load_all, begin_first,
  finish_first, kv_iterator_first,
}
use bagdb_spdk.Iterator.Next.{
  unshare, take_item, drop_worker, end_worker, advance, refill_used, refill, kv_iterator_next,
  kv_iterator_item,
}
use bagdb_spdk.Iterator.Sized.{Sized}
use bagdb_spdk.Iterator.New.{HasRoom, IsNew, kv_iterator_alloc-IsNew}
use bagdb_spdk.Iterator.Load.{all_batches}
use bagdb_spdk.Iterator.Drain.{drain}
use bagdb_spdk.Iterator.First.{
  Begun, begin_first-Begun, finish_first-Merges, kv_iterator_first-drain,
}
use bagdb_spdk.Iterator.Deliver.{kv_iterator_next-delivers}
use bagdb_spdk.Iterator.View.{remaining, IsMerging}
use bagdb_spdk.Iterator.Wait.{AllDone, wait_all-open, wait_all-stuck}
use bagdb_spdk.Iterator.Example.{
  key_item, entry, block, garbage, new_iterator, answers, all_asked, all_answered,
  all_answered-ready, sent_iterator, merging,
}

begin_run : begin_first 2 new_iterator ≡ some sent_iterator
unfolding kv_iterator_alloc init_iterator alloc_size clear_bytes alloc_ctxs begin_first
    reset_iterator reset_from reset_scan_res forget_result send_first send
begin_run = refl

wait_run : wait_all 2 ([] ∷ []) all_asked ≡ some all_asked
unfolding wait_all deliver all_completed
wait_run = refl

deliver_run : deliver answers all_asked ≡ some all_answered
unfolding deliver iter_cb_fn
deliver_run = refl

finish_run : finish_first sent_iterator all_answered ≡ some merging
unfolding finish_first load_all load_first close_worker make_heap make_heap_from heap_adjust
    adjust_left item_swap cmp_at item_cmp item_cmp_keys memcmp
finish_run = refl

-- The iterator goes down from its greatest front, not up.
drain_run : drain 4 merging ≡ some (key_item 3 ∷ key_item 1 ∷ key_item 4 ∷ [])
unfolding drain kv_iterator_item kv_iterator_next refill refill_used advance take_item drop_worker
    end_worker unshare heap_adjust adjust_left item_swap cmp_at item_cmp item_cmp_keys memcmp
drain_run = refl

block-HasRoom : HasRoom block
block-HasRoom size k le = (
  omega (
    arith,
    length-append garbage.words (replicate (size / 56) 0),
    length-replicate {A = ℕ} (size / 56) 0,
  ),
  omega (
    arith,
    length-append garbage.entries (replicate (size / 56) (entry 7 7)),
    length-replicate (size / 56) (entry 7 7),
  ),
)

new_iterator-Sized : Sized 2 new_iterator
new_iterator-Sized = (kv_iterator_alloc-IsNew block 65536 2 8 block-HasRoom (omega arith)).sized

sent_iterator-Begun : Begun 2 sent_iterator
sent_iterator-Begun =
    let (sent, run, begun) = begin_first-Begun 2 new_iterator new_iterator-Sized in
    subst (Begun 2) (some-injective sent sent_iterator (sym run ∙ begin_run)) begun

merging-IsMerging : IsMerging merging
merging-IsMerging =
    let (it, run, is, perm) =
      finish_first-Merges 2 sent_iterator all_answered (omega arith) sent_iterator-Begun
        all_answered-ready in
    subst IsMerging (some-injective it merging (sym run ∙ finish_run)) is

kv_iterator_next-delivers_example :
    (x : KvItem) × (it' : KvIterator) × (kv_iterator_item merging ≡ some x)
    × (kv_iterator_next merging none ≡ some (it', not (it'.nb_items == 0)))
    × IsMerging it'
    × Perm (x ∷ remaining it') (remaining merging)
kv_iterator_next-delivers_example =
    kv_iterator_next-delivers merging none merging-IsMerging (omega arith)

wait_all-open_example : wait_all 2 ([] ∷ []) all_asked ≡ some all_asked
unfolding deliver
wait_all-open_example = wait_all-open 2 0 [] [] all_asked all_asked refl refl (omega arith) refl

all_answered-done : AllDone 2 all_answered
all_answered-done zero h = refl
all_answered-done (suc zero) h = refl
all_answered-done (suc (suc w)) h = absurd (omega arith)

-- Both workers have answered before the loop starts: it never ends.
wait_all-stuck_example : wait_all 2 (answers ∷ [] ∷ []) all_asked ≡ none
wait_all-stuck_example =
    wait_all-stuck 2 answers ([] ∷ []) all_asked all_answered refl deliver_run all_answered-done

kv_iterator_alloc-IsNew_example : IsNew 2 8 new_iterator
kv_iterator_alloc-IsNew_example =
    kv_iterator_alloc-IsNew block 65536 2 8 block-HasRoom (omega arith)

kv_iterator_first-drain_example :
    (it' : KvIterator) × (items : List KvItem) × (kv_iterator_first 2 new_iterator ([] ∷ []) answers
      ≡ some it')
    × (drain 4 it' ≡ some items)
    × Perm items (all_batches all_answered 2 0)
kv_iterator_first-drain_example =
    kv_iterator_first-drain 2 4 new_iterator sent_iterator ([] ∷ []) answers all_asked all_answered
      (omega arith) new_iterator-Sized begin_run wait_run deliver_run all_answered-ready
      (omega arith)
