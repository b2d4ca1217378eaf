-- ===== src/Iterator/Step.antt =====
-- The second half of `kv_iterator_next` of src/kvs.c on each of its branches, for a worker whose last
-- batch is loaded.
use mathlib.Core.List.{
  Perm, Mem, mem-cons_of_mem, Nodup-cons, Nodup-nil, not-mem-nil, perm_append_singleton,
}
use mathlib.Core.List.Perm
use native.Mathlib.Decide.{dec_lt, ℕ_discrete}
use bagdb_spdk.Base.{
  ℕ, suc, ◌+◌, ◌-◌, ◌≤◌, ◌<◌, ◌≡◌, sym, subst, ap, ap₂, ◌∙◌, true, Option, some, List, [], ◌∷◌,
  ◌++◌, arith, length, take, drop, set, get_or, get_elem?, length-set, get_or-set_self,
  get_elem?-eq-get_or, drop-get_elem, drop_all, take_last, store-eq-set, uint64_max,
}
use bagdb_spdk.Base.Int.{ℤ}
use bagdb_spdk.Item.{KvItem, SortedItem}
use bagdb_spdk.Heap.{heap_adjust, heap_fuel}
use bagdb_spdk.Heap.Prefix.{heap_adjust-perm}
use bagdb_spdk.Iterator.State.{WorkerScanResult, KvIterator}
use bagdb_spdk.Iterator.Next.{
  unshare, take_item, drop_worker, end_worker, advance, refill_used, refill,
}
use bagdb_spdk.Iterator.View.{
  batch, all_pending, all_pending-perm, all_pending-set, wids, entries, remaining, ready, IsMerging,
}
use bagdb_spdk.Iterator.Loaded.{Loaded}

-- The step is possible, and the item at the front is all that it takes away.
abbrev pub Advances : KvIterator → ℕ → KvItem → Type 0
Advances it wid x =
    (it' : KvIterator) × (advance it wid ≡ some it')
    × IsMerging it'
    × Perm (x ∷ remaining it') (remaining it)

module _ (it : KvIterator) (m : ℕ) (e0 : SortedItem) (a : List SortedItem) where
  abbrev pub cur : KvIterator
  cur = record it { nb_items = suc m; item_array = e0 ∷ a }

  abbrev pub idx : ℕ
  idx = get_or it.per_worker_idx e0.wid 0

  abbrev moved_on : ℕ → List ℕ
  moved_on v = set it.per_worker_idx e0.wid v

  module _ (inv : IsMerging cur) (l : Loaded it.ctx_array it.per_worker_idx e0.wid) where
    others : ¬ Mem e0.wid (wids (take m a))
    others = (Nodup-cons.0 inv.distinct).0

    others_kept :
        (v : ℕ)
        → all_pending it.ctx_array (moved_on v) (take m a)
          ≡ all_pending it.ctx_array it.per_worker_idx (take m a)
    others_kept v = all_pending-set it.ctx_array it.per_worker_idx e0.wid v (take m a) others

    ready-moved_on :
        (v w : ℕ) → Mem w (wids (entries cur)) → ready it.ctx_array (moved_on v) w ≡ true
    unfolding ready
    ready-moved_on v w mem = rw (length-set it.per_worker_idx e0.wid v) (inv.loaded w mem)

    module _ (more : idx < length l.scan_res.items) where
      abbrev item : KvItem
      item = (drop-get_elem l.scan_res.items idx more).0

      abbrev e1 : SortedItem
      e1 = record { wid = e0.wid; item = item }

      new_front :
          all_pending it.ctx_array (moved_on (idx + 1)) (e1 ∷ take m a)
          ≡ drop idx (batch it.ctx_array e0.wid)
            ++ all_pending it.ctx_array it.per_worker_idx (take m a)
      unfolding all_pending
      new_front =
          let (x, got, split) = drop-get_elem l.scan_res.items idx more in
          let next : idx + 1 ≡ suc idx = omega arith in
          let here : x ∷ drop (suc idx) (batch it.ctx_array e0.wid)
              ≡ drop idx (batch it.ctx_array e0.wid) =
            rw l.items (sym split) in
          ap₂ (λ i rest. x ∷ drop i (batch it.ctx_array e0.wid) ++ rest)
            (get_or-set_self it.per_worker_idx e0.wid (idx + 1) 0 l.inside ∙ next)
            (others_kept (idx + 1))
          ∙ ap (λ p. p ++ all_pending it.ctx_array it.per_worker_idx (take m a)) here

      take_runs :
          (b : List SortedItem)
          → heap_adjust heap_fuel (e1 ∷ a) 0 (suc m) ≡ some b
          → advance cur e0.wid
            ≡ some (record cur {
              item_array = b;
              per_worker_idx = moved_on (idx + 1);
              shared = unshare it.shared e0.wid;
            })
      unfolding advance take_item
      take_runs b run =
          let (x, got, split) = drop-get_elem l.scan_res.items idx more in
          ground (
            arith,
            l.ctx,
            l.result,
            l.worker_id,
            l.whole,
            l.inside,
            l.open_batch,
            l.small,
            got,
            run,
            get_elem?-eq-get_or it.per_worker_idx e0.wid 0,
            store-eq-set it.per_worker_idx e0.wid (idx + 1),
          )

      take_step : Advances cur e0.wid e0.item
      unfolding remaining all_pending
      take_step =
          let (b, run, same, perm) = heap_adjust-perm (e1 ∷ a) (suc m) 0 (omega arith) inv.room in
          let of_wids : Perm (wids (take (suc m) b)) (wids (e0 ∷ take m a)) =
            Perm.map (λ e. e.wid) perm in
          (
            record cur {
              item_array = b;
              per_worker_idx = moved_on (idx + 1);
              shared = unshare it.shared e0.wid;
            },
            take_runs b run,
            record {
              room = omega (arith, same, inv.room);
              distinct = Perm.nodup (Perm.symm of_wids) inv.distinct;
              loaded = λ w mem. ready-moved_on (idx + 1) w ((Perm.mem_iff of_wids).0 mem);
            },
            Perm.cons e0.item (
                subst (λ r. Perm (all_pending it.ctx_array (moved_on (idx + 1)) (take (suc m) b)) r)
                  new_front (all_pending-perm it.ctx_array (moved_on (idx + 1)) _ _ perm)),
          )

    module _ (used_up : length l.scan_res.items ≤ idx) where
      only_rest : remaining cur ≡ e0.item ∷ all_pending it.ctx_array it.per_worker_idx (take m a)
      unfolding remaining all_pending
      only_rest =
          ap (λ p. e0.item ∷ p ++ all_pending it.ctx_array it.per_worker_idx (take m a))
            (ap (drop idx) l.items ∙ drop_all idx l.scan_res.items used_up)

      last_step : m ≡ 0 → Advances cur e0.wid e0.item
      unfolding remaining all_pending advance end_worker
      last_step none_left = (
        record cur { nb_items = 0 },
        ground (
          arith,
          l.ctx,
          l.result,
          l.whole,
          l.inside,
          get_elem?-eq-get_or it.per_worker_idx e0.wid 0,
        ),
        record {
          room = omega arith;
          distinct = Nodup-nil;
          loaded = λ w mem. absurd (not-mem-nil mem);
        },
        subst (λ r. Perm (e0.item ∷ []) r)
            (sym (
              only_rest
              ∙ ap (λ k. e0.item ∷ all_pending it.ctx_array it.per_worker_idx (take k a))
                  none_left))
            (Perm.refl (e0.item ∷ [])),
      )

      module _ (n : ℕ) (e : m ≡ suc n) where
        drop_runs :
            (last : SortedItem) (b : List SortedItem)
            → get_elem? a n ≡ some last
            → heap_adjust heap_fuel (last ∷ a) 0 m ≡ some b
            → advance cur e0.wid
              ≡ some (record cur {
                item_array = b;
                per_worker_idx = moved_on uint64_max;
                nb_items = m;
                shared = unshare it.shared e0.wid;
              })
        unfolding advance end_worker drop_worker
        drop_runs last b got run = ground (
          arith,
          l.ctx,
          l.result,
          l.whole,
          l.inside,
          got,
          run,
          get_elem?-eq-get_or it.per_worker_idx e0.wid 0,
          store-eq-set it.per_worker_idx e0.wid uint64_max,
        )

        drop_step : Advances cur e0.wid e0.item
        unfolding remaining
        drop_step =
            let (last, got, split) = take_last a n (omega (arith, inv.room)) in
            let (b, run, same, perm) =
              heap_adjust-perm (last ∷ a) m 0 (omega arith) (omega (arith, inv.room)) in
            let moved : Perm (take m b) (take m a) = Perm.trans perm (
              subst (λ k. Perm (take k (last ∷ a)) (take k a)) (sym e)
                (subst (λ r. Perm (last ∷ take n a) r) (sym split)
                  (Perm.symm (perm_append_singleton last (take n a))))) in
            let of_wids : Perm (wids (take m b)) (wids (take m a)) = Perm.map (λ e. e.wid) moved in
            (
              record cur {
                item_array = b;
                per_worker_idx = moved_on uint64_max;
                nb_items = m;
                shared = unshare it.shared e0.wid;
              },
              drop_runs last b got run,
              record {
                room = omega (arith, same, inv.room);
                distinct = Perm.nodup (Perm.symm of_wids) (Nodup-cons.0 inv.distinct).1;
                loaded = λ w mem.
                    ready-moved_on uint64_max w
                      (mem-cons_of_mem e0.wid ((Perm.mem_iff of_wids).0 mem));
              },
              subst
                  (λ r.
                    Perm (e0.item ∷ all_pending it.ctx_array (moved_on uint64_max) (take m b)) r)
                  (sym only_rest)
                  (Perm.cons e0.item (
                    subst (λ r. Perm (all_pending it.ctx_array (moved_on uint64_max) (take m b)) r)
                      (others_kept uint64_max)
                      (all_pending-perm it.ctx_array (moved_on uint64_max) _ _ moved))),
            )

    pub advance_step : Advances cur e0.wid e0.item
    advance_step = elim (dec_lt idx (length l.scan_res.items)) [
      | yes more ↦ take_step more
      | no used_up ↦ elim (ℕ_discrete m 0) [
        | yes none_left ↦ last_step (omega arith) none_left
        | no some_left ↦ drop_step (omega arith) (m - 1) (omega arith)
      ]
    ]

    -- The batch was not filled, so no other is asked for.
    pub no_refill :
        (answer : Option (Option WorkerScanResult × ℤ)) → refill cur e0.wid answer ≡ some cur
    unfolding refill refill_used
    no_refill answer = ground (
      arith,
      l.ctx,
      l.result,
      l.whole,
      l.inside,
      l.open_batch,
      get_elem?-eq-get_or it.per_worker_idx e0.wid 0,
    )
