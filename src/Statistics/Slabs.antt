-- ===== src/Statistics/Slabs.antt =====
-- The statistics of src/kvs.c against the array of slabs that src/kvs_startup.c lays out.
use native.Mathlib.Nat.{div-add-mod, div-lt_iff_lt-mul, div-mul-le_self}
use native.Mathlib.Decide.{dec_lt}
use bagdb_spdk.Base.{
  ℕ, zero, suc, ◌+◌, ◌-◌, ◌*◌, ◌/◌, ◌%◌, ◌^◌, ◌<◌, ◌≤◌, ◌≡◌, refl, sym, ap, subst, ◌∙◌, Bool, true,
  false, none, some, List, [], ◌∷◌, arith, get_elem?, get_elem?-eq-get_or, length, drop,
  drop-get_elem, drop_all, u32, u64, if◌then◌else◌,
}
use bagdb_spdk.Startup.State.{Kvs, Slab}
use bagdb_spdk.Startup.Runtime.{shards_from}
use bagdb_spdk.Startup.Layout.{no_shard, shards_from-entry}
use bagdb_spdk.Statistics.{
  Reclaim, SlabStatistic, statistic, slab_statistic, statistics_from, kvs_get_slab_statistcs,
  items_from, items_of, kvs_get_nb_items,
}

length-shards_from : (nb_slabs i n : ℕ) → length (shards_from nb_slabs i n) ≡ n
unfolding shards_from
length-shards_from nb_slabs i zero = refl
length-shards_from nb_slabs i (suc n) = ap suc (length-shards_from nb_slabs (suc i) n)

-- A store with `n` shards of `m` slabs, as the start lays it out.
pub record IsLaid (kvs : Kvs) (n m : ℕ) : Type 0 where
  pub some_shard : 0 < n
  pub nb_shards : kvs.nb_shards ≡ n
  pub shards : kvs.shards ≡ shards_from m 0 n
  pub slabs : length kvs.slabs ≡ n * m
  pub fits : n * m < 2 ^ 32

module _ (reclaim : ℕ → Reclaim) where
  -- The slabs in the order of the array, each with its counters.
  abbrev pub in_order : ℕ → List Slab → List SlabStatistic
  in_order i [] = []
  in_order i (slab ∷ slabs) = statistic (reclaim i) slab ∷ in_order (suc i) slabs

  -- The slots that are in use.
  abbrev pub occupied : ℕ → ℕ → ℕ
  occupied i zero = 0
  occupied i (suc n) = ((reclaim i).nb_total_slots - (reclaim i).nb_free_slots) + occupied (suc i) n

  module _ (kvs : Kvs) (n m : ℕ) (laid : IsLaid kvs n m) where
    shard_at :
        (s : ℕ)
        → s < n
        → get_elem? kvs.shards s ≡ some (record { nb_slabs = m; slab_set = u32 (s * m) })
    shard_at s lt =
        let entry = rw (let e : 0 + s ≡ s = omega arith in e) at (shards_from-entry m 0 n s lt) in
        ap (λ l. get_elem? l s) laid.shards
        ∙ get_elem?-eq-get_or (shards_from m 0 n) s no_shard (rw length-shards_from lt)
        ∙ ap some entry

    slab_there : (i : ℕ) → i < n * m → 0 < m
    slab_there i lt = elim (dec_lt 0 m) [
      | yes h ↦ h
      | no h ↦
          let none_each : m ≡ 0 = omega arith in
          absurd (omega (arith, lt, ap (λ x. n * x) none_each))
    ]

    index_of_slab : (i : ℕ) → 0 < m → i < n * m → u32 ((i / m) * m) + i % m ≡ i
    index_of_slab i pos lt =
        let low : (i / m) * m ≤ i = div-mul-le_self i m in
        let fits = laid.fits in omega (arith, div-add-mod i m)

    slab_statistic-at :
        (i : ℕ) (slab : Slab)
        → i < n * m
        → get_elem? kvs.slabs i ≡ some slab
        → slab_statistic reclaim kvs m i ≡ some (statistic (reclaim i) slab)
    unfolding slab_statistic
    slab_statistic-at i slab lt at =
        let pos : 0 < m = slab_there i lt in
        let s : i / m < n = (div-lt_iff_lt-mul pos).1 lt in
        ground (arith, pos, shard_at (i / m) s, index_of_slab i pos lt, at)

    statistics_from-in_order :
        (i k : ℕ)
        → i + k ≡ n * m
        → statistics_from reclaim kvs m i k ≡ some (in_order i (drop i kvs.slabs))
    unfolding statistics_from
    statistics_from-in_order i zero e =
        rw (drop_all i kvs.slabs (omega (arith, laid.slabs, e))) refl
    statistics_from-in_order i (suc k) e =
        let (slab, at, rest) = drop-get_elem kvs.slabs i (omega (arith, laid.slabs, e)) in
        rw
          (
            slab_statistic-at i slab (omega arith) at,
            statistics_from-in_order (suc i) k (omega arith),
            rest,
          )
          refl

    first_shard : get_elem? kvs.shards 0 ≡ some (record { nb_slabs = m; slab_set = 0 })
    first_shard = rw (let e : u32 (0 * m) ≡ 0 = omega arith in e) at (shard_at 0 laid.some_shard)

    whole : u32 (kvs.nb_shards * m) ≡ n * m
    whole = let fits = laid.fits in rw laid.nb_shards (omega arith)

    -- In a store as the start lays it out, the statistics over the slabs have the number of shards, the
    -- number of slabs of each, and every slab of the array once, in its order, with its own counters. If
    -- there is no memory for them they are NULL.
    pub kvs_get_slab_statistcs-in_order :
        (has_memory : Bool)
        → kvs_get_slab_statistcs reclaim (some kvs) has_memory
          ≡ some (
              if has_memory
              then some
                  (record { nb_shards = n; nb_slabs_per_shard = m; slabs = in_order 0 kvs.slabs })
              else none)
    unfolding kvs_get_slab_statistcs
    kvs_get_slab_statistcs-in_order false = rw first_shard refl
    kvs_get_slab_statistcs-in_order true =
        rw (first_shard, whole, statistics_from-in_order 0 (n * m) (omega arith), laid.nb_shards)
          refl

  in_order-at :
      (slabs : List Slab) (a j : ℕ)
      → j < length slabs
      → (s : SlabStatistic) × (get_elem? (in_order a slabs) j ≡ some s)
        × (s.nb_slots ≡ (reclaim (a + j)).nb_total_slots)
        × (s.nb_free_slots ≡ (reclaim (a + j)).nb_free_slots)
  in_order-at [] a j lt = absurd (omega arith)
  in_order-at (slab ∷ slabs) a zero lt =
      let e : a + 0 ≡ a = omega arith in (statistic (reclaim a) slab, refl, rw e refl, rw e refl)
  in_order-at (slab ∷ slabs) a (suc j) lt =
      rw (let e : a + suc j ≡ suc a + j = omega arith in e)
        (in_order-at slabs (suc a) j (omega arith))

  -- The counters of the first `n` slabs are such that no more slots are free than there are.
  abbrev pub AreCounted : ℕ → Type 0
  AreCounted n =
      (i : ℕ)
      → i < n
      → ((reclaim i).nb_free_slots ≤ (reclaim i).nb_total_slots)
        × ((reclaim i).nb_total_slots < 2 ^ 64)

  items_from-occupied :
      (slabs : List Slab) (acc i k : ℕ)
      → i + k ≡ length slabs
      → AreCounted (length slabs)
      → acc + occupied i k < 2 ^ 64
      → items_from reclaim (in_order 0 slabs) acc i k ≡ some (acc + occupied i k)
  unfolding items_from
  items_from-occupied slabs acc i zero e counted small = ap some (omega arith)
  items_from-occupied slabs acc i (suc k) e counted small =
      let (s, at, slots, free) = in_order-at slabs 0 i (omega arith) in
      let (le, lt) = counted i (omega arith) in
      let used = (reclaim i).nb_total_slots - (reclaim i).nb_free_slots in
      let z : 0 + i ≡ i = omega arith in
      let next : u64 (acc + u64 (s.nb_slots + 2 ^ 64 - s.nb_free_slots)) ≡ acc + used =
        rw (slots, free, z) (omega arith) in
      rw (at, next)
        (items_from-occupied slabs (acc + used) (suc i) k (omega arith) counted (omega arith)
          ∙ ap some (omega arith))

  -- In a store as the start lays it out, the number of items is the number of slots that are in use, over
  -- all slabs of all shards, when the counters make sense and the number fits in 64 bits. It is 0
  -- when there is no memory for the statistics.
  pub kvs_get_nb_items-occupied :
      (kvs : Kvs) (n m : ℕ) (has_memory : Bool)
      → IsLaid kvs n m
      → AreCounted (n * m)
      → occupied 0 (n * m) < 2 ^ 64
      → kvs_get_nb_items reclaim (some kvs) has_memory
        ≡ some (if has_memory then occupied 0 (n * m) else 0)
  unfolding kvs_get_nb_items items_of
  kvs_get_nb_items-occupied kvs n m false laid counted small =
      rw (kvs_get_slab_statistcs-in_order kvs n m laid false) refl
  kvs_get_nb_items-occupied kvs n m true laid counted small =
      let fits = laid.fits in
      let all : u32 (n * m) ≡ n * m = omega arith in
      rw (kvs_get_slab_statistcs-in_order kvs n m laid true, all)
        (items_from-occupied kvs.slabs 0 0 (n * m) (omega (arith, laid.slabs))
            (subst AreCounted (sym laid.slabs) counted) (omega arith)
          ∙ ap some (omega arith))
