-- ===== src/Startup/Layout.antt =====
-- The arrays of the runtime that src/kvs_startup.c builds, entry by entry.
use bagdb_spdk.Base.{
  ℕ, zero, suc, ◌+◌, ◌*◌, ◌%◌, ◌<◌, ◌≤◌, ◌≡◌, refl, some, List, [], ◌∷◌, arith, length, ap, get_or,
  get_elem?-eq-get_or, u32,
}
use bagdb_spdk.Spdk.{Spdk}
use bagdb_spdk.Slab.{SlabLayout, SuperLayout}
use bagdb_spdk.Format.Marks.{no_slab}
use bagdb_spdk.Startup.State.{Slab, SlabShard, WorkerInitOpts}
use bagdb_spdk.Startup.Runtime.{shards_from, slabs_from, workers_from}

abbrev pub slab_of : SlabLayout → Slab
slab_of layout = record { slab_size = layout.slab_size; blob = layout.resv; flag = 0 }

abbrev pub no_shard : SlabShard
no_shard = record { nb_slabs = 0; slab_set = 0 }

pub shards_from-entry :
    (nb_slabs i n k : ℕ)
    → k < n
    → get_or (shards_from nb_slabs i n) k no_shard
      ≡ record { nb_slabs = nb_slabs; slab_set = u32 ((i + k) * nb_slabs) }
unfolding shards_from
shards_from-entry nb_slabs i zero k lt = absurd (omega arith)
shards_from-entry nb_slabs i (suc n) zero lt = rw (let e : i + 0 ≡ i = omega arith in e) refl
shards_from-entry nb_slabs i (suc n) (suc k) lt =
    rw (let e : i + suc k ≡ suc i + k = omega arith in e)
      (shards_from-entry nb_slabs (suc i) n k (omega arith))

pub workers_from-entry :
    (opts d : WorkerInitOpts) (i n k : ℕ)
    → k < n
    → get_or (workers_from opts i n) k d ≡ record opts {
      reclaim_shard_start_id = u32 ((i + k) * opts.nb_reclaim_shards);
      core_id = u32 (i + k + 1);
    }
unfolding workers_from
workers_from-entry opts d i zero k lt = absurd (omega arith)
workers_from-entry opts d i (suc n) zero lt = rw (let e : i + 0 ≡ i = omega arith in e) refl
workers_from-entry opts d i (suc n) (suc k) lt =
    rw (let e : i + suc k ≡ suc i + k = omega arith in e)
      (workers_from-entry opts d (suc i) n k (omega arith))

pub workers_from-fields :
    (opts d : WorkerInitOpts) (n k : ℕ)
    → k < n
    → ((get_or (workers_from opts 0 n) k d).reclaim_shard_start_id
        ≡ u32 (k * opts.nb_reclaim_shards))
      × ((get_or (workers_from opts 0 n) k d).nb_reclaim_shards ≡ opts.nb_reclaim_shards)
      × ((get_or (workers_from opts 0 n) k d).core_id ≡ u32 (k + 1))
workers_from-fields opts d n k lt =
    let e = rw (let z : 0 + k ≡ k = omega arith in z) at (workers_from-entry opts d 0 n k lt) in
    (
      ap (λ (o : WorkerInitOpts). o.reclaim_shard_start_id) e,
      ap (λ (o : WorkerInitOpts). o.nb_reclaim_shards) e,
      ap (λ (o : WorkerInitOpts). o.core_id) e,
    )

module _ (spdk : Spdk) (nb_chunks_per_node : ℕ → ℕ) (sl : SuperLayout) where
  -- The assertion about slab `j` holds.
  abbrev pub HasChunks : ℕ → Type 0
  HasChunks j =
      (0 < nb_chunks_per_node j)
      × (spdk.blob_get_num_clusters (get_or sl.slab j no_slab).resv % nb_chunks_per_node j ≡ 0)

  abbrev entries : ℕ → ℕ → List Slab
  entries i zero = []
  entries i (suc n) = slab_of (get_or sl.slab i no_slab) ∷ entries (suc i) n

  slabs_from-entries :
      (i n : ℕ)
      → i + n ≤ length sl.slab
      → ((j : ℕ) → j < i + n → HasChunks j)
      → slabs_from spdk nb_chunks_per_node sl i n ≡ some (entries i n)
  unfolding slabs_from
  slabs_from-entries i zero room chunks = refl
  slabs_from-entries i (suc n) room chunks =
      let c : HasChunks i = chunks i (omega arith) in
      ground (
        arith,
        get_elem?-eq-get_or sl.slab i no_slab (omega arith),
        c.0,
        c.1,
        slabs_from-entries (suc i) n (omega arith) (λ j lt. chunks j (omega arith)),
      )

  entries_at :
      (d : Slab) (i n k : ℕ)
      → k < n
      → get_or (entries i n) k d ≡ slab_of (get_or sl.slab (i + k) no_slab)
  entries_at d i zero k lt = absurd (omega arith)
  entries_at d i (suc n) zero lt = rw (let e : i + 0 ≡ i = omega arith in e) refl
  entries_at d i (suc n) (suc k) lt =
      rw (let e : i + suc k ≡ suc i + k = omega arith in e) (entries_at d (suc i) n k (omega arith))

  -- The loop over `n` slabs ends, and its entries are those of the super block.
  pub slabs_from-entry :
      (n : ℕ)
      → n ≤ length sl.slab
      → ((j : ℕ) → j < n → HasChunks j)
      → (slabs : List Slab) × (slabs_from spdk nb_chunks_per_node sl 0 n ≡ some slabs)
        × ((k : ℕ) (d : Slab) → k < n → get_or slabs k d ≡ slab_of (get_or sl.slab k no_slab))
  slabs_from-entry n room chunks = (
    entries 0 n,
    slabs_from-entries 0 n (omega arith) (λ j lt. chunks j (omega arith)),
    λ k d lt. rw (let e : 0 + k ≡ k = omega arith in e) at (entries_at d 0 n k lt),
  )
