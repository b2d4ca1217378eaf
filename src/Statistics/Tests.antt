-- ===== src/Statistics/Tests.antt =====
-- Runs of the statistics of src/kvs.c at a store of two shards with two slabs each.
use bagdb_spdk.Base.{ℕ, ◌≡◌, refl, true, none, some, List, [], ◌∷◌, arith}
use bagdb_spdk.Startup.State.{Kvs, Slab}
use bagdb_spdk.Startup.Runtime.{kvs_of}
use bagdb_spdk.Startup.Example.{cleared, layout}
use bagdb_spdk.Statistics.{
  Reclaim, kvs_get_slab_statistcs, kvs_get_nb_items, kvs_get_runtime_statistics,
}
use bagdb_spdk.Statistics.Slabs.{
  IsLaid, in_order, AreCounted, kvs_get_slab_statistcs-in_order, kvs_get_nb_items-occupied,
}

abbrev slab : ℕ → Slab
slab size = record { slab_size = size; blob = 0; flag = 0 }

abbrev slabs : List Slab
slabs = slab 32 ∷ slab 64 ∷ slab 32 ∷ slab 64 ∷ []

abbrev kvs : Kvs
kvs = kvs_of cleared layout slabs

-- Of ten slots of slab `i`, `i` are free.
abbrev counters : ℕ → Reclaim
counters i = record { nb_total_slots = 10; nb_free_slots = i }

kvs-IsLaid : IsLaid kvs 2 2
unfolding kvs_of
kvs-IsLaid = record {
  some_shard = omega arith;
  nb_shards = refl;
  shards = refl;
  slabs = refl;
  fits = omega arith;
}

counters-AreCounted : AreCounted counters 4
counters-AreCounted i lt = (omega arith, omega arith)

-- A store that is not there is read before it is tested for NULL.
null_read : kvs_get_slab_statistcs counters none true ≡ none
unfolding kvs_get_slab_statistcs
null_read = refl

-- The number of items tests for NULL first.
null_tested : kvs_get_nb_items counters none true ≡ some 0
unfolding kvs_get_nb_items
null_tested = refl

null_read_too : kvs_get_runtime_statistics {A = ℕ} (λ w. w.core_id) none true ≡ none
unfolding kvs_get_runtime_statistics
null_read_too = refl

kvs_get_slab_statistcs-in_order_example :
    kvs_get_slab_statistcs counters (some kvs) true
    ≡ some
        (some (record { nb_shards = 2; nb_slabs_per_shard = 2; slabs = in_order counters 0 slabs }))
unfolding kvs_of
kvs_get_slab_statistcs-in_order_example =
    kvs_get_slab_statistcs-in_order counters kvs 2 2 kvs-IsLaid true

kvs_get_nb_items-occupied_example : kvs_get_nb_items counters (some kvs) true ≡ some 34
kvs_get_nb_items-occupied_example =
    kvs_get_nb_items-occupied counters kvs 2 2 true kvs-IsLaid counters-AreCounted (omega arith)
