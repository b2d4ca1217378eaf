-- ===== src/Pool/Example.antt =====
-- A pool of two objects of 24 bytes, with both free and with one free, for the tests.
use bagdb_spdk.Base.{
  ℕ, zero, suc, ◌+◌, ◌*◌, ◌<◌, ◌≡◌, refl, true, none, some, [], ◌∷◌, arith, NotIn, uint64_max,
}
use bagdb_spdk.Pool.{ObjectCachePool, pool_release, index_of, set_next}
use bagdb_spdk.Pool.Nodes.{next_of, object_of}
use bagdb_spdk.Pool.Free.{IsFree}

abbrev pub fresh : ObjectCachePool
fresh = record {
  count = 2;
  nb_frees = 2;
  object_size = 24;
  cache_data = 4096;
  free_node_array =
      record { object = some 4096; next = 1 }
      ∷ record { object = some 4120; next = uint64_max }
      ∷ record { object = none; next = 0 }
      ∷ [];
}

fresh_objects : (i : ℕ) → i < 2 → object_of fresh.free_node_array i ≡ some (4096 + i * 24)
fresh_objects zero h = refl
fresh_objects (suc zero) h = refl
fresh_objects (suc (suc i)) h = absurd (omega arith)

fresh_busy : (i : ℕ) → i < 2 → NotIn i (0 ∷ 1 ∷ []) → next_of fresh.free_node_array i ≡ uint64_max
fresh_busy i h away = absurd (omega arith)

pub fresh-IsFree : IsFree fresh (0 ∷ 1 ∷ [])
fresh-IsFree = record {
  sized = refl;
  small = omega arith;
  item_size = omega arith;
  fits = omega arith;
  objects = fresh_objects;
  chained = (refl, (refl, refl));
  distinct = omega arith;
  below = omega arith;
  busy = fresh_busy;
  counted = refl;
}

-- Object 0 is in use.
abbrev pub one_free : ObjectCachePool
one_free = record fresh {
  nb_frees = 1;
  free_node_array =
      record { object = some 4096; next = uint64_max }
      ∷ record { object = some 4120; next = uint64_max }
      ∷ record { object = none; next = 1 }
      ∷ [];
}

one_free_objects : (i : ℕ) → i < 2 → object_of one_free.free_node_array i ≡ some (4096 + i * 24)
one_free_objects zero h = refl
one_free_objects (suc zero) h = refl
one_free_objects (suc (suc i)) h = absurd (omega arith)

one_free_busy : (i : ℕ) → i < 2 → NotIn i (1 ∷ []) → next_of one_free.free_node_array i ≡ uint64_max
one_free_busy zero h away = refl
one_free_busy (suc i) h away = absurd (omega arith)

pub one_free-IsFree : IsFree one_free (1 ∷ [])
one_free-IsFree = record {
  sized = refl;
  small = omega arith;
  item_size = omega arith;
  fits = omega arith;
  objects = one_free_objects;
  chained = (refl, refl);
  distinct = omega arith;
  below = omega arith;
  busy = one_free_busy;
  counted = refl;
}

pub release_runs : pool_release one_free 4096 ≡ some (fresh, true)
unfolding pool_release index_of set_next
release_runs = refl
