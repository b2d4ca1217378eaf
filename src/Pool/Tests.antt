-- ===== src/Pool/Tests.antt =====
-- Runs of the pool of src/pool.c, and its theorems at a pool of two objects of 24 bytes.
use bagdb_spdk.Base.{ℕ, ◌≡◌, refl, true, none, some, List, [], ◌∷◌, arith}
use bagdb_spdk.Pool.{
  ObjectNode, ObjectCachePool, pool_header_size, init_nodes, set_next, pool_header_init, pool_take,
  pool_get, pool_release,
}
use bagdb_spdk.Pool.Nodes.{blank}
use bagdb_spdk.Pool.Example.{fresh, fresh-IsFree, one_free, one_free-IsFree}
use bagdb_spdk.Pool.Free.{IsFree, Pops, pool_get-Pops}
use bagdb_spdk.Pool.Release.{pool_release-pushes, pool_release_twice, pool_release_last}
use bagdb_spdk.Pool.Init.{pool_header_init_lem}

abbrev memory : List ObjectNode
memory = blank ∷ blank ∷ blank ∷ []

init_runs : pool_header_init memory 2 24 80 (some 4096) ≡ some (fresh, 128)
unfolding pool_header_init pool_header_size init_nodes set_next
init_runs = refl

-- `free_node_array[count - 1]` is out of range for an empty pool.
init_of_empty : pool_header_init (blank ∷ []) 0 24 48 (some 4096) ≡ none
unfolding pool_header_init pool_header_size init_nodes set_next
init_of_empty = refl

get_runs : pool_get fresh ≡ some (one_free, some 4096)
unfolding pool_get pool_take set_next
get_runs = refl

pool_get-Pops_example : Pops fresh (0 ∷ 1 ∷ [])
pool_get-Pops_example = pool_get-Pops fresh (0 ∷ 1 ∷ []) fresh-IsFree

pool_release-pushes_example :
    (p' : ObjectCachePool) × (pool_release one_free 4096 ≡ some (p', true)) × IsFree p' (0 ∷ 1 ∷ [])
pool_release-pushes_example =
    pool_release-pushes one_free 0 (1 ∷ []) one_free-IsFree (omega arith) (omega arith)

pool_release_twice_example : pool_release fresh 4096 ≡ none
pool_release_twice_example = pool_release_twice fresh 0 1 [] [] fresh-IsFree (omega arith)

pool_release_last_example :
    (p' : ObjectCachePool) × (pool_release one_free 4120 ≡ some (p', true))
    × ((gs : List ℕ) → ¬ IsFree p' gs)
pool_release_last_example = pool_release_last one_free 1 [] one_free-IsFree

pool_header_init_lem_example :
    (p : ObjectCachePool) × (pool_header_init memory 2 24 80 (some 4096) ≡ some (p, 128))
    × IsFree p (0 ∷ 1 ∷ [])
pool_header_init_lem_example =
    pool_header_init_lem memory 1 24 4096 80 refl (omega arith) (omega arith) refl (omega arith)
      (omega arith) (omega arith)
