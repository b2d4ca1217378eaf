-- ===== src/Pool.antt =====
-- src/pool.h and src/pool.c: a cache of equal objects whose free ones are linked through an array
-- of nodes. Node `count` is the head of the list; `UINT64_MAX` ends the list, and also marks a node
-- that is in use. A pointer is its address, NULL is `none`.
mod Nodes
pub mod Free
pub mod Release
pub mod Init
pub mod Example
mod Tests
use bagdb_spdk.Base.{
  ℕ, zero, suc, ◌+◌, ◌-◌, ◌*◌, ◌/◌, ◌%◌, ◌^◌, Bool, true, Option, none, some, List, ◌>>=◌, ◌>>◌,
  assert, store, ltb, leb, ◌==◌, if◌then◌else◌, get_elem?, u32, u64, uint64_max,
}

-- `struct object_node`
pub record ObjectNode : Type 0 where
  pub object : Option ℕ
  pub next : ℕ

-- `struct object_cache_pool`
pub record ObjectCachePool : Type 0 where
  pub count : ℕ
  pub nb_frees : ℕ
  pub object_size : ℕ
  pub cache_data : ℕ
  pub free_node_array : List ObjectNode

abbrev pub sizeof_object_cache_pool : ℕ
sizeof_object_cache_pool = 32

abbrev pub sizeof_object_node : ℕ
sizeof_object_node = 16

-- `assert(count < UINT64_MAX)` stands in front.
pub pool_header_size : ℕ → Option ℕ
pool_header_size count = do
  assert (ltb count uint64_max)
  some (u64 (sizeof_object_cache_pool + (count + 1) * sizeof_object_node))

-- The loop `for(;i<count;i++)`, whose counter has 32 bits; `none` when the fuel runs out.
pub init_nodes : ℕ → ℕ → ℕ → ℕ → ℕ → List ObjectNode → Option (List ObjectNode)
init_nodes zero i count size base nodes = none
init_nodes (suc fuel) i count size base nodes =
    let rest =
      store nodes i (record { object = some (u64 (base + u64 (i * size))); next = u32 (i + 1) })
      >>= init_nodes fuel (u32 (i + 1)) count size base in
    if ltb i count then rest else some nodes

-- `free_node_array[i].next = v`
pub set_next : List ObjectNode → ℕ → ℕ → Option (List ObjectNode)
set_next nodes i v = do n ← get_elem? nodes i; store nodes i (record n { next = v })

-- The header's memory comes as the array `nodes` behind it, with any content.
pub pool_header_init : List ObjectNode → ℕ → ℕ → ℕ → Option ℕ → Option (ObjectCachePool × ℕ)
pool_header_init nodes count object_size header_size object_data = do
  base ← object_data
  assert (base % 8 == 0)
  size ← pool_header_size count
  assert (leb size header_size)
  nodes₁ ← store nodes count (record { object = none; next = 0 })
  nodes₂ ← init_nodes (suc count) 0 count object_size base nodes₁
  nodes₃ ← set_next nodes₂ (u64 (count + 2 ^ 64 - 1)) uint64_max
  nodes₄ ← set_next nodes₃ count 0
  some (
    record {
      count = count;
      nb_frees = count;
      object_size = object_size;
      cache_data = base;
      free_node_array = nodes₄;
    },
    u64 (header_size + u64 (count * object_size)),
  )

-- The branch of `pool_get` that unlinks the first free node.
pub pool_take : ObjectCachePool → Option (ObjectCachePool × Option ℕ)
pool_take pool = do
  head ← get_elem? pool.free_node_array pool.count
  first ← get_elem? pool.free_node_array head.next
  nodes₁ ← set_next pool.free_node_array pool.count first.next
  nodes₂ ← set_next nodes₁ head.next uint64_max
  freed ← get_elem? nodes₂ head.next
  some (
    record pool { free_node_array = nodes₂; nb_frees = u64 (pool.nb_frees + 2 ^ 64 - 1) },
    freed.object,
  )

-- The option inside is the object, NULL if none is free.
pub pool_get : ObjectCachePool → Option (ObjectCachePool × Option ℕ)
pool_get pool = if pool.nb_frees == 0 then some (pool, none) else pool_take pool

-- The index of an object, from its address; `none` is the division by zero.
pub index_of : ObjectCachePool → ℕ → Option ℕ
index_of pool object =
    if pool.object_size == 0
    then none
    else some (u64 (object + 2 ^ 64 - pool.cache_data) / pool.object_size)

pub pool_release : ObjectCachePool → ℕ → Option (ObjectCachePool × Bool)
pool_release pool object = do
  object_idx ← index_of pool object
  assert (ltb object_idx pool.count)
  node ← get_elem? pool.free_node_array object_idx
  assert (node.next == uint64_max)
  head ← get_elem? pool.free_node_array pool.count
  nodes₁ ← set_next pool.free_node_array object_idx head.next
  nodes₂ ← set_next nodes₁ pool.count object_idx
  some (record pool { free_node_array = nodes₂; nb_frees = u64 (pool.nb_frees + 1) }, true)
