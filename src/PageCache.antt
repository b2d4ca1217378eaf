-- ===== src/PageCache.antt =====
-- src/pagecache.c: the table of the internal nodes' pages, and where a page for a new one comes from.
use bagdb_spdk.Base.{
  ℕ, zero, suc, ◌+◌, ◌-◌, ◌*◌, ◌/◌, ◌%◌, Bool, true, false, Option, none, some, List, [], ◌∷◌,
  ◌>>=◌, ◌>>◌, assert, ltb, leb, ◌==◌, if◌then◌else◌, get_elem?, set, store, replicate,
}
pub mod Table
pub mod Pages
pub mod Mapping
mod Tests

-- INTERNEL_NODE_LIST_ITEMS and MAX_INTERNEL_NODE_LIST
abbrev pub list_items : ℕ
list_items = 512

abbrev pub max_lists : ℕ
max_lists = 512

-- PAGE_SIZE
abbrev pub page_size : ℕ
page_size = 4096

abbrev pub Items : Type 0
Items = List (Option ℕ)

-- `internel_node`: lists of pages, NULL until one is needed.
abbrev pub NodeTable : Type 0
NodeTable = List (Option Items)

-- A list as it is allocated.
unfoldable pub fresh_items : Items
fresh_items = replicate list_items none

-- The list `list_index`, allocated if it is not there; `none` is out of range.
unfoldable pub node_list : NodeTable → ℕ → Option (NodeTable × Items)
node_list table list_index = elim (get_elem? table list_index) [
  | none ↦ none
  | some slot ↦ elim slot [
    | none ↦ some (set table list_index (some fresh_items), fresh_items)
    | some items ↦ some (table, items)
  ]
]

-- `internel_node_get`; the option inside is the page, or NULL.
unfoldable pub internel_node_get : NodeTable → ℕ → Option (NodeTable × Option ℕ)
internel_node_get table hash = do
  assert (ltb (hash / list_items) max_lists)
  (table', items) ← node_list table (hash / list_items)
  page ← get_elem? items (hash % list_items)
  some (table', page)

-- `internel_node_insert`, on the table of the caller's cache. The source's parameter is a copy of the cache
-- under another name than the one that the body reads, so that it does not compile.
unfoldable pub internel_node_insert : NodeTable → ℕ → ℕ → Option NodeTable
internel_node_insert table hash page = do
  assert (ltb (hash / list_items) max_lists)
  (table', items) ← node_list table (hash / list_items)
  items' ← store items (hash % list_items) (some page)
  some (set table' (hash / list_items) (some items'))

-- `struct lru`, as far as an eviction reads it.
pub record Lru : Type 0 where
  pub hash : ℕ
  pub page : ℕ

-- `struct Level`. The list of used pages stands with its oldest first; `Tree` is the B-tree that maps
-- hashes to pages, and `tree_delete` its deletion.
pub record Level (Tree : Type 0) : Type 0 where
  pub hash_to_page : Tree
  pub pages : List Lru
  pub usedlru : ℕ
  pub min_pages : ℕ

-- `struct pagecache`; `link` is the word at the start of a free page, the address of the next one.
pub record PageCache (Tree : Type 0) : Type 0 where
  pub cached_data : ℕ
  pub levels : List (Level Tree)
  pub page_num : ℕ
  pub used_page_num : ℕ
  pub freelisthead : ℕ
  pub freelistnum : ℕ
  pub link : ℕ → ℕ
  pub internel_node : NodeTable

module _ (Tree : Type 0) (tree_delete : Tree → ℕ → Tree) where
  -- `find_in_freelist`; the option is the page that it finds.
  unfoldable pub find_in_freelist : PageCache Tree → PageCache Tree × Option ℕ
  find_in_freelist cache =
      let page = cache.freelisthead in
      let left = cache.freelistnum - 1 in
      if cache.freelistnum == 0 then (cache, none) else (
        record cache {
          freelistnum = left;
          freelisthead = if ltb 0 left then cache.link page else page;
        },
        some page,
      )

  -- The end of `find_in_lower_level`: the oldest page of this level is evicted; `none` is a NULL
  -- pointer.
  unfoldable pub evict : Level Tree → Option (Level Tree × Option ℕ)
  evict level =
      if leb level.usedlru level.min_pages then some (level, none) else (elim level.pages [
        | [] ↦ none
        | oldest ∷ rest ↦ some (
          record level {
            hash_to_page = tree_delete level.hash_to_page oldest.hash;
            pages = rest;
            usedlru = level.usedlru - 1;
          },
          some oldest.page,
        )
      ])

  -- `find_in_lower_level`, on the levels from its own on: the lowest level is asked first.
  unfoldable pub find_in_lower_level : List (Level Tree) → Option (List (Level Tree) × Option ℕ)
  find_in_lower_level [] = some ([], none)
  find_in_lower_level (level ∷ lower) = find_in_lower_level lower >>= λ found. elim found.1 [
    | none ↦ evict level >>= λ own. some (own.0 ∷ found.0, own.1)
    | some page ↦ some (level ∷ found.0, some page)
  ]

  -- Where `map_internal_node_page` takes a page from: the free list, the unused pages, or the levels.
  unfoldable pub new_page : PageCache Tree → Option (PageCache Tree × ℕ)
  new_page cache =
      let (cache', free) = find_in_freelist cache in
      elim free [
        | some page ↦ some (cache', page)
        | none ↦
            if ltb cache'.used_page_num cache'.page_num
            then some (
              record cache' { used_page_num = cache'.used_page_num + 1 },
              cache'.cached_data + page_size * cache'.used_page_num,
            )
            else find_in_lower_level cache'.levels >>= λ found. elim found.1 [
              | none ↦ none
              | some page ↦ some (record cache' { levels = found.0 }, page)
            ]
      ]

  -- `map_internal_node_page`; the number is what it returns.
  unfoldable pub map_internal_node_page : PageCache Tree → ℕ → Option (PageCache Tree × ℕ × ℕ)
  map_internal_node_page cache hash = internel_node_get cache.internel_node hash >>= λ got.
      elim got.1 [
        | some page ↦ some (record cache { internel_node = got.0 }, page, 1)
        | none ↦ new_page (record cache { internel_node = got.0 }) >>= λ new.
            internel_node_insert new.0.internel_node hash new.1 >>= λ table.
            some (record new.0 { internel_node = table }, new.1, 0)
      ]
