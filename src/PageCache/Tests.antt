-- ===== src/PageCache/Tests.antt =====
-- An empty page cache of src/pagecache.c with ten pages.
use bagdb_spdk.Base.{
  ℕ, ◌≡◌, none, some, Option, [], arith, replicate, length-replicate, get_or-replicate, sym, subst,
  inr, if◌then◌else◌, ◌==◌,
}
use bagdb_spdk.PageCache.{
  Items, NodeTable, max_lists, PageCache, internel_node_get, internel_node_insert,
  map_internal_node_page,
}
use bagdb_spdk.PageCache.Table.{page_of, IsFull, IsTable}
use bagdb_spdk.PageCache.Pages.{internel_node_get-page_of, internel_node_insert-page_of}
use bagdb_spdk.PageCache.Mapping.{mapped, Maps, map_internal_node_page-Maps}

unfoldable no_lists : NodeTable
no_lists = replicate max_lists none

no_lists-IsTable : IsTable no_lists
unfolding no_lists
no_lists-IsTable = record {
  lists = length-replicate {A = Option Items} max_lists none;
  full = λ i. subst IsFull (sym (get_or-replicate {A = Option Items} max_lists i none)) tt;
}

abbrev empty : PageCache ℕ
empty = record {
  cached_data = 4096;
  levels = [];
  page_num = 10;
  used_page_num = 0;
  freelisthead = 0;
  freelistnum = 0;
  link = λ page. 0;
  internel_node = no_lists;
}

internel_node_get-page_of_example :
    (table' : NodeTable) × (internel_node_get no_lists 700 ≡ some (table', page_of no_lists 700))
    × IsTable table'
    × ((h : ℕ) → page_of table' h ≡ page_of no_lists h)
internel_node_get-page_of_example =
    internel_node_get-page_of no_lists 700 no_lists-IsTable (omega arith)

internel_node_insert-page_of_example :
    (table' : NodeTable) × (internel_node_insert no_lists 700 8192 ≡ some table')
    × IsTable table'
    × ((h : ℕ) → page_of table' h ≡ (if 700 == h then some 8192 else page_of no_lists h))
internel_node_insert-page_of_example =
    internel_node_insert-page_of no_lists 700 no_lists-IsTable (omega arith) 8192

map_internal_node_page-Maps_example :
    (cache' : PageCache ℕ) × (page : ℕ) × (map_internal_node_page ℕ (λ tree hash. tree) empty 700
      ≡ some (cache', page, elim (mapped empty 700) [ none ↦ 0 | some own ↦ 1 ]))
    × Maps ℕ (λ tree hash. tree) 700 (omega arith) empty cache' page
map_internal_node_page-Maps_example =
    map_internal_node_page-Maps ℕ (λ tree hash. tree) 700 (omega arith) empty no_lists-IsTable
      (inr (omega arith))
