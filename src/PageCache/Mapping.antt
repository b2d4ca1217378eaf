-- ===== src/PageCache/Mapping.antt =====
-- `map_internal_node_page` of src/pagecache.c: a node that is mapped stays mapped to its page.
use bagdb_spdk.Base.{
  ℕ, ◌+◌, ◌-◌, ◌*◌, ◌<◌, ◌≡◌, ◌≢◌, ◌⊎◌, refl, ◌∙◌, ap, Option, some, none, arith, Bool-cases,
  Option-cases, inl, inr, ◌==◌, ==_iff, ltb, false, true, if◌then◌else◌,
}
use bagdb_spdk.PageCache.{
  list_items, max_lists, page_size, PageCache, find_in_freelist, new_page, map_internal_node_page,
}
use bagdb_spdk.PageCache.Table.{page_of, IsTable}
use bagdb_spdk.PageCache.Pages.{internel_node_get-page_of, internel_node_insert-page_of}

-- The page of a node in a cache.
abbrev pub mapped : {Tree : Type 0} → PageCache Tree → ℕ → Option ℕ
mapped cache hash = page_of cache.internel_node hash

module _ (Tree : Type 0) (tree_delete : Tree → ℕ → Tree) where
  abbrev map_page : PageCache Tree → ℕ → Option (PageCache Tree × ℕ × ℕ)
  map_page cache hash = map_internal_node_page Tree tree_delete cache hash

  -- A page on the free list, or one that has never been used.
  abbrev pub HasPage : PageCache Tree → Type 0
  HasPage cache = (0 < cache.freelistnum) ⊎ (cache.used_page_num < cache.page_num)

  new_page-HasPage :
      (cache : PageCache Tree)
      → HasPage cache
      → (cache' : PageCache Tree) × (page : ℕ) × (new_page Tree tree_delete cache
          ≡ some (cache', page))
        × (cache'.internel_node ≡ cache.internel_node)
  unfolding new_page find_in_freelist
  new_page-HasPage cache has = elim (Bool-cases (cache.freelistnum == 0)) [
    | inl e ↦
        let unused : ltb cache.used_page_num cache.page_num ≡ true = ground arith in
        (
          record cache { used_page_num = cache.used_page_num + 1 },
          cache.cached_data + page_size * cache.used_page_num,
          ground (arith, e, unused),
          refl,
        )
    | inr e ↦ (
      record cache {
        freelistnum = cache.freelistnum - 1;
        freelisthead =
            if ltb 0 (cache.freelistnum - 1)
            then cache.link cache.freelisthead
            else cache.freelisthead;
      },
      cache.freelisthead,
      ground (arith, e),
      refl,
    )
  ]

  module _ (hash : ℕ) (inside : hash < max_lists * list_items) where
    present :
        (cache : PageCache Tree) (page : ℕ)
        → IsTable cache.internel_node
        → mapped cache hash ≡ some page
        → (cache' : PageCache Tree) × (map_page cache hash ≡ some (cache', page, 1))
          × IsTable cache'.internel_node
          × ((h : ℕ) → mapped cache' h ≡ mapped cache h)
    unfolding map_internal_node_page
    present cache page is e =
        let (table, got, is', same) =
          internel_node_get-page_of cache.internel_node hash is inside in
        (record cache { internel_node = table }, ground (arith, got, e), is', same)

    absent :
        (cache : PageCache Tree)
        → IsTable cache.internel_node
        → HasPage cache
        → mapped cache hash ≡ none
        → (cache' : PageCache Tree) × (page : ℕ) × (map_page cache hash ≡ some (cache', page, 0))
          × IsTable cache'.internel_node
          × ((h : ℕ) → mapped cache' h ≡ (if hash == h then some page else mapped cache h))
    unfolding map_internal_node_page
    absent cache is has e =
        let (table, got, is', same) =
          internel_node_get-page_of cache.internel_node hash is inside in
        let (new, page, made, kept) =
          new_page-HasPage (record cache { internel_node = table }) has in
        let (table', put, is'', pages) = internel_node_insert-page_of table hash is' inside page in
        (
          record new { internel_node = table' },
          page,
          ground (arith, got, e, made, kept, put),
          is'',
          λ h. pages h ∙ ap (λ p. if hash == h then some page else p) (same h),
        )

    -- What a call leaves: the node has the page that was returned, no other node's page has changed,
    -- and the next call finds the page and returns 1 with it.
    abbrev pub Maps : PageCache Tree → PageCache Tree → ℕ → Type 0
    Maps cache cache' page =
        (mapped cache' hash ≡ some page)
        × ((h : ℕ) → hash ≢ h → mapped cache' h ≡ mapped cache h)
        × ((cache'' : PageCache Tree) × (map_page cache' hash ≡ some (cache'', page, 1)))

    -- With a free page, or one that has never been used, `map_internal_node_page` returns a page for
    -- any node of the table: 1 and the node's own page if it has one, else 0 and a page that is then
    -- the node's own; the pages of the other nodes do not change, and the next call for the node
    -- returns 1 and the same page.
    pub map_internal_node_page-Maps :
        (cache : PageCache Tree)
        → IsTable cache.internel_node
        → HasPage cache
        → (cache' : PageCache Tree) × (page : ℕ) × (map_internal_node_page Tree tree_delete cache
              hash
            ≡ some (cache', page, elim (mapped cache hash) [ none ↦ 0 | some own ↦ 1 ]))
          × Maps cache cache' page
    map_internal_node_page-Maps cache is has = elim (Option-cases (mapped cache hash)) [
      | inl e ↦
          let (cache', page, run, is', pages) = absent cache is has e in
          let own : mapped cache' hash ≡ some page =
            pages hash
            ∙ (let same : (hash == hash) ≡ true = (==_iff hash hash).1 refl in rw same refl) in
          let (cache'', again, is'', pages') = present cache' page is' own in
          (
            cache',
            page,
            rw e run,
            (
              own,
              λ h ne. pages h ∙ (let other : (hash == h) ≡ false = ground arith in rw other refl),
              (cache'', again),
            ),
          )
      | inr (page, e) ↦
          let (cache', run, is', pages) = present cache page is e in
          let own : mapped cache' hash ≡ some page = pages hash ∙ e in
          let (cache'', again, is'', pages') = present cache' page is' own in
          (cache', page, rw e run, (own, λ h ne. pages h, (cache'', again)))
    ]
