-- ===== src/PageCache/Pages.antt =====
-- The lookup and the insertion of internal nodes' pages in src/pagecache.c.
use bagdb_spdk.Base.{
  ℕ, ◌*◌, ◌/◌, ◌%◌, ◌<◌, ◌≡◌, ◌≢◌, length, ◌∙◌, ap, sym, some, none, arith, get_or, set,
  store-eq-set, get_elem?-eq-get_or, get_or-set_self, get_or-set_ne, length-set, Bool-cases, inl,
  inr, ◌==◌, ==_iff, if◌then◌else◌, false,
}
use bagdb_spdk.PageCache.{
  list_items, max_lists, NodeTable, Items, internel_node_get, internel_node_insert,
}
use bagdb_spdk.PageCache.Table.{
  item_of, page_of, IsTable, HasList, page_of-set, set-IsTable, node_list-HasList,
}

module _ (table : NodeTable) (hash : ℕ) (is : IsTable table)
    (inside : hash < max_lists * list_items) where
  abbrev row : ℕ
  row = hash / list_items

  row_lt : row < max_lists
  row_lt = omega arith

  -- `internel_node_get` returns the page of the hash, and changes no page.
  pub internel_node_get-page_of :
      (table' : NodeTable) × (internel_node_get table hash ≡ some (table', page_of table hash))
      × IsTable table'
      × ((h : ℕ) → page_of table' h ≡ page_of table h)
  unfolding internel_node_get
  internel_node_get-page_of =
      let (table', items, run, has) = node_list-HasList table row is row_lt in
      let there : get_or items (hash % list_items) none ≡ page_of table hash =
        ap (λ slot. item_of slot (hash % list_items)) (sym has.place) ∙ has.same hash in
      (
        table',
        ground (
          arith,
          run,
          row_lt,
          get_elem?-eq-get_or items (hash % list_items) none (omega (arith, has.len)),
          there,
        ),
        has.is,
        has.same,
      )

  items_set :
      (items : Items) (page h : ℕ)
      → length items ≡ list_items
      → row ≡ h / list_items
      → get_or (set items (hash % list_items) (some page)) (h % list_items) none
        ≡ (if hash == h then some page else get_or items (h % list_items) none)
  items_set items page h len e = elim (Bool-cases (hash == h)) [
    | inl same ↦ rw same (
        ap (λ k. get_or (set items (hash % list_items) (some page)) (k % list_items) none)
          (sym ((==_iff hash h).0 same))
        ∙ get_or-set_self items (hash % list_items) (some page) none (omega (arith, len)))
    | inr other ↦
        let ne : hash ≢ h = ground arith in
        rw other (
          get_or-set_ne items (hash % list_items) (h % list_items) (some page) none
            (omega (arith, ne, e)))
  ]

  pages_set :
      (table' : NodeTable) (items : Items) (page h : ℕ)
      → HasList table row table' items
      → page_of (set table' row (some (set items (hash % list_items) (some page)))) h
        ≡ (if hash == h then some page else page_of table h)
  pages_set table' items page h has =
      page_of-set table' row (set items (hash % list_items) (some page)) has.is row_lt h
      ∙ (elim (Bool-cases (row == h / list_items)) [
        | inl same ↦
            let e : row ≡ h / list_items = (==_iff row (h / list_items)).0 same in
            let before : get_or items (h % list_items) none ≡ page_of table h =
              ap (λ slot. item_of slot (h % list_items))
                (sym has.place ∙ ap (λ k. get_or table' k none) e)
              ∙ has.same h in
            rw same (
              items_set items page h has.len e
              ∙ ap (λ p. if hash == h then some page else p) before)
        | inr other ↦ let away : (hash == h) ≡ false = ground arith in rw (other, away) (has.same h)
      ])

  -- `internel_node_insert` sets the page of the hash, and of no other.
  pub internel_node_insert-page_of :
      (page : ℕ)
      → (table' : NodeTable) × (internel_node_insert table hash page ≡ some table')
        × IsTable table'
        × ((h : ℕ) → page_of table' h ≡ (if hash == h then some page else page_of table h))
  unfolding internel_node_insert
  internel_node_insert-page_of page =
      let (table', items, run, has) = node_list-HasList table row is row_lt in
      let items' = set items (hash % list_items) (some page) in
      (
        set table' row (some items'),
        ground (
          arith,
          run,
          row_lt,
          store-eq-set items (hash % list_items) (some page) (omega (arith, has.len)),
        ),
        set-IsTable table' row items' has.is row_lt
            (length-set items (hash % list_items) (some page) ∙ has.len),
        λ h. pages_set table' items page h has,
      )
