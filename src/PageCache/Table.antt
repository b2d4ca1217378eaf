-- ===== src/PageCache/Table.antt =====
-- The table of src/pagecache.c is a map from hashes to pages.
use bagdb_spdk.Base.{
  ℕ, ◌/◌, ◌%◌, ◌<◌, ◌≡◌, refl, subst, ◌∙◌, sym, ap, Option, none, some, arith, length, get_or, set,
  length-set, length-replicate, get_or-replicate, get_elem?-eq-get_or, get_or-set_self,
  get_or-set_ne, Option-cases, Bool-cases, inl, inr, ◌==◌, ==_iff, if◌then◌else◌,
}
use bagdb_spdk.PageCache.{list_items, max_lists, Items, NodeTable, fresh_items, node_list}

-- The page of a hash in a list that may be missing, and in a table.
abbrev pub item_of : Option Items → ℕ → Option ℕ
item_of none j = none
item_of (some items) j = get_or items j none

abbrev pub page_of : NodeTable → ℕ → Option ℕ
page_of table hash = item_of (get_or table (hash / list_items) none) (hash % list_items)

abbrev pub IsFull : Option Items → Type 0
IsFull none = Unit
IsFull (some items) = length items ≡ list_items

-- Every list that is there has its full length.
pub record IsTable (table : NodeTable) : Type 0 where
  pub lists : length table ≡ max_lists
  pub full : (i : ℕ) → IsFull (get_or table i none)

fresh_items_lem : (length fresh_items ≡ list_items) × ((j : ℕ) → get_or fresh_items j none ≡ none)
unfolding fresh_items
fresh_items_lem =
    (length-replicate {A = Option ℕ} list_items none, λ j. get_or-replicate list_items j none)

module _ (table : NodeTable) (i : ℕ) (items : Items) (is : IsTable table)
    (inside : i < max_lists) where
  -- The lists after one has been stored.
  slot-set :
      (k : ℕ)
      → get_or (set table i (some items)) k none
        ≡ (if i == k then some items else get_or table k none)
  slot-set k = elim (Bool-cases (i == k)) [
    | inl same ↦ rw same (
        ap (λ j. get_or (set table i (some items)) j none) (sym ((==_iff i k).0 same))
        ∙ get_or-set_self table i (some items) none (omega (arith, is.lists, inside)))
    | inr other ↦ rw other (get_or-set_ne table i k (some items) none (ground arith))
  ]

  pub set-IsTable : length items ≡ list_items → IsTable (set table i (some items))
  set-IsTable len = record {
    lists = length-set table i (some items) ∙ is.lists;
    full = λ k.
        rw (slot-set k) (elim (Bool-cases (i == k)) [
          | inl same ↦ rw same len
          | inr other ↦ rw other (is.full k)
        ]);
  }

  -- The pages after a list has been stored, where the new list has the page `new` at this hash.
  pub page_of-set :
      (hash : ℕ)
      → page_of (set table i (some items)) hash ≡ (
          if i == hash / list_items
          then get_or items (hash % list_items) none
          else page_of table hash)
  page_of-set hash = rw (slot-set (hash / list_items)) (elim (Bool-cases (i == hash / list_items)) [
    | inl same ↦ rw same refl
    | inr other ↦ rw other refl
  ])

-- What `node_list` gives: the list in its place, and the same pages as before.
pub record HasList (table : NodeTable) (i : ℕ) (table' : NodeTable) (items : Items) : Type 0 where
  pub is : IsTable table'
  pub place : get_or table' i none ≡ some items
  pub len : length items ≡ list_items
  pub same : (hash : ℕ) → page_of table' hash ≡ page_of table hash

module _ (table : NodeTable) (i : ℕ) (is : IsTable table) (inside : i < max_lists) where
  fresh-HasList :
      get_or table i none ≡ none → HasList table i (set table i (some fresh_items)) fresh_items
  fresh-HasList missing = record {
    is = set-IsTable table i fresh_items is inside fresh_items_lem.0;
    place = get_or-set_self table i (some fresh_items) none (omega (arith, is.lists, inside));
    len = fresh_items_lem.0;
    same = λ hash.
        page_of-set table i fresh_items is inside hash
        ∙ (elim (Bool-cases (i == hash / list_items)) [
          | inl e ↦ rw e (
              fresh_items_lem.1 (hash % list_items)
              ∙ sym (
                  ap (λ slot. item_of slot (hash % list_items))
                    (ap (λ j. get_or table j none) (sym ((==_iff i (hash / list_items)).0 e))
                      ∙ missing)))
          | inr e ↦ rw e refl
        ]);
  }

  pub node_list-HasList :
      (table' : NodeTable) × (items : Items) × (node_list table i ≡ some (table', items))
      × HasList table i table' items
  unfolding node_list
  node_list-HasList =
      let there = get_elem?-eq-get_or table i none (omega (arith, is.lists, inside)) in
      elim (Option-cases (get_or table i none)) [
        | inl missing ↦ (
          set table i (some fresh_items),
          fresh_items,
          ground (arith, there, missing),
          fresh-HasList missing,
        )
        | inr (items, e) ↦ (
          table,
          items,
          ground (arith, there, e),
          record { is = is; place = e; len = subst IsFull e (is.full i); same = λ hash. refl },
        )
      ]
