-- ===== src/Pool/Init.antt =====
-- `pool_header_init` of src/pool.c sets up a pool whose objects are all free, in their order.

use bagdb_spdk.Base.{
  ℕ, zero, suc, ◌+◌, ◌-◌, ◌*◌, ◌%◌, ◌^◌, ◌<◌, ◌≤◌, ◌≡◌, refl, sym, ◌∙◌, ap, inl, inr, some, List,
  [], ◌∷◌, arith, ◌==◌, length, set, store-eq-set, length-set, get_or-set_self, get_or-set_ne,
  NotIn, Distinct, AllBelow, uint64_max, u32, u64, Bool-cases, ==_iff,
}
use bagdb_spdk.Pool.{ObjectNode, ObjectCachePool, pool_header_size, init_nodes, pool_header_init}
use bagdb_spdk.Pool.Nodes.{
  blank, node, next_of, with_next, set_next-eq, length-with_next, next_of-with_next_self,
  next_of-with_next_ne, object_of-with_next, IsChain,
}
use bagdb_spdk.Pool.Free.{IsFree}

-- `n` numbers from `i` on.
abbrev pub up_from : ℕ → ℕ → List ℕ
up_from i zero = []
up_from i (suc n) = i ∷ up_from (suc i) n

-- Node `j` as the loop leaves it.
abbrev linked : ℕ → ℕ → ℕ → ObjectNode
linked base size j = record { object = some (base + j * size); next = suc j }

-- The nodes `r` that the loop makes of `nodes`, started at `i`.
record Linked (nodes : List ObjectNode) (i count size base : ℕ) (r : List ObjectNode) : Type 0 where
  same_length : length r ≡ length nodes
  inside : (j : ℕ) → i ≤ j → j < count → node r j ≡ linked base size j
  outside : (j : ℕ) → j < i → node r j ≡ node nodes j

module _ (count size base : ℕ) (small : count < 2 ^ 32) (fits : base + count * size < 2 ^ 64) where
  in_word : (i : ℕ) → i < count → u64 (base + u64 (i * size)) ≡ base + i * size
  in_word i h = let below : base + i * size < 2 ^ 64 = grind (arith, fits) in omega arith

  init_nodes_step :
      (f i : ℕ) (nodes : List ObjectNode)
      → i < count
      → i < length nodes
      → init_nodes (suc f) i count size base nodes
        ≡ init_nodes f (suc i) count size base (set nodes i (linked base size i))
  unfolding init_nodes
  init_nodes_step f i nodes h len =
      let next : u32 (i + 1) ≡ suc i = omega arith in
      ground (arith, next, in_word i h, store-eq-set nodes i (linked base size i) len)

  init_nodes_stop :
      (f i : ℕ) (nodes : List ObjectNode)
      → count ≤ i
      → init_nodes (suc f) i count size base nodes ≡ some nodes
  unfolding init_nodes
  init_nodes_stop f i nodes h = ground arith

  inside_step :
      (i : ℕ) (nodes r : List ObjectNode)
      → i < length nodes
      → Linked (set nodes i (linked base size i)) (suc i) count size base r
      → (j : ℕ) → i ≤ j
      → j < count
      → node r j ≡ linked base size j
  inside_step i nodes r len d j le lt = elim (Bool-cases (i == j)) [
    | inl e ↦
        d.outside j (ground arith)
        ∙ rw (← (==_iff i j).0 e) (get_or-set_self nodes i (linked base size i) blank len)
    | inr e ↦ d.inside j (ground arith) lt
  ]

  init_nodes-Linked :
      (n i : ℕ) (nodes : List ObjectNode)
      → i + n ≡ count
      → length nodes ≡ suc count
      → (r : List ObjectNode) × (init_nodes (suc n) i count size base nodes ≡ some r)
        × Linked nodes i count size base r
  init_nodes-Linked zero i nodes e len = (
    nodes,
    init_nodes_stop 0 i nodes (omega arith),
    record { same_length = refl; inside = λ j le lt. absurd (omega arith); outside = λ j lt. refl },
  )
  init_nodes-Linked (suc n) i nodes e len =
      let (r, run, d) =
        init_nodes-Linked n (suc i) (set nodes i (linked base size i)) (omega arith)
          (length-set nodes i (linked base size i) ∙ len) in
      (
        r,
        init_nodes_step (suc n) i nodes (omega arith) (omega arith) ∙ run,
        record {
          same_length = d.same_length ∙ length-set nodes i (linked base size i);
          inside = inside_step i nodes r (omega arith) d;
          outside = λ j lt.
              d.outside j (omega arith)
              ∙ get_or-set_ne nodes i j (linked base size i) blank (omega arith);
        },
      )

IsChain-up_from :
    (nodes : List ObjectNode) (count n i : ℕ)
    → i + suc n ≡ count
    → ((j : ℕ) → suc j < count → next_of nodes j ≡ suc j)
    → next_of nodes (count - 1) ≡ uint64_max
    → IsChain nodes i (up_from i (suc n))
IsChain-up_from nodes count zero i e link last =
    (refl, rw (let k : i ≡ count - 1 = omega arith in k) last)
IsChain-up_from nodes count (suc n) i e link last = (
  refl,
  rw (link i (omega arith)) (IsChain-up_from nodes count n (suc i) (omega arith) link last),
)

NotIn-up_from : (n a i : ℕ) → a < i → NotIn a (up_from i n)
NotIn-up_from zero a i h = tt
NotIn-up_from (suc n) a i h = (omega arith, NotIn-up_from n a (suc i) (omega arith))

Distinct-up_from : (n i : ℕ) → Distinct (up_from i n)
Distinct-up_from zero i = tt
Distinct-up_from (suc n) i = (NotIn-up_from n i (suc i) (omega arith), Distinct-up_from n (suc i))

AllBelow-up_from : (n i k : ℕ) → i + n ≤ k → AllBelow k (up_from i n)
AllBelow-up_from zero i k h = tt
AllBelow-up_from (suc n) i k h = (omega arith, AllBelow-up_from n (suc i) k (omega arith))

length-up_from : (n i : ℕ) → length (up_from i n) ≡ n
length-up_from zero i = refl
length-up_from (suc n) i = ap suc (length-up_from n (suc i))

up_from-covers : (n i j : ℕ) → i ≤ j → j < i + n → ¬ NotIn j (up_from i n)
up_from-covers zero i j le lt ne = omega arith
up_from-covers (suc n) i j le lt ne =
    up_from-covers n (suc i) j (grind (arith, ne.0)) (omega arith) ne.1

module _ (nodes : List ObjectNode) (c size base : ℕ) (len : length nodes ≡ suc (suc c))
    (small : suc c < 2 ^ 32) (fits : base + suc c * size < 2 ^ 64) where
  abbrev count : ℕ
  count = suc c

  looped :
      (r : List ObjectNode) × (init_nodes (suc count) 0 count size base (set nodes count blank)
        ≡ some r)
      × Linked (set nodes count blank) 0 count size base r
  looped =
      init_nodes-Linked count size base small fits count 0 (set nodes count blank) (omega arith)
        (length-set nodes count blank ∙ len)

  abbrev last_set : List ObjectNode
  last_set = with_next looped.0 c uint64_max

  length-looped : length looped.0 ≡ suc count
  length-looped = looped.2.same_length ∙ length-set nodes count blank ∙ len

  length-last_set : length last_set ≡ suc count
  length-last_set = length-with_next looped.0 c uint64_max ∙ length-looped

  made : ObjectCachePool
  made = record {
    count = count;
    nb_frees = count;
    object_size = size;
    cache_data = base;
    free_node_array = with_next last_set count 0;
  }

  made_next : (j : ℕ) → suc j < count → next_of (with_next last_set count 0) j ≡ suc j
  made_next j h =
      next_of-with_next_ne last_set count j 0 (omega arith)
      ∙ next_of-with_next_ne looped.0 c j uint64_max (omega arith)
      ∙ ap (λ (n : ObjectNode). n.next) (looped.2.inside j (omega arith) (omega arith))

  made_last : next_of (with_next last_set count 0) c ≡ uint64_max
  made_last =
      next_of-with_next_ne last_set count c 0 (omega arith)
      ∙ next_of-with_next_self looped.0 c uint64_max (omega (arith, length-looped))

  made-IsFree : 0 < size → IsFree made (up_from 0 count)
  unfolding made
  made-IsFree pos = record {
    sized = length-with_next last_set count 0 ∙ length-last_set;
    small = omega arith;
    item_size = pos;
    fits = fits;
    objects = λ j lt.
        object_of-with_next last_set count j 0 (omega (arith, length-last_set))
        ∙ object_of-with_next looped.0 c j uint64_max (omega (arith, length-looped))
        ∙ ap (λ (n : ObjectNode). n.object) (looped.2.inside j (omega arith) lt);
    chained = rw (next_of-with_next_self last_set count 0 (omega (arith, length-last_set))) (
        IsChain-up_from (with_next last_set count 0) count c 0 (omega arith) made_next
          (rw (let k : count - 1 ≡ c = omega arith in k) made_last));
    distinct = Distinct-up_from count 0;
    below = AllBelow-up_from count 0 count (omega arith);
    busy = λ j lt away. absurd (up_from-covers count 0 j (omega arith) (omega arith) away);
    counted = sym (length-up_from count 0);
  }

  pool_header_init-eq :
      (header_size : ℕ)
      → base % 8 ≡ 0
      → 32 + (count + 1) * 16 ≤ header_size
      → pool_header_init nodes count size header_size (some base)
        ≡ some (made, u64 (header_size + u64 (count * size)))
  unfolding pool_header_init pool_header_size made
  pool_header_init-eq header_size aligned room = ground (
    arith,
    aligned,
    room,
    store-eq-set nodes count blank,
    looped.1,
    length-looped,
    set_next-eq looped.0 c uint64_max,
    length-last_set,
    set_next-eq last_set count 0,
  )

pub pool_header_size-eq :
    (count : ℕ)
    → 32 + (count + 1) * 16 < 2 ^ 64
    → pool_header_size count ≡ some (32 + (count + 1) * 16)
unfolding pool_header_size
pool_header_size-eq count h = ground arith

-- With a count between 1 and 2^32 - 1, aligned data that fits the address space and a header of at
-- least `pool_header_size`, `pool_header_init` ends and returns the size of header and data; all
-- objects of the pool are free, in the order of their indices.
pub pool_header_init_lem :
    (nodes : List ObjectNode) (c size base header_size : ℕ)
    → length nodes ≡ suc (suc c)
    → suc c < 2 ^ 32
    → 0 < size
    → base % 8 ≡ 0
    → base + suc c * size < 2 ^ 64
    → 32 + suc (suc c) * 16 ≤ header_size
    → header_size + suc c * size < 2 ^ 64
    → (p : ObjectCachePool) × (pool_header_init nodes (suc c) size header_size (some base)
        ≡ some (p, header_size + suc c * size))
      × IsFree p (up_from 0 (suc c))
pool_header_init_lem nodes c size base header_size len small pos aligned fits room whole = (
  made nodes c size base len small fits,
  pool_header_init-eq nodes c size base len small fits header_size aligned (omega arith)
      ∙ ap (λ n. some (made nodes c size base len small fits, n)) (omega arith),
  made-IsFree nodes c size base len small fits pos,
)
