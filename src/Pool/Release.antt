-- ===== src/Pool/Release.antt =====
-- `pool_release` of src/pool.c: what it links in, which releases it refuses, and one that it misses.
use native.Mathlib.Nat.{mul-div_cancel}
use bagdb_spdk.Base.{
  ℕ, ◌+◌, ◌*◌, ◌^◌, ◌<◌, ◌≡◌, sym, ◌∙◌, ap, subst, ◌≢◌, true, none, some, List, [], ◌∷◌, ◌++◌,
  arith, get_elem?-eq-get_or, NotIn, Distinct, AllBelow, AllBelow-NotIn, length-Distinct,
  uint64_max,
}
use bagdb_spdk.Pool.{ObjectNode, ObjectCachePool, index_of, pool_release}
use bagdb_spdk.Pool.Nodes.{
  blank, next_of, with_next, set_next-eq, length-with_next, next_of-with_next_self,
  next_of-with_next_ne, object_of-with_next, IsChain, IsChain-with_next,
}
use bagdb_spdk.Pool.Free.{IsFree, address}

-- The state after object `i` has been linked in again.
abbrev pub given : ObjectCachePool → ℕ → ObjectCachePool
given p i = record p {
  free_node_array =
      with_next (with_next p.free_node_array i (next_of p.free_node_array p.count)) p.count i;
  nb_frees = p.nb_frees + 1;
}

module _ (p : ObjectCachePool) (i : ℕ) (fs : List ℕ) (h : IsFree p fs) (lt : i < p.count) where
  open p use {free_node_array as nodes, count}

  given_busy :
      (j : ℕ)
      → j < count
      → NotIn j (i ∷ fs)
      → next_of (with_next (with_next nodes i (next_of nodes count)) count i) j ≡ uint64_max
  given_busy j ltj away =
      next_of-with_next_ne (with_next nodes i (next_of nodes count)) count j i (omega arith)
      ∙ next_of-with_next_ne nodes i j (next_of nodes count) (λ e. away.0 (sym e))
      ∙ h.busy j ltj away.1

  pub given-IsFree : NotIn i fs → IsFree (given p i) (i ∷ fs)
  given-IsFree away = record {
    sized = rw (length-with_next, length-with_next) h.sized;
    small = h.small;
    item_size = h.item_size;
    fits = h.fits;
    objects = λ j ltj.
        object_of-with_next (with_next nodes i (next_of nodes count)) count j i
          (rw length-with_next (omega (arith, h.sized)))
        ∙ object_of-with_next nodes i j (next_of nodes count) (omega (arith, h.sized))
        ∙ h.objects j ltj;
    chained = (
      next_of-with_next_self (with_next nodes i (next_of nodes count)) count i
          (rw length-with_next (omega (arith, h.sized))),
      rw
          (
            next_of-with_next_ne (with_next nodes i (next_of nodes count)) count i i (omega arith),
            next_of-with_next_self nodes i (next_of nodes count) (omega (arith, h.sized)),
          )
          (IsChain-with_next (with_next nodes i (next_of nodes count)) count i _ fs
            (AllBelow-NotIn count fs h.below)
            (IsChain-with_next nodes i (next_of nodes count) _ fs away h.chained)),
    );
    distinct = (away, h.distinct);
    below = (lt, h.below);
    busy = given_busy;
    counted = omega (arith, h.counted);
  }

  scaled : i * p.object_size < 2 ^ 64
  scaled = grind (arith, h.fits)

  index_of-address : index_of p (address p i) ≡ some i
  unfolding index_of
  index_of-address = ground (arith, scaled, h.item_size, mul-div_cancel i h.item_size)

  nb_frees-lt : p.nb_frees < uint64_max
  nb_frees-lt = omega (arith, h.counted, length-Distinct count fs h.below h.distinct, h.small)

  pub pool_release-eq :
      next_of nodes i ≡ uint64_max → pool_release p (address p i) ≡ some (given p i, true)
  unfolding pool_release
  pool_release-eq e = ground (
    arith,
    index_of-address,
    h.sized,
    nb_frees-lt,
    get_elem?-eq-get_or nodes i blank,
    get_elem?-eq-get_or nodes count blank,
    set_next-eq nodes i (next_of nodes count),
    length-with_next nodes i (next_of nodes count),
    set_next-eq (with_next nodes i (next_of nodes count)) count i,
  )

  pub pool_release_refused : next_of nodes i ≢ uint64_max → pool_release p (address p i) ≡ none
  unfolding pool_release
  pool_release_refused ne =
      ground (arith, index_of-address, h.sized, get_elem?-eq-get_or nodes i blank)

-- Releasing an object in use succeeds, makes it the first free object, and keeps the pool well formed.
pub pool_release-pushes :
    (p : ObjectCachePool) (i : ℕ) (fs : List ℕ)
    → IsFree p fs
    → i < p.count
    → NotIn i fs
    → (p' : ObjectCachePool) × (pool_release p (address p i) ≡ some (p', true)) × IsFree p' (i ∷ fs)
pool_release-pushes p i fs h lt away =
    (given p i, pool_release-eq p i fs h lt (h.busy i lt away), given-IsFree p i fs h lt away)

-- The link of a free object that another one follows is a node's index.
next_of-lt :
    (nodes : List ObjectNode) (n i j s : ℕ) (fs gs : List ℕ)
    → IsChain nodes s (fs ++ i ∷ j ∷ gs)
    → AllBelow n (fs ++ i ∷ j ∷ gs)
    → next_of nodes i < n
next_of-lt nodes n i j s [] gs c b = rw c.1.0 b.1.0
next_of-lt nodes n i j s (f ∷ fs) gs c b = next_of-lt nodes n i j _ fs gs c.1 b.1

-- The assertion stops the release of an object that is free already, unless it is the last free one.
pub pool_release_twice :
    (p : ObjectCachePool) (i j : ℕ) (fs gs : List ℕ)
    → IsFree p (fs ++ i ∷ j ∷ gs)
    → i < p.count
    → pool_release p (address p i) ≡ none
pool_release_twice p i j fs gs h lt =
    pool_release_refused p i _ h lt
      (omega (arith, next_of-lt p.free_node_array p.count i j _ fs gs h.chained h.below, h.small))

next_of_last :
    (nodes : List ObjectNode) (t s : ℕ) (fs : List ℕ)
    → IsChain nodes s (fs ++ t ∷ [])
    → next_of nodes t ≡ uint64_max
next_of_last nodes t s [] c = rw (← c.0) (rw c.0 c.1)
next_of_last nodes t s (f ∷ fs) c = next_of_last nodes t _ fs c.1

-- After the last free object has been released again, the links lead from the rest of the old list
-- back to it.
chain_returns :
    (p : ObjectCachePool) (t s : ℕ) (fs gs : List ℕ)
    → t < p.count
    → p.count < uint64_max
    → IsChain p.free_node_array s (fs ++ t ∷ [])
    → AllBelow p.count (fs ++ t ∷ [])
    → NotIn t fs
    → IsChain (given p t).free_node_array s gs
    → ¬ NotIn t gs
chain_returns p t s [] [] lt small c b away d ne = omega arith
chain_returns p t s [] (x ∷ gs) lt small c b away d ne = ne.0 (sym c.0 ∙ d.0)
chain_returns p t s (f ∷ fs) [] lt small c b away d ne = omega arith
chain_returns p t s (f ∷ fs) (x ∷ gs) lt small c b away d ne =
    chain_returns p t (next_of p.free_node_array f) fs gs lt small c.1 b.1 away.1
      (rw (← same) (rw (sym c.0 ∙ d.0) d.1)) ne.1
  where
    same : next_of (given p t).free_node_array f ≡ next_of p.free_node_array f
    same =
        next_of-with_next_ne (with_next p.free_node_array t (next_of p.free_node_array p.count))
          p.count f t (omega arith)
        ∙ next_of-with_next_ne p.free_node_array t f (next_of p.free_node_array p.count) away.0

NotIn-last : (t f : ℕ) (fs : List ℕ) → NotIn f (fs ++ t ∷ []) → f ≢ t
NotIn-last t f [] d = d.0
NotIn-last t f (x ∷ fs) d = NotIn-last t f fs d.1

Distinct-last : (t : ℕ) (fs : List ℕ) → Distinct (fs ++ t ∷ []) → NotIn t fs
Distinct-last t [] d = tt
Distinct-last t (f ∷ fs) d = (λ e. NotIn-last t f fs d.0 (sym e), Distinct-last t fs d.1)

AllBelow-last : (n t : ℕ) (fs : List ℕ) → AllBelow n (fs ++ t ∷ []) → t < n
AllBelow-last n t [] b = b.0
AllBelow-last n t (f ∷ fs) b = AllBelow-last n t fs b.1

given-not-IsFree :
    (p : ObjectCachePool) (t : ℕ) (fs gs : List ℕ)
    → IsFree p (fs ++ t ∷ [])
    → ¬ IsFree (given p t) gs
given-not-IsFree p t fs gs h g = go gs g.chained g.distinct
  where
    lt : t < p.count
    lt = AllBelow-last p.count t fs h.below

    first : List ObjectNode
    first = with_next p.free_node_array t (next_of p.free_node_array p.count)

    head : next_of (given p t).free_node_array p.count ≡ t
    head = next_of-with_next_self first p.count t (rw length-with_next (omega (arith, h.sized)))

    link : next_of (given p t).free_node_array t ≡ next_of p.free_node_array p.count
    link =
        next_of-with_next_ne first p.count t t (omega (arith, lt))
        ∙ next_of-with_next_self p.free_node_array t _ (omega (arith, lt, h.sized))

    go :
        (xs : List ℕ)
        → IsChain (given p t).free_node_array (next_of (given p t).free_node_array p.count) xs
        → Distinct xs
        → ⊥
    go [] c d = omega (arith, head, lt, h.small)
    go (x ∷ xs) c d =
        chain_returns p t (next_of p.free_node_array p.count) fs xs lt h.small h.chained h.below
          (Distinct-last t fs h.distinct)
          (subst (λ s. IsChain (given p t).free_node_array s xs)
            (ap (next_of (given p t).free_node_array) (sym c.0 ∙ head) ∙ link) c.1)
          (rw (sym head ∙ c.0) d.0)

-- The assertion misses the release of the last free object: it succeeds, and the pool is then well
-- formed for no list of free objects.
pub pool_release_last :
    (p : ObjectCachePool) (t : ℕ) (fs : List ℕ)
    → IsFree p (fs ++ t ∷ [])
    → (p' : ObjectCachePool) × (pool_release p (address p t) ≡ some (p', true))
      × ((gs : List ℕ) → ¬ IsFree p' gs)
pool_release_last p t fs h = (
  given p t,
  pool_release-eq p t _ h (AllBelow-last p.count t fs h.below)
      (next_of_last p.free_node_array t _ fs h.chained),
  λ gs. given-not-IsFree p t fs gs h,
)
