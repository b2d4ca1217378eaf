-- ===== src/Pool/Free.antt =====
-- A pool refines a stack of free objects: `pool_get` pops it, `pool_release` pushes.

use bagdb_spdk.Base.{
  ℕ, suc, ◌+◌, ◌-◌, ◌*◌, ◌^◌, ◌<◌, ◌≡◌, refl, ◌∙◌, none, some, List, [], ◌∷◌, arith, ◌==◌, length,
  get_elem?-eq-get_or, NotIn, Distinct, AllBelow, AllBelow-NotIn, length-Distinct, uint64_max,
  Bool-cases, ==_iff, inl, inr,
}
use bagdb_spdk.Pool.{ObjectCachePool, pool_take, pool_get}
use bagdb_spdk.Pool.Nodes.{
  blank, next_of, object_of, with_next, set_next-eq, length-with_next, next_of-with_next_self,
  next_of-with_next_ne, object_of-with_next, IsChain, IsChain-with_next,
}

-- The address of object `i`.
abbrev pub address : ObjectCachePool → ℕ → ℕ
address p i = p.cache_data + i * p.object_size

-- The pool is well formed, and its free objects are those of the list, the next one first.
pub record IsFree (p : ObjectCachePool) (fs : List ℕ) : Type 0 where
  pub sized : length p.free_node_array ≡ suc p.count
  pub small : p.count < uint64_max
  pub item_size : 0 < p.object_size
  pub fits : address p p.count < 2 ^ 64
  pub objects : (i : ℕ) → i < p.count → object_of p.free_node_array i ≡ some (address p i)
  pub chained : IsChain p.free_node_array (next_of p.free_node_array p.count) fs
  pub distinct : Distinct fs
  pub below : AllBelow p.count fs
  pub busy : (i : ℕ) → i < p.count → NotIn i fs → next_of p.free_node_array i ≡ uint64_max
  pub counted : p.nb_frees ≡ length fs

-- The state after object `i` has been unlinked.
abbrev pub taken : ObjectCachePool → ℕ → ObjectCachePool
taken p i = record p {
  free_node_array =
      with_next (with_next p.free_node_array p.count (next_of p.free_node_array i)) i uint64_max;
  nb_frees = p.nb_frees - 1;
}

module _ (p : ObjectCachePool) (i : ℕ) (fs : List ℕ) (h : IsFree p (i ∷ fs)) where
  open p use {free_node_array as nodes, count}

  nb_frees-lt : (0 < p.nb_frees) × (p.nb_frees < uint64_max)
  nb_frees-lt = omega (arith, h.counted, length-Distinct count (i ∷ fs) h.below h.distinct, h.small)

  pool_take-eq : pool_take p ≡ some (taken p i, some (address p i))
  unfolding pool_take
  pool_take-eq = ground (
    arith,
    h.chained.0,
    h.below.0,
    h.sized,
    h.objects i,
    nb_frees-lt,
    get_elem?-eq-get_or nodes count blank,
    get_elem?-eq-get_or nodes i blank,
    set_next-eq nodes count (next_of nodes i),
    length-with_next nodes count (next_of nodes i),
    set_next-eq (with_next nodes count (next_of nodes i)) i uint64_max,
    length-with_next (with_next nodes count (next_of nodes i)) i uint64_max,
    get_elem?-eq-get_or (with_next (with_next nodes count (next_of nodes i)) i uint64_max) i blank,
    object_of-with_next nodes count i (next_of nodes i),
    object_of-with_next (with_next nodes count (next_of nodes i)) i i uint64_max,
  )

  taken_busy :
      (j : ℕ)
      → j < count
      → NotIn j fs
      → next_of (with_next (with_next nodes count (next_of nodes i)) i uint64_max) j ≡ uint64_max
  taken_busy j lt away = elim (Bool-cases (i == j)) [
    | inl e ↦ rw (← (==_iff i j).0 e) (
        next_of-with_next_self (with_next nodes count (next_of nodes i)) i uint64_max
          (rw length-with_next (omega (arith, h.below.0, h.sized))))
    | inr e ↦
        next_of-with_next_ne (with_next nodes count (next_of nodes i)) i j uint64_max (ground arith)
        ∙ next_of-with_next_ne nodes count j (next_of nodes i) (omega arith)
        ∙ h.busy j lt (ground arith, away)
  ]

  taken-IsFree : IsFree (taken p i) fs
  taken-IsFree = record {
    sized = rw (length-with_next, length-with_next) h.sized;
    small = h.small;
    item_size = h.item_size;
    fits = h.fits;
    objects = λ j lt.
        object_of-with_next (with_next nodes count (next_of nodes i)) i j uint64_max
          (rw length-with_next (omega (arith, h.below.0, h.sized)))
        ∙ object_of-with_next nodes count j (next_of nodes i) (omega (arith, h.sized))
        ∙ h.objects j lt;
    chained =
        rw
          (
            next_of-with_next_ne (with_next nodes count (next_of nodes i)) i count uint64_max
                (omega (arith, h.below.0)),
            next_of-with_next_self nodes count (next_of nodes i) (omega (arith, h.sized)),
          )
          (IsChain-with_next (with_next nodes count (next_of nodes i)) i uint64_max _ fs
            h.distinct.0
            (IsChain-with_next nodes count (next_of nodes i) _ fs
              (AllBelow-NotIn count fs h.below.1) h.chained.1));
    distinct = h.distinct.1;
    below = h.below.1;
    busy = λ j lt away. taken_busy j lt away;
    counted = omega (arith, h.counted);
  }

-- `pool_get` pops the free objects `fs`.
abbrev pub Pops : ObjectCachePool → List ℕ → Type 0
Pops p [] = pool_get p ≡ some (p, none)
Pops p (i ∷ fs) =
    (p' : ObjectCachePool) × (pool_get p ≡ some (p', some (address p i)))
    × IsFree p' fs
    × ((j : ℕ) → address p' j ≡ address p j)

-- On a well-formed pool whose free objects are `fs`, `pool_get` returns NULL and changes nothing when
-- there is none, and else it returns the address of the first and leaves a well-formed pool whose
-- free objects are the others; no object has moved.
pub pool_get-Pops : (p : ObjectCachePool) (fs : List ℕ) → IsFree p fs → Pops p fs
unfolding pool_get
pool_get-Pops p [] h = ground (arith, h.counted)
pool_get-Pops p (i ∷ fs) h =
    (taken p i, ground (arith, pool_take-eq p i fs h, h.counted), taken-IsFree p i fs h, λ j. refl)
