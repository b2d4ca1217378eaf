-- ===== src/Pool/Nodes.antt =====
-- The node array of a pool: what a store of `next` changes.
use bagdb_spdk.Base.{
  ℕ, ◌<◌, ◌≡◌, ap, ◌≢◌, inl, inr, Option, none, some, List, [], ◌∷◌, arith, ◌==◌, length, get_or,
  set, store-eq-set, length-set, get_elem?-eq-get_or, get_or-set_self, get_or-set_ne, NotIn,
  uint64_max, Bool-cases, ==_iff,
}
use bagdb_spdk.Pool.{ObjectNode, set_next}

abbrev pub blank : ObjectNode
blank = record { object = none; next = 0 }

abbrev pub node : List ObjectNode → ℕ → ObjectNode
node nodes i = get_or nodes i blank

abbrev pub next_of : List ObjectNode → ℕ → ℕ
next_of nodes i = (node nodes i).next

abbrev pub object_of : List ObjectNode → ℕ → Option ℕ
object_of nodes i = (node nodes i).object

pub with_next : List ObjectNode → ℕ → ℕ → List ObjectNode
with_next nodes i v = set nodes i (record { object = object_of nodes i; next = v })

module _ (nodes : List ObjectNode) where
  pub set_next-eq : (i v : ℕ) → i < length nodes → set_next nodes i v ≡ some (with_next nodes i v)
  unfolding with_next set_next
  set_next-eq i v h = rw (get_elem?-eq-get_or nodes i blank h, set_next) (store-eq-set nodes i _ h)

  pub length-with_next : (i v : ℕ) → length (with_next nodes i v) ≡ length nodes
  unfolding with_next
  length-with_next i v = length-set nodes i _

  pub next_of-with_next_self : (i v : ℕ) → i < length nodes → next_of (with_next nodes i v) i ≡ v
  unfolding with_next
  next_of-with_next_self i v h = ap (λ (n : ObjectNode). n.next) (get_or-set_self nodes i _ blank h)

  pub next_of-with_next_ne : (i j v : ℕ) → i ≢ j → next_of (with_next nodes i v) j ≡ next_of nodes j
  unfolding with_next
  next_of-with_next_ne i j v h = ap (λ (n : ObjectNode). n.next) (get_or-set_ne nodes i j _ blank h)

  pub object_of-with_next :
      (i j v : ℕ) → i < length nodes → object_of (with_next nodes i v) j ≡ object_of nodes j
  unfolding with_next
  object_of-with_next i j v h = elim (Bool-cases (i == j)) [
    | inl e ↦
        rw (← (==_iff i j).0 e)
          (ap (λ (n : ObjectNode). n.object) (get_or-set_self nodes i _ blank h))
    | inr e ↦ ap (λ (n : ObjectNode). n.object) (get_or-set_ne nodes i j _ blank (ground arith))
  ]

-- From node `s` the links run through exactly the nodes of the list, up to the end mark.
abbrev pub IsChain : List ObjectNode → ℕ → List ℕ → Type 0
IsChain nodes s [] = s ≡ uint64_max
IsChain nodes s (i ∷ fs) = (s ≡ i) × IsChain nodes (next_of nodes i) fs

pub IsChain-with_next :
    (nodes : List ObjectNode) (i v s : ℕ) (fs : List ℕ)
    → NotIn i fs
    → IsChain nodes s fs
    → IsChain (with_next nodes i v) s fs
IsChain-with_next nodes i v s [] ne h = h
IsChain-with_next nodes i v s (j ∷ fs) ne h =
    (h.0, rw (next_of-with_next_ne nodes i j v ne.0) (IsChain-with_next nodes i v _ fs ne.1 h.1))
