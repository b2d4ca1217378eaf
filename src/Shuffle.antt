-- ===== src/Shuffle.antt =====
-- `kv_shuffle` of src/kvutil.c. What `rand` returns comes as a list.
use bagdb_spdk.Base.{
  ℕ, zero, suc, ◌+◌, ◌-◌, ◌/◌, ◌^◌, Option, none, some, List, [], ◌∷◌, ◌>>=◌, get_elem?, store, ltb,
  if◌then◌else◌,
}
pub mod Permutes
mod Tests

abbrev pub rand_max : ℕ
rand_max = 2 ^ 31 - 1

-- The loop from `i` on, with `rounds` rounds left of it.
unfoldable pub shuffle_from : ℕ → ℕ → ℕ → List ℕ → List ℕ → Option (List ℕ)
shuffle_from zero i n rands array = some array
shuffle_from (suc rounds) i n [] array = none
shuffle_from (suc rounds) i n (rand ∷ rands) array =
    let j = i + rand / (rand_max / (n - i) + 1) in
    (do
      t ← get_elem? array j
      a ← get_elem? array i
      array₁ ← store array j a
      array₂ ← store array₁ i t
      shuffle_from rounds (i + 1) n rands array₂)

unfoldable pub kv_shuffle : List ℕ → List ℕ → ℕ → Option (List ℕ)
kv_shuffle rands array n = if ltb 1 n then shuffle_from (n - 1) 0 n rands array else some array
