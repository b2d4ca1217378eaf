-- ===== src/Shuffle/Permutes.antt =====
-- `kv_shuffle` of src/kvutil.c stays in the array and permutes it.
use mathlib.Core.List.{Perm}
use mathlib.Core.List.Perm
use native.Mathlib.Nat.{div-lt_iff_lt-mul, lt-div-mul-add}
use bagdb_spdk.Base.{
  ℕ, zero, suc, ◌+◌, ◌-◌, ◌*◌, ◌/◌, ◌^◌, ◌<◌, ◌≤◌, ◌≡◌, some, List, [], ◌∷◌, arith, length, set,
  get_or, AllBelow, get_elem?-eq-get_or, store-eq-set, length-set, refl, ltb, Bool-cases, inl, inr,
}
use bagdb_spdk.Base.Swap.{exchanged, exchanged-perm}
use bagdb_spdk.Shuffle.{rand_max, shuffle_from, kv_shuffle}

-- A random number picks one of the `m` entries that are left.
pick-lt : (rand m : ℕ) → rand < 2 ^ 31 → 0 < m → rand / (rand_max / m + 1) < m
pick-lt rand m h some_left =
    (div-lt_iff_lt-mul (omega arith)).1
      (let up : rand_max < rand_max / m * m + m = lt-div-mul-add some_left in omega (arith, up))

shuffle_from-perm :
    (rounds i n : ℕ) (rands array : List ℕ)
    → i + rounds < n
    → n ≤ length array
    → rounds ≤ length rands
    → AllBelow (2 ^ 31) rands
    → (array' : List ℕ) × (shuffle_from rounds i n rands array ≡ some array') × Perm array' array
unfolding shuffle_from
shuffle_from-perm zero i n rands array h room enough below = (array, refl, Perm.refl array)
shuffle_from-perm (suc rounds) i n [] array h room enough below = absurd (omega arith)
shuffle_from-perm (suc rounds) i n (rand ∷ rands) array h room enough below =
    let j : ℕ = i + rand / (rand_max / (n - i) + 1) in
    let pick : rand / (rand_max / (n - i) + 1) < n - i =
      pick-lt rand (n - i) below.0 (omega arith) in
    let inside : j < length array = omega (arith, pick) in
    let step : List ℕ = exchanged 0 array i j in
    let (array', run, perm) =
      shuffle_from-perm rounds (i + 1) n rands step (omega arith)
        (omega (
          arith,
          room,
          length-set array j (get_or array i 0),
          length-set (set array j (get_or array i 0)) i (get_or array j 0),
        ))
        (omega arith) below.1 in
    (
      array',
      ground (
        arith,
        get_elem?-eq-get_or array j 0 inside,
        get_elem?-eq-get_or array i 0 (omega arith),
        store-eq-set array j (get_or array i 0) inside,
        store-eq-set (set array j (get_or array i 0)) i (get_or array j 0)
            (omega (arith, length-set array j (get_or array i 0))),
        run,
      ),
      Perm.trans perm (exchanged-perm 0 array i j (omega arith) inside),
    )

-- With a random number below 2^31 for each round, `kv_shuffle` of the first `n` entries ends without
-- leaving the array, and the array is permuted.
pub kv_shuffle-perm :
    (rands array : List ℕ) (n : ℕ)
    → n ≤ length array
    → n ≤ length rands + 1
    → AllBelow (2 ^ 31) rands
    → (array' : List ℕ) × (kv_shuffle rands array n ≡ some array') × Perm array' array
unfolding kv_shuffle
kv_shuffle-perm rands array n room enough below = elim (Bool-cases (ltb 1 n)) [
  | inl e ↦
      let (array', run, perm) =
        shuffle_from-perm (n - 1) 0 n rands array (ground arith) room (omega arith) below in
      (array', rw e run, perm)
  | inr e ↦ (array, rw e refl, Perm.refl array)
]
