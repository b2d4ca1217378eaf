-- ===== src/Shuffle/Tests.antt =====
-- A shuffle of three entries.
use mathlib.Core.List.{Perm}
use bagdb_spdk.Base.{ℕ, ◌≡◌, refl, some, List, [], ◌∷◌, arith}
use bagdb_spdk.Shuffle.{kv_shuffle, shuffle_from}
use bagdb_spdk.Shuffle.Permutes.{kv_shuffle-perm}

abbrev rands : List ℕ
rands = 2000000000 ∷ 5 ∷ []

abbrev array : List ℕ
array = 10 ∷ 20 ∷ 30 ∷ []

shuffle_runs : kv_shuffle rands array 3 ≡ some (30 ∷ 20 ∷ 10 ∷ [])
unfolding kv_shuffle shuffle_from
shuffle_runs = refl

kv_shuffle-perm_example :
    (array' : List ℕ) × (kv_shuffle rands array 3 ≡ some array') × Perm array' array
kv_shuffle-perm_example =
    kv_shuffle-perm rands array 3 (omega arith) (omega arith) (omega arith, (omega arith, tt))
