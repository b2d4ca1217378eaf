-- ===== src/Heap/Tests.antt =====
-- Runs of the heap of src/kvs.c, and its theorems at concrete arrays.
use mathlib.Core.List.{Perm}
use bagdb_spdk.Base.{ℕ, ◌<◌, ◌≡◌, refl, some, List, [], ◌∷◌, arith}
use bagdb_spdk.Item.{SortedItem, memcmp, item_cmp, item_cmp_keys}
use bagdb_spdk.Item.Order.{Le}
use bagdb_spdk.Heap.{cmp_at, item_swap, adjust_left, heap_adjust, make_heap_from, make_heap}
use bagdb_spdk.Heap.Swap.{at}
use bagdb_spdk.Heap.Step.{Adjusted, heap_adjust_lem}
use bagdb_spdk.Heap.Root.{make_heap_root}

abbrev entry : ℕ → SortedItem
entry k = record {
  wid = k;
  item = record { meta = record { rdt = 0; ksize = 1; vsize = 0 }; bytes = k ∷ [] };
}

abbrev three : List SortedItem
three = entry 1 ∷ entry 3 ∷ entry 2 ∷ []

-- The greatest item comes to the front.
three_runs : make_heap three 3 ≡ some (entry 3 ∷ entry 1 ∷ entry 2 ∷ [])
unfolding make_heap make_heap_from heap_adjust adjust_left item_swap cmp_at item_cmp item_cmp_keys
    memcmp
three_runs = refl

-- Only the front is right: entry 1 ends above its child, entry 3.
four_runs :
    make_heap (entry 1 ∷ entry 4 ∷ entry 2 ∷ entry 3 ∷ []) 4
    ≡ some (entry 4 ∷ entry 1 ∷ entry 2 ∷ entry 3 ∷ [])
unfolding make_heap make_heap_from heap_adjust adjust_left item_swap cmp_at item_cmp item_cmp_keys
    memcmp
four_runs = refl

heap_adjust_lem_example :
    (b : List SortedItem) × (heap_adjust 2 three 0 3 ≡ some b) × Adjusted three 0 3 b
heap_adjust_lem_example = heap_adjust_lem three 0 3 0 (omega arith) (omega arith)

make_heap_root_example :
    (b : List SortedItem) × (make_heap three 3 ≡ some b)
    × Perm b three
    × ((k : ℕ) → k < 3 → Le (at b k) (at b 0))
make_heap_root_example = make_heap_root three 3 (omega arith)
