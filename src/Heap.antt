-- ===== src/Heap.antt =====
-- The heap of src/kvs.c over which an iterator merges its workers: `_item_swap`, `_heap_adjust` and
-- `_make_heap`. `none` is an access out of range.
mod Swap
mod Step
pub mod Root
pub mod Prefix
mod Tests
use Prim.Native.Nat.{Ordering, lt, eq, gt}
use bagdb_spdk.Base.{
  ℕ, zero, suc, ◌+◌, ◌*◌, Bool, true, false, ◌||◌, Option, none, some, List, ◌>>=◌, store, ltb,
  ◌==◌, if◌then◌else◌, get_elem?,
}
use bagdb_spdk.Item.{SortedItem, item_cmp}

-- The test `< 0` of what `_item_cmp` returns.
abbrev pub is_lt : Ordering → Bool
is_lt lt = true
is_lt eq = false
is_lt gt = false

-- `_item_cmp(&item_array[i], &item_array[j])`
unfoldable pub cmp_at : List SortedItem → ℕ → ℕ → Option Ordering
cmp_at item_array i j = do
  item0 ← get_elem? item_array i
  item1 ← get_elem? item_array j
  some (item_cmp (some item0) (some item1))

-- `_item_swap(&item_array[i], &item_array[j])`
unfoldable pub item_swap : List SortedItem → ℕ → ℕ → Option (List SortedItem)
item_swap item_array i j = do
  tmp ← get_elem? item_array i
  item1 ← get_elem? item_array j
  moved ← store item_array i item1
  store moved j tmp

-- The branch `left==len-1`: only a left child.
unfoldable pub adjust_left : List SortedItem → ℕ → ℕ → Option (List SortedItem)
adjust_left item_array index left = do
  il ← cmp_at item_array index left
  if is_lt il then item_swap item_array index left else some item_array

-- `left > len - 1` is written without the difference, which is negative for an empty heap. The
-- recursive calls pass `len` and the child in the places of `index` and `len`, as the source does.
unfoldable pub heap_adjust : ℕ → List SortedItem → ℕ → ℕ → Option (List SortedItem)
heap_adjust zero item_array index len = none
heap_adjust (suc fuel) item_array index len =
    let left = 2 * index + 1 in
    let right = 2 * index + 2 in
    let go_right = item_swap item_array index right >>= λ a. heap_adjust fuel a len right in
    let go_left = item_swap item_array index left >>= λ a. heap_adjust fuel a len left in
    if ltb len (left + 1)
    then some item_array
    else if left + 1 == len
    then adjust_left item_array index left
    else (do
      il ← cmp_at item_array index left
      ir ← cmp_at item_array index right
      lr ← cmp_at item_array left right
      if is_lt il || is_lt ir then if is_lt lr then go_right else go_left else some item_array)

-- Two calls deep are enough.
abbrev pub heap_fuel : ℕ
heap_fuel = 2

-- The loop of `_make_heap`: the rounds `i = k - 1, …, 0`.
unfoldable pub make_heap_from : ℕ → List SortedItem → ℕ → Option (List SortedItem)
make_heap_from zero item_array len = some item_array
make_heap_from (suc i) item_array len = do
  adjusted ←
      if ltb len (2 * i + 1 + 1) then some item_array else heap_adjust heap_fuel item_array i len
  make_heap_from i adjusted len

unfoldable pub make_heap : List SortedItem → ℕ → Option (List SortedItem)
make_heap item_array len = make_heap_from len item_array len
