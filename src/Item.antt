-- ===== src/Item.antt =====
-- src/include/item.h: items as they are stored, and their sizes; and the comparison `_item_cmp` of
-- src/kvs.c, which orders the merge of an iterator.
pub mod Order
mod Tests
use Prim.Native.Nat.{compare, Ordering, lt, eq, gt}
use bagdb_spdk.Base.{
  ℕ, zero, suc, ◌+◌, ◌%◌, ◌^◌, Option, none, some, List, [], ◌∷◌, ltb, ◌==◌, if◌then◌else◌, u32,
  u64,
}

-- `struct item_meta`. The sources read `key_size` and `value_size` as `ksize` and `vsize`.
pub record ItemMeta : Type 0 where
  pub rdt : ℕ
  pub ksize : ℕ
  pub vsize : ℕ

-- `struct kv_item`. The bytes of the key come first in its data.
pub record KvItem : Type 0 where
  pub meta : ItemMeta
  pub bytes : List ℕ

abbrev pub sizeof_item_meta : ℕ
sizeof_item_meta = 24

pub item_get_size : KvItem → ℕ
item_get_size item = u32 (u64 (u64 (item.meta.ksize + item.meta.vsize) + sizeof_item_meta))

pub item_packed_size : KvItem → ℕ
item_packed_size item = u32 (item_get_size item + 16)

-- The byte that a pointer points to, and the pointer after it; what lies past the data reads as 0.
abbrev pub byte : List ℕ → ℕ
byte [] = 0
byte (x ∷ _) = x

abbrev pub rest : List ℕ → List ℕ
rest [] = []
rest (_ ∷ xs) = xs

-- The sign of `memcmp(p, q, n)`.
unfoldable pub memcmp : ℕ → List ℕ → List ℕ → Ordering
memcmp zero p q = Ordering.eq
memcmp (suc n) p q = elim (compare (byte p) (byte q)) [
  | lt ↦ Ordering.lt
  | eq ↦ memcmp n (rest p) (rest q)
  | gt ↦ Ordering.gt
]

-- `struct sorted_item`
pub record SortedItem : Type 0 where
  pub wid : ℕ
  pub item : KvItem

abbrev pub min_len : ℕ → ℕ → ℕ
min_len len0 len1 = if ltb len0 len1 then len0 else len1

-- The sign of what `_item_cmp` returns for two items that are there.
unfoldable pub item_cmp_keys : KvItem → KvItem → Ordering
item_cmp_keys item0 item1 =
    let len0 = u32 item0.meta.ksize in
    let len1 = u32 item1.meta.ksize in
    elim (memcmp (min_len len0 len1) item0.bytes item1.bytes) [
      | lt ↦ Ordering.lt
      | eq ↦
          if len0 == len1 then Ordering.eq else if ltb len0 len1 then Ordering.lt else Ordering.gt
      | gt ↦ Ordering.gt
    ]

-- The sign of `_item_cmp`. A pointer is an option, NULL `none`; NULL is less than any item, and the
-- second argument is tested first.
unfoldable pub item_cmp : Option SortedItem → Option SortedItem → Ordering
item_cmp item0 none = Ordering.gt
item_cmp none (some item1) = Ordering.lt
item_cmp (some item0) (some item1) = item_cmp_keys item0.item item1.item
