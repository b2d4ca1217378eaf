-- ===== src/Item/Tests.antt =====
-- Sizes and comparisons of concrete items.
use Prim.Native.Nat.{Ordering}
use bagdb_spdk.Base.{ℕ, ◌≡◌, refl, ◌⊎◌, List, [], ◌∷◌, none, some}
use bagdb_spdk.Item.{
  KvItem, SortedItem, item_get_size, item_packed_size, memcmp, item_cmp, item_cmp_keys,
}
use bagdb_spdk.Item.Order.{Le, key_cmp, item_cmp-eq-key_cmp, item_cmp_preorder}

abbrev item_of : List ℕ → ℕ → KvItem
item_of bytes ksize = record { meta = record { rdt = 0; ksize = ksize; vsize = 1 }; bytes = bytes }

abbrev a : SortedItem
a = record { wid = 0; item = item_of (1 ∷ 2 ∷ 9 ∷ []) 2 }

abbrev b : SortedItem
b = record { wid = 1; item = item_of (1 ∷ 3 ∷ []) 1 }

abbrev c : SortedItem
c = record { wid = 2; item = item_of (2 ∷ []) 1 }

sizes_run : ◌≡◌ {A = ℕ × ℕ} (item_get_size a.item, item_packed_size a.item) (27, 43)
unfolding item_get_size item_packed_size
sizes_run = refl

longer_is_greater : item_cmp (some a) (some b) ≡ Ordering.gt
unfolding item_cmp item_cmp_keys memcmp
longer_is_greater = refl

null_is_less : item_cmp none (some b) ≡ Ordering.lt
unfolding item_cmp
null_is_less = refl

item_cmp-eq-key_cmp_example : item_cmp (some a) (some b) ≡ key_cmp (1 ∷ 2 ∷ []) (1 ∷ [])
item_cmp-eq-key_cmp_example = item_cmp-eq-key_cmp a b

item_cmp_preorder_example : Le a a × (Le a b ⊎ Le b a) × (Le a b → Le b c → Le a c)
item_cmp_preorder_example = item_cmp_preorder a b c
