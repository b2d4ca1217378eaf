-- ===== src/Slab/Align.antt =====
-- KV_ALIGN rounds up to the next multiple of the page size.
use Prim.Native.Nat.{bit_and}
use bagdb_spdk.Base.{ℕ, ◌+◌, ◌-◌, ◌*◌, ◌/◌, ◌%◌, ◌^◌, ◌<◌, ◌≤◌, ◌≡◌, ap, arith, u32}
use bagdb_spdk.Base.Bits.{bit_and-mask}
use bagdb_spdk.Slab.{kv_align}

mask_pages : (x : ℕ) → x < 2 ^ 32 → bit_and x (2 ^ 32 - 4096) ≡ x / 4096 * 4096
mask_pages x h = bit_and-mask 12 20 x (omega arith)

-- A size whose pages fit 32 bits is aligned to the least multiple of the page size 0x1000 that is not
-- below it.
pub kv_align_page :
    (size : ℕ)
    → size + 0xfff < 2 ^ 32
    → (kv_align size 0x1000 % 0x1000 ≡ 0)
      × (size ≤ kv_align size 0x1000)
      × (kv_align size 0x1000 < size + 0x1000)
unfolding kv_align
kv_align_page size h =
    let word : u32 (u32 (size + 0x1000) + 2 ^ 32 - 1) ≡ size + 0xfff = omega arith in
    omega (arith, ap (λ x. bit_and x (2 ^ 32 - 4096)) word, mask_pages (size + 0xfff) h)
