-- ===== src/Worker/Layout.antt =====
-- The block that `worker_alloc` of src/worker.c lays out: aligned, and its worker ready for requests.
use native.Mathlib.Nat.{mul_assoc, mul_comm}
use bagdb_spdk.Base.{
  ℕ, ◌+◌, ◌*◌, ◌/◌, ◌%◌, ◌^◌, ◌<◌, ◌≡◌, refl, ap, sym, subst, ◌∙◌, some, List, [], ◌∷◌, arith, u64,
}
use bagdb_spdk.Pool.{pool_header_size}
use bagdb_spdk.Pool.Init.{pool_header_size-eq}
use bagdb_spdk.Worker.Alloc.{Sizes, BlockLayout, add_sizes, block_layout}

abbrev pub Aligned : ℕ → Type 0
Aligned n = n % 8 ≡ 0

abbrev AllAligned : List ℕ → Type 0
AllAligned [] = Unit
AllAligned (s ∷ ss) = Aligned s × AllAligned ss

-- Sums of multiples of 8 stay multiples of 8, wrapped around or not.
add_sizes-Aligned :
    (size : ℕ) (ss : List ℕ) → Aligned size → AllAligned ss → Aligned (add_sizes size ss)
unfolding add_sizes
add_sizes-Aligned size [] h hs = h
add_sizes-Aligned size (s ∷ ss) h hs =
    add_sizes-Aligned (u64 (size + s)) ss (omega (arith, h, hs.0)) hs.1

pub product-Aligned : (n s : ℕ) → Aligned s → Aligned (u64 (n * s))
product-Aligned n s h =
    let eighths : s ≡ s / 8 * 8 = omega arith in
    let whole : n * s ≡ n * (s / 8) * 8 = ap (λ t. n * t) eighths ∙ sym (mul_assoc n (s / 8) 8) in
    omega (arith, whole)

product-Aligned_left : (s n : ℕ) → Aligned s → Aligned (u64 (s * n))
product-Aligned_left s n h = subst (λ p. Aligned (u64 p)) (mul_comm n s) (product-Aligned n s h)

-- The sizes of structures with 64-bit fields.
pub record AreAligned (s : Sizes) : Type 0 where
  pub worker_context : Aligned s.worker_context
  pub kv_request : Aligned s.kv_request
  pub kv_request_internal : Aligned s.kv_request_internal
  pub pagechunk_mgr : Aligned s.pagechunk_mgr
  pub chunk_miss_callback : Aligned s.chunk_miss_callback
  pub chunk_load_store_ctx : Aligned s.chunk_load_store_ctx
  pub reclaim_mgr : Aligned s.reclaim_mgr
  pub pending_item_delete : Aligned s.pending_item_delete
  pub pending_item_migrate : Aligned s.pending_item_migrate
  pub slab_migrate_request : Aligned s.slab_migrate_request

abbrev pub header : ℕ → ℕ
header n = 32 + (n + 1) * 16

header-Aligned : (n : ℕ) → Aligned (header n)
header-Aligned n = omega arith

pub header_size-eq : (n : ℕ) → n < 2 ^ 40 → pool_header_size n ≡ some (header n)
header_size-eq n h = pool_header_size-eq n (omega arith)

module _ (sizes : Sizes) (aligned : AreAligned sizes) (n m : ℕ) (small : n < 2 ^ 32)
    (few : m < 2 ^ 32) where
  abbrev pmgr : ℕ
  pmgr = add_sizes 0 (
      sizes.worker_context
      ∷ u64 (sizes.kv_request * n)
      ∷ header n
      ∷ u64 (n * sizes.kv_request_internal)
      ∷ [])

  abbrev rmgr : ℕ
  rmgr = add_sizes pmgr (
      sizes.pagechunk_mgr
      ∷ header (u64 (n * 5))
      ∷ header (u64 (n * 5))
      ∷ u64 (n * 5 * sizes.chunk_miss_callback)
      ∷ u64 (n * 5 * sizes.chunk_load_store_ctx)
      ∷ [])

  abbrev imgr : ℕ
  imgr = add_sizes rmgr (
      sizes.reclaim_mgr
      ∷ header (u64 (n * 3))
      ∷ header n
      ∷ header m
      ∷ u64 (n * 3 * sizes.pending_item_delete)
      ∷ u64 (n * sizes.pending_item_migrate)
      ∷ u64 (m * sizes.slab_migrate_request)
      ∷ [])

  abbrev total : ℕ
  total = add_sizes imgr (
      sizes.iomgr
      ∷ header (u64 (n * 10))
      ∷ header (u64 (n * 20))
      ∷ u64 (n * 10 * sizes.cache_io)
      ∷ u64 (n * 20 * sizes.page_io)
      ∷ [])

  pmgr-Aligned : Aligned pmgr
  pmgr-Aligned = add_sizes-Aligned 0 _ refl (
    aligned.worker_context,
    (
      product-Aligned_left sizes.kv_request n aligned.kv_request,
      (
        header-Aligned n,
        (product-Aligned n sizes.kv_request_internal aligned.kv_request_internal, tt),
      ),
    ),
  )

  rmgr-Aligned : Aligned rmgr
  rmgr-Aligned = add_sizes-Aligned pmgr _ pmgr-Aligned (
    aligned.pagechunk_mgr,
    (
      header-Aligned _,
      (
        header-Aligned _,
        (
          product-Aligned (n * 5) sizes.chunk_miss_callback aligned.chunk_miss_callback,
          (product-Aligned (n * 5) sizes.chunk_load_store_ctx aligned.chunk_load_store_ctx, tt),
        ),
      ),
    ),
  )

  imgr-Aligned : Aligned imgr
  imgr-Aligned = add_sizes-Aligned rmgr _ rmgr-Aligned (
    aligned.reclaim_mgr,
    (
      header-Aligned _,
      (
        header-Aligned n,
        (
          header-Aligned m,
          (
            product-Aligned (n * 3) sizes.pending_item_delete aligned.pending_item_delete,
            (
              product-Aligned n sizes.pending_item_migrate aligned.pending_item_migrate,
              (product-Aligned m sizes.slab_migrate_request aligned.slab_migrate_request, tt),
            ),
          ),
        ),
      ),
    ),
  )

  pub block_layout-Aligned :
      (layout : BlockLayout) × (block_layout sizes n m ≡ some layout)
      × Aligned layout.pmgr_base_off
      × Aligned layout.rmgr_base_off
      × Aligned layout.imgr_base_off
  unfolding block_layout
  block_layout-Aligned = (
    record { pmgr_base_off = pmgr; rmgr_base_off = rmgr; imgr_base_off = imgr; size = total },
    rw
        (
          header_size-eq n (omega arith),
          header_size-eq m (omega arith),
          header_size-eq (u64 (n * 3)) (omega arith),
          header_size-eq (u64 (n * 5)) (omega arith),
          header_size-eq (u64 (n * 10)) (omega arith),
          header_size-eq (u64 (n * 20)) (omega arith),
        )
        refl,
    pmgr-Aligned,
    rmgr-Aligned,
    imgr-Aligned,
  )
