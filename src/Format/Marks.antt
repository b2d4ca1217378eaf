-- ===== src/Format/Marks.antt =====
-- What an iteration of src/apps/format/kvs_format.c over the slabs makes of their entries: the
-- description that the iterations are proved to follow.

use bagdb_spdk.Base.{
  ℕ, zero, suc, ◌+◌, ◌%◌, ◌<◌, ◌≤◌, ◌≡◌, ◌≢◌, refl, ap, subst, ◌∙◌, List, [], ◌∷◌, arith, length,
  get_or, set, length-set, get_or-set_self, get_or-set_ne,
}
use bagdb_spdk.Spdk.{Reply}
use bagdb_spdk.Slab.{SlabLayout}
use bagdb_spdk.Format.State.{OpType, create, open_blob, resize, close}

abbrev pub no_slab : SlabLayout
no_slab = record { slab_size = 0; blob_id = 0; resv = 0 }

-- What the operation makes of the entry of slab `j`, when its reply brings `value`.
abbrev pub mark : OpType → List ℕ → ℕ → ℕ → ℕ → SlabLayout → SlabLayout
mark create sizes per j value slab = record slab {
  slab_size = get_or sizes (j % per) 0;
  blob_id = value;
}
mark open_blob sizes per j value slab = record slab { resv = value }
mark resize sizes per j value slab = slab
mark close sizes per j value slab = slab

-- The entries after a reply to the operation on slab `j`; only two operations touch them.
abbrev pub mark_at : OpType → List ℕ → ℕ → ℕ → ℕ → List SlabLayout → List SlabLayout
mark_at create sizes per j value slabs =
    set slabs j (mark create sizes per j value (get_or slabs j no_slab))
mark_at open_blob sizes per j value slabs =
    set slabs j (mark open_blob sizes per j value (get_or slabs j no_slab))
mark_at resize sizes per j value slabs = slabs
mark_at close sizes per j value slabs = slabs

-- The entries from slab `j` on, marked with the replies one by one.
abbrev pub mark_from : OpType → List ℕ → ℕ → ℕ → List Reply → List SlabLayout → List SlabLayout
mark_from op sizes per j [] slabs = slabs
mark_from op sizes per j (r ∷ rs) slabs =
    mark_from op sizes per (suc j) rs (mark_at op sizes per j r.value slabs)

module _ (sizes : List ℕ) (per j value : ℕ) (slabs : List SlabLayout) where
  pub length-mark_at : (op : OpType) → length (mark_at op sizes per j value slabs) ≡ length slabs
  length-mark_at create = length-set slabs j _
  length-mark_at open_blob = length-set slabs j _
  length-mark_at resize = refl
  length-mark_at close = refl

  pub mark_at_ne :
      (op : OpType) (k : ℕ)
      → j ≢ k
      → get_or (mark_at op sizes per j value slabs) k no_slab ≡ get_or slabs k no_slab
  mark_at_ne create k ne = get_or-set_ne slabs j k _ no_slab ne
  mark_at_ne open_blob k ne = get_or-set_ne slabs j k _ no_slab ne
  mark_at_ne resize k ne = refl
  mark_at_ne close k ne = refl

  mark_at_self :
      (op : OpType)
      → j < length slabs
      → get_or (mark_at op sizes per j value slabs) j no_slab
        ≡ mark op sizes per j value (get_or slabs j no_slab)
  mark_at_self create h = get_or-set_self slabs j _ no_slab h
  mark_at_self open_blob h = get_or-set_self slabs j _ no_slab h
  mark_at_self resize h = refl
  mark_at_self close h = refl

module _ (op : OpType) (sizes : List ℕ) (per : ℕ) where
  pub length-mark_from :
      (j : ℕ) (rs : List Reply) (slabs : List SlabLayout)
      → length (mark_from op sizes per j rs slabs) ≡ length slabs
  length-mark_from j [] slabs = refl
  length-mark_from j (r ∷ rs) slabs =
      length-mark_from (suc j) rs _ ∙ length-mark_at sizes per j r.value slabs op

  mark_from_before :
      (j k : ℕ) (rs : List Reply) (slabs : List SlabLayout)
      → k < j
      → get_or (mark_from op sizes per j rs slabs) k no_slab ≡ get_or slabs k no_slab
  mark_from_before j k [] slabs h = refl
  mark_from_before j k (r ∷ rs) slabs h =
      mark_from_before (suc j) k rs _ (omega arith)
      ∙ mark_at_ne sizes per j r.value slabs op k (omega arith)

  -- Each entry is marked with its own reply.
  pub mark_from_at :
      (d : Reply) (j k : ℕ) (rs : List Reply) (slabs : List SlabLayout)
      → k < length rs
      → j + length rs ≤ length slabs
      → get_or (mark_from op sizes per j rs slabs) (j + k) no_slab
        ≡ mark op sizes per (j + k) (get_or rs k d).value (get_or slabs (j + k) no_slab)
  mark_from_at d j k [] slabs h room = absurd (omega arith)
  mark_from_at d j zero (r ∷ rs) slabs h room = rw (let e : j + 0 ≡ j = omega arith in e) (
      mark_from_before (suc j) j rs _ (omega arith)
      ∙ mark_at_self sizes per j r.value slabs op (omega arith))
  mark_from_at d j (suc k) (r ∷ rs) slabs h room =
      rw (let e : j + suc k ≡ suc j + k = omega arith in e) (
        mark_from_at d (suc j) k rs _ (omega arith)
          (rw (length-mark_at sizes per j r.value slabs op) (omega arith))
        ∙ ap (mark op sizes per (suc j + k) (get_or rs k d).value)
            (mark_at_ne sizes per j r.value slabs op (suc j + k) (omega arith)))

  pub mark_from_entry :
      (d : Reply) (k : ℕ) (rs : List Reply) (slabs : List SlabLayout)
      → k < length rs
      → length rs ≤ length slabs
      → get_or (mark_from op sizes per 0 rs slabs) k no_slab
        ≡ mark op sizes per k (get_or rs k d).value (get_or slabs k no_slab)
  mark_from_entry d k rs slabs h room =
      let e : 0 + k ≡ k = omega arith in
      subst
        (λ n.
          get_or (mark_from op sizes per 0 rs slabs) n no_slab
          ≡ mark op sizes per n (get_or rs k d).value (get_or slabs n no_slab))
        e (mark_from_at d 0 k rs slabs h (omega arith))
