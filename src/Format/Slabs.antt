-- ===== src/Format/Slabs.antt =====
-- The iterations over the slabs in src/apps/format/kvs_format.c, when no reply brings an error.
use native.Mathlib.Nat.{mod-lt}
use bagdb_spdk.Base.{
  ℕ, zero, suc, ◌+◌, ◌-◌, ◌*◌, ◌%◌, ◌^◌, ◌<◌, ◌≤◌, ◌≡◌, ◌∙◌, refl, ap, some, List, [], ◌∷◌, arith,
  length, get_or, get_elem?-eq-get_or, u32,
}
use bagdb_spdk.Base.Int.{pos}
use bagdb_spdk.Spdk.{Spdk, Reply}
use bagdb_spdk.Slab.{SlabLayout, SuperLayout}
use bagdb_spdk.Format.State.{
  FormatCtx, OpType, create, open_blob, resize, close, Finished, BlobIter, unless_error,
}
use bagdb_spdk.Format.Iter.{
  request, slab_iter_do_op, slab_iter_foreach, finish, slab_iter_foreach_next, update_slab,
  slab_iter_foreach_create_cb, slab_iter_foreach_open_cb, slab_iter_foreach_resize_cb,
  slab_iter_foreach_close_cb,
}
use bagdb_spdk.Format.Step.{callback, step, run}
use bagdb_spdk.Format.Asked.{of_slab, asked_in, asked, wanted, wanted_from, wanted_from-mark_at}
use bagdb_spdk.Format.Marks.{no_slab, mark_at, mark_from, length-mark_at}

abbrev pub NoError : List Reply → Type 0
NoError [] = Unit
NoError (r ∷ rs) = (r.bserrno ≡ pos 0) × NoError rs

abbrev pub with_slabs : FormatCtx → SuperLayout → List SlabLayout → FormatCtx
with_slabs ctx sl slabs = record ctx { sl = some (record sl { slab = slabs }) }

-- Every slab of a shard has a size.
abbrev pub HasSizes : FormatCtx → SuperLayout → Type 0
HasSizes ctx sl = (0 < sl.nb_slabs_per_shard) × (sl.nb_slabs_per_shard ≤ length ctx.slab_size_array)

module _ (spdk : Spdk) (junk : FormatCtx) (ctx : FormatCtx) (sl : SuperLayout)
    (sizes : HasSizes ctx sl) where
  abbrev marked : OpType → ℕ → ℕ → List SlabLayout → List SlabLayout
  marked op j value slabs = mark_at op ctx.slab_size_array sl.nb_slabs_per_shard j value slabs

  in_sizes : (j : ℕ) → j % sl.nb_slabs_per_shard < length ctx.slab_size_array
  in_sizes j =
      let low : j % sl.nb_slabs_per_shard < sl.nb_slabs_per_shard = mod-lt j sizes.0 in
      omega (arith, low, sizes.1)

  abbrev iter_at : OpType → Finished → ℕ → ℕ → BlobIter
  iter_at op fin total j = record {
    op_type = op;
    slab_idx = j;
    total_slabs = total;
    finished_cb = fin;
  }

  -- A reply to the operation on slab `j`.
  step_do_op :
      (op : OpType) (fin : Finished) (total j : ℕ) (slabs : List SlabLayout) (r : Reply)
      → j < length slabs
      → r.bserrno ≡ pos 0
      → step spdk junk (slab_iter_do_op (iter_at op fin total j) (with_slabs ctx sl slabs)) r
        ≡ slab_iter_foreach_next
            (iter_at op fin total j)
            (with_slabs ctx sl (marked op j r.value slabs))
  unfolding request slab_iter_do_op step callback update_slab unless_error
      slab_iter_foreach_create_cb slab_iter_foreach_open_cb slab_iter_foreach_resize_cb
      slab_iter_foreach_close_cb
  step_do_op create fin total j slabs r h e = ground (
    arith,
    get_elem?-eq-get_or slabs j no_slab h,
    e,
    get_elem?-eq-get_or ctx.slab_size_array (j % sl.nb_slabs_per_shard) 0 (in_sizes j),
  )
  step_do_op open_blob fin total j slabs r h e =
      ground (arith, get_elem?-eq-get_or slabs j no_slab h, e)
  step_do_op resize fin total j slabs r h e =
      ground (arith, get_elem?-eq-get_or slabs j no_slab h, e)
  step_do_op close fin total j slabs r h e =
      ground (arith, get_elem?-eq-get_or slabs j no_slab h, e)

  next_last :
      (op : OpType) (fin : Finished) (total j : ℕ) (c : FormatCtx)
      → total < 2 ^ 32
      → suc j ≡ total
      → slab_iter_foreach_next (iter_at op fin total j) c ≡ finish fin c
  unfolding slab_iter_foreach_next
  next_last op fin total j c small e = ground arith

  next_more :
      (op : OpType) (fin : Finished) (total j : ℕ) (c : FormatCtx)
      → total < 2 ^ 32
      → suc j < total
      → slab_iter_foreach_next (iter_at op fin total j) c
        ≡ slab_iter_do_op (iter_at op fin total (suc j)) c
  unfolding slab_iter_foreach_next
  next_more op fin total j c small e =
      let word : u32 (j + 1) ≡ suc j = omega arith in ground (arith, word)

  run_from :
      (op : OpType) (fin : Finished) (total n j : ℕ) (slabs : List SlabLayout) (rs : List Reply)
      → total < 2 ^ 32
      → j + suc n ≡ total
      → total ≤ length slabs
      → length rs ≡ suc n
      → NoError rs
      → run spdk junk (slab_iter_do_op (iter_at op fin total j) (with_slabs ctx sl slabs)) rs
        ≡ finish fin
            (with_slabs ctx sl (mark_from op ctx.slab_size_array sl.nb_slabs_per_shard j rs slabs))
  unfolding run
  run_from op fin total n j slabs [] small e room len ok = absurd (omega arith)
  run_from op fin total zero j slabs (r ∷ []) small e room len ok =
      step_do_op op fin total j slabs r (omega arith) ok.0
      ∙ next_last op fin total j _ small (omega arith)
  run_from op fin total zero j slabs (r ∷ q ∷ rs) small e room len ok = absurd (omega arith)
  run_from op fin total (suc n) j slabs (r ∷ rs) small e room len ok =
      rw
        (
          step_do_op op fin total j slabs r (omega arith) ok.0,
          next_more op fin total j (with_slabs ctx sl (marked op j r.value slabs)) small
              (omega arith),
        )
        (run_from op fin total n (suc j) (marked op j r.value slabs) rs small (omega arith)
          (rw (length-mark_at ctx.slab_size_array sl.nb_slabs_per_shard j r.value slabs op) room)
          (omega arith) ok.1)

  -- The clusters of a slab's blob.
  abbrev clusters : ℕ
  clusters = u32 (ctx.nb_init_nodes_per_slab * sl.nb_chunks_per_reclaim_node)

  do_op-asks :
      (op : OpType) (fin : Finished) (total j : ℕ) (slabs : List SlabLayout)
      → j < length slabs
      → asked_in (slab_iter_do_op (iter_at op fin total j) (with_slabs ctx sl slabs))
        ≡ of_slab (wanted clusters op (get_or slabs j no_slab)) ∷ []
  unfolding request slab_iter_do_op
  do_op-asks create fin total j slabs h = rw (get_elem?-eq-get_or slabs j no_slab h, asked_in) refl
  do_op-asks open_blob fin total j slabs h =
      rw (get_elem?-eq-get_or slabs j no_slab h, asked_in) refl
  do_op-asks resize fin total j slabs h = rw (get_elem?-eq-get_or slabs j no_slab h, asked_in) refl
  do_op-asks close fin total j slabs h = rw (get_elem?-eq-get_or slabs j no_slab h, asked_in) refl

  asked_from :
      (op : OpType) (fin : Finished) (total n j : ℕ) (slabs : List SlabLayout) (rs : List Reply)
      → total < 2 ^ 32
      → j + suc n ≡ total
      → total ≤ length slabs
      → length rs ≡ suc n
      → NoError rs
      → asked spdk junk (slab_iter_do_op (iter_at op fin total j) (with_slabs ctx sl slabs)) rs
        ≡ wanted_from clusters op j rs slabs
  asked_from op fin total n j slabs [] small e room len ok = absurd (omega arith)
  asked_from op fin total zero j slabs (r ∷ []) small e room len ok =
      rw (do_op-asks op fin total j slabs (omega arith)) refl
  asked_from op fin total zero j slabs (r ∷ q ∷ rs) small e room len ok = absurd (omega arith)
  asked_from op fin total (suc n) j slabs (r ∷ rs) small e room len ok =
      let asks = do_op-asks op fin total j slabs (omega arith) in
      let next =
        step_do_op op fin total j slabs r (omega arith) ok.0
        ∙ next_more op fin total j (with_slabs ctx sl (marked op j r.value slabs)) small
            (omega arith) in
      let rest =
        asked_from op fin total n (suc j) (marked op j r.value slabs) rs small (omega arith)
          (rw (length-mark_at ctx.slab_size_array sl.nb_slabs_per_shard j r.value slabs op) room)
          (omega arith) ok.1 in
      rw (asks, next)
        (ap (λ l. of_slab (wanted clusters op (get_or slabs j no_slab)) ∷ l)
          (rest
            ∙ wanted_from-mark_at clusters op ctx.slab_size_array sl.nb_slabs_per_shard j (suc j)
                r.value rs slabs (omega arith)))

  -- `_slab_iter_foreach` on a context with a super block: if none of as many replies as there are
  -- slabs brings an error, the iteration asks for one thing of each slab, in their order: that a blob is
  -- created, that the blob with the id of the slab's entry is opened, or that the blob with the
  -- handle of the entry gets its clusters or is closed. It calls `finished_cb` once the replies are all
  -- there, with each recorded in the entry of its slab.
  pub run-slab_iter_foreach :
      (op : OpType) (fin : Finished) (slabs : List SlabLayout) (rs : List Reply)
      → 0 < length rs
      → length rs < 2 ^ 32
      → length rs ≡ sl.nb_shards * sl.nb_slabs_per_shard
      → length rs ≤ length slabs
      → NoError rs
      → (run spdk junk (slab_iter_foreach (with_slabs ctx sl slabs) op fin) rs
          ≡ finish fin (
              with_slabs ctx sl
                (mark_from op ctx.slab_size_array sl.nb_slabs_per_shard 0 rs slabs)))
        × (asked spdk junk (slab_iter_foreach (with_slabs ctx sl slabs) op fin) rs
            ≡ wanted_from
                (u32 (ctx.nb_init_nodes_per_slab * sl.nb_chunks_per_reclaim_node))
                op
                0
                rs
                slabs)
  unfolding slab_iter_foreach
  run-slab_iter_foreach op fin slabs rs some_left small total room ok =
      let word : u32 (sl.nb_shards * sl.nb_slabs_per_shard) ≡ length rs = omega arith in
      (
        rw word (
            run_from op fin (length rs) (length rs - 1) 0 slabs rs small (omega arith) room
              (omega arith) ok),
        rw word (
            asked_from op fin (length rs) (length rs - 1) 0 slabs rs small (omega arith) room
              (omega arith) ok),
      )
