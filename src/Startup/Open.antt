-- ===== src/Startup/Open.antt =====
-- The iteration of src/kvs_startup.c that opens the slabs' blobs one after the other.
use bagdb_spdk.Base.{
  ℕ, zero, suc, ◌+◌, ◌-◌, ◌*◌, ◌^◌, ◌<◌, ◌≤◌, ◌≡◌, refl, ap, ◌∙◌, some, List, [], ◌∷◌, arith,
  length, get_or, set, get_elem?-eq-get_or, u32, length-set,
}
use bagdb_spdk.Base.Int.{pos}
use bagdb_spdk.Spdk.{Spdk, Reply}
use bagdb_spdk.Slab.{SlabLayout, SuperLayout}
use bagdb_spdk.Format.State as F
use bagdb_spdk.Format.Marks.{no_slab, mark_from}
use bagdb_spdk.Format.Slabs.{NoError}
use bagdb_spdk.Startup.State.{StartCtx, State, open_slab}
use bagdb_spdk.Startup.Asked.{asked_in, asked, opens_from, opens_from-set}
use bagdb_spdk.Startup.Runtime.{create_kvs_runtime}
use bagdb_spdk.Startup.Create.{
  unless_error, open_blob, record_blob, kvs_start_open_blob_next, kvs_start_open_all_blobs,
}
use bagdb_spdk.Startup.Step.{Memory, callback, step, run}

module _ (spdk : Spdk) (memory : Memory) (ctx : StartCtx) (sl : SuperLayout) where
  abbrev pub with_slabs : List SlabLayout → SuperLayout
  with_slabs slabs = record sl { slab = slabs }

  abbrev opened_at : ℕ → ℕ → List SlabLayout → List SlabLayout
  opened_at j value slabs = set slabs j (record (get_or slabs j no_slab) { resv = value })

  -- The entries from slab `j` on, with the handles of the replies.
  abbrev pub opened_from : ℕ → List Reply → List SlabLayout → List SlabLayout
  opened_from j rs slabs = mark_from F.OpType.open_blob [] 1 j rs slabs

  abbrev built : List SlabLayout → State
  built slabs =
      create_kvs_runtime spdk memory.nb_chunks_per_node
        (record ctx { sl = some (with_slabs slabs) }) (with_slabs slabs)

  step_more :
      (total j : ℕ) (slabs : List SlabLayout) (r : Reply)
      → total < 2 ^ 32
      → suc j < total
      → total ≤ length slabs
      → r.bserrno ≡ pos 0
      → step spdk memory (open_blob ctx (with_slabs slabs) j total) r
        ≡ open_blob ctx (with_slabs (opened_at j r.value slabs)) (suc j) total
  unfolding step callback kvs_start_open_blob_next unless_error open_blob record_blob
  step_more total j slabs r small lt room e =
      let word : u32 (j + 1) ≡ suc j = omega arith in
      ground (arith, get_elem?-eq-get_or slabs j no_slab (omega arith), e, word)

  step_last :
      (total j : ℕ) (slabs : List SlabLayout) (r : Reply)
      → total < 2 ^ 32
      → suc j ≡ total
      → total ≤ length slabs
      → r.bserrno ≡ pos 0
      → step spdk memory (open_blob ctx (with_slabs slabs) j total) r
        ≡ built (opened_at j r.value slabs)
  unfolding step callback kvs_start_open_blob_next unless_error open_blob record_blob
  step_last total j slabs r small lt room e =
      ground (arith, get_elem?-eq-get_or slabs j no_slab (omega arith), e)

  run_from :
      (total n j : ℕ) (slabs : List SlabLayout) (rs : List Reply)
      → total < 2 ^ 32
      → j + suc n ≡ total
      → total ≤ length slabs
      → length rs ≡ suc n
      → NoError rs
      → run spdk memory (open_blob ctx (with_slabs slabs) j total) rs
        ≡ built (opened_from j rs slabs)
  unfolding run
  run_from total n j slabs [] small e room len ok = absurd (omega arith)
  run_from total zero j slabs (r ∷ []) small e room len ok =
      step_last total j slabs r small (omega arith) room ok.0
  run_from total zero j slabs (r ∷ q ∷ rs) small e room len ok = absurd (omega arith)
  run_from total (suc n) j slabs (r ∷ rs) small e room len ok =
      rw (step_more total j slabs r small (omega arith) room ok.0) (
        run_from total n (suc j) (opened_at j r.value slabs) rs small (omega arith)
          (rw (length-set slabs j _) room) (omega arith) ok.1)

  open-asks :
      (total j : ℕ) (slabs : List SlabLayout)
      → j < length slabs
      → asked_in (open_blob ctx (with_slabs slabs) j total)
        ≡ open_slab j total (get_or slabs j no_slab).blob_id ∷ []
  unfolding open_blob
  open-asks total j slabs h = rw (get_elem?-eq-get_or slabs j no_slab h, asked_in) refl

  asked_from :
      (total n j : ℕ) (slabs : List SlabLayout) (rs : List Reply)
      → total < 2 ^ 32
      → j + suc n ≡ total
      → total ≤ length slabs
      → length rs ≡ suc n
      → NoError rs
      → asked spdk memory (open_blob ctx (with_slabs slabs) j total) rs
        ≡ opens_from total j rs slabs
  asked_from total n j slabs [] small e room len ok = absurd (omega arith)
  asked_from total zero j slabs (r ∷ []) small e room len ok =
      rw (open-asks total j slabs (omega arith)) refl
  asked_from total zero j slabs (r ∷ q ∷ rs) small e room len ok = absurd (omega arith)
  asked_from total (suc n) j slabs (r ∷ rs) small e room len ok =
      let rest =
        asked_from total n (suc j) (opened_at j r.value slabs) rs small (omega arith)
          (rw (length-set slabs j _) room) (omega arith) ok.1 in
      rw
        (
          open-asks total j slabs (omega arith),
          step_more total j slabs r small (omega arith) room ok.0,
        )
        (ap (λ l. open_slab j total (get_or slabs j no_slab).blob_id ∷ l)
          (rest ∙ opens_from-set total j (suc j) _ rs slabs (omega arith)))

  pub run-kvs_start_open_all_blobs :
      (rs : List Reply)
      → 0 < length rs
      → length rs < 2 ^ 32
      → length rs ≡ sl.nb_shards * sl.nb_slabs_per_shard
      → length rs ≤ length sl.slab
      → NoError rs
      → (run spdk memory (kvs_start_open_all_blobs ctx sl) rs ≡ built (opened_from 0 rs sl.slab))
        × (asked spdk memory (kvs_start_open_all_blobs ctx sl) rs
            ≡ opens_from (length rs) 0 rs sl.slab)
  unfolding kvs_start_open_all_blobs
  run-kvs_start_open_all_blobs rs some_left small total room ok =
      let word : u32 (sl.nb_shards * sl.nb_slabs_per_shard) ≡ length rs = omega arith in
      (
        rw word (
            run_from (length rs) (length rs - 1) 0 sl.slab rs small (omega arith) room (omega arith)
              ok),
        rw word (
            asked_from (length rs) (length rs - 1) 0 sl.slab rs small (omega arith) room
              (omega arith) ok),
      )
