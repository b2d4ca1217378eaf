-- ===== src/Startup/Asked.antt =====
-- What src/kvs_startup.c asks of the blobstore in a run: the calls that the replies answer, in their order.
use bagdb_spdk.Base.{
  ℕ, suc, ◌<◌, ◌≡◌, refl, sym, ap, ◌∙◌, List, [], ◌∷◌, ◌++◌, arith, get_or, set, get_or-set_ne,
}
use mathlib.Core.List.{append_assoc}
use bagdb_spdk.Spdk.{Spdk, Reply}
use bagdb_spdk.Slab.{SlabLayout}
use bagdb_spdk.Format.Marks.{no_slab}
use bagdb_spdk.Startup.State.{
  StartCtx, Call, open_slab, State, loading, waiting, unload_bs, stopped, running, failed,
}
use bagdb_spdk.Startup.Step.{Memory, step, run}

abbrev pub asked_in : State → List Call
asked_in (loading opts) = []
asked_in (waiting call ctx) = call ∷ []
asked_in (unload_bs ctx rc) = []
asked_in (stopped rc) = []
asked_in (running kvs) = []
asked_in failed = []

abbrev pub asked : Spdk → Memory → State → List Reply → List Call
asked spdk memory s [] = []
asked spdk memory s (r ∷ rs) = asked_in s ++ asked spdk memory (step spdk memory s r) rs

pub run-append :
    (spdk : Spdk) (memory : Memory) (s : State) (rs qs : List Reply)
    → run spdk memory s (rs ++ qs) ≡ run spdk memory (run spdk memory s rs) qs
unfolding run
run-append spdk memory s [] qs = refl
run-append spdk memory s (r ∷ rs) qs = run-append spdk memory (step spdk memory s r) rs qs

pub asked-append :
    (spdk : Spdk) (memory : Memory) (s : State) (rs qs : List Reply)
    → asked spdk memory s (rs ++ qs)
      ≡ asked spdk memory s rs ++ asked spdk memory (run spdk memory s rs) qs
unfolding run
asked-append spdk memory s [] qs = refl
asked-append spdk memory s (r ∷ rs) qs =
    ap (λ l. asked_in s ++ l) (asked-append spdk memory (step spdk memory s r) rs qs)
    ∙ sym (append_assoc (asked_in s) _ _)

pub asked-step :
    (spdk : Spdk) (memory : Memory) (s' : State) (call : Call) (ctx : StartCtx) (r : Reply)
    (rs : List Reply)
    → step spdk memory (waiting call ctx) r ≡ s'
    → asked spdk memory (waiting call ctx) (r ∷ rs) ≡ call ∷ asked spdk memory s' rs
asked-step spdk memory s' call ctx r rs there = ap (λ t. call ∷ asked spdk memory t rs) there

-- For as many slabs as there are replies, from slab `j` on, the blob of the id in the slab's entry.
abbrev pub opens_from : ℕ → ℕ → List Reply → List SlabLayout → List Call
opens_from total j [] slabs = []
opens_from total j (r ∷ rs) slabs =
    open_slab j total (get_or slabs j no_slab).blob_id ∷ opens_from total (suc j) rs slabs

pub opens_from-set :
    (total i j : ℕ) (slab : SlabLayout) (rs : List Reply) (slabs : List SlabLayout)
    → i < j
    → opens_from total j rs (set slabs i slab) ≡ opens_from total j rs slabs
opens_from-set total i j slab [] slabs lt = refl
opens_from-set total i j slab (r ∷ rs) slabs lt =
    ap
      (λ (s : SlabLayout).
        open_slab j total s.blob_id ∷ opens_from total (suc j) rs (set slabs i slab))
      (get_or-set_ne slabs i j slab no_slab (omega arith))
    ∙ ap (λ l. open_slab j total (get_or slabs j no_slab).blob_id ∷ l)
        (opens_from-set total i (suc j) slab rs slabs (omega arith))
