-- ===== src/Format/Asked.antt =====
-- What src/apps/format/kvs_format.c asks of the blobstore in a run: the calls that the replies answer, in
-- their order.
use bagdb_spdk.Base.{
  ℕ, suc, ◌+◌, ◌<◌, ◌≡◌, refl, sym, ap, ◌∙◌, List, [], ◌∷◌, ◌++◌, map, arith, length, get_or,
}
use mathlib.Core.List.{append_assoc}
use bagdb_spdk.Spdk.{Spdk, Reply}
use bagdb_spdk.Slab.{SlabLayout}
use bagdb_spdk.Format.State.{
  FormatCtx, OpType, create, open_blob, resize, close, SlabCall, create_blob, bs_open_blob,
  blob_resize, blob_close, Call, bs_init, create_super_blob, set_super, open_super, resize_super,
  slab_call, write_super, sync_super, close_super, get_super, dump_open_super, dump_read_page,
  dump_read_super, dump_close_super, State, waiting, loading, unloading, stopped, idle, failed,
}
use bagdb_spdk.Format.Step.{step, run}
use bagdb_spdk.Format.Marks.{no_slab, mark_at, mark_at_ne}

-- A call without the iteration that it belongs to.
pub data Asked : Type 0 where
  of_slab : SlabCall → Asked
  of_super : Call → Asked

abbrev pub asked_by : Call → Asked
asked_by (bs_init n) = of_super (bs_init n)
asked_by create_super_blob = of_super create_super_blob
asked_by (set_super id) = of_super (set_super id)
asked_by (open_super id) = of_super (open_super id)
asked_by (resize_super n) = of_super (resize_super n)
asked_by (slab_call call iter) = of_slab call
asked_by (write_super n sl) = of_super (write_super n sl)
asked_by sync_super = of_super sync_super
asked_by close_super = of_super close_super
asked_by get_super = of_super get_super
asked_by (dump_open_super id) = of_super (dump_open_super id)
asked_by dump_read_page = of_super dump_read_page
asked_by (dump_read_super n) = of_super (dump_read_super n)
asked_by dump_close_super = of_super dump_close_super

abbrev pub asked_in : State → List Asked
asked_in (waiting call ctx) = asked_by call ∷ []
asked_in (loading devname) = []
asked_in unloading = []
asked_in (stopped rc) = []
asked_in idle = []
asked_in failed = []

abbrev pub asked : Spdk → FormatCtx → State → List Reply → List Asked
asked spdk junk s [] = []
asked spdk junk s (r ∷ rs) = asked_in s ++ asked spdk junk (step spdk junk s r) rs

pub asked-append :
    (spdk : Spdk) (junk : FormatCtx) (s : State) (rs qs : List Reply)
    → asked spdk junk s (rs ++ qs) ≡ asked spdk junk s rs ++ asked spdk junk (run spdk junk s rs) qs
unfolding run
asked-append spdk junk s [] qs = refl
asked-append spdk junk s (r ∷ rs) qs =
    ap (λ l. asked_in s ++ l) (asked-append spdk junk (step spdk junk s r) rs qs)
    ∙ sym (append_assoc (asked_in s) _ _)

-- A call that is waited for is asked, and its reply leads on.
pub asked-step :
    (spdk : Spdk) (junk : FormatCtx) (s s' : State) (call : Call) (ctx : FormatCtx) (r : Reply)
    (rs : List Reply)
    → s ≡ waiting call ctx
    → step spdk junk (waiting call ctx) r ≡ s'
    → asked spdk junk s (r ∷ rs) ≡ asked_by call ∷ asked spdk junk s' rs
asked-step spdk junk s s' call ctx r rs here there =
    ap (λ t. asked spdk junk t (r ∷ rs)) here ∙ ap (λ t. asked_by call ∷ asked spdk junk t rs) there

-- What an iteration is to ask for a slab with this entry: a new blob; that the blob of the entry's id is
-- opened; that the blob of the entry's handle gets `clusters` clusters; that it is closed.
abbrev pub wanted : ℕ → OpType → SlabLayout → SlabCall
wanted clusters create slab = create_blob
wanted clusters open_blob slab = bs_open_blob slab.blob_id
wanted clusters resize slab = blob_resize slab.resv clusters
wanted clusters close slab = blob_close slab.resv

-- The same for as many slabs as there are replies, from slab `j` on.
abbrev pub wanted_from : ℕ → OpType → ℕ → List Reply → List SlabLayout → List Asked
wanted_from clusters op j [] slabs = []
wanted_from clusters op j (r ∷ rs) slabs =
    of_slab (wanted clusters op (get_or slabs j no_slab)) ∷ wanted_from clusters op (suc j) rs slabs

-- An entry that is marked is not asked for again.
pub wanted_from-mark_at :
    (clusters : ℕ) (op : OpType) (sizes : List ℕ) (per i j value : ℕ) (rs : List Reply)
    (slabs : List SlabLayout)
    → i < j
    → wanted_from clusters op j rs (mark_at op sizes per i value slabs)
      ≡ wanted_from clusters op j rs slabs
wanted_from-mark_at clusters op sizes per i j value [] slabs lt = refl
wanted_from-mark_at clusters op sizes per i j value (r ∷ rs) slabs lt =
    ap
      (λ s.
        of_slab (wanted clusters op s)
        ∷ wanted_from clusters op (suc j) rs (mark_at op sizes per i value slabs))
      (mark_at_ne sizes per i value slabs op j (omega arith))
    ∙ ap (λ l. of_slab (wanted clusters op (get_or slabs j no_slab)) ∷ l)
        (wanted_from-mark_at clusters op sizes per i (suc j) value rs slabs (omega arith))

-- What is asked for depends on the replies `qs` only, when the entries do.
pub wanted_from-map :
    (clusters : ℕ) (op : OpType) (f : Reply → SlabCall) (d : Reply) (j : ℕ) (rs qs : List Reply)
    (slabs : List SlabLayout)
    → length rs ≡ length qs
    → ((k : ℕ)
        → k < length qs
        → wanted clusters op (get_or slabs (j + k) no_slab) ≡ f (get_or qs k d))
    → wanted_from clusters op j rs slabs ≡ map (λ q. of_slab (f q)) qs
wanted_from-map clusters op f d j [] [] slabs e same = refl
wanted_from-map clusters op f d j [] (q ∷ qs) slabs e same = absurd (omega arith)
wanted_from-map clusters op f d j (r ∷ rs) [] slabs e same = absurd (omega arith)
wanted_from-map clusters op f d j (r ∷ rs) (q ∷ qs) slabs e same =
    let here : wanted clusters op (get_or slabs j no_slab) ≡ f q =
      rw (let z : j + 0 ≡ j = omega arith in z) at (same 0 (omega arith)) in
    let rest : (k : ℕ)
        → k < length qs
        → wanted clusters op (get_or slabs (suc j + k) no_slab) ≡ f (get_or qs k d) =
      λ k lt.
        rw (let z : j + suc k ≡ suc j + k = omega arith in z) at (same (suc k) (omega arith)) in
    ap (λ c. of_slab c ∷ wanted_from clusters op (suc j) rs slabs) here
    ∙ ap (λ l. of_slab (f q) ∷ l)
        (wanted_from-map clusters op f d (suc j) rs qs slabs (omega arith) rest)
