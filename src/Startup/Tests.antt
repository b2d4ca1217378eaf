-- ===== src/Startup/Tests.antt =====
-- The start of the example, and an error in it.
use bagdb_spdk.Base.{ℕ, ◌<◌, ◌≡◌, refl, true, false, none, some, [], ◌∷◌, ◌++◌, arith, get_or}
use bagdb_spdk.Startup.State.{
  Kvs, get_super, open_super, read_super_page, read_all_super_pages, open_slab, running,
}
use bagdb_spdk.Startup.Create.{kvs_start}
use bagdb_spdk.Startup.Step.{run}
use bagdb_spdk.Startup.Errors.{after_error, start_unloads}
use bagdb_spdk.Slab.{kv_align, super_size_of}
use bagdb_spdk.Startup.Asked.{asked}
use bagdb_spdk.Startup.Loop.{
  Mask, AppOpts, get_cpu_mask, kvs_start_loop, HasCore, kvs_start_loop-HasCore,
}
use bagdb_spdk.Startup.Chain.{IsRuntime, start_runs}
use bagdb_spdk.Startup.Example.{
  started, no_worker, device, opts, layout, memory, fine, broken, handles, device-Accepts,
  handles-HasChunks,
}

start_runs_example :
    (kvs : Kvs) × (run device memory
        (kvs_start device opts)
        (fine 7 ∷ fine 5 ∷ fine 6 ∷ fine 0 ∷ fine 0 ∷ handles)
      ≡ running kvs)
    × IsRuntime opts layout handles kvs
    × (asked device memory
          (kvs_start device opts)
          (fine 7 ∷ fine 5 ∷ fine 6 ∷ fine 0 ∷ fine 0 ∷ handles)
        ≡ get_super
          ∷ open_super 5
          ∷ read_super_page
          ∷ read_all_super_pages 1
          ∷ open_slab 0 4 10
          ∷ open_slab 1 4 11
          ∷ open_slab 2 4 12
          ∷ open_slab 3 4 13
          ∷ [])
unfolding kv_align super_size_of
start_runs_example =
    start_runs device memory opts (fine 7) (fine 5) (fine 6) (fine 0) (fine 0) handles
      device-Accepts (refl, (refl, (refl, (refl, (refl, tt))))) (refl, (refl, (refl, (refl, tt))))
      (omega arith) (omega arith) refl (omega arith) handles-HasChunks

-- The second call's reply brings an error, and whatever comes then is not used.
start_unloads_example :
    (run device memory (kvs_start device opts) ((fine 7 ∷ []) ++ broken ∷ fine 0 ∷ [])
      ≡ after_error (run device memory (kvs_start device opts) (fine 7 ∷ [])) broken)
    × (asked device memory (kvs_start device opts) ((fine 7 ∷ []) ++ broken ∷ fine 0 ∷ [])
        ≡ asked device memory (kvs_start device opts) ((fine 7 ∷ []) ++ broken ∷ []))
start_unloads_example = start_unloads device memory opts (fine 7 ∷ []) (fine 0 ∷ []) broken refl

abbrev no_opts : AppOpts
no_opts = record { reactor_mask = none; shutdown_cb = none }

abbrev first_three : Mask
first_three = 7 ∷ []

loop_runs :
    kvs_start_loop 71 false opts (some 72) no_opts
    ≡ some (true, record { reactor_mask = some (7 ∷ []); shutdown_cb = some 71 })
unfolding kvs_start_loop get_cpu_mask
loop_runs = refl

-- Three workers are not among the cases, and a store that runs is not started again.
three_refused : kvs_start_loop 71 false (record opts { nb_works = 3 }) (some 72) no_opts ≡ none
unfolding kvs_start_loop get_cpu_mask
three_refused = refl

second_refused : kvs_start_loop 71 true opts (some 72) no_opts ≡ none
unfolding kvs_start_loop get_cpu_mask
second_refused = refl

kvs_start_loop-HasCore_example :
    (false ≡ false)
    × (true ≡ true)
    × ((mask : Mask) × (some first_three ≡ some mask)
        × HasCore mask started.0.chunkmgr_worker.core_id
        × ((w : ℕ) → w < 2 → HasCore mask (get_or started.0.workers w no_worker).core_id))
kvs_start_loop-HasCore_example =
    kvs_start_loop-HasCore 71 false true opts (some 72) no_opts
      (record { reactor_mask = some (7 ∷ []); shutdown_cb = some 71 }) layout handles started.0
      no_worker loop_runs started.2
