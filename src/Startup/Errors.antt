-- ===== src/Startup/Errors.antt =====
-- Errors in the chain of src/kvs_startup.c.
use bagdb_spdk.Base.{◌≡◌, ◌∙◌, ap, sym, refl, true, none, some, List, [], ◌∷◌, ◌++◌}
use bagdb_spdk.Base.Int.{is_set}
use bagdb_spdk.Startup.Asked.{asked_in, asked, run-append, asked-append}
use bagdb_spdk.Spdk.{Spdk, Reply}
use bagdb_spdk.Startup.State.{
  StartCtx, Call, get_super, open_super, read_super_page, read_all_super_pages, open_slab, State,
  loading, waiting, unload_bs, stopped, running, failed, StartOpts,
}
use bagdb_spdk.Startup.Create.{
  kvs_start, kvs_start_load_bs_complete, unless_error, kvs_start_get_super_complete,
  kvs_start_super_open_complete, blob_read_super_page_complete, blob_read_all_super_pages_complete,
  kvs_start_open_blob_next,
}
use bagdb_spdk.Startup.Step.{Memory, callback, step, run}

-- What an error makes of a state in which a start may be.
abbrev pub after_error : State → Reply → State
after_error (loading opts) r = unload_bs none r.bserrno
after_error (waiting call ctx) r = unload_bs (some ctx) r.bserrno
after_error (unload_bs ctx rc) r = unload_bs ctx rc
after_error (stopped rc) r = stopped rc
after_error (running kvs) r = running kvs
after_error failed r = failed

module _ (spdk : Spdk) (memory : Memory) where
  unless_error-error :
      (ctx : StartCtx) (r : Reply) (next : State)
      → is_set r.bserrno ≡ true
      → unless_error ctx r next ≡ unload_bs (some ctx) r.bserrno
  unfolding unless_error
  unless_error-error ctx r next e = rw e refl

  callback-error :
      (call : Call) (ctx : StartCtx) (r : Reply)
      → is_set r.bserrno ≡ true
      → callback spdk memory call ctx r ≡ unload_bs (some ctx) r.bserrno
  unfolding callback kvs_start_get_super_complete kvs_start_super_open_complete
      blob_read_super_page_complete blob_read_all_super_pages_complete kvs_start_open_blob_next
  callback-error get_super ctx r e = unless_error-error ctx r _ e
  callback-error (open_super id) ctx r e = unless_error-error ctx r _ e
  callback-error read_super_page ctx r e = unless_error-error ctx r _ e
  callback-error (read_all_super_pages n) ctx r e = unless_error-error ctx r _ e
  callback-error (open_slab idx total id) ctx r e = unless_error-error ctx r _ e

  after_error-step :
      (s : State) (r : Reply) → is_set r.bserrno ≡ true → step spdk memory s r ≡ after_error s r
  unfolding step kvs_start_load_bs_complete
  after_error-step (loading opts) r e = rw e refl
  after_error-step (waiting call ctx) r e = callback-error call ctx r e
  after_error-step (unload_bs ctx rc) r e = refl
  after_error-step (stopped rc) r e = refl
  after_error-step (running kvs) r e = refl
  after_error-step failed r e = refl

  -- Nothing more happens.
  after_error-stays :
      (s : State) (r : Reply) (rs : List Reply)
      → (run spdk memory (after_error s r) rs ≡ after_error s r)
        × (asked spdk memory (after_error s r) rs ≡ [])
  unfolding run step
  after_error-stays s r [] = (refl, refl)
  after_error-stays (loading opts) r (q ∷ rs) = after_error-stays (loading opts) r rs
  after_error-stays (waiting call ctx) r (q ∷ rs) = after_error-stays (waiting call ctx) r rs
  after_error-stays (unload_bs ctx rc) r (q ∷ rs) = after_error-stays (unload_bs ctx rc) r rs
  after_error-stays (stopped rc) r (q ∷ rs) = after_error-stays (stopped rc) r rs
  after_error-stays (running kvs) r (q ∷ rs) = after_error-stays (running kvs) r rs
  after_error-stays failed r (q ∷ rs) = after_error-stays failed r rs

  -- Whatever replies a start has had, a reply with an error ends it, that of the load included: if a call
  -- is waited for, `_unload_bs` is called with that error, with the context if there is one and with
  -- NULL if there is none, and else the start is over already. Whatever replies follow, nothing more is
  -- asked for, and no runtime is built.
  pub start_unloads :
      (opts : StartOpts) (before rest : List Reply) (r : Reply)
      → is_set r.bserrno ≡ true
      → (run spdk memory (kvs_start spdk opts) (before ++ r ∷ rest)
          ≡ after_error (run spdk memory (kvs_start spdk opts) before) r)
        × (asked spdk memory (kvs_start spdk opts) (before ++ r ∷ rest)
            ≡ asked spdk memory (kvs_start spdk opts) (before ++ r ∷ []))
  unfolding run
  start_unloads opts before rest r e =
      let first = kvs_start spdk opts in
      let s = run spdk memory first before in
      let next = after_error-step s r e in
      let (stays, quiet) = after_error-stays s r rest in
      (
        run-append spdk memory first before (r ∷ rest)
            ∙ ap (λ t. run spdk memory t rest) next
            ∙ stays,
        asked-append spdk memory first before (r ∷ rest)
            ∙ ap (λ l. asked spdk memory first before ++ (asked_in s ++ l))
                (ap (λ t. asked spdk memory t rest) next ∙ quiet)
            ∙ sym (asked-append spdk memory first before (r ∷ [])),
      )
