-- ===== src/Worker/Tests.antt =====
-- A worker of src/worker.c with two buffers and two objects, over rings that are lists.
use bagdb_spdk.Base.{none, ℕ, zero, suc, ◌+◌, ◌<◌, ◌≡◌, refl, some, [], ◌∷◌, arith, get_or, take}
use bagdb_spdk.Base.Int.{ℤ, pos, negsuc}
use bagdb_spdk.Pool.Example.{fresh-IsFree}
use bagdb_spdk.Pool.Init.{up_from}
use bagdb_spdk.Startup.State.{WorkerInitOpts}
use bagdb_spdk.Worker.Alloc.{Sizes, Outside, worker_alloc}
use bagdb_spdk.Worker.Layout.{AreAligned}
use bagdb_spdk.Worker.Start.{IsGiven, worker_alloc-IsReady}
use bagdb_spdk.Worker.Roundtrip.{HasTaken, enqueue_accept}
use bagdb_spdk.Worker.State.{get, put, KvRequestInternal, WorkerContext}
use bagdb_spdk.Worker.Enqueue.{worker_enqueue_get, worker_enqueue_put}
use bagdb_spdk.Worker.Poll.{accept, process_size, available_ios}
use bagdb_spdk.Worker.Requests.{Handlers, business_processor_poll}
use bagdb_spdk.Worker.Batch.{no_request, wrapped}
use bagdb_spdk.Worker.Accept.{IsReady, HasAccepted, accept-HasAccepted}
use bagdb_spdk.Worker.Handover.{HasHanded, worker_enqueue-HasHanded}
use bagdb_spdk.Pool.Free.{address}
use bagdb_spdk.Worker.Events.{IsKnown, served, business_processor_poll-events}
use bagdb_spdk.Worker.Example.{a_get, list_ops, list_queue, worker}

-- Each handler calls the request's function with a number of its own.
abbrev called_with : ℤ → WorkerContext list_ops → KvRequestInternal → WorkerContext list_ops
called_with n wctx req = record wctx {
  called = record { cb_fn = req.request.cb_fn; ctx = req.request.ctx; kverrno = n } ∷ wctx.called;
}

abbrev loud_handlers : Handlers list_ops
loud_handlers = record {
  process_get = called_with (pos 0);
  process_put = called_with (pos 1);
  process_delete = called_with (pos 2);
  process_first = called_with (pos 3);
  process_seek = called_with (pos 4);
  process_next = called_with (pos 5);
  op_unknown = negsuc 0;
}

worker-IsReady : IsReady list_ops list_queue worker 2 (0 ∷ []) (1 ∷ []) (0 ∷ 1 ∷ [])
worker-IsReady = record {
  waiting = (refl, refl);
  unused = (refl, refl);
  objects = fresh-IsFree;
  buffers = (omega arith, tt);
  room = omega arith;
  small = omega arith;
  few = omega arith;
}

size_runs : process_size list_ops worker ≡ 1
unfolding process_size available_ios
size_runs = refl

accept-HasAccepted_example :
    (wctx' : WorkerContext list_ops) × (accept list_ops worker ≡ some wctx')
    × HasAccepted list_ops list_queue worker 2
        (0 ∷ [])
        (1 ∷ [])
        (0 ∷ 1 ∷ [])
        (process_size list_ops worker)
        wctx'
accept-HasAccepted_example =
    accept-HasAccepted list_ops list_queue worker 2 (0 ∷ []) (1 ∷ []) (0 ∷ 1 ∷ []) worker-IsReady

worker_enqueue-HasHanded_example :
    ((wctx' : WorkerContext list_ops) × (worker_enqueue_get list_ops worker 3 71 81 91 ≡ some wctx')
      × HasHanded list_ops list_queue worker 2 2 1 (0 ∷ []) [] get 3 71 81 91 wctx')
    × ((wctx' : WorkerContext list_ops) × (worker_enqueue_put list_ops worker 3 71 81 91
          ≡ some wctx')
        × HasHanded list_ops list_queue worker 2 2 1 (0 ∷ []) [] put 3 71 81 91 wctx')
worker_enqueue-HasHanded_example =
    worker_enqueue-HasHanded list_ops list_queue worker 2 2 1 (0 ∷ []) [] 3 71 81 91 (refl, refl)
      (refl, refl) (omega arith) (omega arith)

all_get : (b : ℕ) → b < 2 → IsKnown (get_or worker.request_queue b no_request).op_code
all_get zero h = tt
all_get (suc zero) h = tt
all_get (suc (suc b)) h = absurd (omega arith)

business_processor_poll-events_example :
    (accepted : WorkerContext list_ops) × HasAccepted list_ops list_queue worker 2
      (0 ∷ [])
      (1 ∷ [])
      (0 ∷ 1 ∷ [])
      (process_size list_ops worker)
      accepted
    × (business_processor_poll list_ops loud_handlers worker
        ≡ some (
          served list_ops loud_handlers
              (wrapped
                (address worker.kv_request_internal_pool)
                worker.request_queue
                (take (process_size list_ops worker) (0 ∷ []))
                (take (process_size list_ops worker) (0 ∷ 1 ∷ [])))
              accepted,
          0 + 0 + process_size list_ops worker,
        ))
business_processor_poll-events_example =
    business_processor_poll-events list_ops loud_handlers list_queue worker 2 (0 ∷ []) (1 ∷ [])
      (0 ∷ 1 ∷ []) worker-IsReady tt tt all_get

-- No request waits, and both buffers are free.
abbrev idle : WorkerContext list_ops
idle = record worker { req_used_ring = ([], 2); req_free_ring = (0 ∷ 1 ∷ [], 2) }

idle-IsReady : IsReady list_ops list_queue idle 2 [] (0 ∷ 1 ∷ []) (0 ∷ 1 ∷ [])
idle-IsReady = record {
  waiting = (refl, refl);
  unused = (refl, refl);
  objects = fresh-IsFree;
  buffers = tt;
  room = omega arith;
  small = omega arith;
  few = omega arith;
}

idle_ios : available_ios list_ops idle ≡ 8
unfolding available_ios
idle_ios = refl

enqueue_accept_example :
    ((wctx₁ wctx₂ : WorkerContext list_ops) × (worker_enqueue_get list_ops idle 3 71 81 91
        ≡ some wctx₁)
      × (accept list_ops wctx₁ ≡ some wctx₂)
      × HasTaken list_ops list_queue idle 2 0 0
          (1 ∷ [])
          (1 ∷ [])
          3
          71
          81
          91
          idle-IsReady
          (omega arith)
          (omega (arith, idle_ios))
          get
          wctx₂)
    × ((wctx₁ wctx₂ : WorkerContext list_ops) × (worker_enqueue_put list_ops idle 3 71 81 91
          ≡ some wctx₁)
        × (accept list_ops wctx₁ ≡ some wctx₂)
        × HasTaken list_ops list_queue idle 2 0 0
            (1 ∷ [])
            (1 ∷ [])
            3
            71
            81
            91
            idle-IsReady
            (omega arith)
            (omega (arith, idle_ios))
            put
            wctx₂)
enqueue_accept_example =
    enqueue_accept list_ops list_queue idle 2 0 0 (1 ∷ []) (1 ∷ []) 3 71 81 91 idle-IsReady
      (omega arith) (omega (arith, idle_ios))

abbrev sizes : Sizes
sizes = record {
  worker_context = 256;
  kv_request = 64;
  kv_request_internal = 128;
  pagechunk_mgr = 64;
  chunk_miss_callback = 40;
  chunk_load_store_ctx = 80;
  reclaim_mgr = 96;
  pending_item_delete = 48;
  pending_item_migrate = 48;
  slab_migrate_request = 64;
  iomgr = 128;
  cache_io = 72;
  page_io = 56;
}

sizes-AreAligned : AreAligned sizes
sizes-AreAligned = record {
  worker_context = refl;
  kv_request = refl;
  kv_request_internal = refl;
  pagechunk_mgr = refl;
  chunk_miss_callback = refl;
  chunk_load_store_ctx = refl;
  reclaim_mgr = refl;
  pending_item_delete = refl;
  pending_item_migrate = refl;
  slab_migrate_request = refl;
}

-- New rings, and a block at 4096.
abbrev outside : Outside sizes list_ops
outside = record {
  used_ring = some ([], 2);
  free_ring = some ([], 2);
  thread = some 1;
  base = 4096;
  requests = a_get ∷ a_get ∷ [];
  nodes =
      record { object = none; next = 0 }
      ∷ record { object = none; next = 0 }
      ∷ record { object = none; next = 0 }
      ∷ [];
  max_pending_io = 8;
  nb_pending_io = 0;
}

abbrev init_opts : WorkerInitOpts
init_opts = record {
  chunk_cache_water_mark = 4;
  max_io_pending_queue_size_per_worker = 8;
  max_request_queue_size_per_worker = 2;
  nb_reclaim_shards = 1;
  nb_shards = 2;
  reclaim_shard_start_id = 0;
  core_id = 1;
}

outside-IsGiven : IsGiven list_ops list_queue sizes outside 1
outside-IsGiven = record {
  used = ([], 2);
  free = ([], 2);
  thread = 1;
  used_ring = refl;
  free_ring = refl;
  some_thread = refl;
  used_empty = (refl, refl);
  free_empty = (refl, refl);
  requests = refl;
  nodes = refl;
  base = refl;
  fits = omega arith;
}

worker_alloc-IsReady_example :
    (wctx : WorkerContext list_ops) × (worker_alloc sizes list_ops outside init_opts 3 ≡ some wctx)
    × IsReady list_ops list_queue wctx 2 [] (up_from 0 2) (up_from 0 2)
worker_alloc-IsReady_example =
    worker_alloc-IsReady list_ops list_queue sizes outside init_opts 1 3 sizes-AreAligned
      (omega arith) refl (omega arith) outside-IsGiven
