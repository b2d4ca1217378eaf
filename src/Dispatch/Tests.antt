-- ===== src/Dispatch/Tests.antt =====
-- A shard of the store that the example of src/kvs_startup.c starts.
use bagdb_spdk.Base.{ℕ, ◌+◌, ◌≤◌, ◌<◌, ◌≡◌, refl, some, arith, get_or}
use bagdb_spdk.Startup.Example.{started, no_worker, opts, layout, handles}
use bagdb_spdk.Base.{◌∷◌, zero, suc, [], List, length}
use bagdb_spdk.Item.{KvItem}
use bagdb_spdk.Worker.State.{get, put, WorkerContext}
use bagdb_spdk.Worker.Example.{list_ops, list_queue, worker}
use bagdb_spdk.Dispatch.Requests.{kv_get_async, kv_put_async}
use bagdb_spdk.Dispatch.Owner.{HasRoom, IsRouted, kv_get_async-IsRouted, kv_put_async-IsRouted}
use bagdb_spdk.Dispatch.{hash_shard_to_worker, hash_shard_to_worker-owner}

hash_shard_to_worker-owner_example :
    (w : ℕ) × (hash_shard_to_worker started.0 1 ≡ some w)
    × (w < 2)
    × ((get_or started.0.workers w no_worker).reclaim_shard_start_id ≤ 1)
    × (1
        < (get_or started.0.workers w no_worker).reclaim_shard_start_id
          + (get_or started.0.workers w no_worker).nb_reclaim_shards)
hash_shard_to_worker-owner_example =
    hash_shard_to_worker-owner opts layout handles started.0 1 no_worker started.2 (omega arith)
      refl (omega arith) (omega arith)

-- Each of the two workers has a request in buffer 0 and a free buffer 1.
abbrev two : List (WorkerContext list_ops)
two = worker ∷ worker ∷ []

abbrev stored : KvItem
stored = record { meta = record { rdt = 0; ksize = 3; vsize = 0 }; bytes = 107 ∷ 101 ∷ 121 ∷ [] }

two-HasRoom : HasRoom list_ops list_queue 2 2 2 (λ w. 0 ∷ []) (λ w. []) (λ w. 1) worker two
two-HasRoom = (omega arith, each)
  where
    each :
        (w : ℕ)
        → w < 2
        → list_queue.Holds (get_or two w worker).req_used_ring 2 (0 ∷ [])
          × list_queue.Holds (get_or two w worker).req_free_ring 2 (1 ∷ [])
          × (length {A = ℕ} (0 ∷ []) < 2)
          × (1 < length (get_or two w worker).request_queue)
    each zero h = ((refl, refl), (refl, refl), omega arith, omega arith)
    each (suc zero) h = ((refl, refl), (refl, refl), omega arith, omega arith)
    each (suc (suc w)) h = absurd (omega arith)

kv_put_async-IsRouted_example :
    (workers' : List (WorkerContext list_ops)) × (kv_put_async list_ops started.0 two stored 71 81
        91
      ≡ some workers')
    × IsRouted list_ops list_queue 2 2 2
        (λ w. 0 ∷ [])
        (λ w. [])
        (λ w. 1)
        worker
        started.0
        no_worker
        two
        put
        stored
        71
        81
        91
        workers'
kv_put_async-IsRouted_example =
    kv_put_async-IsRouted opts layout handles started.0 no_worker started.2 (omega arith) refl
      (omega arith) (omega arith) list_ops list_queue 2 2 (λ w. 0 ∷ []) (λ w. []) (λ w. 1) worker
      two two-HasRoom stored 71 81 91

a_get-IsRouted :
    (workers' : List (WorkerContext list_ops)) × (kv_get_async list_ops started.0 two stored 71 81
        91
      ≡ some workers')
    × IsRouted list_ops list_queue 2 2 2
        (λ w. 0 ∷ [])
        (λ w. [])
        (λ w. 1)
        worker
        started.0
        no_worker
        two
        get
        stored
        71
        81
        91
        workers'
a_get-IsRouted =
    kv_get_async-IsRouted opts layout handles started.0 no_worker started.2 (omega arith) refl
      (omega arith) (omega arith) list_ops list_queue 2 2 (λ w. 0 ∷ []) (λ w. []) (λ w. 1) worker
      two two-HasRoom stored 71 81 91 (omega arith) (omega arith) (omega arith)
