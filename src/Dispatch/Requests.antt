-- ===== src/Dispatch/Requests.antt =====
-- src/kvs.c: the three operations on an item, which a user's thread hands to the item's worker.
use bagdb_spdk.Base.{ℕ, Option, List, ◌>>=◌, ◌>>◌, assert, ltb, get_elem?, store}
use bagdb_spdk.Item.{KvItem}
use bagdb_spdk.Startup.State.{Kvs}
use bagdb_spdk.Worker.Ring.{RingOps}
use bagdb_spdk.Worker.State.{WorkerContext}
use bagdb_spdk.Worker.Enqueue.{worker_enqueue_get, worker_enqueue_put}
use bagdb_spdk.Dispatch.{assert_parameters, hash_item_to_shard, hash_shard_to_worker}

-- An item is given with its pointer `ptr`; the workers of the runtime stand in `workers`. NULL is 0.
module _ (ops : RingOps) where
  -- What the three have in common: the item's shard, its worker, and the call with both.
  unfoldable pub to_worker :
      (WorkerContext ops → ℕ → Option (WorkerContext ops))
      → Kvs
      → List (WorkerContext ops)
      → KvItem
      → Option (List (WorkerContext ops))
  to_worker enqueue kvs workers item = do
    shard_id ← hash_item_to_shard kvs item
    worker_id ← hash_shard_to_worker kvs shard_id
    wctx ← get_elem? workers worker_id
    changed ← enqueue wctx shard_id
    store workers worker_id changed

  unfoldable pub kv_get_async :
      Kvs → List (WorkerContext ops) → KvItem → ℕ → ℕ → ℕ → Option (List (WorkerContext ops))
  kv_get_async kvs workers item ptr cb_fn ctx =
      assert (ltb 0 cb_fn)
      >> assert_parameters kvs item
      >> to_worker (λ wctx shard. worker_enqueue_get ops wctx shard ptr cb_fn ctx) kvs workers item

  unfoldable pub kv_put_async :
      Kvs → List (WorkerContext ops) → KvItem → ℕ → ℕ → ℕ → Option (List (WorkerContext ops))
  kv_put_async kvs workers item ptr cb_fn ctx =
      to_worker (λ wctx shard. worker_enqueue_put ops wctx shard ptr cb_fn ctx) kvs workers item

  -- `enqueue_delete` is `worker_enqueue_delete`, which the repository does not implement.
  unfoldable pub kv_delete_async :
      (WorkerContext ops → ℕ → ℕ → ℕ → ℕ → Option (WorkerContext ops))
      → Kvs
      → List (WorkerContext ops)
      → KvItem
      → ℕ
      → ℕ
      → ℕ
      → Option (List (WorkerContext ops))
  kv_delete_async enqueue_delete kvs workers item ptr cb_fn ctx =
      assert (ltb 0 cb_fn)
      >> assert_parameters kvs item
      >> to_worker (λ wctx shard. enqueue_delete wctx shard ptr cb_fn ctx) kvs workers item
