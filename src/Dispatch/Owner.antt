-- ===== src/Dispatch/Owner.antt =====
-- The operations of src/kvs.c hand a request to the worker that owns the item's shard.
use bagdb_spdk.Base.{
  ℕ, ◌+◌, ◌%◌, ◌^◌, ◌≤◌, ◌<◌, ◌≡◌, ◌≢◌, sym, subst, some, Option, List, ◌∷◌, arith, length, get_or,
  u32, set, get_elem?-eq-get_or, store-eq-set, get_or-set_self, get_or-set_ne,
}
use bagdb_spdk.Spdk.{Reply}
use bagdb_spdk.Slab.{SuperLayout}
use bagdb_spdk.Item.{KvItem}
use bagdb_spdk.Crc.{crc64}
use bagdb_spdk.Hash.{hash, kv_hash, positive_int}
use bagdb_spdk.Hash.Jump.{hash-lt}
use bagdb_spdk.Startup.State.{StartOpts, Kvs, WorkerInitOpts}
use bagdb_spdk.Startup.Chain.{IsRuntime}
use bagdb_spdk.Worker.Ring.{RingOps, IsQueue}
use bagdb_spdk.Worker.State.{OpCode, get, put, WorkerContext}
use bagdb_spdk.Worker.Enqueue.{worker_enqueue_get, worker_enqueue_put}
use bagdb_spdk.Worker.Handover.{HasHanded, worker_enqueue-HasHanded}
use bagdb_spdk.Dispatch.{
  assert_parameters, hash_item_to_shard, hash_shard_to_worker, hash_shard_to_worker-owner,
}
use bagdb_spdk.Dispatch.Requests.{to_worker, kv_get_async, kv_put_async}

-- Every item has a shard, and the shard a worker that has it in its range. The shard is that of the whole
-- key if the key is shorter than 2^31 bytes; of a longer one the hash reads as many bytes as an `int` with
-- the 32 low bits of the length says, and none if that is negative.
pub record IsOwner (kvs : Kvs) (nb_works : ℕ) (item : KvItem) (d : WorkerInitOpts) (shard w : ℕ)
    : Type 0 where
  pub hashed : hash_item_to_shard kvs item ≡ some shard
  pub of_key :
      item.meta.ksize < 2 ^ 31 → hash (crc64 item.bytes item.meta.ksize) kvs.nb_shards ≡ some shard
  pub dispatched : hash_shard_to_worker kvs shard ≡ some w
  pub there : w < nb_works
  pub low : (get_or kvs.workers w d).reclaim_shard_start_id ≤ shard
  pub high :
      shard
      < (get_or kvs.workers w d).reclaim_shard_start_id + (get_or kvs.workers w d).nb_reclaim_shards

whole_length : (n : ℕ) → n < 2 ^ 31 → positive_int (u32 n) ≡ n
whole_length n lt = ground arith

module _ (opts : StartOpts) (sl : SuperLayout) (os : List Reply) (kvs : Kvs) (d : WorkerInitOpts)
    (is : IsRuntime opts sl os kvs) (some_worker : 0 < opts.nb_works)
    (even : sl.nb_shards % opts.nb_works ≡ 0) (some_shard : 0 < sl.nb_shards)
    (few : sl.nb_shards < 2 ^ 31) (item : KvItem) where
  item-IsOwner : (shard : ℕ) × (w : ℕ) × IsOwner kvs opts.nb_works item d shard w
  unfolding hash_item_to_shard kv_hash
  item-IsOwner =
      let (shard, hashed, inside) =
        hash-lt (crc64 item.bytes (positive_int (u32 item.meta.ksize))) sl.nb_shards some_shard
          few in
      let (w, dispatched, there, low, high) =
        hash_shard_to_worker-owner opts sl os kvs shard d is some_worker even (omega arith)
          inside in
      (
        shard,
        w,
        record {
          hashed = rw is.nb_shards hashed;
          of_key = λ lt.
              subst (λ n. hash (crc64 item.bytes n) kvs.nb_shards ≡ some shard)
                (whole_length item.meta.ksize lt) (rw is.nb_shards hashed);
          dispatched = dispatched;
          there = there;
          low = low;
          high = high;
        },
      )

module _ (ops : RingOps) (q : IsQueue ops) (nb_works used_cap free_cap : ℕ) (used free : ℕ → List ℕ)
    (b : ℕ → ℕ) (no_worker : WorkerContext ops) where
  -- Each worker has a free buffer and room in its used ring.
  abbrev pub HasRoom : List (WorkerContext ops) → Type 0
  HasRoom workers =
      (nb_works ≤ length workers)
      × ((w : ℕ)
          → w < nb_works
          → q.Holds (get_or workers w no_worker).req_used_ring used_cap (used w)
            × q.Holds (get_or workers w no_worker).req_free_ring free_cap (b w ∷ free w)
            × (length (used w) < used_cap)
            × (b w < length (get_or workers w no_worker).request_queue))

  -- The owner of the item's shard has got the request, and no other worker has changed.
  pub record IsRouted (kvs : Kvs) (d : WorkerInitOpts) (workers : List (WorkerContext ops))
      (op : OpCode) (item : KvItem) (ptr cb_fn ctx : ℕ) (workers' : List (WorkerContext ops))
      : Type 0 where
    pub shard : ℕ
    pub owner : ℕ
    pub owns : IsOwner kvs nb_works item d shard owner
    pub handed :
        HasHanded ops q
          (get_or workers owner no_worker)
          used_cap
          free_cap
          (b owner)
          (used owner)
          (free owner)
          op
          shard
          ptr
          cb_fn
          ctx
          (get_or workers' owner no_worker)
    pub others : (v : ℕ) → owner ≢ v → get_or workers' v no_worker ≡ get_or workers v no_worker

  module _ (kvs : Kvs) (d : WorkerInitOpts) (workers : List (WorkerContext ops))
      (room : HasRoom workers) (op : OpCode) (item : KvItem) (ptr cb_fn ctx : ℕ)
      (enqueue : WorkerContext ops → ℕ → Option (WorkerContext ops)) (shard w : ℕ)
      (owns : IsOwner kvs nb_works item d shard w) (wctx' : WorkerContext ops)
      (run : enqueue (get_or workers w no_worker) shard ≡ some wctx')
      (handed : HasHanded ops q
        (get_or workers w no_worker)
        used_cap
        free_cap
        (b w)
        (used w)
        (free w)
        op
        shard
        ptr
        cb_fn
        ctx
        wctx') where
    to_worker-IsRouted :
        (workers' : List (WorkerContext ops)) × (to_worker ops enqueue kvs workers item
          ≡ some workers')
        × IsRouted kvs d workers op item ptr cb_fn ctx workers'
    unfolding to_worker
    to_worker-IsRouted =
        let inside : w < length workers = omega (arith, owns.there, room.0) in
        (
          set workers w wctx',
          ground (
            arith,
            owns.hashed,
            owns.dispatched,
            get_elem?-eq-get_or workers w no_worker inside,
            run,
            store-eq-set workers w wctx' inside,
          ),
          record {
            shard = shard;
            owner = w;
            owns = owns;
            handed =
                subst
                  (λ c.
                    HasHanded ops q (get_or workers w no_worker) used_cap free_cap (b w) (used w)
                      (free w) op shard ptr cb_fn ctx c)
                  (sym (get_or-set_self workers w wctx' no_worker inside)) handed;
            others = λ v ne. get_or-set_ne workers w v wctx' no_worker ne;
          },
        )

module _ (opts : StartOpts) (sl : SuperLayout) (os : List Reply) (kvs : Kvs) (d : WorkerInitOpts)
    (is : IsRuntime opts sl os kvs) (some_worker : 0 < opts.nb_works)
    (even : sl.nb_shards % opts.nb_works ≡ 0) (some_shard : 0 < sl.nb_shards)
    (few : sl.nb_shards < 2 ^ 31) (ops : RingOps) (q : IsQueue ops) (used_cap free_cap : ℕ)
    (used free : ℕ → List ℕ) (b : ℕ → ℕ) (no_worker : WorkerContext ops)
    (workers : List (WorkerContext ops))
    (room : HasRoom ops q opts.nb_works used_cap free_cap used free b no_worker workers)
    (item : KvItem) (ptr cb_fn ctx : ℕ) where
  -- In a runtime whose workers share its shards evenly, where each worker has a free buffer and room for
  -- a request, a put of any item succeeds: the item's key is hashed to a shard, as many of its
  -- bytes as the `int` made of its length says and all of them below 2^31, the worker that was
  -- given this shard at the start gets the request, and no other worker changes.
  pub kv_put_async-IsRouted :
      (workers' : List (WorkerContext ops)) × (kv_put_async ops kvs workers item ptr cb_fn ctx
        ≡ some workers')
      × IsRouted ops q opts.nb_works used_cap free_cap used free b no_worker kvs d workers put item
          ptr cb_fn ctx workers'
  unfolding kv_put_async
  kv_put_async-IsRouted =
      let (shard, w, owns) =
        item-IsOwner opts sl os kvs d is some_worker even some_shard few item in
      let (waiting, unused, space, inside) = room.1 w owns.there in
      let (wctx', run, handed) =
        (worker_enqueue-HasHanded ops q (get_or workers w no_worker) used_cap free_cap (b w)
          (used w) (free w) shard ptr cb_fn ctx waiting unused space inside).1 in
      to_worker-IsRouted ops q opts.nb_works used_cap free_cap used free b no_worker kvs d workers
        room put item ptr cb_fn ctx (λ c s. worker_enqueue_put ops c s ptr cb_fn ctx) shard w owns
        wctx' run handed

  -- In such a runtime, a get with a callback, of an item whose key has a length from 1 to the super
  -- block's greatest, passes the assertions and succeeds: the worker that was given the shard of the key
  -- at the start gets the request, and no other worker changes.
  pub kv_get_async-IsRouted :
      0 < cb_fn
      → 0 < item.meta.ksize
      → item.meta.ksize ≤ sl.max_key_length
      → (workers' : List (WorkerContext ops)) × (kv_get_async ops kvs workers item ptr cb_fn ctx
          ≡ some workers')
        × IsRouted ops q opts.nb_works used_cap free_cap used free b no_worker kvs d workers get
            item ptr cb_fn ctx workers'
  unfolding kv_get_async assert_parameters
  kv_get_async-IsRouted called some_key short =
      let (shard, w, owns) =
        item-IsOwner opts sl os kvs d is some_worker even some_shard few item in
      let (waiting, unused, space, inside) = room.1 w owns.there in
      let (wctx', run, handed) =
        (worker_enqueue-HasHanded ops q (get_or workers w no_worker) used_cap free_cap (b w)
          (used w) (free w) shard ptr cb_fn ctx waiting unused space inside).0 in
      let (workers', run', routed) =
        to_worker-IsRouted ops q opts.nb_works used_cap free_cap used free b no_worker kvs d workers
          room get item ptr cb_fn ctx (λ c s. worker_enqueue_get ops c s ptr cb_fn ctx) shard w owns
          wctx' run handed in
      (workers', ground (arith, is.max_key_length, run'), routed)
