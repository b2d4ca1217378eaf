-- ===== src/Get/Load.antt =====
-- The callback `_process_get_load_data_cb` of src/kv_get.c when the chunk has the item's data.
use bagdb_spdk.Base.{
  ℕ, ◌<◌, ◌≡◌, refl, ap, ◌∙◌, Bool, true, false, some, List, ◌∷◌, arith, get_elem?,
  get_elem?-set_self, set, NotIn,
}
use bagdb_spdk.Base.Int.{is_set}
use bagdb_spdk.Pool.{ObjectCachePool, pool_release}
use bagdb_spdk.Pool.Free.{IsFree, address}
use bagdb_spdk.Pool.Release.{pool_release-pushes}
use bagdb_spdk.Get.State.{IndexEntry, ChunkOps, ErrorCodes, GetRequest, GetWorker}
use bagdb_spdk.Get.Process.{call_back, release, answer, process_get_load_data_cb, run}

-- To pin a chunk's memory and to release it does not change what the chunk caches.
pub record PinsOnly (chunks : ChunkOps) : Type 0 where
  pub lift :
      (d : chunks.Desc) (slot : ℕ)
      → chunks.is_cached (chunks.mem_lift d) slot ≡ chunks.is_cached d slot
  pub lower :
      (d : chunks.Desc) (slot : ℕ)
      → chunks.is_cached (chunks.mem_lower d) slot ≡ chunks.is_cached d slot
  pub lower_item :
      (d : chunks.Desc) (slot : ℕ)
      → chunks.get_item (chunks.mem_lower d) slot ≡ chunks.get_item d slot

module _ (chunks : ChunkOps) (errors : ErrorCodes) (pins : PinsOnly chunks)
    (ok : is_set errors.success ≡ false) (req : GetRequest) (e d i : ℕ) (entry : IndexEntry)
    (fs : List ℕ) where
  -- The worker has the entry, not being modified, and the request's object, which is in use.
  pub record Holds (w : GetWorker chunks) : Type 0 where
    pub entry_there : (b : Bool) × (get_elem? w.entries e ≡ some (record entry { getting = b }))
    pub chunk_there : entry.chunk_desc ≡ some d
    pub free : IsFree w.pool fs
    pub object : req.internal.object ≡ address w.pool i
    pub inside : i < w.pool.count
    pub in_use : NotIn i fs

  -- The chunk has the item's data.
  abbrev pub HasData : List chunks.Desc → Type 0
  HasData descs =
      (desc : chunks.Desc) × (get_elem? descs d ≡ some desc)
      × (chunks.is_cached desc entry.slot_idx ≡ true)

  -- The user has got this item and no error, the object is free, and the entry is not marked any more.
  pub record IsAnswered (item : ℕ) (w w' : GetWorker chunks) : Type 0 where
    pub answered :
        w'.answered
        ≡ record {
          cb_fn = req.internal.request.cb_fn;
          ctx = req.internal.request.ctx;
          item = some item;
          kverrno = errors.success;
        }
          ∷ w.answered
    pub nothing_awaited : w'.awaited ≡ w.awaited
    pub freed : IsFree w'.pool (i ∷ fs)
    pub unmarked : get_elem? w'.entries e ≡ some (record entry { getting = false })

  abbrev pub found_request : GetRequest
  found_request = record req { entry = some e }

  -- What the callback of the data leaves.
  abbrev loaded : GetWorker chunks → ObjectCachePool → chunks.Desc → GetWorker chunks
  loaded w p lowered = record w {
    pool = p;
    descs = set w.descs d lowered;
    entries = set w.entries e (record entry { getting = false });
    answered =
        record {
          cb_fn = req.internal.request.cb_fn;
          ctx = req.internal.request.ctx;
          item = some (chunks.get_item lowered entry.slot_idx);
          kverrno = errors.success;
        }
        ∷ w.answered;
  }

  load-eq :
      (w : GetWorker chunks) (b : Bool) (p : ObjectCachePool) (desc : chunks.Desc)
      → get_elem? w.entries e ≡ some (record entry { getting = b })
      → entry.chunk_desc ≡ some d
      → pool_release w.pool req.internal.object ≡ some (p, true)
      → get_elem? w.descs d ≡ some desc
      → chunks.is_cached (chunks.mem_lower desc) entry.slot_idx ≡ true
      → process_get_load_data_cb chunks errors w found_request errors.success
        ≡ some (loaded w p (chunks.mem_lower desc))
  unfolding process_get_load_data_cb release answer call_back
  load-eq w b p desc found there out at still = ground (arith, found, there, out, at, ok, still)

  pub load-IsAnswered :
      (w : GetWorker chunks)
      → Holds w
      → (held : HasData w.descs)
      → (w' : GetWorker chunks) × (process_get_load_data_cb chunks errors w found_request
            errors.success
          ≡ some w')
        × IsAnswered (chunks.get_item held.0 entry.slot_idx) w w'
  load-IsAnswered w h (desc, at, cached) =
      let (b, found) = h.entry_there in
      let (p, run, freed) = pool_release-pushes w.pool i fs h.free h.inside h.in_use in
      (
        loaded w p (chunks.mem_lower desc),
        load-eq w b p desc found h.chunk_there (ap (pool_release w.pool) h.object ∙ run) at
            (pins.lower desc entry.slot_idx ∙ cached),
        record {
          answered = rw (pins.lower_item desc entry.slot_idx) refl;
          nothing_awaited = refl;
          freed = freed;
          unmarked = get_elem?-set_self w.entries e (record entry { getting = b }) _ found;
        },
      )
