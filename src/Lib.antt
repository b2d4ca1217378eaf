-- ===== src/Lib.antt =====
-- bagdb_spdk: a key-value store on SPDK blobs, and its verification library.
--
-- The program formats a device (apps/format) into a super blob and one blob for each slab of each shard,
-- starts workers over the shards (kvs_startup.c, worker.c), and serves requests that kvs.c shards among
-- the workers. An iterator of kvs.c merges the workers' items with a heap. Requests and their contexts
-- come from object pools (pool.c).
--
-- Files, with the sources they model:
--   Base: numbers, lists and options that all parts share; u32 and u64 are the wrap-around of the
--     machine's unsigned integers; Base/Bits and Base/Xor have the laws of the bit operations, Base/Int
--     the signed numbers.
--   Pool: src/pool.c and src/pool.h. The nodes stand in a list, the links are indices; `none` is a
--     failed assertion or an access out of range. Pool/Free says which objects are free.
--   Item: src/include/item.h and `_item_cmp` of src/kvs.c.
--   Heap: `_item_swap`, `_heap_adjust` and `_make_heap` of src/kvs.c. Its indices and lengths are natural
--     numbers, where the source has `int`: they agree for arrays of fewer than 2^30 entries.
--   Hash: `_hash`, `kv_hash` and `kv_cycles_to_us` of src/kvutil.c. Hash/Double has the double arithmetic,
--     exactly: all doubles of the hash lie from 1 to 2^63, and are numbers of units of 2^-52.
--   Iterator: the iterator of src/kvs.c. What the workers' threads call is an explicit list of events; the
--     rounds of a waiting loop are a list, each with the events since the round before. A round reads the
--     flags at one moment: flags are only set in it, so any other reads are those of an earlier or later
--     moment. Iterator/View has the items that are still to be delivered.
--   Slab: src/slab.c, src/include/slab.h and the macro KV_ALIGN.
--   Spdk: the functions of SPDK that return at once, as a record that the models take as a parameter, and
--     the replies of those that call back.
--   Format: src/apps/format/kvs_format.c. A state says which call of SPDK is waited for, and a step hands
--     its reply to the callback. A run is the list of the replies. Format/Asked has the list of the calls
--     that the replies answer. Format/Args has the options.
--   Startup: src/kvs_startup.c, in the same way, up to the runtime that the workers start with.
--     Startup/Asked has the calls, Startup/Loop `kvs_start_loop`.
--   Crc: `_crc64` of src/kvutil.c with its table; Crc/Serial has the bit-by-bit checksum that it is
--     compared with.
--   Shuffle: `kv_shuffle` of src/kvutil.c; RAND_MAX is 2^31 - 1, as in the GNU library.
--   Dispatch: `_hash_shard_to_worker` of src/kvs.c, and the three asynchronous operations that use it.
--   Statistics: the statistics of src/kvs.c, against the layout of Startup. The counters of a slab are a
--     parameter.
--   Worker: src/worker.c, from the allocation and the enqueuing functions to the poll that processes
--     requests. The rings of SPDK are an interface (Worker/Ring); the functions that process a request are
--     parameters.
--   Get: src/kv_get.c, the processing of a GET. A worker's steps are a request that is processed and a call
--     that it waited for and that ends. The page chunks are a parameter; their descriptors, with the
--     entries of src/include/index.h, stand in lists, and a pointer is an index.
--   PageCache: src/pagecache.c, the table of internal nodes and the search for a page. The B-tree of a
--     level is a parameter.
--
-- Fuel: `heap_adjust` takes 2, as a call is at most two deep; `init_nodes` takes one more than the count.
-- `hash` takes one more than the number of buckets, as each round comes to a later bucket.
-- Theorems that the code returns are proved with that fuel.
--
-- Not modelled: the B-tree (src/btree: a vendored container and its C++ wrapper), `get_page` of
-- src/pagecache.c, SPDK's own reading of the command line, src/bpt.c, src/index.c and the benchmarks
-- (src/apps/benchmark); what is printed or logged, and what SPDK itself does.
pub mod Base
pub mod Pool
pub mod Item
pub mod Hash
pub mod Heap
pub mod Iterator
pub mod Slab
pub mod Spdk
pub mod Format
pub mod Startup
pub mod Dispatch
pub mod Statistics
pub mod Worker
pub mod Get
pub mod PageCache
pub mod Crc
pub mod Shuffle
