-- ===== src/Format/Args.antt =====
-- The command line of src/apps/format/kvs_format.c: `_kvs_parse_arg`, and what `main` starts with the
-- options that it leaves.
use Prim.Native.String.{String}
use Prim.Native.Nat.{bit_and}
use bagdb_spdk.Base.{
  ℕ, ◌-◌, ◌^◌, ◌<◌, ◌≡◌, refl, Bool, true, false, ◌&&◌, List, [], ◌∷◌, arith, ltb, ◌==◌, u32,
  if◌then◌else◌,
}
use bagdb_spdk.Base.Int.{ℤ, pos, negsuc}
use bagdb_spdk.Base.Powers.{IsPowerOfTwo, bit_and_pred-IsPowerOfTwo}
use bagdb_spdk.Format.Create.{CreateOpts, minus_einval, kvs_create}
use bagdb_spdk.Format.Dump.{kvs_dump}
use bagdb_spdk.Format.State.{State}
use bagdb_spdk.Spdk.{Spdk}

-- The letters of the options: 'K', 'S', 'C', 'f', 'D', 'E', 'N', and any other.
pub data Letter : Type 0 where
  key_length shards chunks force device dump nodes other : Letter

-- `x>0` for a `long`
abbrev pub positive : ℤ → Bool
positive (pos n) = ltb 0 n
positive (negsuc n) = false

-- `(x>0) && ((x&(x-1))==0)` for a `long`
abbrev pub power_of_two : ℤ → Bool
power_of_two (pos n) = ltb 0 n && (bit_and n (n - 1) == 0)
power_of_two (negsuc n) = false

-- A `long` that is assigned to a `uint32_t`; -(n + 1) is the complement of n.
abbrev pub to_u32 : ℤ → ℕ
to_u32 (pos n) = u32 n
to_u32 (negsuc n) = 2 ^ 32 - 1 - u32 n

-- The options, and what the call returns.
abbrev pub Parsed : Type 0
Parsed = CreateOpts × ℤ

-- A number is stored if it passes the test.
abbrev pub checked : Bool → CreateOpts → CreateOpts → Parsed
checked test opts stored = if test then (stored, pos 0) else (opts, minus_einval)

module _ (spdk_strtol : String → ℤ) where
  -- `_kvs_parse_arg`
  unfoldable pub kvs_parse_arg : CreateOpts → Letter → String → Parsed
  kvs_parse_arg opts key_length arg =
      let n = spdk_strtol arg in
      checked (positive n) opts (record opts { max_key_length = to_u32 n })
  kvs_parse_arg opts shards arg =
      let n = spdk_strtol arg in
      checked (power_of_two n) opts (record opts { nb_shards = to_u32 n })
  kvs_parse_arg opts chunks arg =
      let n = spdk_strtol arg in
      checked (positive n) opts (record opts { nb_chunks_per_reclaim_node = to_u32 n })
  kvs_parse_arg opts force arg = (record opts { force_format = true }, pos 0)
  kvs_parse_arg opts device arg = (record opts { devname = arg }, pos 0)
  kvs_parse_arg opts dump arg = (record opts { dump_only = true }, pos 0)
  kvs_parse_arg opts nodes arg =
      let n = spdk_strtol arg in
      checked (positive n) opts (record opts { nb_init_nodes_per_slab = to_u32 n })
  kvs_parse_arg opts other arg = (opts, minus_einval)

  -- The options after a sequence of calls of `_kvs_parse_arg`.
  unfoldable pub parse_args : CreateOpts → List (Letter × String) → CreateOpts
  parse_args opts [] = opts
  parse_args opts ((ch, arg) ∷ args) = parse_args (kvs_parse_arg opts ch arg).0 args

-- What `main` passes to `spdk_app_start`; the context comes from `calloc`, which has memory.
unfoldable pub app_start : Spdk → CreateOpts → State
app_start spdk opts = if opts.dump_only then kvs_dump spdk opts.devname else kvs_create spdk opts

-- What the options have to be.
pub record IsValid (opts : CreateOpts) : Type 0 where
  pub shards : IsPowerOfTwo opts.nb_shards
  pub some_shard : 0 < opts.nb_shards
  pub key_length : 0 < opts.max_key_length
  pub chunks : 0 < opts.nb_chunks_per_reclaim_node
  pub nodes : 0 < opts.nb_init_nodes_per_slab

-- The number of a 32-bit integer, or below.
abbrev pub Fits : ℤ → Type 0
Fits (pos n) = n < 2 ^ 32
Fits (negsuc n) = Unit

positive-lem : (n : ℤ) → Fits n → positive n ≡ true → 0 < to_u32 n
positive-lem (pos n) fits h = ground (arith, fits, h)
positive-lem (negsuc n) fits h = ground (arith, h)

power_of_two-lem :
    (n : ℤ) → Fits n → power_of_two n ≡ true → IsPowerOfTwo (to_u32 n) × (0 < to_u32 n)
power_of_two-lem (pos n) fits h =
    let small : u32 n ≡ n = omega (arith, fits) in
    let some_one : 0 < n = ground (arith, h) in
    let none : bit_and n (n - 1) ≡ 0 = ground (arith, h) in
    rw small (bit_and_pred-IsPowerOfTwo n some_one none, some_one)
power_of_two-lem (negsuc n) fits h = ground (arith, h)

-- The number of an option that takes one fits into 32 bits.
abbrev pub FitsFor : Letter → ℤ → Type 0
FitsFor key_length n = Fits n
FitsFor shards n = Fits n
FitsFor chunks n = Fits n
FitsFor force n = Unit
FitsFor device n = Unit
FitsFor dump n = Unit
FitsFor nodes n = Fits n
FitsFor other n = Unit

checked-lem :
    (test : Bool) (opts stored : CreateOpts)
    → IsValid opts
    → (test ≡ true → IsValid stored)
    → IsValid (checked test opts stored).0
checked-lem true opts stored valid then_valid = then_valid refl
checked-lem false opts stored valid then_valid = valid

-- The other fields do not count.
numbers_kept :
    (opts : CreateOpts) (devname : String) (force_format dump_only : Bool)
    → IsValid opts
    → IsValid
        (record opts { devname = devname; force_format = force_format; dump_only = dump_only })
numbers_kept opts devname force_format dump_only v = record {
  shards = v.shards;
  some_shard = v.some_shard;
  key_length = v.key_length;
  chunks = v.chunks;
  nodes = v.nodes;
}

module _ (spdk_strtol : String → ℤ) where
  kvs_parse_arg-IsValid :
      (opts : CreateOpts) (ch : Letter) (arg : String)
      → IsValid opts
      → FitsFor ch (spdk_strtol arg)
      → IsValid (kvs_parse_arg spdk_strtol opts ch arg).0
  unfolding kvs_parse_arg
  kvs_parse_arg-IsValid opts key_length arg v fits =
      checked-lem (positive (spdk_strtol arg)) opts _ v λ test. record {
        shards = v.shards;
        some_shard = v.some_shard;
        key_length = positive-lem (spdk_strtol arg) fits test;
        chunks = v.chunks;
        nodes = v.nodes;
      }
  kvs_parse_arg-IsValid opts shards arg v fits =
      checked-lem (power_of_two (spdk_strtol arg)) opts _ v λ test.
        let (power, some_shard) = power_of_two-lem (spdk_strtol arg) fits test in
        record {
          shards = power;
          some_shard = some_shard;
          key_length = v.key_length;
          chunks = v.chunks;
          nodes = v.nodes;
        }
  kvs_parse_arg-IsValid opts chunks arg v fits =
      checked-lem (positive (spdk_strtol arg)) opts _ v λ test. record {
        shards = v.shards;
        some_shard = v.some_shard;
        key_length = v.key_length;
        chunks = positive-lem (spdk_strtol arg) fits test;
        nodes = v.nodes;
      }
  kvs_parse_arg-IsValid opts force arg v fits = numbers_kept opts opts.devname true opts.dump_only v
  kvs_parse_arg-IsValid opts device arg v fits =
      numbers_kept opts arg opts.force_format opts.dump_only v
  kvs_parse_arg-IsValid opts dump arg v fits =
      numbers_kept opts opts.devname opts.force_format true v
  kvs_parse_arg-IsValid opts nodes arg v fits =
      checked-lem (positive (spdk_strtol arg)) opts _ v λ test. record {
        shards = v.shards;
        some_shard = v.some_shard;
        key_length = v.key_length;
        chunks = v.chunks;
        nodes = positive-lem (spdk_strtol arg) fits test;
      }
  kvs_parse_arg-IsValid opts other arg v fits = v

  abbrev pub AllFit : List (Letter × String) → Type 0
  AllFit [] = Unit
  AllFit ((ch, arg) ∷ args) = FitsFor ch (spdk_strtol arg) × AllFit args

  -- Whatever calls of `_kvs_parse_arg` the command line leads to, refused ones included, they leave
  -- options that are valid if they were before: the number of shards is a power of two, and it, the key
  -- length, the chunks of a reclaim node and the initial nodes of a slab are not 0. The numbers that are
  -- given are below 2^32, or negative.
  pub parse_args-IsValid :
      (opts : CreateOpts) (args : List (Letter × String))
      → IsValid opts
      → AllFit args
      → IsValid (parse_args spdk_strtol opts args)
  unfolding parse_args
  parse_args-IsValid opts [] valid fits = valid
  parse_args-IsValid opts ((ch, arg) ∷ args) valid fits =
      parse_args-IsValid (kvs_parse_arg spdk_strtol opts ch arg).0 args
        (kvs_parse_arg-IsValid opts ch arg valid fits.0) fits.1
