-- ===== src/Format/Tests.antt =====
-- The formatting chain at a device that is accepted, with one shard.

use bagdb_spdk.Base.{
  ℕ, ◌/◌, ◌≡◌, refl, true, none, some, List, [], ◌∷◌, ◌++◌, arith, length-replicate, get_or,
  replicate,
}
use Prim.Native.String.{String}
use bagdb_spdk.Base.Int.{ℤ, pos, negsuc}
use bagdb_spdk.Spdk.{Spdk, Reply}
use bagdb_spdk.Slab.{SlabLayout, SuperLayout, kv_align, super_size_of}
use bagdb_spdk.Format.State.{
  FormatCtx, create, all_create_complete, create_super_blob, create_blob, bs_open_blob, blob_resize,
  blob_close, bs_init, set_super, open_super, resize_super, sync_super, close_super, waiting,
  stopped, write_super,
}
use bagdb_spdk.Format.Iter.{slab_iter_foreach, finish}
use bagdb_spdk.Format.Create.{CreateOpts, default_opts, kvs_create, minus_einval}
use bagdb_spdk.Format.Args.{
  Letter, shards, force, other, kvs_parse_arg, parse_args, IsValid, parse_args-IsValid,
}
use bagdb_spdk.Format.Step.{run}
use bagdb_spdk.Format.Marks.{no_slab}
use bagdb_spdk.Format.Slabs.{with_slabs, run-slab_iter_foreach}
use bagdb_spdk.Format.Errors.{error_stops}
use bagdb_spdk.Format.Asked.{of_slab, of_super, asked}
use bagdb_spdk.Format.Opening.{Accepts, super_block}
use bagdb_spdk.Format.Chain.{format_writes}
use bagdb_spdk.Format.Finish.{write_stops}

abbrev device : Spdk
device = record {
  bdev_get_by_name = λ name. some 1;
  bdev_get_block_size = λ bdev. 4096;
  bdev_create_bs_dev = λ bdev. some 2;
  bs_get_io_unit_size = λ bs. 4096;
  bs_alloc_io_channel = λ bs. some 3;
  get_io_channel = λ bs. some 3;
  blob_get_num_clusters = λ blob. 1;
  malloc_slabs = λ n. replicate n no_slab;
  kvs_page_size = 4096;
}

abbrev opts : CreateOpts
opts = record default_opts { nb_shards = 1 }

abbrev two_slabs : List SlabLayout
two_slabs = no_slab ∷ no_slab ∷ []

abbrev layout : SuperLayout
layout = super_block opts two_slabs

abbrev fine : ℕ → Reply
fine value = record { bserrno = pos 0; value = value; layout = layout }

abbrev broken : Reply
broken = record { bserrno = negsuc 4; value = 0; layout = layout }

abbrev cleared : FormatCtx
cleared = record {
  bs = none;
  super_blob_id = 0;
  super_blob = 0;
  io_unit_size = 0;
  nb_init_nodes_per_slab = 10;
  channel = none;
  devname = "Nvme0n1";
  super_size = 56;
  sl = none;
  slab_size_array = 0 ∷ 1 ∷ [];
  nb_slabs = 2;
}

abbrev loaded : FormatCtx
loaded = record cleared { bs = some 7 }

device-Accepts : Accepts device opts 7
device-Accepts = record {
  bdev = 1;
  found = refl;
  block = refl;
  dev = 2;
  made = refl;
  unit = refl;
  channel = 3;
  opened = refl;
  memory = λ n. length-replicate n no_slab;
}

run-slab_iter_foreach_example :
    (run device cleared
        (slab_iter_foreach (with_slabs cleared layout two_slabs) create all_create_complete)
        (fine 8 ∷ fine 9 ∷ [])
      ≡ finish all_create_complete (
          with_slabs cleared layout (
            record { slab_size = 0; blob_id = 8; resv = 0 }
            ∷ record { slab_size = 1; blob_id = 9; resv = 0 }
            ∷ [])))
    × (asked device cleared
          (slab_iter_foreach (with_slabs cleared layout two_slabs) create all_create_complete)
          (fine 8 ∷ fine 9 ∷ [])
        ≡ of_slab create_blob ∷ of_slab create_blob ∷ [])
run-slab_iter_foreach_example =
    run-slab_iter_foreach device cleared cleared layout (omega arith) create all_create_complete
      two_slabs (fine 8 ∷ fine 9 ∷ []) (omega arith) (omega arith) refl (omega arith)
      (refl, (refl, tt))

-- The unloading succeeds after a failed creation, and the program stops with 0.
error_stops_example :
    run device cleared (waiting create_super_blob loaded) (broken ∷ fine 0 ∷ []) ≡ stopped (pos 0)
error_stops_example = error_stops device cleared create_super_blob loaded broken (fine 0) [] refl

format_writes_example :
    (ctx : FormatCtx) × (slabs : List SlabLayout) × (run device cleared (kvs_create device opts) (
        fine 7 ∷ fine 5 ∷ fine 0 ∷ fine 6 ∷ fine 0 ∷ (fine 8 ∷ fine 9 ∷ [])
        ++ ((fine 18 ∷ fine 19 ∷ []) ++ (fine 0 ∷ fine 0 ∷ [])))
      ≡ waiting
          (write_super (kv_align (super_size_of 1 2) 0x1000 / 0x1000) (super_block opts slabs))
          ctx)
    × (get_or slabs 1 no_slab ≡ record { slab_size = 1; blob_id = 9; resv = 19 })
    × (asked device cleared (kvs_create device opts) (
          fine 7 ∷ fine 5 ∷ fine 0 ∷ fine 6 ∷ fine 0 ∷ (fine 8 ∷ fine 9 ∷ [])
          ++ ((fine 18 ∷ fine 19 ∷ []) ++ (fine 0 ∷ fine 0 ∷ [])))
        ≡ of_super (bs_init 552960)
          ∷ of_super create_super_blob
          ∷ of_super (set_super 5)
          ∷ of_super (open_super 5)
          ∷ of_super (resize_super 1)
          ∷ of_slab create_blob
          ∷ of_slab create_blob
          ∷ of_slab (bs_open_blob 8)
          ∷ of_slab (bs_open_blob 9)
          ∷ of_slab (blob_resize 18 40)
          ∷ of_slab (blob_resize 19 40)
          ∷ [])
unfolding kv_align super_size_of
format_writes_example =
    format_writes device cleared opts (fine 7) (fine 5) (fine 0) (fine 6) (fine 0)
      (fine 8 ∷ fine 9 ∷ []) (fine 18 ∷ fine 19 ∷ []) (fine 0 ∷ fine 0 ∷ []) 1 device-Accepts
      (omega arith) (omega arith) refl refl refl (refl, (refl, (refl, (refl, (refl, tt)))))
      (refl, (refl, tt)) (refl, (refl, tt)) (refl, (refl, tt)) (omega arith)

write_stops_example :
    (run device cleared
        (waiting (write_super 1 layout) (with_slabs loaded layout two_slabs))
        (fine 0 ∷ fine 0 ∷ fine 0 ∷ (fine 0 ∷ fine 0 ∷ []) ++ broken ∷ [])
      ≡ stopped (negsuc 4))
    × (asked device cleared
          (waiting (write_super 1 layout) (with_slabs loaded layout two_slabs))
          (fine 0 ∷ fine 0 ∷ fine 0 ∷ (fine 0 ∷ fine 0 ∷ []) ++ broken ∷ [])
        ≡ of_super (write_super 1 layout)
          ∷ of_super sync_super
          ∷ of_super close_super
          ∷ of_slab (blob_close 0)
          ∷ of_slab (blob_close 0)
          ∷ [])
write_stops_example =
    write_stops device cleared loaded layout 1 7 (fine 0) (fine 0) (fine 0) broken
      (fine 0 ∷ fine 0 ∷ []) (omega arith) refl (omega arith) (omega arith) (omega arith) refl
      (omega arith) (refl, (refl, (refl, (refl, (refl, tt)))))

-- Every number of the command line is 8.
abbrev eight : String → ℤ
eight arg = pos 8

abbrev command_line : List (Letter × String)
command_line = (shards, "8") ∷ (force, "") ∷ (other, "") ∷ []

-- The last option is not known, and refused.
parse_runs :
    parse_args eight default_opts command_line
    ≡ record default_opts { nb_shards = 8; force_format = true }
unfolding parse_args kvs_parse_arg
parse_runs = refl

refused : kvs_parse_arg (λ arg. pos 12) default_opts shards "12" ≡ (default_opts, minus_einval)
unfolding kvs_parse_arg
refused = refl

-- A number of 33 bits passes the test, and nothing is left of it.
shards_lost :
    kvs_parse_arg (λ arg. pos 4294967296) default_opts shards "4294967296"
    ≡ (record default_opts { nb_shards = 0 }, pos 0)
unfolding kvs_parse_arg
shards_lost = refl

default_opts-IsValid : IsValid default_opts
default_opts-IsValid = record {
  shards = (6, refl);
  some_shard = omega arith;
  key_length = omega arith;
  chunks = omega arith;
  nodes = omega arith;
}

parse_args-IsValid_example : IsValid (parse_args eight default_opts command_line)
parse_args-IsValid_example =
    parse_args-IsValid eight default_opts command_line default_opts-IsValid
      (omega arith, (tt, (tt, tt)))
