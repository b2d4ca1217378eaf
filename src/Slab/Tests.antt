-- ===== src/Slab/Tests.antt =====
-- KV_ALIGN and the size of a super block at concrete values.
use bagdb_spdk.Base.{◌%◌, ◌≤◌, ◌<◌, ◌≡◌, refl, arith}
use bagdb_spdk.Slab.{kv_align, super_size_of, slab_room}
use bagdb_spdk.Slab.Align.{kv_align_page}

align_runs : kv_align 2072 0x1000 ≡ 4096
unfolding kv_align
align_runs = refl

size_runs : super_size_of 64 2 ≡ 2072
unfolding super_size_of
size_runs = refl

room_runs : slab_room 2072 ≡ 254
unfolding slab_room kv_align
room_runs = refl

kv_align_page_example :
    (kv_align 4097 0x1000 % 0x1000 ≡ 0)
    × (4097 ≤ kv_align 4097 0x1000)
    × (kv_align 4097 0x1000 < 8193)
kv_align_page_example = kv_align_page 4097 (omega arith)
