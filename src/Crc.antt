-- ===== src/Crc.antt =====
-- src/kvutil.c: the table-driven checksum of a key.
use Prim.Native.Nat.{bit_xor}
use bagdb_spdk.Base.{ℕ, zero, suc, ◌/◌, ◌%◌, List, [], ◌∷◌, get_or, take}
use bagdb_spdk.Crc.Table.{crc64_tab}
pub mod Table
pub mod Serial
mod Tests

-- The body of the loop of `_crc64`: one byte.
unfoldable pub crc64_byte : ℕ → ℕ → ℕ
crc64_byte crc byte = bit_xor (get_or crc64_tab (bit_xor (crc % 256) byte) 0) (crc / 256)

-- The loop of `_crc64` over the bytes of `s`.
unfoldable pub crc64_from : ℕ → List ℕ → ℕ
crc64_from crc [] = crc
crc64_from crc (byte ∷ bytes) = crc64_from (crc64_byte crc byte) bytes

-- `_crc64`, for a length that the type `int` holds and `s` has.
unfoldable pub crc64 : List ℕ → ℕ → ℕ
crc64 s l = crc64_from 0 (take l s)
