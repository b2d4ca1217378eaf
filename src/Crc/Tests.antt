-- ===== src/Crc/Tests.antt =====
-- The check value of the Jones polynomial.
use bagdb_spdk.Base.{arith, List, ℕ, take, ◌≡◌, refl, [], ◌∷◌}
use bagdb_spdk.Crc.{crc64, crc64_from, crc64_byte}
use bagdb_spdk.Crc.Serial.{serial, crc64-serial}
use bagdb_spdk.Crc.Table.{crc64_tab}

-- The checksum of "123456789".
digits_run :
    crc64 (0x31 ∷ 0x32 ∷ 0x33 ∷ 0x34 ∷ 0x35 ∷ 0x36 ∷ 0x37 ∷ 0x38 ∷ 0x39 ∷ []) 9 ≡ 0xe9c6d914c4b8d9ca
unfolding crc64 crc64_from crc64_byte crc64_tab
digits_run = refl

abbrev key : List ℕ
key = 0x6b ∷ 0x65 ∷ 0xff ∷ []

crc64-serial_example : crc64 key 2 ≡ serial 0 (take 2 key)
crc64-serial_example = crc64-serial key 2 (omega arith, (omega arith, (omega arith, tt)))
