-- ===== src/Tests/Checksum.antt =====
-- Runs of the checksums.
use mblue.Common.{ℕ, ◌≡◌, ◌≢◌, refl, List, [], ◌∷◌, ◌++◌, bit_xor, arith}
use mblue.Checksum.{
  calculate_crc32, crc_loop, crc_byte, sdbm_mem, sdbm_mem_loop, sdbm_round, sdbm_hash,
  sdbm_hash_loop,
}
use mblue.Checksum.Reference.{crc32c_bits}
use mblue.Checksum.Table.{IsBytes, calculate_crc32_lem}
use mblue.Checksum.Errors.{calculate_crc32-ne}

-- The digits 1 to 9, whose CRC-32C is published.
abbrev digits : List ℕ
digits = 0x31 ∷ 0x32 ∷ 0x33 ∷ 0x34 ∷ 0x35 ∷ 0x36 ∷ 0x37 ∷ 0x38 ∷ 0x39 ∷ []

crc_of_digits : calculate_crc32 digits ≡ 0xE3069283
unfolding calculate_crc32 crc_loop crc_byte
crc_of_digits = refl

hash_of_text : sdbm_hash (0x6D ∷ 0x62 ∷ 0 ∷ 7 ∷ []) ≡ sdbm_mem (0x6D ∷ 0x62 ∷ [])
unfolding sdbm_hash sdbm_hash_loop sdbm_mem sdbm_mem_loop sdbm_round
hash_of_text = refl

abbrev frame : List ℕ
frame = 0x55 ∷ 0xAA ∷ 0x10 ∷ []

frame-IsBytes : IsBytes frame
frame-IsBytes = (omega arith, (omega arith, (omega arith, tt)))

calculate_crc32_lem_example :
    calculate_crc32 frame ≡ bit_xor (crc32c_bits 0xFFFFFFFF frame) 0xFFFFFFFF
calculate_crc32_lem_example = calculate_crc32_lem frame frame-IsBytes

calculate_crc32-ne_example :
    calculate_crc32 (frame ++ (0x20 ∷ frame)) ≢ calculate_crc32 (frame ++ (0x21 ∷ frame))
calculate_crc32-ne_example =
    calculate_crc32-ne frame frame 0x20 0x21 frame-IsBytes frame-IsBytes (omega arith) (omega arith)
      (λ (e : 0x20 ≡ 0x21). absurd (omega arith))
