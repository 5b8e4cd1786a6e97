-- ===== src/Checksum/Table.antt =====
-- The table of mblue_crc.c is the remainders of the 256 bytes, so a byte is fed in one step.
use mblue.Common.{
  ℕ, zero, suc, ◌*◌, ◌/◌, ◌%◌, ◌^◌, ◌<◌, ◌≡◌, refl, sym, ap, ◌∙◌, Bool, true, ◌&&◌, List, [], ◌∷◌,
  bit_xor, get_or, arith, ◌==◌, ==_iff,
}
use mblue.Common.Bits.{bit_and_mask}
use mblue.Common.Xor.{bit_xor-half, bit_xor-zero, bit_xor_comm, bit_xor_low}
use mblue.Checksum.{crc32c_table, crc_byte, crc_loop, calculate_crc32}
use mblue.Checksum.Reference.{shift, shifts, feed, crc32c_bits, feed-shifts, shifts-bit_xor}

below : ℕ → (ℕ → Bool) → Bool
below zero test = true
below (suc n) test = test n && below n test

below_all : (test : ℕ → Bool) (n k : ℕ) → below n test ≡ true → k < n → test k ≡ true
unfolding below
below_all test zero k h lt = absurd (omega arith)
below_all test (suc n) k h lt = ground (arith, below_all test n k)

entries : below 256 (λ k. get_or crc32c_table k 0 == shifts 8 k) ≡ true
unfolding below shifts shift
entries = refl

entry : (k : ℕ) → k < 256 → get_or crc32c_table k 0 ≡ shifts 8 k
entry k h =
    (==_iff (get_or crc32c_table k 0) (shifts 8 k)).0
      (below_all (λ n. get_or crc32c_table n 0 == shifts 8 n) 256 k entries h)

-- The bytes of a buffer are below 256.
abbrev pub IsBytes : List ℕ → Type 0
IsBytes [] = Unit {0}
IsBytes (b ∷ bs) = (b < 256) × IsBytes bs

abbrev halves : ℕ → ℕ → ℕ
halves zero x = x
halves (suc k) x = halves k (x / 2)

halves-bit_xor : (k x y : ℕ) → halves k (bit_xor x y) ≡ bit_xor (halves k x) (halves k y)
halves-bit_xor zero x y = refl
halves-bit_xor (suc k) x y = ap (halves k) (bit_xor-half x y) ∙ halves-bit_xor k (x / 2) (y / 2)

high_byte : (crc b : ℕ) → b < 256 → bit_xor crc b / 256 ≡ crc / 256
high_byte crc b h =
    let apart = halves-bit_xor 8 crc b in
    let none : halves 8 b ≡ 0 = omega arith in
    omega (arith, apart, ap (bit_xor (halves 8 crc)) none, bit_xor-zero (halves 8 crc))

pub crc_byte-feed : (crc b : ℕ) → b < 256 → crc_byte crc b ≡ feed 8 crc b
unfolding crc_byte
crc_byte-feed crc b h =
    ap (λ (k : ℕ). bit_xor (get_or crc32c_table k 0) (crc / 256)) (bit_and_mask 8 (bit_xor crc b))
    ∙ ap (λ (t : ℕ). bit_xor t (crc / 256)) (entry (bit_xor crc b % 256) (omega arith))
    ∙ ap (bit_xor (shifts 8 (bit_xor crc b % 256))) (sym (high_byte crc b h))
    ∙ sym (shifts-bit_xor 8 (bit_xor crc b % 256) (bit_xor crc b / 256))
    ∙ ap (shifts 8) (split (bit_xor crc b))
    ∙ sym (feed-shifts 8 crc b h)
  where
    split : (x : ℕ) → bit_xor (x % 256) (x / 256 * 2 ^ 8) ≡ x
    split x =
        bit_xor_comm (x % 256) (x / 256 * 2 ^ 8)
        ∙ bit_xor_low 8 (x / 256) (x % 256) (omega arith)
        ∙ omega arith

crc_loop-crc32c_bits : (bs : List ℕ) (crc : ℕ) → IsBytes bs → crc_loop crc bs ≡ crc32c_bits crc bs
unfolding crc_loop crc32c_bits
crc_loop-crc32c_bits [] crc h = refl
crc_loop-crc32c_bits (b ∷ bs) crc h =
    ap (λ (c : ℕ). crc_loop c bs) (crc_byte-feed crc b h.0)
    ∙ crc_loop-crc32c_bits bs (feed 8 crc b) h.1

-- `calculate_crc32`, which takes a byte at a time by its table, is CRC-32C, which takes a bit at a
-- time: all ones at the start, and the remainder of the bits of the buffer inverted at the end.
pub calculate_crc32_lem :
    (buffer : List ℕ)
    → IsBytes buffer
    → calculate_crc32 buffer ≡ bit_xor (crc32c_bits 0xFFFFFFFF buffer) 0xFFFFFFFF
unfolding calculate_crc32
calculate_crc32_lem buffer h =
    ap (λ (c : ℕ). bit_xor c 0xFFFFFFFF) (crc_loop-crc32c_bits buffer 0xFFFFFFFF h)
