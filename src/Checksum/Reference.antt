-- ===== src/Checksum/Reference.antt =====
-- CRC-32C, one bit at a time: the remainder by the reversed polynomial 0x82F63B78 of the bits of the
-- buffer, the lowest bit of a byte first.
use mblue.Common.{
  ℕ, zero, suc, ◌*◌, ◌/◌, ◌%◌, ◌^◌, ◌<◌, ◌≡◌, sym, ap, ◌∙◌, List, [], ◌∷◌, bit_xor, arith, ◌==◌,
  if◌then◌else◌, Bool-cases, inl, inr,
}
use mblue.Common.Bits.{two_pow_step}
use mblue.Common.Xor.{
  bit_xor-mod, bit_xor-half, bit_xor-zero, bit_xor_swap, bit_xor_assoc, bit_xor_comm, bit_xor_low,
}
use native.Mathlib.Nat.{pow-suc}

abbrev pub polynomial : ℕ
polynomial = 0x82F63B78

-- One division step.
unfoldable pub shift : ℕ → ℕ
shift x = if x % 2 == 0 then x / 2 else bit_xor (x / 2) polynomial

-- The `k` lowest bits of `b` are fed into the remainder.
unfoldable pub feed : ℕ → ℕ → ℕ → ℕ
feed zero crc b = crc
feed (suc k) crc b = feed k (shift (bit_xor crc (b % 2))) (b / 2)

unfoldable pub crc32c_bits : ℕ → List ℕ → ℕ
crc32c_bits crc [] = crc
crc32c_bits crc (b ∷ buffer) = crc32c_bits (feed 8 crc b) buffer

unfoldable pub shifts : ℕ → ℕ → ℕ
shifts zero x = x
shifts (suc k) x = shifts k (shift x)

pub shift-bit_xor : (x y : ℕ) → shift (bit_xor x (y * 2)) ≡ bit_xor (shift x) y
unfolding shift
shift-bit_xor x y = elim (Bool-cases (x % 2 == 0)) [
  | inl even ↦ rw even (ground (arith, even, parity, half))
  | inr odd ↦ rw odd (ground (arith, odd, parity, half, bit_xor_swap (x / 2) y polynomial))
]
  where
    parity : bit_xor x (y * 2) % 2 ≡ x % 2
    parity = omega (arith, bit_xor-mod x (y * 2))

    half : bit_xor x (y * 2) / 2 ≡ bit_xor (x / 2) y
    half = bit_xor-half x (y * 2) ∙ ap (bit_xor (x / 2)) (omega arith)

pub shifts-bit_xor : (k x y : ℕ) → shifts k (bit_xor x (y * 2 ^ k)) ≡ bit_xor (shifts k x) y
unfolding shifts
shifts-bit_xor zero x y = ap (bit_xor x) (omega arith)
shifts-bit_xor (suc k) x y =
    ap (λ (t : ℕ). shifts k (shift (bit_xor x t))) (two_pow_step y k)
    ∙ ap (shifts k) (shift-bit_xor x (y * 2 ^ k))
    ∙ shifts-bit_xor k (shift x) y

-- Feeding the bits one by one is feeding them at once.
pub feed-shifts : (k crc b : ℕ) → b < 2 ^ k → feed k crc b ≡ shifts k (bit_xor crc b)
unfolding feed shifts
feed-shifts zero crc b h =
    let none : b ≡ 0 = omega arith in sym (bit_xor-zero crc) ∙ ap (bit_xor crc) (sym none)
feed-shifts (suc k) crc b h =
    feed-shifts k (shift (bit_xor crc (b % 2))) (b / 2) (omega (arith, pow-suc 2 k))
    ∙ ap (shifts k) (sym (shift-bit_xor (bit_xor crc (b % 2)) (b / 2)) ∙ ap shift whole)
  where
    low : bit_xor (b % 2) (b / 2 * 2) ≡ b
    low =
        bit_xor_comm (b % 2) (b / 2 * 2) ∙ bit_xor_low 1 (b / 2) (b % 2) (omega arith) ∙ omega arith

    whole : bit_xor (bit_xor crc (b % 2)) (b / 2 * 2) ≡ bit_xor crc b
    whole = bit_xor_assoc crc (b % 2) (b / 2 * 2) ∙ ap (bit_xor crc) low
