-- ===== src/SmartData/Roundtrip.antt =====
-- What the tags of a smart word keep apart, and what survives the packing.
use mblue.Common.{
  ℕ, ◌+◌, ◌-◌, ◌*◌, ◌/◌, ◌%◌, ◌^◌, ◌<◌, ◌≡◌, ◌≢◌, ap, ◌∙◌, true, false, bit_or, arith,
}
use mblue.Common.Bits.{bit_and_mask, bit_or_low, zero-bit_or}
use mblue.Common.Words.{◌<<◌, word, signed}
use mblue.Common.Int.{pos, negsuc}
use mblue.SmartData.Tags.{
  tag, pb_payload, integer_p, get_integer, get_pointer, pointer_s, pointer_h, make_integer,
  make_pointer_s, make_pointer_h,
}

pub tag_lem : (x : ℕ) → tag x ≡ x % 4
tag_lem x = bit_and_mask 2 x

make_integer_lem : (x : ℕ) → make_integer x ≡ x % 2 ^ 30 * 4 + 1
unfolding make_integer
make_integer_lem x =
    omega (arith, bit_or_low 2 (x % 2 ^ 30) 0 1 (omega arith) (omega arith), shifted)
  where
    shifted : bit_or (x << 2) 1 ≡ bit_or (x % 2 ^ 30 * 2 ^ 2 + 0) 1
    shifted = ap (λ (t : ℕ). bit_or t 1) (omega arith)

make_pointer_lem : (p t : ℕ) → p % 4 ≡ 0 → t < 4 → bit_or p t ≡ p + t
make_pointer_lem p t h ht =
    ap (λ (q : ℕ). bit_or q t) (omega arith)
    ∙ bit_or_low 2 (p / 4) 0 t (omega arith) (omega arith)
    ∙ omega (arith, zero-bit_or t)

-- MAKE_INTEGER yields a word that INTEGER_P accepts and the pointer tests refuse, and GET_INTEGER
-- reads back the low 30 bits of the integer.
pub get_integer-make_integer :
    (x : ℕ)
    → (get_integer (make_integer x) ≡ x % 2 ^ 30)
      × (integer_p (make_integer x) ≡ true)
      × (pb_payload (make_integer x) ≡ false)
      × (pointer_s (make_integer x) ≡ false)
      × (pointer_h (make_integer x) ≡ false)
unfolding get_integer integer_p pb_payload pointer_s pointer_h
get_integer-make_integer x = ground (arith, make_integer_lem x, tag_lem (make_integer x))

-- A negative code does not come back from MAKE_INTEGER and GET_INTEGER: for every n below 2 ^ 31
-- the code -(n + 1) is read back as the non-negative number 2 ^ 30 - 1 - n % 2 ^ 30.
pub get_integer-negative :
    (n : ℕ)
    → n < 2 ^ 31
    → signed (get_integer (make_integer (word (negsuc n)))) ≡ pos (2 ^ 30 - 1 - n % 2 ^ 30)
unfolding get_integer
get_integer-negative n h = ground (arith, make_integer_lem (2 ^ 32 - 1 - n % 2 ^ 32))

-- GET_INTEGER of no 32-bit word, cast to `mblue_errcode`, is a negative code.
pub get_integer_nonneg : (w n : ℕ) → w < 2 ^ 32 → signed (get_integer w) ≢ negsuc n
unfolding get_integer
get_integer_nonneg w n h = ground arith

-- An aligned pointer that is not NULL is a payload as it is, comes back from MAKE_POINTER_S and
-- from MAKE_POINTER_H by GET_POINTER, and only the test of its own tag accepts the tagged word.
pub get_pointer-make_pointer :
    (p : ℕ)
    → p < 2 ^ 32
    → p % 4 ≡ 0
    → p ≢ 0
    → (pb_payload p ≡ true)
      × (get_pointer (make_pointer_s p) ≡ p)
      × (get_pointer (make_pointer_h p) ≡ p)
      × (pointer_s (make_pointer_s p) ≡ true)
      × (pointer_h (make_pointer_h p) ≡ true)
      × (pointer_h (make_pointer_s p) ≡ false)
      × (pointer_s (make_pointer_h p) ≡ false)
      × (integer_p (make_pointer_s p) ≡ false)
      × (pb_payload (make_pointer_s p) ≡ false)
      × (integer_p (make_pointer_h p) ≡ false)
      × (pb_payload (make_pointer_h p) ≡ false)
unfolding get_pointer make_pointer_s make_pointer_h pointer_s pointer_h pb_payload integer_p
get_pointer-make_pointer p h a ne =
    rw (make_pointer_lem p 2 a (omega arith), make_pointer_lem p 3 a (omega arith))
      (ground (arith, tag_lem p, tag_lem (p + 2), tag_lem (p + 3)))
