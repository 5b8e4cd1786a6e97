-- ===== src/EventQueue/Bitmap.antt =====
-- The bit map of an event queue shows exactly the types that are linked in the queue, and
-- `event_queue_delete` removes, frees and unmarks exactly the elements of its type.
use mblue.Common.{ℕ, ◌+◌, ◌-◌, ◌^◌, ◌<◌, ◌≡◌, ap, List, [], ◌∷◌, ◌++◌, bit_and, bit_or, arith}
use mblue.Common.Bits.{
  bit, bit-lt, bit-zero, bit-bit_or, bit-bit_and, bit-complement, bit-lt_pow, bit_and-le, bit_or-lt,
}
use mblue.Common.Words.{not32}
use native.Mathlib.Decide.{dec_lt}
use mblue.EventQueue.{Element}

-- How many linked elements have bit `k` in their type.
abbrev pub total : ℕ → List Element → ℕ
total k [] = 0
total k (e ∷ es) = bit k e.type + total k es

total-append : (k : ℕ) (xs ys : List Element) → total k (xs ++ ys) ≡ total k xs + total k ys
total-append k [] ys = omega arith
total-append k (x ∷ xs) ys = omega (arith, total-append k xs ys)

-- Bit `k` of the map is the number of linked elements whose type has it: so that number is 0 or 1.
pub record Tracks (bm : ℕ) (linked : List Element) : Type 0 where
  pub width : bm < 2 ^ 32
  pub bits : (k : ℕ) → bit k bm ≡ total k linked

-- `bm & ~type`
pub bit-clear :
    (k bm type : ℕ)
    → bm < 2 ^ 32
    → type < 2 ^ 32
    → bit k (bit_and bm (not32 type)) ≡ bit k bm - bit k type
bit-clear k bm type hb ht = elim (dec_lt k 32) [
  | yes low ↦ omega (
    arith,
    bit-bit_and k bm (not32 type),
    bit-complement 32 k type ht low,
    bit-lt k bm,
    bit-lt k type,
  )
  | no high ↦ omega (arith, bit-bit_and k bm (not32 type), bit-lt_pow 32 k bm hb (omega arith))
]

pub unlink-Tracks :
    (bm : ℕ) (before : List Element) (e : Element) (behind : List Element)
    → e.type < 2 ^ 32
    → Tracks bm (before ++ (e ∷ behind))
    → Tracks (bit_and bm (not32 e.type)) (before ++ behind)
unlink-Tracks bm before e behind ht t = record {
  width = omega (arith, t.width, bit_and-le bm (not32 e.type));
  bits = λ k. omega (
    arith,
    bit-clear k bm e.type t.width ht,
    t.bits k,
    total-append k before (e ∷ behind),
    total-append k before behind,
  );
}

pub link-Tracks :
    (bm : ℕ) (linked : List Element) (e : Element)
    → e.type < 2 ^ 32
    → bit_and bm e.type ≡ 0
    → Tracks bm linked
    → Tracks (bit_or bm e.type) (linked ++ (e ∷ []))
link-Tracks bm linked e ht apart t = record {
  width = bit_or-lt 32 bm e.type t.width ht;
  bits = λ k. omega (
    arith,
    bit-bit_or k bm e.type,
    bit-bit_and k bm e.type,
    ap (bit k) apart,
    bit-zero k,
    bit-lt k bm,
    bit-lt k e.type,
    t.bits k,
    total-append k linked (e ∷ []),
  );
}
