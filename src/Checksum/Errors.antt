-- ===== src/Checksum/Errors.antt =====
-- What the CRC detects: a buffer with one byte changed has another CRC.
use mblue.Common.{
  ℕ, zero, suc, ◌+◌, ◌*◌, ◌/◌, ◌%◌, ◌^◌, ◌≤◌, ◌<◌, ◌≡◌, ◌≢◌, refl, sym, ap, ◌∙◌, List, [], ◌∷◌,
  ◌++◌, bit_xor, arith, ltb, ◌==◌, if◌then◌else◌, Bool-cases, inl, inr,
}
use mblue.Common.Xor.{
  bit_xor-zero, bit_xor_comm, bit_xor_assoc, bit_xor_self, bit_xor_low, bit_xor-lt,
}
use mblue.Checksum.{calculate_crc32}
use mblue.Checksum.Reference.{polynomial, shift, shifts, feed, feed-shifts, crc32c_bits}
use mblue.Checksum.Table.{IsBytes, calculate_crc32_lem}

undo_xor : (x c : ℕ) → bit_xor (bit_xor x c) c ≡ x
undo_xor x c = bit_xor_assoc x c c ∙ ap (bit_xor x) (bit_xor_self c) ∙ bit_xor-zero x

-- The polynomial has the highest bit, so a step can be taken back.
high : (x : ℕ) → x < 2 ^ 31 → 2 ^ 31 ≤ bit_xor x polynomial
high x h = omega (
  arith,
  whole,
  bit_xor_low 31 1 (bit_xor 0x02F63B78 x) (bit_xor-lt 31 0x02F63B78 x (omega arith) h),
)
  where
    whole : bit_xor x polynomial ≡ bit_xor (1 * 2 ^ 31) (bit_xor 0x02F63B78 x)
    whole = bit_xor_comm x polynomial ∙ bit_xor_assoc (1 * 2 ^ 31) 0x02F63B78 x

unshift : ℕ → ℕ
unshift y = if ltb y (2 ^ 31) then y * 2 else bit_xor y polynomial * 2 + 1

unshift-shift : (x : ℕ) → x < 2 ^ 32 → unshift (shift x) ≡ x
unfolding unshift shift
unshift-shift x h = elim (Bool-cases (x % 2 == 0)) [
  | inl even ↦ rw even (ground (arith, even))
  | inr odd ↦
      let big = high (x / 2) (omega arith) in
      let back = undo_xor (x / 2) polynomial in rw odd (ground (arith, odd, big, back))
]

shift-lt : (x : ℕ) → x < 2 ^ 32 → shift x < 2 ^ 32
unfolding shift
shift-lt x h = ground (arith, bit_xor-lt 32 (x / 2) polynomial)

shift-injective : (x y : ℕ) → x < 2 ^ 32 → y < 2 ^ 32 → shift x ≡ shift y → x ≡ y
shift-injective x y hx hy e = sym (unshift-shift x hx) ∙ ap unshift e ∙ unshift-shift y hy

xor_injective : (x y c : ℕ) → bit_xor x c ≡ bit_xor y c → x ≡ y
xor_injective x y c e = sym (undo_xor x c) ∙ ap (λ (t : ℕ). bit_xor t c) e ∙ undo_xor y c

digit-lt : (x b : ℕ) → x < 2 ^ 32 → bit_xor x (b % 2) < 2 ^ 32
digit-lt x b h = bit_xor-lt 32 x (b % 2) h (omega arith)

feed-lt : (k x b : ℕ) → x < 2 ^ 32 → feed k x b < 2 ^ 32
unfolding feed
feed-lt zero x b h = h
feed-lt (suc k) x b h =
    feed-lt k (shift (bit_xor x (b % 2))) (b / 2) (shift-lt (bit_xor x (b % 2)) (digit-lt x b h))

-- Remainders stay apart when the same bits are fed to them.
feed_injective : (k x y b : ℕ) → x < 2 ^ 32 → y < 2 ^ 32 → feed k x b ≡ feed k y b → x ≡ y
unfolding feed
feed_injective zero x y b hx hy e = e
feed_injective (suc k) x y b hx hy e =
    let dx = digit-lt x b hx in
    let dy = digit-lt y b hy in
    xor_injective x y (b % 2) (
      shift-injective (bit_xor x (b % 2)) (bit_xor y (b % 2)) dx dy (
        feed_injective k (shift (bit_xor x (b % 2))) (shift (bit_xor y (b % 2))) (b / 2)
          (shift-lt (bit_xor x (b % 2)) dx) (shift-lt (bit_xor y (b % 2)) dy) e))

crc32c_bits-lt : (bs : List ℕ) (x : ℕ) → x < 2 ^ 32 → crc32c_bits x bs < 2 ^ 32
unfolding crc32c_bits
crc32c_bits-lt [] x h = h
crc32c_bits-lt (b ∷ bs) x h = crc32c_bits-lt bs (feed 8 x b) (feed-lt 8 x b h)

crc32c_bits_injective :
    (bs : List ℕ) (x y : ℕ) → x < 2 ^ 32 → y < 2 ^ 32 → crc32c_bits x bs ≡ crc32c_bits y bs → x ≡ y
unfolding crc32c_bits
crc32c_bits_injective [] x y hx hy e = e
crc32c_bits_injective (b ∷ bs) x y hx hy e =
    feed_injective 8 x y b hx hy
      (crc32c_bits_injective bs (feed 8 x b) (feed 8 y b) (feed-lt 8 x b hx) (feed-lt 8 y b hy) e)

shifts_injective : (k x y : ℕ) → x < 2 ^ 32 → y < 2 ^ 32 → shifts k x ≡ shifts k y → x ≡ y
unfolding shifts
shifts_injective zero x y hx hy e = e
shifts_injective (suc k) x y hx hy e =
    shift-injective x y hx hy
      (shifts_injective k (shift x) (shift y) (shift-lt x hx) (shift-lt y hy) e)

-- Other bytes lead a remainder to others.
feed_byte_injective : (x a b : ℕ) → x < 2 ^ 32 → a < 256 → b < 256 → feed 8 x a ≡ feed 8 x b → a ≡ b
feed_byte_injective x a b hx ha hb e =
    let same : bit_xor x a ≡ bit_xor x b =
      shifts_injective 8 (bit_xor x a) (bit_xor x b) (bit_xor-lt 32 x a hx (omega arith))
        (bit_xor-lt 32 x b hx (omega arith))
        (sym (feed-shifts 8 x a ha) ∙ e ∙ feed-shifts 8 x b hb) in
    xor_injective a b x (bit_xor_comm a x ∙ same ∙ bit_xor_comm x b)

crc32c_bits-append :
    (before after : List ℕ) (x : ℕ)
    → crc32c_bits x (before ++ after) ≡ crc32c_bits (crc32c_bits x before) after
unfolding crc32c_bits
crc32c_bits-append [] after x = refl
crc32c_bits-append (b ∷ before) after x = crc32c_bits-append before after (feed 8 x b)

IsBytes-append :
    (before after : List ℕ) → IsBytes before → IsBytes after → IsBytes (before ++ after)
IsBytes-append [] after h k = k
IsBytes-append (b ∷ before) after h k = (h.0, IsBytes-append before after h.1 k)

-- Two buffers that differ in exactly one byte have different CRCs.
pub calculate_crc32-ne :
    (before after : List ℕ) (a b : ℕ)
    → IsBytes before
    → IsBytes after
    → a < 256
    → b < 256
    → a ≢ b
    → calculate_crc32 (before ++ (a ∷ after)) ≢ calculate_crc32 (before ++ (b ∷ after))
unfolding crc32c_bits
calculate_crc32-ne before after a b hbefore hafter ha hb apart e = apart (
    feed_byte_injective x a b bound ha hb (
      crc32c_bits_injective after (feed 8 x a) (feed 8 x b) (feed-lt 8 x a bound)
        (feed-lt 8 x b bound) tails))
  where
    x : ℕ
    x = crc32c_bits 0xFFFFFFFF before

    bound : x < 2 ^ 32
    bound = crc32c_bits-lt before 0xFFFFFFFF (omega arith)

    all : (c : ℕ) → c < 256 → IsBytes (before ++ (c ∷ after))
    all c h = IsBytes-append before (c ∷ after) hbefore (h, hafter)

    tails : crc32c_bits (feed 8 x a) after ≡ crc32c_bits (feed 8 x b) after
    tails =
        sym (crc32c_bits-append before (a ∷ after) 0xFFFFFFFF)
        ∙ xor_injective _ _ 0xFFFFFFFF (
            sym (calculate_crc32_lem (before ++ (a ∷ after)) (all a ha))
            ∙ e
            ∙ calculate_crc32_lem (before ++ (b ∷ after)) (all b hb))
        ∙ crc32c_bits-append before (b ∷ after) 0xFFFFFFFF
