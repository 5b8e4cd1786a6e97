-- ===== src/Message/Code.antt =====
-- The code word of a message: `GET_TYPE`, `GET_MAJOR` and `GET_MINOR` of mblue_message.h, and the
-- packing in `init_message` of ipc/ipc_helper.c.
use mblue.Common.{ℕ, ◌+◌, ◌*◌, ◌/◌, ◌^◌, ◌<◌, ◌≡◌, ap, ◌∙◌, bit_and, bit_or, arith}
use mblue.Common.Bits.{bit_and_mask, bit_or_low, zero-bit_or}
use mblue.Common.Words.{◌<<◌, ◌>>◌}

-- `type` is a `uint8_t`, `major` and `minor` are `uint16_t`; the shifts are cut at 32 bits.
unfoldable pub make_code : ℕ → ℕ → ℕ → ℕ
make_code type major minor = bit_or (bit_or (type << 28) (major << 16)) minor

unfoldable pub get_type : ℕ → ℕ
get_type code = code >> 28

unfoldable pub get_major : ℕ → ℕ
get_major code = bit_and (code >> 16) 0xFFF

unfoldable pub get_minor : ℕ → ℕ
get_minor code = bit_and code 0xFFFF

packed_high :
    (type major : ℕ)
    → type < 16
    → major < 2 ^ 12
    → bit_or (type << 28) (major << 16) ≡ type * 2 ^ 28 + major * 2 ^ 16
packed_high type major ht hm =
    ap (λ (t : ℕ). bit_or t (major << 16)) (omega arith)
    ∙ bit_or_low 28 type 0 (major << 16) (omega arith) (omega arith)
    ∙ omega (arith, zero-bit_or (major << 16))

-- With the type in 4 bits, the major number in 12 and the minor number in 16, `|` of the shifted
-- fields is their sum.
pub make_code_lem :
    (type major minor : ℕ)
    → type < 16
    → major < 2 ^ 12
    → minor < 2 ^ 16
    → make_code type major minor ≡ type * 2 ^ 28 + major * 2 ^ 16 + minor
unfolding make_code
make_code_lem type major minor ht hm hn =
    ap (λ (t : ℕ). bit_or t minor) (packed_high type major ht hm ∙ omega arith)
    ∙ bit_or_low 16 (type * 2 ^ 12 + major) 0 minor (omega arith) hn
    ∙ omega (arith, zero-bit_or minor)

-- The three fields that `init_message` packs are the ones that GET_TYPE, GET_MAJOR and GET_MINOR
-- read, for a type below 16, a major number below 2 ^ 12 and a minor number below 2 ^ 16.
pub get-make_code :
    (type major minor : ℕ)
    → type < 16
    → major < 2 ^ 12
    → minor < 2 ^ 16
    → (get_type (make_code type major minor) ≡ type)
      × (get_major (make_code type major minor) ≡ major)
      × (get_minor (make_code type major minor) ≡ minor)
unfolding get_type get_major get_minor
get-make_code type major minor ht hm hn = rw (make_code_lem type major minor ht hm hn) (
  omega arith,
  omega (arith, bit_and_mask 12 ((type * 2 ^ 28 + major * 2 ^ 16 + minor) / 2 ^ 16)),
  omega (arith, bit_and_mask 16 (type * 2 ^ 28 + major * 2 ^ 16 + minor)),
)
