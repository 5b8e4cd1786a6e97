-- ===== src/SmartData/Tags.antt =====
-- The smart pointer macros of middleware/common/mblue_macro.h, on 32-bit words.
use mblue.Common.{ℕ, Bool, not, ◌&&◌, ◌==◌, bit_and, bit_or}
use mblue.Common.Words.{◌<<◌, ◌>>◌}

abbrev pub tag : ℕ → ℕ
tag x = bit_and x 3

unfoldable pub pb_payload : ℕ → Bool
pb_payload x = not (x == 0) && tag x == 0

unfoldable pub integer_p : ℕ → Bool
integer_p x = tag x == 1

unfoldable pub get_integer : ℕ → ℕ
get_integer x = x >> 2

unfoldable pub get_pointer : ℕ → ℕ
get_pointer x = x >> 2 << 2

unfoldable pub pointer_s : ℕ → Bool
unfolding get_pointer
pointer_s x = not (get_pointer x == 0) && tag x == 2

unfoldable pub pointer_h : ℕ → Bool
unfolding get_pointer
pointer_h x = not (get_pointer x == 0) && tag x == 3

unfoldable pub make_integer : ℕ → ℕ
make_integer x = bit_or (x << 2) 1

unfoldable pub make_pointer_s : ℕ → ℕ
make_pointer_s x = bit_or x 2

unfoldable pub make_pointer_h : ℕ → ℕ
make_pointer_h x = bit_or x 3
