-- ===== src/Log/Hex.antt =====
-- The hexadecimal dump of a buffer.
use mblue.Common.{
  ℕ, ◌+◌, ◌-◌, ◌*◌, ◌/◌, ◌%◌, ◌≤◌, ◌<◌, ◌≡◌, ◌≢◌, refl, sym, ap, ◌∙◌, List, [], ◌∷◌, ◌++◌, ltb,
  if◌then◌else◌, Option, none, some, length, length-append, append_assoc, append-nil, Bool-cases,
  inl, inr, arith,
}
use mblue.Log.Client.{hex_digit, hexadecimal, hex_loop}
use mblue.Log.Text.{IsText, snprintf, snprintf-strlen, string, strlen}

-- The two digits of each byte.
abbrev pub hex : List ℕ → List ℕ
hex [] = []
hex (c ∷ buffer) = hex_digit (c / 16) ∷ hex_digit (c % 16) ∷ hex buffer

-- The value of a digit, and the bytes of a text of digits.
abbrev value : ℕ → ℕ
value d = if ltb d b'a' then d - b'0' else d - b'a' + 10

abbrev pub unhex : List ℕ → List ℕ
unhex [] = []
unhex (high ∷ []) = []
unhex (high ∷ low ∷ text) = (value high * 16 + value low) ∷ unhex text

abbrev pub IsBytes : List ℕ → Type 0
IsBytes [] = Unit {0}
IsBytes (c ∷ buffer) = (c < 256) × IsBytes buffer

value-hex_digit : (d : ℕ) → d < 16 → value (hex_digit d) ≡ d
unfolding hex_digit
value-hex_digit d h = ground arith

hex_digit_pos : (d : ℕ) → hex_digit d ≢ 0
unfolding hex_digit
hex_digit_pos d = ground arith

-- The bytes can be read back from their digits.
pub unhex-hex : (buffer : List ℕ) → IsBytes buffer → unhex (hex buffer) ≡ buffer
unhex-hex [] is_bytes = refl
unhex-hex (c ∷ buffer) (h, is_bytes) =
    let whole : value (hex_digit (c / 16)) * 16 + value (hex_digit (c % 16)) ≡ c =
      omega
        (arith, value-hex_digit (c / 16) (omega arith), value-hex_digit (c % 16) (omega arith)) in
    ap (λ (x : ℕ). x ∷ unhex (hex buffer)) whole
    ∙ ap (λ (l : List ℕ). c ∷ l) (unhex-hex buffer is_bytes)

pub length-hex : (buffer : List ℕ) → length (hex buffer) ≡ 2 * length buffer
length-hex [] = refl
length-hex (c ∷ buffer) = omega (arith, length-hex buffer)

pub hex-IsText : (buffer : List ℕ) → IsText (hex buffer)
hex-IsText [] = tt
hex-IsText (c ∷ buffer) = (hex_digit_pos (c / 16), (hex_digit_pos (c % 16), hex-IsText buffer))

zero_high : (c : ℕ) → c < 16 → 0 ≡ c / 16
zero_high c h = omega arith

low_all : (c : ℕ) → c < 16 → c ≡ c % 16
low_all c h = omega arith

-- Both formats print two digits.
two_digits :
    (c : ℕ)
    → c < 256
    → (if ltb c 16 then b'0' ∷ hexadecimal c else hexadecimal c)
      ≡ hex_digit (c / 16) ∷ hex_digit (c % 16) ∷ []
unfolding hexadecimal hex_digit
two_digits c h = elim (Bool-cases (ltb c 16)) [
  | inl small ↦ rw small (
      ap (λ (q : ℕ). hex_digit q ∷ hex_digit c ∷ []) (zero_high c (ground (arith, small)))
      ∙ ap (λ (r : ℕ). hex_digit (c / 16) ∷ hex_digit r ∷ []) (low_all c (ground (arith, small))))
  | inr large ↦ rw large refl
]

strlen_eq :
    (block block' text : List ℕ)
    → string block' ≡ string block ++ text
    → strlen block' ≡ strlen block + length text
unfolding strlen
strlen_eq block block' text e = ap (λ (l : List ℕ). length l) e ∙ length-append (string block) text

hex_step :
    (c : ℕ) (buffer block block' : List ℕ)
    → c < 256
    → snprintf block (strlen block) 3 (hex_digit (c / 16) ∷ hex_digit (c % 16) ∷ []) ≡ some block'
    → hex_loop (c ∷ buffer) block ≡ hex_loop buffer block'
unfolding hex_loop
hex_step c buffer block block' h done =
    ap (λ (o : Option (List ℕ)). elim o [ none ↦ none | some next ↦ hex_loop buffer next ])
      (ap (λ (t : List ℕ). snprintf block (strlen block) 3 t) (two_digits c h) ∙ done)

-- The loop appends the digits of the bytes while the block has room for them.
pub hex_loop_lem :
    (buffer block : List ℕ)
    → IsBytes buffer
    → strlen block + 2 * length buffer + 1 ≤ length block
    → (result : List ℕ) × (hex_loop buffer block ≡ some result)
      × (string result ≡ string block ++ hex buffer)
      × (length result ≡ length block)
unfolding hex_loop
hex_loop_lem [] block is_bytes room = (block, refl, sym (append-nil (string block)), refl)
hex_loop_lem (c ∷ buffer) block (h, is_bytes) room =
    let high = hex_digit (c / 16) in
    let low = hex_digit (c % 16) in
    let text = high ∷ low ∷ [] in
    let (block', done, holds, long) =
      snprintf-strlen block 2 text (hex_digit_pos (c / 16), (hex_digit_pos (c % 16), tt))
        (omega (arith, room)) in
    let grown : strlen block' ≡ strlen block + 2 = strlen_eq block block' text holds in
    let (result, rest, full, long') =
      hex_loop_lem buffer block' is_bytes (omega (arith, room, grown, long)) in
    (
      result,
      hex_step c buffer block block' h done ∙ rest,
      full
          ∙ ap (λ (l : List ℕ). l ++ hex buffer) holds
          ∙ append_assoc (string block) text (hex buffer),
      long' ∙ long,
    )
