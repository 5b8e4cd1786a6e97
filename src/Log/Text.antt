-- ===== src/Log/Text.antt =====
-- The strings of C in a block of memory: they end at the first 0.
use mathlib.Core.Path.{subst}
use mblue.Common.{
  ℕ, zero, suc, ◌+◌, ◌/◌, ◌%◌, ◌≤◌, ◌<◌, ◌≡◌, ◌≢◌, refl, sym, ap, ◌∙◌, List, [], ◌∷◌, ◌++◌, leb,
  ltb, ◌==◌, if◌then◌else◌, if_intro, Option, none, some, take, drop, length, replicate,
  length-append, length-replicate, length-take, length-drop, append_assoc, arith,
}

-- The string at the start of a block.
unfoldable pub string : List ℕ → List ℕ
string [] = []
string (c ∷ cs) = let rest = string cs in if c == 0 then [] else c ∷ rest

unfoldable pub strlen : List ℕ → ℕ
unfolding string
strlen block = length (string block)

-- A write into a block; `none` when it goes behind the end.
unfoldable pub write : List ℕ → ℕ → List ℕ → Option (List ℕ)
write block offset bytes =
    if leb (offset + length bytes) (length block)
    then some (take offset block ++ (bytes ++ drop (offset + length bytes) block))
    else none

-- `snprintf(block + offset, size, ...)` of a text: it is cut at size - 1 characters.
unfoldable pub snprintf : List ℕ → ℕ → ℕ → List ℕ → Option (List ℕ)
unfolding write
snprintf block offset zero text = some block
snprintf block offset (suc size) text = write block offset (take size text ++ (0 ∷ []))

-- `%d` of a number below 10 ^ fuel.
unfoldable pub decimal : ℕ → ℕ → List ℕ
decimal zero n = []
decimal (suc fuel) n =
    let rest = decimal fuel (n / 10) in (if ltb n 10 then [] else rest) ++ ((48 + n % 10) ∷ [])

abbrev pub IsText : List ℕ → Type 0
IsText [] = Unit {0}
IsText (c ∷ cs) = (c ≢ 0) × IsText cs

pub append-IsText : (s t : List ℕ) → IsText s → IsText t → IsText (s ++ t)
append-IsText [] t is_s is_t = is_t
append-IsText (c ∷ s) t (ne, is_s) is_t = (ne, append-IsText s t is_s is_t)

pub take-IsText : (n : ℕ) (t : List ℕ) → IsText t → IsText (take n t)
take-IsText zero t is_t = tt
take-IsText (suc n) [] is_t = tt
take-IsText (suc n) (c ∷ t) (ne, is_t) = (ne, take-IsText n t is_t)

pub decimal-IsText : (fuel n : ℕ) → IsText (decimal fuel n)
unfolding decimal
decimal-IsText zero n = tt
decimal-IsText (suc fuel) n =
    if_intro (λ text. IsText (text ++ ((48 + n % 10) ∷ []))) (ltb n 10) (λ digit. (omega arith, tt))
      (λ digits.
        append-IsText (decimal fuel (n / 10)) ((48 + n % 10) ∷ []) (decimal-IsText fuel (n / 10))
          (omega arith, tt))

pub string-IsText : (block : List ℕ) → IsText (string block)
unfolding string
string-IsText [] = tt
string-IsText (c ∷ cs) =
    if_intro (λ text. IsText text) (c == 0) (λ end. tt)
      (λ inside. (ground (arith, inside), string-IsText cs))

-- A text in a block with a 0 behind it is the string there.
pub string-append : (t rest : List ℕ) → IsText t → string (t ++ (0 ∷ rest)) ≡ t
unfolding string
string-append [] rest is_t = refl
string-append (c ∷ t) rest (ne, is_t) =
    if_intro (λ text. text ≡ c ∷ t) (c == 0) (λ end. absurd (ground (arith, end)))
      (λ inside. ap (λ (l : List ℕ). c ∷ l) (string-append t rest is_t))

-- The string of a block is what the block starts with.
pub take-strlen : (block : List ℕ) → take (strlen block) block ≡ string block
unfolding strlen string
take-strlen [] = refl
take-strlen (c ∷ cs) =
    if_intro (λ text. take (length text) (c ∷ cs) ≡ text) (c == 0) (λ end. refl)
      (λ inside. ap (λ (l : List ℕ). c ∷ l) (take-strlen cs))

pub strlen_le : (block : List ℕ) → strlen block ≤ length block
unfolding strlen string
strlen_le [] = omega arith
strlen_le (c ∷ cs) =
    if_intro (λ text. length text ≤ suc (length cs)) (c == 0) {x = []} {y = c ∷ string cs}
      (λ end. omega arith) (λ inside. omega (arith, strlen_le cs))

regroup : (s t rest : List ℕ) → s ++ ((t ++ (0 ∷ [])) ++ rest) ≡ (s ++ t) ++ (0 ∷ rest)
regroup s t rest =
    ap (λ (l : List ℕ). s ++ l) (append_assoc t (0 ∷ []) rest) ∙ sym (append_assoc s t (0 ∷ rest))

-- What `snprintf` at the end of the string writes.
abbrev appended : List ℕ → List ℕ → List ℕ
appended block bytes =
    (string block ++ bytes) ++ (0 ∷ drop (strlen block + length (bytes ++ (0 ∷ []))) block)

write-strlen :
    (block bytes : List ℕ)
    → strlen block + length bytes + 1 ≤ length block
    → write block (strlen block) (bytes ++ (0 ∷ [])) ≡ some (appended block bytes)
unfolding write
write-strlen block bytes room =
    let all = bytes ++ (0 ∷ []) in
    let end : length all ≡ length bytes + 1 = length-append bytes (0 ∷ []) in
    if_intro (λ result. result ≡ some (appended block bytes))
      (leb (strlen block + length all) (length block))
      (λ fits.
        ap (λ (l : List ℕ). some l)
          (ap (λ (l : List ℕ). l ++ (all ++ drop (strlen block + length all) block))
              (take-strlen block)
            ∙ regroup (string block) bytes (drop (strlen block + length all) block)))
      (λ full. absurd (ground (arith, full, end)))

length-appended :
    (block bytes : List ℕ)
    → strlen block + length bytes + 1 ≤ length block
    → length (appended block bytes) ≡ length block
unfolding strlen
length-appended block bytes room =
    let tail = drop (strlen block + length (bytes ++ (0 ∷ []))) block in
    omega (
      arith,
      length-append (string block ++ bytes) (0 ∷ tail),
      length-append (string block) bytes,
      length-append bytes (0 ∷ []),
      length-drop (strlen block + length (bytes ++ (0 ∷ []))) block,
    )

-- `snprintf` at the end of the string appends what fits, and the block stays as long as it was.
pub snprintf-strlen :
    (block : List ℕ) (size : ℕ) (text : List ℕ)
    → IsText text
    → strlen block + length (take size text) + 1 ≤ length block
    → (result : List ℕ) × (snprintf block (strlen block) (suc size) text ≡ some result)
      × (string result ≡ string block ++ take size text)
      × (length result ≡ length block)
unfolding snprintf
snprintf-strlen block size text is_text room =
    let bytes = take size text in
    (
      appended block bytes,
      write-strlen block bytes room,
      string-append (string block ++ bytes) (drop (strlen block + length (bytes ++ (0 ∷ []))) block)
          (append-IsText (string block) bytes (string-IsText block)
            (take-IsText size text is_text)),
      length-appended block bytes room,
    )

-- The same with the string, the length and the size at hand.
pub snprintf-append :
    (block start : List ℕ) (n size last : ℕ) (text : List ℕ)
    → string block ≡ start
    → length block ≡ n
    → size ≡ suc last
    → IsText text
    → length start + length (take last text) + 1 ≤ n
    → (result : List ℕ) × (snprintf block (length start) size text ≡ some result)
      × (string result ≡ start ++ take last text)
      × (length result ≡ n)
unfolding strlen
snprintf-append block start n size last text e e' e'' is_text room =
    let (result, done, holds, long) =
      snprintf-strlen block last text is_text
        (omega (arith, room, e', ap (λ (s : List ℕ). length s) e)) in
    (
      result,
      subst (λ m. snprintf block (length start) m text ≡ some result) (sym e'')
          (subst (λ s. snprintf block (length s) (suc last) text ≡ some result) e done),
      holds ∙ ap (λ (s : List ℕ). s ++ take last text) e,
      long ∙ e',
    )

-- A block that is cleared holds no string.
pub string-replicate : (n : ℕ) → string (replicate n 0) ≡ []
unfolding string
string-replicate zero = refl
string-replicate (suc n) = refl

pub take-all : (n : ℕ) (t : List ℕ) → length t ≤ n → take n t ≡ t
take-all zero [] h = refl
take-all zero (x ∷ t) h = absurd (omega arith)
take-all (suc n) [] h = refl
take-all (suc n) (x ∷ t) h = ap (λ (l : List ℕ). x ∷ l) (take-all n t (omega arith))

pub replicate-IsText : (n c : ℕ) → c ≢ 0 → IsText (replicate n c)
replicate-IsText zero c ne = tt
replicate-IsText (suc n) c ne = (ne, replicate-IsText n c ne)

-- `sprintf` into a block of zeros that has room.
pub sprintf_lem :
    (n : ℕ) (text : List ℕ)
    → IsText text
    → length text < n
    → (result : List ℕ) × (write (replicate n 0) 0 (text ++ (0 ∷ [])) ≡ some result)
      × (string result ≡ text)
unfolding snprintf
sprintf_lem n text is_text room =
    let empty : List ℕ = replicate n 0 in
    let whole = take-all (length text) text (omega arith) in
    let (result, done, holds, long) =
      snprintf-append empty [] n (suc (length text)) (length text) text (string-replicate n)
        (length-replicate n 0) refl is_text (omega (arith, room, length-take (length text) text)) in
    (result, ap (λ (t : List ℕ). write empty 0 (t ++ (0 ∷ []))) (sym whole) ∙ done, holds ∙ whole)
