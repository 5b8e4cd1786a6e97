-- ===== src/Log/Dump.antt =====
-- The text of log_service_hex.
use mblue.Common.{
  ℕ, ◌+◌, ◌*◌, ◌^◌, ◌<◌, ◌≡◌, ◌≢◌, ap, ◌∙◌, List, [], ◌∷◌, ◌++◌, ◌==◌, if_intro, Option, some,
  length, replicate, length-append, Bool-cases, inl, inr, length-replicate, arith,
}
use mblue.Common.Words.{u32}
use mblue.Schema.{Heap, mblue_free, remove}
use mblue.Errcode.{Errcode}
use mblue.Log.Client.{
  hex_loop, log_service_hex, send, send_hex, print_hex, Ipc, log_service_hex_minor,
}
use mblue.Log.Text.{sprintf_lem, IsText, append-IsText, string, strlen, write, string-replicate}
use mblue.Log.Hex.{hex, unhex, IsBytes, unhex-hex, length-hex, hex-IsText, hex_loop_lem}

-- What the dump of a buffer says.
abbrev pub dump : List ℕ → List ℕ → List ℕ
dump name buffer = name ++ ((b':' ∷ hex buffer) ++ (b'\n' ∷ []))

dump-IsText : (name buffer : List ℕ) → IsText name → IsText (dump name buffer)
dump-IsText name buffer is_text = append-IsText name ((b':' ∷ hex buffer) ++ (b'\n' ∷ [])) is_text (
    append-IsText (b':' ∷ hex buffer) (b'\n' ∷ []) (omega arith, hex-IsText buffer)
      (omega arith, tt))

length-dump :
    (name buffer : List ℕ) → length (dump name buffer) ≡ length name + 2 * length buffer + 2
length-dump name buffer = omega (
  arith,
  length-append name ((b':' ∷ hex buffer) ++ (b'\n' ∷ [])),
  length-append (b':' ∷ hex buffer) (b'\n' ∷ []),
  length-hex buffer,
)

abbrev size_of_hex : List ℕ → ℕ
size_of_hex buffer = u32 (length buffer * 3 + 8)

abbrev size_of_dump : List ℕ → List ℕ → ℕ
size_of_dump name buffer = u32 (length name + 2 * length buffer + 16)

free_other : (p q : ℕ) (blocks : List ℕ) → mblue_free p (some (q ∷ p ∷ blocks)) ≡ some (q ∷ blocks)
unfolding mblue_free remove
free_other p q blocks = elim (Bool-cases (q == p)) [
  | inl same ↦ rw same (ground (arith, same))
  | inr different ↦ ground (arith, different)
]

strlen-replicate : (n : ℕ) → strlen (replicate n 0) ≡ 0
unfolding strlen
strlen-replicate n = ap (λ (l : List ℕ). length l) (string-replicate n)

send_hex_lem :
    (ipc : Ipc) (data_array temp : ℕ) (blocks filled text : List ℕ)
    → temp ≢ 0
    → string filled ≡ text
    → send_hex ipc data_array temp (some blocks) (some filled)
      ≡ some (send ipc log_service_hex_minor 0 text temp (some (temp ∷ blocks)))
unfolding send_hex
send_hex_lem ipc data_array temp blocks filled text ne e =
    let goal = some (send ipc log_service_hex_minor 0 text temp (some (temp ∷ blocks))) in
    if_intro (λ result. result ≡ goal) (temp == 0) (λ null. absurd (ne (ground (arith, null))))
      (λ there.
        ap
          (λ (t : List ℕ). some (
            send ipc log_service_hex_minor 0 t temp
              (mblue_free data_array (some (temp ∷ data_array ∷ blocks)))))
          e
        ∙ ap (λ (h : Heap). some (send ipc log_service_hex_minor 0 text temp h))
            (free_other data_array temp blocks))

-- The second half of `log_service_hex` for a size and the digits.
abbrev with_text : Ipc → List ℕ → ℕ → List ℕ → ℕ → List ℕ → Option (Errcode × Heap)
with_text ipc name data_array blocks n digits =
    send_hex ipc data_array (ipc.malloc n (some (data_array ∷ blocks))) (some blocks)
      (write (replicate n 0) 0 ((name ++ ((b':' ∷ digits) ++ (b'\n' ∷ []))) ++ (0 ∷ [])))

print_hex_lem :
    (ipc : Ipc) (name buffer block blocks : List ℕ) (data_array temp : ℕ)
    → IsText name
    → length name + 3 * length buffer + 24 < 2 ^ 32
    → data_array ≢ 0
    → ipc.malloc (size_of_dump name buffer) (some (data_array ∷ blocks)) ≡ temp
    → temp ≢ 0
    → string block ≡ hex buffer
    → print_hex ipc name data_array (some blocks) (some block)
      ≡ some (send ipc log_service_hex_minor 0 (dump name buffer) temp (some (temp ∷ blocks)))
unfolding print_hex strlen
print_hex_lem ipc name buffer block blocks data_array temp is_text small ne answer ne' e =
    let goal =
      some (send ipc log_service_hex_minor 0 (dump name buffer) temp (some (temp ∷ blocks))) in
    let n = size_of_dump name buffer in
    let (filled, done, holds) =
      sprintf_lem n (dump name buffer) (dump-IsText name buffer is_text)
        (omega (arith, small, length-dump name buffer)) in
    if_intro (λ result. result ≡ goal) (data_array == 0)
      (λ null. absurd (ne (ground (arith, null))))
      (λ there.
        ap
          (λ (t : List ℕ).
            with_text ipc name data_array blocks (u32 (length name + length t + 16)) t)
          e
        ∙ ap
            (λ (len : ℕ).
              with_text ipc name data_array blocks (u32 (length name + len + 16)) (hex buffer))
            (length-hex buffer)
        ∙ ap
            (λ (p : ℕ).
              send_hex ipc data_array p (some blocks)
                (write (replicate n 0) 0 (dump name buffer ++ (0 ∷ []))))
            answer
        ∙ ap (λ (o : Option (List ℕ)). send_hex ipc data_array temp (some blocks) o) done
        ∙ send_hex_lem ipc data_array temp blocks filled (dump name buffer) ne' holds)

-- The text that `log_service_hex` sends is the prefix, a colon, two digits for each byte and a line
-- end, from which the bytes can be read back. It never writes behind its two blocks, and when the text
-- is sent the first one is free again. The prefix has no 0, the bytes are below 256, the sizes are below
-- 2 ^ 32, and `mblue_malloc` returns both blocks.
pub log_service_hex_lem :
    (ipc : Ipc) (name buffer blocks : List ℕ) (data_array temp : ℕ)
    → IsText name
    → IsBytes buffer
    → length name + 3 * length buffer + 24 < 2 ^ 32
    → ipc.malloc (size_of_hex buffer) (some blocks) ≡ data_array
    → data_array ≢ 0
    → ipc.malloc (size_of_dump name buffer) (some (data_array ∷ blocks)) ≡ temp
    → temp ≢ 0
    → (log_service_hex ipc name buffer (some blocks)
        ≡ some (send ipc log_service_hex_minor 0 (dump name buffer) temp (some (temp ∷ blocks))))
      × (unhex (hex buffer) ≡ buffer)
unfolding log_service_hex
log_service_hex_lem ipc name buffer blocks data_array temp is_text is_bytes small first ne second
      ne' =
    let n = size_of_hex buffer in
    let empty : List ℕ = replicate n 0 in
    let blank : string empty ≡ [] = string-replicate n in
    let (block, done, holds, long) =
      hex_loop_lem buffer empty is_bytes
        (omega (arith, small, length-replicate {A = ℕ} n 0, strlen-replicate n)) in
    let digits : string block ≡ hex buffer = holds ∙ ap (λ (l : List ℕ). l ++ hex buffer) blank in
    (
      ap (λ (p : ℕ). print_hex ipc name p (some blocks) (hex_loop buffer empty)) first
          ∙ ap (λ (o : Option (List ℕ)). print_hex ipc name data_array (some blocks) o) done
          ∙ print_hex_lem ipc name buffer block blocks data_array temp is_text small ne second ne'
              digits,
      unhex-hex buffer is_bytes,
    )
