-- ===== src/Checksum/Hash.antt =====
-- The sdbm hash is a polynomial in 65599, although each round computes modulo 2 ^ 32.
use mblue.Common.{
  ℕ, ◌+◌, ◌*◌, ◌%◌, ◌^◌, ◌<◌, ◌≡◌, ◌≢◌, refl, ap, ◌∙◌, List, [], ◌∷◌, ◌++◌, bit_and, arith,
}
use mblue.Common.Bits.{bit_and_mask}
use mblue.Checksum.{sdbm_round, sdbm_mem_loop, sdbm_mem, sdbm_hash_loop, sdbm_hash}

-- The polynomial with the bytes as coefficients, the last one constant, continued from `h`.
abbrev pub horner : ℕ → List ℕ → ℕ
horner h [] = h
horner h (c ∷ str) = horner (65599 * h + c) str

horner-mod :
    (str : List ℕ) (g h : ℕ)
    → g % 2 ^ 32 ≡ h % 2 ^ 32
    → horner g str % 2 ^ 32 ≡ horner h str % 2 ^ 32
horner-mod [] g h e = e
horner-mod (c ∷ str) g h e = horner-mod str (65599 * g + c) (65599 * h + c) (omega (arith, e))

sdbm_round_lem : (h c : ℕ) → h < 2 ^ 32 → sdbm_round h c ≡ (65599 * h + c) % 2 ^ 32
unfolding sdbm_round
sdbm_round_lem h c lt = omega arith

sdbm_mem_loop_lem :
    (str : List ℕ) (h : ℕ) → h < 2 ^ 32 → sdbm_mem_loop h str ≡ horner h str % 2 ^ 32
unfolding sdbm_mem_loop
sdbm_mem_loop_lem [] h lt = omega arith
sdbm_mem_loop_lem (c ∷ str) h lt =
    sdbm_mem_loop_lem str (sdbm_round h c) (omega (arith, sdbm_round_lem h c lt))
    ∙ horner-mod str (sdbm_round h c) (65599 * h + c) (omega (arith, sdbm_round_lem h c lt))

-- `sdbm_mem` of a buffer is the low 31 bits of the polynomial of its bytes, computed without any
-- wrap-around.
pub sdbm_mem_lem : (str : List ℕ) → sdbm_mem str ≡ horner 0 str % 2 ^ 31
unfolding sdbm_mem
sdbm_mem_lem str =
    bit_and_mask 31 (sdbm_mem_loop 0 str) ∙ omega (arith, sdbm_mem_loop_lem str 0 (omega arith))

-- Characters of a text: neither NUL nor beyond ASCII.
abbrev pub IsAscii : List ℕ → Type 0
IsAscii [] = Unit {0}
IsAscii (c ∷ str) = (c ≢ 0) × (c < 128) × IsAscii str

sdbm_hash_loop_lem :
    (str rest : List ℕ) (h : ℕ)
    → IsAscii str
    → sdbm_hash_loop h (str ++ (0 ∷ rest)) ≡ sdbm_mem_loop h str
unfolding sdbm_hash_loop sdbm_mem_loop
sdbm_hash_loop_lem [] rest h ascii = refl
sdbm_hash_loop_lem (c ∷ str) rest h ascii =
    ground (arith, ascii.0, ascii.1, sdbm_hash_loop_lem str rest (sdbm_round h c) ascii.2)

-- `sdbm_hash` of an ASCII text that ends in NUL is `sdbm_mem` of its characters, and reads nothing
-- behind the NUL.
pub sdbm_hash-sdbm_mem :
    (str rest : List ℕ) → IsAscii str → sdbm_hash (str ++ (0 ∷ rest)) ≡ sdbm_mem str
unfolding sdbm_hash sdbm_mem
sdbm_hash-sdbm_mem str rest ascii =
    ap (λ (h : ℕ). bit_and h 0x7FFFFFFF) (sdbm_hash_loop_lem str rest 0 ascii)
