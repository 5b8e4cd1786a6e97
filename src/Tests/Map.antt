-- ===== src/Tests/Map.antt =====
-- Runs of the vectors of payloads.
use mblue.Common.{ℕ, ◌≡◌, refl, inl, inr, List, [], ◌∷◌, some, arith}
use mblue.SmartData.{integer_p}
use mblue.Map.{
  Memory, byte, payload_vector_put, payload_vector_iter_init, guard_magic, payload_vector_alloc,
  payload_parse_vector, payload_vector_release, release_entries, release_entry,
}
use mblue.Map.Vector.{AreIntegers, IsParsed}
use mblue.Map.Fill.{filled, put_all, payload_parse_vector-put_all}

abbrev zeroed : Memory
zeroed = record {
  payloads = λ a. record { type = byte; length = 0; elts = 0 };
  words = λ a. 0;
  freed = [];
}

-- The integers 7 and 8 with their tags.
abbrev entries : List ℕ
entries = 29 ∷ 33 ∷ []

entries-AreIntegers : AreIntegers entries
unfolding integer_p
entries-AreIntegers = (
  refl,
  (λ (e : 29 ≡ guard_magic). absurd (omega arith)),
  (refl, (λ (e : 33 ≡ guard_magic). absurd (omega arith)), tt),
)

-- With the struct right behind the block for three entries the third entry becomes its length.
struct_hit : ((filled zeroed 144 128 (29 ∷ 33 ∷ 37 ∷ [])).payloads 144).length ≡ 37
unfolding put_all payload_vector_alloc payload_vector_iter_init payload_vector_put
struct_hit = refl

-- The pointer that is freed is 8 bytes behind the one that was allocated.
frees_inside :
    payload_vector_release 1 (filled zeroed 64 128 entries) 64
    ≡ some (record (filled zeroed 64 128 entries) { freed = 64 ∷ 136 ∷ [] })
unfolding payload_vector_release release_entries release_entry put_all payload_vector_alloc
    payload_vector_iter_init
frees_inside = refl

payload_parse_vector-put_all_example :
    IsParsed
      (filled zeroed 64 128 entries)
      512
      entries
      (payload_parse_vector 2 (filled zeroed 64 128 entries) 64 512)
payload_parse_vector-put_all_example =
    payload_parse_vector-put_all 2 zeroed 64 128 512 29 (33 ∷ [])
      (λ (e : 64 ≡ 0). absurd (omega arith)) (λ (e : 128 ≡ 0). absurd (omega arith))
      entries-AreIntegers (omega arith) (omega arith) (inr (omega arith)) (inl (omega arith))
      (inl (omega arith))
      (
        (λ (e : 0 ≡ guard_magic). absurd (omega arith)),
        ((λ (e : 0 ≡ guard_magic). absurd (omega arith)), tt),
      )
      (omega arith)
