-- ===== src/Map.antt =====
-- middleware/components/map/mblue_map.c: payloads, which describe themselves, and vectors of them. The
-- structs are a store by address, the entries of vectors and what is parsed are words of a memory by
-- address; 0 is NULL. The answers of `mblue_malloc` are arguments. `_ASSERT` is empty in the release
-- build.
pub mod Vector
pub mod Fill
use mblue.Common.{
  ℕ, zero, suc, ◌+◌, ◌-◌, ◌*◌, ◌/◌, ◌%◌, ◌^◌, Bool, true, false, not, ◌&&◌, ◌||◌, List, [], ◌∷◌,
  ◌++◌, ltb, ◌==◌, if◌then◌else◌, Option, none, some, update, bit_and,
}
use mblue.Common.Words.{u32, sub32}
use mblue.SmartData.{tag, integer_p, get_integer}
use mblue.Schema.{Bundler}

-- `PAYLOAD_TYPE`
pub data PayloadType : Type 0 where
  pair : PayloadType
  byte : PayloadType
  vector : PayloadType

-- `struct mblue_payload` with `pv_byte` or `pv_vector`
pub record Payload : Type 0 where
  pub type : PayloadType
  pub length : ℕ
  pub elts : ℕ

pub record Memory : Type 0 where
  pub payloads : ℕ → Payload
  pub words : ℕ → ℕ
  pub freed : List ℕ

abbrev pub guard_magic : ℕ
guard_magic = 0x45454545

-- `struct mblue_payload_vector_iter`
pub record VectorIter : Type 0 where
  pub mp : ℕ
  pub pos : ℕ

abbrev pub set_word : Memory → ℕ → ℕ → Memory
set_word m addr value = record m { words = update m.words addr value }

-- `mblue_payload_vector_alloc`; `p` and `q` are the answers for the struct and for the entries.
unfoldable pub payload_vector_alloc : Memory → ℕ → ℕ → ℕ → ℕ × Memory
payload_vector_alloc m size p q =
    let guard = u32 (q + 4 * size) in
    if p == 0 then (0, m) else if q == 0 then (0, record m { freed = p ∷ m.freed }) else (
      p,
      record m {
        payloads = update m.payloads p (record { type = vector; length = size; elts = guard });
        words = update m.words guard guard_magic;
      },
    )

unfoldable pub payload_byte_alloc : Memory → ℕ → Bundler → ℕ × Memory
payload_byte_alloc m mp mb = if mp == 0 then (0, m) else (
  mp,
  record m {
    payloads = update m.payloads mp (record { type = byte; length = mb.len; elts = mb.byte });
  },
)

unfoldable pub payload_byte_release : Memory → ℕ → Memory
payload_byte_release m bytes = record m { freed = bytes ∷ m.freed }

-- One entry of `mblue_payload_vector_release`; `nested` releases a vector in the vector. `none` is a
-- read through NULL, which PAYLOAD_P accepts.
unfoldable pub release_entry : (Memory → ℕ → Option Memory) → Memory → ℕ → Option Memory
unfolding payload_byte_release
release_entry nested m p =
    if not (tag p == 0) then some m else if p == 0 then none else elim ((m.payloads p).type) [
      | byte ↦ some (payload_byte_release m p)
      | vector ↦ nested m p
      | pair ↦ some m
    ]

-- The loop over `n` entries from `addr` on.
unfoldable pub release_entries : (Memory → ℕ → Option Memory) → ℕ → Memory → ℕ → Option Memory
unfolding release_entry
release_entries nested zero m addr = some m
release_entries nested (suc n) m addr = elim (release_entry nested m (m.words addr)) [
  | none ↦ none
  | some m' ↦ release_entries nested n m' (u32 (addr + 4))
]

-- `mblue_payload_vector_release`, for vectors in vectors up to a depth.
unfoldable pub payload_vector_release : ℕ → Memory → ℕ → Option Memory
unfolding release_entries
payload_vector_release zero m pv = none
payload_vector_release (suc depth) m pv =
    let v = m.payloads pv in
    elim (release_entries (payload_vector_release depth) v.length m v.elts) [
      | none ↦ none
      | some m' ↦ some (record m' { freed = pv ∷ v.elts ∷ m'.freed })
    ]

unfoldable pub payload_vector_iter_init : Memory → ℕ → VectorIter
payload_vector_iter_init m mp = record { mp = mp; pos = (m.payloads mp).elts }

-- Whether it answers 0, and the iterator behind the step.
unfoldable pub payload_vector_iter_next : Memory → VectorIter → Bool × VectorIter
payload_vector_iter_next m iter =
    let pos = u32 (iter.pos + 4) in
    let vector = m.payloads iter.mp in
    (
      ltb (sub32 pos vector.elts / 4) vector.length && not (m.words pos == guard_magic),
      record iter { pos = pos },
    )

-- `PAYLOAD_TYPE` of a word; a word that is none of its numbers is read as the last one.
abbrev pub type_of : ℕ → PayloadType
type_of w = if w == 0 then pair else if w == 1 then byte else vector

-- The structs behind a write of the word at `pos`: it may be the first, the second or the third word
-- of a struct.
abbrev pub overwritten : (ℕ → Payload) → ℕ → ℕ → ℕ → Payload
overwritten payloads pos value a =
    let v = payloads a in
    if a == pos
    then record v { type = type_of value }
    else if a + 4 == pos
    then record v { length = value }
    else if a + 8 == pos
    then record v { elts = value }
    else v

-- Nothing keeps `iter->pos` inside the entries: the write may hit a struct.
unfoldable pub payload_vector_put : Memory → VectorIter → ℕ → Memory
payload_vector_put m iter value = record (set_word m iter.pos value) {
  payloads = overwritten m.payloads iter.pos value;
}

-- `none` is -1.
unfoldable pub payload_vector_get : Memory → VectorIter → Option ℕ
payload_vector_get m iter = if m.words iter.pos == 0 then none else some (m.words iter.pos)

-- `struct mblue_byte_bundler` is its length and the address of the bytes.
unfoldable pub payload_parse_byte : Memory → ℕ → ℕ → Memory
payload_parse_byte m pv_byte dest =
    set_word (set_word m (u32 (dest + 4)) (m.payloads pv_byte).elts) dest
      (m.payloads pv_byte).length

-- The macros of mblue_map.h that are not those of mblue_macro.h.
unfoldable pub pointer_static : ℕ → Bool
pointer_static x = tag x == 2

unfoldable pub pointer_dynamic : ℕ → Bool
pointer_dynamic x = tag x == 3

unfoldable pub mask_pointer : ℕ → ℕ
mask_pointer x = bit_and x 0xFFFFFFFC

-- One item of `mblue_payload_parse_vector`: the memory and where the next one goes.
unfoldable pub parse_item : Memory → ℕ → ℕ → Memory × ℕ
unfolding payload_parse_byte pointer_static pointer_dynamic mask_pointer
parse_item m p q =
    if integer_p q
    then (set_word m p (get_integer q), u32 (p + 4))
    else if pointer_static q || pointer_dynamic q
    then (set_word m p (mask_pointer q), u32 (p + 4))
    else elim ((m.payloads q).type) [
      | byte ↦ (payload_parse_byte m q p, u32 (p + 8))
      | pair ↦ (m, p)
      | vector ↦ (m, p)
    ]

-- The loop of `mblue_payload_parse_vector`: whether it answers 0; `none` when the fuel is used up.
unfoldable pub parse_loop : ℕ → Memory → VectorIter → ℕ → Option (Bool × Memory)
unfolding payload_vector_get payload_vector_iter_next parse_item
parse_loop zero m iter p = none
parse_loop (suc fuel) m iter p =
    let item = parse_item m p (m.words iter.pos) in
    let next = payload_vector_iter_next item.0 iter in
    let rest = parse_loop fuel item.0 next.1 item.1 in
    if m.words p == guard_magic
    then some (true, m)
    else if m.words iter.pos == 0
    then some (false, m)
    else if next.0
    then rest
    else some (true, item.0)

unfoldable pub payload_parse_vector : ℕ → Memory → ℕ → ℕ → Option (Bool × Memory)
unfolding payload_vector_iter_init parse_loop
payload_parse_vector fuel m pv_vector dest =
    parse_loop fuel m (payload_vector_iter_init m pv_vector) dest

unfoldable pub payload_parse : ℕ → Memory → ℕ → ℕ → Option (Bool × Memory)
unfolding payload_parse_byte payload_parse_vector
payload_parse fuel m payload dest =
    if integer_p payload
    then some (true, set_word m dest (get_integer payload))
    else elim ((m.payloads payload).type) [
      | byte ↦ some (true, payload_parse_byte m payload dest)
      | vector ↦ payload_parse_vector fuel m payload dest
      | pair ↦ some (true, m)
    ]
