-- ===== src/Schema/Drain.antt =====
-- The callback that reads a field of bytes points into the stream and drains it.
use mblue.Common.{
  ℕ, zero, suc, ◌+◌, ◌-◌, ◌*◌, ◌≤◌, ◌<◌, ◌≡◌, refl, ap, ◌∙◌, inl, inr, true, ltb, some, arith,
  Bool-cases,
}
use mblue.Schema.{IStream, Decoder, drain_input_buffer, pb_get_bytes_pointer}

abbrev pub ahead : IStream → ℕ → IStream
ahead stream count = record { state = stream.state + count; bytes_left = stream.bytes_left - count }

-- What nanopb documents of `pb_read` on a stream over memory: bytes that are there are read.
abbrev pub IsReader : Decoder → Type 0
IsReader pb =
    (stream : IStream) (count : ℕ)
    → count ≤ stream.bytes_left
    → pb.read stream count ≡ (true, ahead stream count)

abbrev at : ℕ → ℕ → IStream
at state bytes_left = record { state = state; bytes_left = bytes_left }

at_eq : {a b c d : ℕ} → a ≡ b → c ≡ d → at a c ≡ at b d
at_eq e f = cc

ahead-ahead :
    (stream : IStream) (count : ℕ)
    → 16 < count
    → ahead (ahead stream 16) (count - 16) ≡ ahead stream count
ahead-ahead stream count more = at_eq (omega arith) (omega arith)

drain_input_buffer_lem :
    (fuel : ℕ) (pb : Decoder) (stream : IStream) (count : ℕ)
    → IsReader pb
    → count ≤ stream.bytes_left
    → count < 16 * fuel
    → drain_input_buffer fuel pb stream count ≡ some (true, ahead stream count)
unfolding drain_input_buffer
drain_input_buffer_lem zero pb stream count reader there enough = absurd (omega arith)
drain_input_buffer_lem (suc fuel) pb stream count reader there enough =
    elim (Bool-cases (ltb 16 count)) [
      | inr last ↦ rw (drain_input_buffer, last, reader stream count there) refl
      | inl more ↦
          rw (drain_input_buffer, more, reader stream 16 (ground (arith, more)))
            (drain_input_buffer_lem fuel pb (ahead stream 16) (count - 16) reader
                (ground (arith, more)) (ground (arith, more))
              ∙ ap (λ (s : IStream). some (true, s))
                  (ahead-ahead stream count (ground (arith, more))))
    ]

-- When `pb_read` reads what is there, the loop of the callback ends, within one round for every 16
-- bytes and one more; the bundle is the field's bytes where they stand, and none is left.
pub pb_get_bytes_pointer_lem :
    (fuel : ℕ) (pb : Decoder) (stream : IStream)
    → IsReader pb
    → stream.bytes_left < 16 * fuel
    → pb_get_bytes_pointer fuel pb stream
      ≡ some (
        true,
        record { state = stream.state + stream.bytes_left; bytes_left = 0 },
        record { len = stream.bytes_left; byte = stream.state },
      )
unfolding pb_get_bytes_pointer
pb_get_bytes_pointer_lem fuel pb stream reader enough =
    let len = stream.bytes_left in
    rw (pb_get_bytes_pointer, drain_input_buffer_lem fuel pb stream len reader (omega arith) enough)
      (ap (λ (s : IStream). some (true, s, record { len = len; byte = stream.state }))
        (at_eq {a = stream.state + len} refl (omega arith)))
