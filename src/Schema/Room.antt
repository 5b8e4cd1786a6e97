-- ===== src/Schema/Room.antt =====
-- The buffer of mblue_serialize_ipc has room for the header, the struct and their lengths.
use mathlib.Core.Path.{subst}
use mblue.Common.{
  ℕ, zero, suc, ◌+◌, ◌≤◌, ◌<◌, ◌≡◌, ◌≢◌, refl, sym, true, List, [], ◌∷◌, ltb, ◌==◌, if◌then◌else◌,
  Option, none, some, take, arith, if_intro,
}
use mblue.Common.Words.{u32}
use mblue.Schema.{
  Fields, dl_rpc_header_fields, Source, rpc_header, struct, OStream, max_ipc_method_name_length,
  pb_ostream_from_buffer, Encoder, Heap, taken, mblue_pb_data_layout_get, exited, encode_ipc,
  size_of, alloc_ipc, mblue_serialize_ipc, Encoding, logged,
}

-- The bytes of a length as a varint.
abbrev pub varint_size : ℕ → ℕ
varint_size n =
    if ltb n 0x80
    then 1
    else if ltb n 0x4000
    then 2
    else if ltb n 0x200000
    then 3
    else if ltb n 0x10000000
    then 4
    else 5

abbrev pub behind : OStream → ℕ → OStream
behind stream n = record stream { bytes_written = stream.bytes_written + (varint_size n + n) }

-- What nanopb documents of its encoders: a message whose encoded size is known is written behind its
-- length where there is room.
pub record IsEncoder (pb : Encoder) : Type 0 where
  pub delimited :
      (stream : OStream) (fields : Fields) (src : Source) (n : ℕ)
      → pb.get_encoded_size fields src ≡ some n
      → stream.bytes_written + (varint_size n + n) ≤ stream.max_size
      → pb.encode_delimited stream fields src ≡ (true, behind stream n)
  pub submessage :
      (stream : OStream) (fields : Fields) (src : Source) (n : ℕ)
      → pb.get_encoded_size fields src ≡ some n
      → stream.bytes_written + (varint_size n + n) ≤ stream.max_size
      → pb.encode_submessage stream fields src ≡ (true, behind stream n)

varint_size-le_3 : (n : ℕ) → n < 0x200000 → varint_size n ≤ 3
varint_size-le_3 n low = ground arith

varint_size-le_4 : (n : ℕ) → n < 0x10000000 → varint_size n ≤ 4
varint_size-le_4 n low = ground arith

-- The room that is asked for.
abbrev pub buffer_size_of : ℕ → ℕ → ℕ
buffer_size_of header_size data_size =
    header_size + 4 + (if data_size == 0 then 0 else data_size + 4)

room_for_both :
    (h n : ℕ)
    → h < 0x200000
    → n < 0x10000000
    → (varint_size h + h) + (varint_size n + n) ≤ buffer_size_of h n
room_for_both h zero low_h low_n = omega (arith, varint_size-le_3 h low_h)
room_for_both h (suc n) low_h low_n =
    ground (arith, varint_size-le_3 h low_h, varint_size-le_4 (suc n) low_n)

room_for_header : (h n : ℕ) → h < 0x200000 → varint_size h + h ≤ buffer_size_of h n
room_for_header h zero low_h = omega (arith, varint_size-le_3 h low_h)
room_for_header h (suc n) low_h = omega (arith, varint_size-le_3 h low_h)

-- The header goes to the start of the room, and the struct behind it.
abbrev pub encodings : Source → Option Fields → Source → ℕ → ℕ → List Encoding
encodings header data_schema src h n =
    let stream = pb_ostream_from_buffer (buffer_size_of h n) in
    (dl_rpc_header_fields, header, stream)
    ∷ (elim data_schema [ none ↦ [] | some fields ↦ (fields, src, behind stream h) ∷ [] ])

encode_ipc_lem :
    (pb : Encoder) (header src : Source) (data_schema : Option Fields) (h n p : ℕ) (heap : Heap)
    → IsEncoder pb
    → pb.get_encoded_size dl_rpc_header_fields header ≡ some h
    → size_of pb data_schema src ≡ some n
    → h < 0x200000
    → n < 0x10000000
    → encode_ipc pb header data_schema src (buffer_size_of h n) p heap
      ≡ some (p, heap, encodings header data_schema src h n)
unfolding encode_ipc exited
encode_ipc_lem pb header src none h n p heap encoder known sized low_h low_n =
    let stream = pb_ostream_from_buffer (buffer_size_of h n) in
    rw
      (encoder.delimited stream dl_rpc_header_fields header h known
        (omega (arith, room_for_header h n low_h)))
      refl
encode_ipc_lem pb header src (some fields) h n p heap encoder known sized low_h low_n =
    let stream = pb_ostream_from_buffer (buffer_size_of h n) in
    rw
      (
        encoder.delimited stream dl_rpc_header_fields header h known
            (omega (arith, room_for_header h n low_h)),
        encoder.submessage (behind stream h) fields src n sized
            (omega (arith, room_for_both h n low_h low_n)),
      )
      refl

buffer_size-u32 :
    (h n : ℕ) → h < 0x200000 → n < 0x10000000 → u32 (buffer_size_of h n) ≡ buffer_size_of h n
buffer_size-u32 h n low_h low_n = ground arith

alloc_ipc_lem :
    (pb : Encoder) (header src : Source) (data_schema : Option Fields) (h n : ℕ) (heap : Heap)
    → IsEncoder pb
    → pb.get_encoded_size dl_rpc_header_fields header ≡ some h
    → size_of pb data_schema src ≡ some n
    → h < 0x200000
    → n < 0x10000000
    → pb.malloc (buffer_size_of h n) ≢ 0
    → alloc_ipc pb header data_schema src h n heap
      ≡ some (
        pb.malloc (buffer_size_of h n),
        taken (pb.malloc (buffer_size_of h n)) heap,
        encodings header data_schema src h n,
      )
unfolding alloc_ipc
alloc_ipc_lem pb header src data_schema h n heap encoder known sized low_h low_n real =
    let p = pb.malloc (buffer_size_of h n) in
    subst
      (λ size.
        (if pb.malloc size == 0
          then some (logged [] (exited true 0 heap))
          else encode_ipc pb header data_schema src size (pb.malloc size)
              (taken (pb.malloc size) heap))
        ≡ some (p, taken p heap, encodings header data_schema src h n))
      (sym (buffer_size-u32 h n low_h low_n))
      (if_intro (λ result. result ≡ some (p, taken p heap, encodings header data_schema src h n))
        (p == 0) (λ null. absurd (real (ground (arith, null))))
        (λ found.
          encode_ipc_lem pb header src data_schema h n p (taken p heap) encoder known sized low_h
            low_n))

-- When nanopb keeps to what it documents, the encoded header, with 31 characters of the name, is
-- shorter than 2 ^ 21 bytes and the encoded struct than 2 ^ 28, and the allocation succeeds, then
-- mblue_serialize_ipc encodes the header at the start of the room that it asks for and, with a schema,
-- the struct behind it, calls no encoder else, and hands out the new block; nothing is freed.
pub mblue_serialize_ipc-room :
    (pb : Encoder) (method : List ℕ) (index src h n : ℕ) (data_schema : Option Fields) (heap : Heap)
    → IsEncoder pb
    → mblue_pb_data_layout_get index ≡ some data_schema
    → pb.get_encoded_size dl_rpc_header_fields
        (rpc_header (take max_ipc_method_name_length method) index)
      ≡ some h
    → size_of pb data_schema (struct src) ≡ some n
    → h < 0x200000
    → n < 0x10000000
    → pb.malloc (buffer_size_of h n) ≢ 0
    → mblue_serialize_ipc pb method index src heap
      ≡ some (
        pb.malloc (buffer_size_of h n),
        taken (pb.malloc (buffer_size_of h n)) heap,
        encodings
            (rpc_header (take max_ipc_method_name_length method) index)
            data_schema
            (struct src)
            h
            n,
      )
unfolding mblue_serialize_ipc
mblue_serialize_ipc-room pb method index src h n data_schema heap encoder layout known sized low_h
      low_n real =
    rw (layout, known, sized)
      (alloc_ipc_lem pb (rpc_header (take max_ipc_method_name_length method) index) (struct src)
        data_schema h n heap encoder known sized low_h low_n real)
