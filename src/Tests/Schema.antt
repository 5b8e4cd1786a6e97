-- ===== src/Tests/Schema.antt =====
-- Runs of the data schema with an encoder that counts and a reader that reads.
use mblue.SmartData.{make_integer}
use mblue.Schema.Parsers.{Structs, Method, dl12_parser}
use mblue.Schema.Parsers.Dispatch.{Entry, parser_get-layout_get}
use mathlib.Core.Path.{◌≡◌, refl, ap, subst}
use mblue.Common.{
  ℕ, ◌+◌, ◌≤◌, List, [], ◌∷◌, Option, none, some, Bool, true, false, if◌then◌else◌, leb, if_intro,
  length, arith,
}
use mblue.Schema.{
  Fields, dl_1_fields, Source, rpc_header, struct, bundle, OStream, Encoder,
  mblue_pb_data_layout_get, mblue_serialize_ipc, Decoder, Encoding, alloc_ipc, encode_ipc,
  mblue_free, exited, remove,
}
use mblue.Schema.Balance.{IsBalanced, mblue_serialize_ipc-IsBalanced}
use mblue.Schema.Room.{encodings, IsEncoder, varint_size, behind, mblue_serialize_ipc-room}
use mblue.Schema.Drain.{IsReader, ahead}

-- The size of a struct is its address here.
abbrev size_at : Source → ℕ
size_at (rpc_header method index) = length method + 4
size_at (struct src) = src
size_at (bundle bytes) = length bytes + 2

abbrev put : OStream → Fields → Source → Bool × OStream
put stream fields src =
    if leb (stream.bytes_written + (varint_size (size_at src) + size_at src)) stream.max_size
    then (true, behind stream (size_at src))
    else (false, stream)

abbrev counting : Encoder
counting = record {
  get_encoded_size = λ fields src. some (size_at src);
  encode_delimited = put;
  encode_submessage = put;
  malloc = λ size. 64;
}

-- An encoder that fails on every struct.
abbrev failing : Encoder
failing = record counting { encode_submessage = λ stream fields src. (false, stream) }

put_fits :
    (stream : OStream) (fields : Fields) (src : Source)
    → stream.bytes_written + (varint_size (size_at src) + size_at src) ≤ stream.max_size
    → put stream fields src ≡ (true, behind stream (size_at src))
put_fits stream fields src fits =
    if_intro (λ result. result ≡ (true, behind stream (size_at src)))
      (leb (stream.bytes_written + (varint_size (size_at src) + size_at src)) stream.max_size)
      (λ room. refl) (λ full. absurd (ground (arith, full)))

put_lem :
    (stream : OStream) (fields : Fields) (src : Source) (n : ℕ)
    → some (size_at src) ≡ some n
    → stream.bytes_written + (varint_size n + n) ≤ stream.max_size
    → put stream fields src ≡ (true, behind stream n)
put_lem stream fields src n e fits =
    subst
      (λ m.
        stream.bytes_written + (varint_size m + m) ≤ stream.max_size
        → put stream fields src ≡ (true, behind stream m))
      (ap (λ (o : Option ℕ). elim o [ none ↦ 0 | some m ↦ m ]) e) (put_fits stream fields src) fits

counting-IsEncoder : IsEncoder counting
counting-IsEncoder = record { delimited = put_lem; submessage = put_lem }

abbrev name : List ℕ
name = 0x67 ∷ 0x65 ∷ 0x74 ∷ []

-- What the encoder is asked for: the header, and the struct behind it.
abbrev asked : ℕ → List Encoding
asked index = encodings (rpc_header name index) (some dl_1_fields) (struct 9) 7 9

freed_twice : mblue_serialize_ipc failing name 1 9 (some []) ≡ some (0, none, asked 1)
unfolding mblue_serialize_ipc mblue_pb_data_layout_get alloc_ipc encode_ipc exited mblue_free remove
freed_twice = refl

mblue_serialize_ipc-IsBalanced_example :
    IsBalanced failing
      (rpc_header name 1)
      (some dl_1_fields)
      (struct 9)
      []
      (mblue_serialize_ipc failing name 1 9 (some []))
unfolding mblue_pb_data_layout_get
mblue_serialize_ipc-IsBalanced_example =
    mblue_serialize_ipc-IsBalanced failing name 1 9 (some dl_1_fields) [] refl (λ size. refl)

mblue_serialize_ipc-room_example :
    mblue_serialize_ipc counting name 1 9 (some []) ≡ some (64, some (64 ∷ []), asked 1)
unfolding mblue_pb_data_layout_get
mblue_serialize_ipc-room_example =
    mblue_serialize_ipc-room counting name 1 9 7 9 (some dl_1_fields) (some []) counting-IsEncoder
      refl refl refl (omega arith) (omega arith) (λ (e : 64 ≡ 0). absurd (omega arith))

abbrev reading : Decoder
reading = record {
  read = λ stream count.
      if leb count stream.bytes_left then (true, ahead stream count) else (false, stream);
  malloc = λ size. 64;
}

reading-IsReader : IsReader reading
reading-IsReader stream count there = ground arith

-- A struct with the number 7, wherever it is decoded from.
abbrev sevens : Structs
sevens fields stream bundler =
    some (record { num1 = 7; num2 = 8; num3 = 9; num4 = 10; bundler = bundler })

-- A method that counts its calls.
abbrev counted_call : Method ℕ
counted_call arguments calls = (make_integer 5, calls + 1)

called_once : dl12_parser sevens (record { state = 0; bytes_left = 4 }) counted_call 0 ≡ (21, 1)
unfolding dl12_parser make_integer
called_once = refl

parser_get-layout_get_example : Entry ℕ 3
parser_get-layout_get_example = parser_get-layout_get 3 (omega arith)
