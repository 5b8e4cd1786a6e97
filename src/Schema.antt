-- ===== src/Schema.antt =====
-- middleware/components/data_schema/pb_schema.c: structs to and from buffers on the heap. nanopb, a
-- copy of another project's library, and the allocator are the parameters `Encoder` and `Decoder`.
-- Pointers are addresses, 0 is NULL; sizes are 32-bit words.
pub mod Balance
pub mod Room
pub mod Drain
pub mod Parsers
use mblue.Common.{
  ℕ, zero, suc, ◌+◌, ◌-◌, ◌%◌, ◌^◌, Bool, true, false, not, ◌&&◌, ◌||◌, List, [], ◌∷◌, ltb, leb,
  ◌==◌, if◌then◌else◌, Option, none, some, take, length, get_elem?, contains,
}
use mblue.Common.Words.{u32}
use mblue.Errcode.{Errcode, ok, err_pb_decode}

-- The field descriptions that pb_schema.c names.
pub data Fields : Type 0 where
  dl_rpc_header_fields : Fields
  dl_array_fields : Fields
  dl_1_fields : Fields
  dl_12_fields : Fields
  dl_111_fields : Fields
  dl_112_fields : Fields
  dl_113_fields : Fields
  dl_1111_fields : Fields
  dl_1112_fields : Fields

-- What is encoded: the header of a call, with the method's name and the layout, a struct at an
-- address, or the bytes of a bundle.
pub data Source : Type 0 where
  rpc_header : List ℕ → ℕ → Source
  struct : ℕ → Source
  bundle : List ℕ → Source

-- What the encoders read and change of a `pb_ostream_t` over a buffer.
pub record OStream : Type 0 where
  pub max_size : ℕ
  pub bytes_written : ℕ

abbrev pub pb_ostream_from_buffer : ℕ → OStream
pb_ostream_from_buffer size = record { max_size = size; bytes_written = 0 }

-- `pb_get_encoded_size`, `none` where it fails, `pb_encode_delimited`, `pb_encode_submessage`, and
-- the answer of `mblue_malloc` for a size.
pub record Encoder : Type 0 where
  pub get_encoded_size : Fields → Source → Option ℕ
  pub encode_delimited : OStream → Fields → Source → Bool × OStream
  pub encode_submessage : OStream → Fields → Source → Bool × OStream
  pub malloc : ℕ → ℕ

-- The blocks in use; `none` once a pointer was freed that is not in use.
abbrev pub Heap : Type 0
Heap = Option (List ℕ)

unfoldable pub remove : ℕ → List ℕ → List ℕ
remove p [] = []
remove p (b ∷ bs) = let rest = remove p bs in if b == p then bs else b ∷ rest

unfoldable pub mblue_free : ℕ → Heap → Heap
unfolding remove
mblue_free p none = none
mblue_free p (some blocks) = if contains p blocks then some (remove p blocks) else none

abbrev pub taken : ℕ → Heap → Heap
taken p none = none
taken p (some blocks) = some (p ∷ blocks)

abbrev pub max_ipc_method_name_length : ℕ
max_ipc_method_name_length = 31

-- `mblue_pb_data_layout_array`, in the order of `PB_TYPE_INDEX`.
abbrev pub layout_array : List (Option Fields)
layout_array =
    none
    ∷ some dl_1_fields
    ∷ some dl_array_fields
    ∷ some dl_12_fields
    ∷ some dl_112_fields
    ∷ some dl_113_fields
    ∷ some dl_111_fields
    ∷ some dl_1111_fields
    ∷ some dl_1112_fields
    ∷ []

-- `none` behind the end of the array.
unfoldable pub mblue_pb_data_layout_get : ℕ → Option (Option Fields)
mblue_pb_data_layout_get index = get_elem? layout_array index

-- A call of an encoder: the fields, what is encoded, and the stream that it gets.
abbrev pub Encoding : Type 0
Encoding = Fields × Source × OStream

-- What a call answers, with the encoders that it has called, in order.
abbrev pub logged : List Encoding → ℕ × Heap → ℕ × Heap × List Encoding
logged calls r = (r.0, r.1, calls)

-- The label `exited` of `mblue_serialize_ipc`, where `failed` is that `res` is not 0.
unfoldable pub exited : Bool → ℕ → Heap → ℕ × Heap
unfolding mblue_free
exited failed buffer heap =
    if failed && not (buffer == 0) then (0, mblue_free buffer heap) else (buffer, heap)

-- Step 4 of `mblue_serialize_ipc`: the header and the struct go to the buffer.
unfoldable pub encode_ipc :
    Encoder → Source → Option Fields → Source → ℕ → ℕ → Heap → Option (ℕ × Heap × List Encoding)
unfolding mblue_free exited
encode_ipc pb header data_schema src buffer_size buffer heap =
    let stream = pb_ostream_from_buffer buffer_size in
    let (done, written) = pb.encode_delimited stream dl_rpc_header_fields header in
    let first : List Encoding = (dl_rpc_header_fields, header, stream) ∷ [] in
    if not done then some (logged first (exited true buffer heap)) else elim data_schema [
      | none ↦ some (logged first (exited false buffer heap))
      | some fields ↦
          let both : List Encoding =
            (dl_rpc_header_fields, header, stream) ∷ (fields, src, written) ∷ [] in
          (if not ((pb.encode_submessage written fields src).0)
            then some (logged both (exited true buffer (mblue_free buffer heap)))
            else some (logged both (exited false buffer heap)))
    ]

-- The size of the struct, 0 without a schema.
abbrev pub size_of : Encoder → Option Fields → Source → Option ℕ
size_of pb none src = some 0
size_of pb (some fields) src = pb.get_encoded_size fields src

-- Step 3 of `mblue_serialize_ipc`: a buffer with room for the lengths.
unfoldable pub alloc_ipc :
    Encoder → Source → Option Fields → Source → ℕ → ℕ → Heap → Option (ℕ × Heap × List Encoding)
unfolding exited encode_ipc
alloc_ipc pb header data_schema src header_size data_size heap =
    let buffer_size = u32 (header_size + 4 + (if data_size == 0 then 0 else data_size + 4)) in
    let buffer = pb.malloc buffer_size in
    if buffer == 0
    then some (logged [] (exited true 0 heap))
    else encode_ipc pb header data_schema src buffer_size buffer (taken buffer heap)

-- `mblue_serialize_ipc`; `none` where it reads behind the end of the array of layouts.
unfoldable pub mblue_serialize_ipc :
    Encoder → List ℕ → ℕ → ℕ → Heap → Option (ℕ × Heap × List Encoding)
unfolding mblue_pb_data_layout_get exited alloc_ipc
mblue_serialize_ipc pb method index src heap =
    let header = rpc_header (take max_ipc_method_name_length method) index in
    elim (mblue_pb_data_layout_get index) [
      | none ↦ none
      | some data_schema ↦ elim (pb.get_encoded_size dl_rpc_header_fields header) [
        | none ↦ some (logged [] (exited true 0 heap))
        | some header_size ↦ elim (size_of pb data_schema (struct src)) [
          | none ↦ some (logged [] (exited true 0 heap))
          | some data_size ↦ alloc_ipc pb header data_schema (struct src) header_size data_size heap
        ]
      ]
    ]

-- `mblue_serialize_struct_with_layout`
unfoldable pub mblue_serialize_struct_with_layout : Encoder → Source → Fields → Heap → ℕ × Heap
unfolding mblue_free
mblue_serialize_struct_with_layout pb src fields heap = elim (pb.get_encoded_size fields src) [
  | none ↦ (0, heap)
  | some size ↦
      (let p = pb.malloc (u32 (size + 4)) in
        let stream = pb_ostream_from_buffer (u32 (size + 4)) in
        if p == 0
        then (0, heap)
        else if not ((pb.encode_delimited stream fields src).0)
        then (0, mblue_free p (taken p heap))
        else (p, taken p heap))
]

unfoldable pub mblue_serialize_mono_buffer : Encoder → List ℕ → Heap → ℕ × Heap
unfolding mblue_serialize_struct_with_layout
mblue_serialize_mono_buffer pb buffer heap =
    mblue_serialize_struct_with_layout pb (bundle buffer) dl_array_fields heap

-- What `drain_input_buffer` and the callbacks read of a `pb_istream_t` over memory: its `state` is the
-- address of the next byte.
pub record IStream : Type 0 where
  pub state : ℕ
  pub bytes_left : ℕ

-- `struct mblue_byte_bundler`
pub record Bundler : Type 0 where
  pub len : ℕ
  pub byte : ℕ

-- `pb_read`, and the answer of `mblue_malloc`.
pub record Decoder : Type 0 where
  pub read : IStream → ℕ → Bool × IStream
  pub malloc : ℕ → ℕ

-- `drain_input_buffer`; `none` when the fuel is used up.
unfoldable pub drain_input_buffer : ℕ → Decoder → IStream → ℕ → Option (Bool × IStream)
drain_input_buffer zero pb stream count = none
drain_input_buffer (suc fuel) pb stream count =
    let (done, stream') = pb.read stream 16 in
    let rest = drain_input_buffer fuel pb stream' (count - 16) in
    if ltb 16 count
    then if not done then some (false, stream') else rest
    else some (pb.read stream count)

-- `__mblue_pb_get_bytes_pointer`: the bundle points into the stream's memory, and the stream is
-- drained.
unfoldable pub pb_get_bytes_pointer : ℕ → Decoder → IStream → Option (Bool × IStream × Bundler)
unfolding drain_input_buffer
pb_get_bytes_pointer fuel pb stream = elim (drain_input_buffer fuel pb stream stream.bytes_left) [
  | none ↦ none
  | some (done, stream') ↦
      some (done, stream', record { len = stream.bytes_left; byte = stream.state })
]

-- `__mblue_pb_read_bytes`: the bundle points to a copy on the heap, to NULL when `pb_read` fails.
unfoldable pub pb_read_bytes : Decoder → IStream → Bundler → Heap → Bool × IStream × Bundler × Heap
unfolding mblue_free
pb_read_bytes pb stream bb heap =
    let len = stream.bytes_left in
    let p = pb.malloc (u32 (len + 1)) in
    let (done, stream') = pb.read stream len in
    if p == 0
    then (false, stream, bb, heap)
    else if not done
    then (true, stream', record { len = len; byte = 0 }, mblue_free p (taken p heap))
    else (true, stream', record { len = len; byte = p }, taken p heap)
