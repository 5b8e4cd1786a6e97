-- ===== src/Schema/Balance.antt =====
-- What mblue_serialize_ipc does to the heap on each of its ways out.
use mblue.Common.{
  ℕ, ◌+◌, ◌≡◌, ◌≢◌, refl, inl, inr, Bool, true, false, List, [], ◌∷◌, ◌==◌, if◌then◌else◌, Option,
  none, some, take, contains, arith, Bool-cases, if_intro, Option-cases,
}
use mblue.Common.Words.{u32}
use mblue.Schema.{
  Fields, dl_rpc_header_fields, Source, rpc_header, struct, OStream, max_ipc_method_name_length,
  pb_ostream_from_buffer, Encoder, Heap, mblue_free, remove, taken, mblue_pb_data_layout_get,
  exited, encode_ipc, size_of, alloc_ipc, mblue_serialize_ipc, Encoding,
}

free-taken : (p : ℕ) (blocks : List ℕ) → mblue_free p (taken p (some blocks)) ≡ some blocks
unfolding mblue_free remove
free-taken p blocks = ground arith

-- The calls of the encoders.
abbrev pub header_call : Source → ℕ → Encoding
header_call header size = (dl_rpc_header_fields, header, pb_ostream_from_buffer size)

abbrev pub header_written : Encoder → Source → ℕ → Bool × OStream
header_written pb header size =
    pb.encode_delimited (pb_ostream_from_buffer size) dl_rpc_header_fields header

-- The ways out behind the allocation of the block `p`: the header does not encode and the block is
-- given back; all is encoded and the block is the caller's; the struct does not encode behind the
-- header and the block is freed twice.
pub data IsEncoded (pb : Encoder) (header : Source) (data_schema : Option Fields) (src : Source)
    (blocks : List ℕ) (size p : ℕ) : Option (ℕ × Heap × List Encoding) → Type 0 where
  header_refused :
      (header_written pb header size).0 ≡ false
      → IsEncoded pb header data_schema src blocks size p
          (some (0, some blocks, header_call header size ∷ []))
  header_alone :
      (header_written pb header size).0 ≡ true
      → data_schema ≡ none
      → IsEncoded pb header data_schema src blocks size p
          (some (p, some (p ∷ blocks), header_call header size ∷ []))
  both :
      (fields : Fields)
      → (header_written pb header size).0 ≡ true
      → data_schema ≡ some fields
      → (pb.encode_submessage (header_written pb header size).1 fields src).0 ≡ true
      → IsEncoded pb header data_schema src blocks size p (
          some (
            p,
            some (p ∷ blocks),
            header_call header size ∷ (fields, src, (header_written pb header size).1) ∷ [],
          ))
  freed_twice :
      (fields : Fields)
      → (header_written pb header size).0 ≡ true
      → data_schema ≡ some fields
      → (pb.encode_submessage (header_written pb header size).1 fields src).0 ≡ false
      → IsEncoded pb header data_schema src blocks size p (
          some (
            0,
            none,
            header_call header size ∷ (fields, src, (header_written pb header size).1) ∷ [],
          ))

-- The room that the block is asked for.
abbrev pub room_of : ℕ → ℕ → ℕ
room_of header_size data_size =
    u32 (header_size + 4 + (if data_size == 0 then 0 else data_size + 4))

-- All ways out: without a block, when a size cannot be had or the heap has no room, the heap is as
-- before and no encoder is called.
pub data IsBalanced (pb : Encoder) (header : Source) (data_schema : Option Fields) (src : Source)
    (blocks : List ℕ) : Option (ℕ × Heap × List Encoding) → Type 0 where
  header_unknown :
      pb.get_encoded_size dl_rpc_header_fields header ≡ none
      → IsBalanced pb header data_schema src blocks (some (0, some blocks, []))
  struct_unknown :
      size_of pb data_schema src ≡ none
      → IsBalanced pb header data_schema src blocks (some (0, some blocks, []))
  no_memory :
      (h n : ℕ)
      → pb.get_encoded_size dl_rpc_header_fields header ≡ some h
      → size_of pb data_schema src ≡ some n
      → pb.malloc (room_of h n) ≡ 0
      → IsBalanced pb header data_schema src blocks (some (0, some blocks, []))
  allocated :
      (h n : ℕ) (result : Option (ℕ × Heap × List Encoding))
      → pb.get_encoded_size dl_rpc_header_fields header ≡ some h
      → size_of pb data_schema src ≡ some n
      → pb.malloc (room_of h n) ≢ 0
      → IsEncoded pb header data_schema src blocks (room_of h n) (pb.malloc (room_of h n)) result
      → IsBalanced pb header data_schema src blocks result

free_twice :
    (p : ℕ) (blocks : List ℕ)
    → contains p blocks ≡ false
    → mblue_free p (mblue_free p (taken p (some blocks))) ≡ none
unfolding mblue_free
free_twice p blocks fresh = rw (free-taken p blocks) (rw (mblue_free, fresh) refl)

-- The label `exited` with a block that is in use, given back or freed before.
exited_freed :
    (p : ℕ) (blocks : List ℕ) → p ≢ 0 → exited true p (taken p (some blocks)) ≡ (0, some blocks)
unfolding exited
exited_freed p blocks real =
    let there : (p == 0) ≡ false = ground (arith, real) in rw (there, free-taken p blocks) refl

exited_twice :
    (p : ℕ) (blocks : List ℕ)
    → p ≢ 0
    → contains p blocks ≡ false
    → exited true p (mblue_free p (taken p (some blocks))) ≡ (0, none)
unfolding exited
exited_twice p blocks real fresh =
    let there : (p == 0) ≡ false = ground (arith, real) in
    rw (there, free_twice p blocks fresh) refl

encode_ipc-IsEncoded :
    (pb : Encoder) (header src : Source) (data_schema : Option Fields) (size p : ℕ)
    (blocks : List ℕ)
    → p ≢ 0
    → contains p blocks ≡ false
    → IsEncoded pb header data_schema src blocks size p
        (encode_ipc pb header data_schema src size p (taken p (some blocks)))
unfolding encode_ipc exited
encode_ipc-IsEncoded pb header src none size p blocks real fresh =
    elim (Bool-cases (header_written pb header size).0) [
      | inl done ↦ rw done (header_alone done refl)
      | inr failed ↦ rw (failed, exited_freed p blocks real) (header_refused failed)
    ]
encode_ipc-IsEncoded pb header src (some fields) size p blocks real fresh =
    let (done_first, written) = header_written pb header size in
    elim (Bool-cases (header_written pb header size).0) [
      | inr failed ↦ rw (failed, exited_freed p blocks real) (header_refused failed)
      | inl done ↦ elim (Bool-cases (pb.encode_submessage written fields src).0) [
        | inl encoded ↦ rw (done, encoded) (both fields done refl encoded)
        | inr failed ↦
            rw (done, failed, exited_twice p blocks real fresh)
              (freed_twice fields done refl failed)
      ]
    ]

alloc_ipc-IsBalanced :
    (pb : Encoder) (header src : Source) (data_schema : Option Fields) (h n : ℕ) (blocks : List ℕ)
    → ((size : ℕ) → contains (pb.malloc size) blocks ≡ false)
    → pb.get_encoded_size dl_rpc_header_fields header ≡ some h
    → size_of pb data_schema src ≡ some n
    → IsBalanced pb header data_schema src blocks
        (alloc_ipc pb header data_schema src h n (some blocks))
unfolding alloc_ipc exited
alloc_ipc-IsBalanced pb header src data_schema h n blocks fresh known sized =
    let p = pb.malloc (room_of h n) in
    if_intro (λ result. IsBalanced pb header data_schema src blocks result) (p == 0)
      (λ null. no_memory h n known sized (ground (arith, null)))
      (λ there.
        let real : p ≢ 0 = ground (arith, there) in
        allocated h n _ known sized real (
          encode_ipc-IsEncoded pb header src data_schema (room_of h n) p blocks real
            (fresh (room_of h n))))

-- With an allocator that hands out pointers that are not in use, a call of mblue_serialize_ipc for a
-- layout of the array hands out one new block exactly when the sizes are known, the heap has room and
-- the header and the struct, if there is one, encode, in this order. Otherwise it returns NULL with
-- the heap as it was, but when the struct does not encode the block is freed a second time.
pub mblue_serialize_ipc-IsBalanced :
    (pb : Encoder) (method : List ℕ) (index src : ℕ) (data_schema : Option Fields) (blocks : List ℕ)
    → mblue_pb_data_layout_get index ≡ some data_schema
    → ((size : ℕ) → contains (pb.malloc size) blocks ≡ false)
    → IsBalanced pb
        (rpc_header (take max_ipc_method_name_length method) index)
        data_schema
        (struct src)
        blocks
        (mblue_serialize_ipc pb method index src (some blocks))
unfolding mblue_serialize_ipc exited
mblue_serialize_ipc-IsBalanced pb method index src data_schema blocks layout fresh =
    let header = rpc_header (take max_ipc_method_name_length method) index in
    elim (Option-cases (pb.get_encoded_size dl_rpc_header_fields header)) [
      | inl unknown ↦ rw (layout, unknown) (header_unknown unknown)
      | inr (h, known) ↦ elim (Option-cases (size_of pb data_schema (struct src))) [
        | inl unknown ↦ rw (layout, known, unknown) (struct_unknown unknown)
        | inr (n, sized) ↦
            rw (layout, known, sized)
              (alloc_ipc-IsBalanced pb header (struct src) data_schema h n blocks fresh known sized)
      ]
    ]
