-- ===== src/Schema/Parsers.antt =====
-- The parsers of pb_schema.c: each decodes the struct of its layout and calls a method with the
-- struct's members. `pb_decode_delimited` of nanopb is the parameter `Structs`; the method is a
-- function of its arguments and of the state `W` that it changes.
pub mod Dispatch
use mblue.Common.{ℕ, zero, ◌-◌, ◌^◌, List, [], ◌∷◌, Option, none, some, get_elem?}
use mblue.Errcode.{Errcode, ok, err_pb_decode}
use mblue.Common.Words.{word}
use mblue.SmartData.{make_integer}
use mblue.Schema.{
  Fields, dl_array_fields, dl_1_fields, dl_12_fields, dl_111_fields, dl_112_fields, dl_113_fields,
  dl_1111_fields, dl_1112_fields, IStream, Bundler,
}

-- The members of the decoded structs: `num` of dl_1 and dl_12 is `num1` here, and `bundler` is the bundle
-- that the callback has filled, as it was before where the message has no bytes.
pub record Struct : Type 0 where
  pub num1 : ℕ
  pub num2 : ℕ
  pub num3 : ℕ
  pub num4 : ℕ
  pub bundler : Bundler

-- What a method is called with: an `int`, a `uint8_t *`, a `size_t` and a `char *`.
pub data Argument : Type 0 where
  int : ℕ → Argument
  bytes : ℕ → Argument
  size : ℕ → Argument
  text : ℕ → Argument

-- `pb_decode_delimited` of a struct whose bundle is given; `none` where it fails.
abbrev pub Structs : Type 0
Structs = Fields → IStream → Bundler → Option Struct

abbrev pub Method : Type 0 → Type 0
Method W = List Argument → W → ℕ × W

abbrev pub Parser : Type 0 → Type 0
Parser W = Structs → IStream → Method W → W → ℕ × W

-- `tmp_bundle` of INIT_PB_DECODE_DATA_STRUCT.
abbrev pub tmp_bundle : Bundler
tmp_bundle = record { len = 0; byte = 0 }

-- The test of `pb_decode_delimited` and its error.
abbrev pub decoded : {W : Type 0} → Option Struct → (Struct → W → ℕ × W) → W → ℕ × W
decoded none call w = (make_integer (word err_pb_decode), w)
decoded (some var) call w = call var w

unfoldable pub simple_request_parser : {W : Type 0} → Parser W
simple_request_parser pb stream func = func []

unfoldable pub dl12_parser : {W : Type 0} → Parser W
dl12_parser pb stream func =
    decoded (pb dl_12_fields stream tmp_bundle)
      (λ var. func (int var.num1 ∷ bytes var.bundler.byte ∷ size var.bundler.len ∷ []))

unfoldable pub dl112_parser : {W : Type 0} → Parser W
dl112_parser pb stream func =
    decoded (pb dl_112_fields stream tmp_bundle) (λ var.
      func (int var.num1 ∷ int var.num2 ∷ bytes var.bundler.byte ∷ size var.bundler.len ∷ []))

unfoldable pub dl113_parser : {W : Type 0} → Parser W
dl113_parser pb stream func =
    decoded (pb dl_113_fields stream tmp_bundle)
      (λ var. func (int var.num1 ∷ int var.num2 ∷ text var.bundler.byte ∷ []))

unfoldable pub dl111_parser : {W : Type 0} → Parser W
dl111_parser pb stream func =
    decoded (pb dl_111_fields stream tmp_bundle)
      (λ var. func (int var.num1 ∷ int var.num2 ∷ int var.num3 ∷ []))

unfoldable pub dl1_parser : {W : Type 0} → Parser W
dl1_parser pb stream func =
    decoded (pb dl_1_fields stream tmp_bundle) (λ var. func (int var.num1 ∷ []))

unfoldable pub dl1111_parser : {W : Type 0} → Parser W
dl1111_parser pb stream func =
    decoded (pb dl_1111_fields stream tmp_bundle)
      (λ var. func (int var.num1 ∷ int var.num2 ∷ int var.num3 ∷ int var.num4 ∷ []))

unfoldable pub dl1112_parser : {W : Type 0} → Parser W
dl1112_parser pb stream func = decoded (pb dl_1112_fields stream tmp_bundle) (λ var. func (
    int var.num1
    ∷ int var.num2
    ∷ int var.num3
    ∷ bytes var.bundler.byte
    ∷ size var.bundler.len
    ∷ []))

unfoldable pub dl_array_parser : {W : Type 0} → Parser W
dl_array_parser pb stream func =
    decoded (pb dl_array_fields stream tmp_bundle)
      (λ var. func (bytes var.bundler.byte ∷ size var.bundler.len ∷ []))

-- The parsers of `mblue_pb_data_layout_array`, in the order of `PB_TYPE_INDEX`.
abbrev pub parser_array : {W : Type 0} → List (Parser W)
parser_array =
    simple_request_parser ∷ dl1_parser ∷ dl_array_parser ∷ dl12_parser ∷ dl112_parser ∷ dl113_parser
    ∷ dl111_parser ∷ dl1111_parser ∷ dl1112_parser ∷ []

-- `none` behind the end of the array.
unfoldable pub mblue_pb_data_parser_get : {W : Type 0} → ℕ → Option (Parser W)
mblue_pb_data_parser_get index = get_elem? parser_array index

-- `mblue_unserialize_struct_with_layout` into a struct whose bundle is given, and the struct where it
-- is written; the stream is as long as a `size_t` counts.
unfoldable pub mblue_unserialize_struct_with_layout :
    Structs → ℕ → Fields → Bundler → Errcode × Option Struct
mblue_unserialize_struct_with_layout pb from fields bundler =
    elim (pb fields (record { state = from; bytes_left = 2 ^ 32 - 1 }) bundler) [
      | none ↦ (err_pb_decode, none)
      | some var ↦ (ok, some var)
    ]

-- `mblue_unserialize_mono_buffer`: the bundle is the caller's.
unfoldable pub mblue_unserialize_mono_buffer : Structs → ℕ → Bundler → Errcode × Bundler
unfolding mblue_unserialize_struct_with_layout
mblue_unserialize_mono_buffer pb buffer bundler =
    let (rc, da) = mblue_unserialize_struct_with_layout pb buffer dl_array_fields bundler in
    elim da [ none ↦ (rc, bundler) | some var ↦ (rc, var.bundler) ]
