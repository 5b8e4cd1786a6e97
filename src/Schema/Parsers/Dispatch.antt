-- ===== src/Schema/Parsers/Dispatch.antt =====
-- The digits of a layout's name describe its parser: 1 is a number, 2 an array of bytes with its
-- length, 3 a text.
use mblue.Common.{
  ℕ, zero, suc, ◌<◌, ◌≡◌, refl, ap, ◌∙◌, List, [], ◌∷◌, ◌==◌, if◌then◌else◌, Option, none, some,
  get_elem?, arith,
}
use mblue.Common.Words.{word}
use mblue.SmartData.{make_integer}
use mblue.Errcode.{err_pb_decode}
use mblue.Schema.{
  Fields, IStream, dl_1_fields, dl_12_fields, dl_array_fields, dl_111_fields, dl_112_fields,
  dl_113_fields, dl_1111_fields, dl_1112_fields, mblue_pb_data_layout_get,
}
use mblue.Schema.Parsers.{
  decoded, simple_request_parser, dl1_parser, dl12_parser, dl_array_parser, dl111_parser,
  dl112_parser, dl113_parser, dl1111_parser, dl1112_parser, Struct, Argument, int, bytes, size,
  text, Structs, Method, Parser, tmp_bundle, mblue_pb_data_parser_get,
}

-- The names of the layouts, in the order of `PB_TYPE_INDEX`.
abbrev pub layout_digits : List (List ℕ)
layout_digits =
    []
    ∷ (1 ∷ [])
    ∷ (2 ∷ [])
    ∷ (1 ∷ 2 ∷ [])
    ∷ (1 ∷ 1 ∷ 2 ∷ [])
    ∷ (1 ∷ 1 ∷ 3 ∷ [])
    ∷ (1 ∷ 1 ∷ 1 ∷ [])
    ∷ (1 ∷ 1 ∷ 1 ∷ 1 ∷ [])
    ∷ (1 ∷ 1 ∷ 1 ∷ 2 ∷ [])
    ∷ []

abbrev pub numbers : Struct → List ℕ
numbers var = var.num1 ∷ var.num2 ∷ var.num3 ∷ var.num4 ∷ []

-- The arguments that a name announces: its numbers in order, and the bundle.
abbrev pub arguments : List ℕ → List ℕ → Struct → List Argument
arguments [] ns var = []
arguments (digit ∷ digits) [] var = arguments digits [] var
arguments (digit ∷ digits) (n ∷ ns) var =
    if digit == 1
    then int n ∷ arguments digits ns var
    else if digit == 2
    then bytes var.bundler.byte ∷ size var.bundler.len ∷ arguments digits (n ∷ ns) var
    else text var.bundler.byte ∷ arguments digits (n ∷ ns) var

-- A call of a method through a layout: nothing is decoded without one.
abbrev pub through :
    {W : Type 0} → Option Fields → List ℕ → Structs → IStream → Method W → W → ℕ × W
through none digits pb stream func w = func [] w
through (some fields) digits pb stream func w = elim (pb fields stream tmp_bundle) [
  | none ↦ (make_integer (word err_pb_decode), w)
  | some var ↦ func (arguments digits (numbers var) var) w
]

-- The entry of `mblue_pb_data_layout_array` at an index: its layout, its digits and its parser.
abbrev pub Entry : Type 0 → ℕ → Type 0
Entry W index =
    (fields : Option Fields) × (digits : List ℕ) × (parser : Parser W) × (mblue_pb_data_layout_get
        index
      ≡ some fields)
    × (get_elem? layout_digits index ≡ some digits)
    × (mblue_pb_data_parser_get index ≡ some parser)
    × ((pb : Structs) (stream : IStream) (func : Method W) (w : W)
        → parser pb stream func w ≡ through fields digits pb stream func w)

decoded_lem :
    {W : Type 0} (o : Option Struct) (call : Struct → W → ℕ × W) (w : W)
    → decoded o call w
      ≡ elim o [ none ↦ (make_integer (word err_pb_decode), w) | some var ↦ call var w ]
decoded_lem none call w = refl
decoded_lem (some var) call w = refl

without_layout : {W : Type 0} → Entry W 0
unfolding mblue_pb_data_layout_get mblue_pb_data_parser_get simple_request_parser
without_layout = (none, [], simple_request_parser, refl, refl, refl, λ pb stream func w. refl)

with_layout :
    {W : Type 0} (index : ℕ) (fields : Fields) (digits : List ℕ) (parser : Parser W)
    → mblue_pb_data_layout_get index ≡ some (some fields)
    → get_elem? layout_digits index ≡ some digits
    → mblue_pb_data_parser_get index ≡ some parser
    → ((pb : Structs) (stream : IStream) (func : Method W)
        → parser pb stream func
          ≡ decoded
              (pb fields stream tmp_bundle)
              (λ var. func (arguments digits (numbers var) var)))
    → Entry W index
with_layout index fields digits parser layout name found e = (
  some fields,
  digits,
  parser,
  layout,
  name,
  found,
  λ pb stream func w.
      ap (λ call. call w) (e pb stream func)
      ∙ decoded_lem (pb fields stream tmp_bundle) (λ var. func (arguments digits (numbers var) var))
          w,
)

-- Every index of PB_TYPE_INDEX has a layout and a parser, and they belong together: the parser decodes
-- with the layout that `mblue_pb_data_layout_get` returns for the index, and calls the method once,
-- with the arguments that the digits of the layout's name announce, in their order: 1 an `int`, 2 a
-- pointer to bytes and their length, 3 a pointer to a text. When decoding fails, the method is not
-- called and the answer is MAKE_INTEGER of MBLUE_ERR_PB_DECODE.
pub parser_get-layout_get : {W : Type 0} (index : ℕ) → index < 9 → Entry W index
unfolding mblue_pb_data_layout_get mblue_pb_data_parser_get dl1_parser dl12_parser dl_array_parser
    dl111_parser dl112_parser dl113_parser dl1111_parser dl1112_parser
parser_get-layout_get zero h = without_layout
parser_get-layout_get (suc zero) h =
    with_layout 1 dl_1_fields (1 ∷ []) dl1_parser refl refl refl (λ pb stream func. refl)
parser_get-layout_get (suc (suc zero)) h =
    with_layout 2 dl_array_fields (2 ∷ []) dl_array_parser refl refl refl (λ pb stream func. refl)
parser_get-layout_get (suc (suc (suc zero))) h =
    with_layout 3 dl_12_fields (1 ∷ 2 ∷ []) dl12_parser refl refl refl (λ pb stream func. refl)
parser_get-layout_get (suc (suc (suc (suc zero)))) h =
    with_layout 4 dl_112_fields (1 ∷ 1 ∷ 2 ∷ []) dl112_parser refl refl refl
      (λ pb stream func. refl)
parser_get-layout_get (suc (suc (suc (suc (suc zero))))) h =
    with_layout 5 dl_113_fields (1 ∷ 1 ∷ 3 ∷ []) dl113_parser refl refl refl
      (λ pb stream func. refl)
parser_get-layout_get (suc (suc (suc (suc (suc (suc zero)))))) h =
    with_layout 6 dl_111_fields (1 ∷ 1 ∷ 1 ∷ []) dl111_parser refl refl refl
      (λ pb stream func. refl)
parser_get-layout_get (suc (suc (suc (suc (suc (suc (suc zero))))))) h =
    with_layout 7 dl_1111_fields (1 ∷ 1 ∷ 1 ∷ 1 ∷ []) dl1111_parser refl refl refl
      (λ pb stream func. refl)
parser_get-layout_get (suc (suc (suc (suc (suc (suc (suc (suc zero)))))))) h =
    with_layout 8 dl_1112_fields (1 ∷ 1 ∷ 1 ∷ 2 ∷ []) dl1112_parser refl refl refl
      (λ pb stream func. refl)
parser_get-layout_get (suc (suc (suc (suc (suc (suc (suc (suc (suc n))))))))) h =
    absurd (omega arith)
