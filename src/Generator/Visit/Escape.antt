-- ===== src/Generator/Visit/Escape.antt =====
-- rinja_derive/src/generator.rs: `compile_time_escape`, the escaped text of an expression that is a
-- literal; and `expr_is_int_lit_plus_minus_one` of rinja_derive/src/generator/expr.rs.
pub mod Displayed
pub mod Runtime
use rinja.Base.{
  ℕ, Bool, true, false, not, ◌&&◌, Option, none, some, List, [], ◌∷◌, ◌++◌, if◌then◌else◌, Bytes,
  codes, bytes_eq, starts_with, contains_byte, drop, length, ◌==◌, ◌>>=◌,
}
use rinja.Fmt.{push_str}
use rinja.Html as Html
use rinja.Parser.Expr.{
  Expr, IntKind, FloatKind, Num, StrLit, CharLit, bool_lit, num_lit, str_lit, char_lit, i128, u8,
  u16, u32, u64, u128, usize, f16, f32, f64, f128, int, float,
}
use rinja.Generator.{Writable, lit}
use rinja.Generator.Visit.{Signed, Input}

abbrev pub minus_sign : ℕ
minus_sign = b'-'

pub data OutputKind : Type 0 where
  html text : OutputKind

abbrev pub filters_path : Bytes
filters_path = codes "rinja::filters::"

-- `strip_prefix`, and the `match` on the rest
unfoldable pub output_kind : Bytes → Option OutputKind
output_kind escaper =
    if starts_with escaper filters_path
    then if bytes_eq (drop (length filters_path) escaper) (codes "Html")
      then some html
      else if bytes_eq (drop (length filters_path) escaper) (codes "Text")
      then some text
      else none
    else none

-- `filter(|&c| c != '_')`
unfoldable pub without_underscores : Bytes → Bytes
without_underscores [] = []
without_underscores (c ∷ s) =
    let rest = without_underscores s in if c == b'_' then rest else c ∷ rest

-- The type that an integer literal is parsed as.
unfoldable pub int_type : Option IntKind → Bytes → IntKind
int_type (some kind) value = kind
int_type none value = if starts_with value (minus_sign ∷ []) then i128 else u128

unfoldable pub is_unsigned : IntKind → Bool
is_unsigned u8 = true
is_unsigned u16 = true
is_unsigned u32 = true
is_unsigned u64 = true
is_unsigned u128 = true
is_unsigned usize = true
is_unsigned _ = false

-- `is_signed_singular` and `is_unsigned_singular`
unfoldable pub is_singular : IntKind → Signed → Bool
unfolding is_unsigned
is_singular kind (below, magnitude) =
    if is_unsigned kind then not below && magnitude == 1 else magnitude == 1

module _ (input : Input) where
  -- The content of a string and of a character, unescaped where it holds a backslash.
  unfoldable pub str_value : Bytes → Option Bytes
  str_value content = if contains_byte b'\\' content then input.lit_str content else some content

  unfoldable pub char_value : Bytes → Option Bytes
  char_value content = if contains_byte b'\\' content then input.lit_char content else some content

  unfoldable pub int_value : Option IntKind → Bytes → Option Bytes
  unfolding int_type
  int_value kind value = do
    n ← input.from_str_radix (int_type kind value) value
    some (input.int_to_string n)

  unfoldable pub float_value : Option FloatKind → Bytes → Option Bytes
  float_value (some f16) value = none
  float_value (some f32) value = input.float_to_string f32 value
  float_value (some f64) value = input.float_to_string f64 value
  float_value (some f128) value = none
  float_value none value = input.float_to_string f64 value

  unfoldable pub num_value : Num → Option Bytes
  unfolding int_value float_value without_underscores
  num_value (int value kind) = int_value kind (without_underscores (codes value))
  num_value (float value kind) = float_value kind (without_underscores (codes value))

  unfoldable pub str_lit_value : StrLit → Option Bytes
  unfolding str_value
  str_lit_value s = elim (s.prefix) [ none ↦ str_value (codes s.content) | some _ ↦ none ]

  unfoldable pub char_lit_value : CharLit → Option Bytes
  unfolding char_value
  char_lit_value c = elim (c.prefix) [ none ↦ char_value (codes c.content) | some _ ↦ none ]

  -- `let value = match *expr`
  unfoldable pub literal_value : {T : Type 0} → Expr T → Option Bytes
  unfolding str_lit_value char_lit_value num_value
  literal_value (str_lit s) = str_lit_value s
  literal_value (char_lit c) = char_lit_value c
  literal_value (num_lit s value) = num_value value
  literal_value (bool_lit true) = some (codes "true")
  literal_value (bool_lit false) = some (codes "false")
  literal_value _ = none

  unfoldable pub escape_literal : OutputKind → Bytes → Option Bytes
  escape_literal text value = some value
  escape_literal html value = Html.write_escaped_str push_str [] value

  unfoldable pub compile_time_escape : {T : Type 0} → Expr T → Bytes → Option (Writable (Expr T))
  unfolding output_kind literal_value escape_literal
  compile_time_escape e escaper = do
    output ← output_kind escaper
    value ← literal_value e
    escaped ← escape_literal output value
    some (lit escaped)

  unfoldable pub expr_is_int_lit_plus_minus_one : {T : Type 0} → Expr T → Option Bool
  unfolding int_type is_singular
  expr_is_int_lit_plus_minus_one (num_lit s (int value kind)) = do
    n ← input.from_str_radix (int_type kind (codes value)) (codes value)
    some (is_singular (int_type kind (codes value)) n)
  expr_is_int_lit_plus_minus_one _ = none
