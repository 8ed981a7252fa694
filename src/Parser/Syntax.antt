-- ===== src/Parser/Syntax.antt =====
-- rinja_parser/src/lib.rs: the delimiters of tags, `InnerSyntax`, and the checks that
-- `SyntaxBuilder::to_syntax` makes of configured ones. A delimiter is the list of its characters,
-- as code points; its length is that of its encoding.
pub mod Delimiters
pub mod Valid
use rinja.Base.{
  ℕ, ◌+◌, Bool, true, false, ◌&&◌, ◌||◌, Option, none, some, List, [], ◌∷◌, ◌⊎◌, inl, inr,
  if◌then◌else◌, ltb, leb, ◌==◌, codes, length, starts_with, contains_byte, Bytes,
}
use rinja.Fmt.{encode_utf8}

abbrev pub Chars : Type 0
Chars = List ℕ

-- `str::len`
unfoldable pub len : Chars → ℕ
len [] = 0
len (c ∷ s) = length (encode_utf8 c) + len s

-- `char::is_whitespace`
unfoldable pub is_whitespace : ℕ → Bool
is_whitespace c =
    (leb 9 c && leb c 13)
    || (leb 8192 c && leb c 8202)
    || contains_byte c (32 ∷ 133 ∷ 160 ∷ 5760 ∷ 8232 ∷ 8233 ∷ 8239 ∷ 8287 ∷ 12288 ∷ [])

unfoldable pub any_whitespace : Chars → Bool
unfolding is_whitespace
any_whitespace [] = false
any_whitespace (c ∷ s) = is_whitespace c || any_whitespace s

pub record InnerSyntax : Type 0 where
  pub block_start : Chars
  pub block_end : Chars
  pub expr_start : Chars
  pub expr_end : Chars
  pub comment_start : Chars
  pub comment_end : Chars

unfoldable pub default : InnerSyntax
default = record {
  block_start = codes "{%";
  block_end = codes "%}";
  expr_start = codes "{{";
  expr_end = codes "}}";
  comment_start = codes "{#";
  comment_end = codes "#}";
}

pub record SyntaxBuilder : Type 0 where
  pub name : Bytes
  pub block_start : Option Chars
  pub block_end : Option Chars
  pub expr_start : Option Chars
  pub expr_end : Option Chars
  pub comment_start : Option Chars
  pub comment_end : Option Chars

pub data Kind : Type 0 where
  block expression comment : Kind

-- The errors, with what their messages name.
pub data SyntaxError : Type 0 where
  too_short too_long contains_white_spaces starts_with_operator : Bool → Kind → Chars → SyntaxError
  clashes : Kind → Chars → Kind → Chars → SyntaxError

-- The array of operators; the first character is there, since the length was tested before.
unfoldable pub starts_operator : Chars → Bool
starts_operator [] = false
starts_operator (c ∷ s) = contains_byte c (codes "(-+~.><&|!")

-- One round of the first loop; the flag is `is_closing`.
unfoldable pub check : Chars × Kind × Bool → Option SyntaxError
unfolding len any_whitespace starts_operator
check (s, k, is_closing) =
    if ltb (len s) 2
    then some (too_short is_closing k s)
    else if ltb 32 (len s)
    then some (too_long is_closing k s)
    else if any_whitespace s
    then some (contains_white_spaces is_closing k s)
    else if is_closing && starts_operator s
    then some (starts_with_operator is_closing k s)
    else none

-- One round of the second loop.
unfoldable pub clash : (Chars × Kind) × Chars × Kind → Option SyntaxError
unfolding len
clash ((s1, k1), s2, k2) =
    if starts_with s1 s2 || starts_with s2 s1
    then some (if ltb (len s1) (len s2) then clashes k1 s1 k2 s2 else clashes k2 s2 k1 s1)
    else none

-- A loop that returns the first error.
unfoldable pub first_error : {A : Type 0} → (A → Option SyntaxError) → List A → Option SyntaxError
first_error test [] = none
first_error test (a ∷ rounds) = elim (test a) [ some e ↦ some e | none ↦ first_error test rounds ]

unfoldable pub delimiters : InnerSyntax → List (Chars × Kind × Bool)
delimiters syntax =
    (syntax.block_start, block, false)
    ∷ (syntax.block_end, block, true)
    ∷ (syntax.expr_start, expression, false)
    ∷ (syntax.expr_end, expression, true)
    ∷ (syntax.comment_start, comment, false)
    ∷ (syntax.comment_end, comment, true)
    ∷ []

unfoldable pub pairs : InnerSyntax → List ((Chars × Kind) × Chars × Kind)
pairs syntax =
    ((syntax.block_start, block), syntax.expr_start, expression)
    ∷ ((syntax.block_start, block), syntax.comment_start, comment)
    ∷ ((syntax.expr_start, expression), syntax.comment_start, comment)
    ∷ []

abbrev pub unwrap_or : Option Chars → Chars → Chars
unwrap_or none d = d
unwrap_or (some s) d = s

unfoldable pub fill : SyntaxBuilder → InnerSyntax
unfolding default
fill b = record {
  block_start = unwrap_or b.block_start default.block_start;
  block_end = unwrap_or b.block_end default.block_end;
  expr_start = unwrap_or b.expr_start default.expr_start;
  expr_end = unwrap_or b.expr_end default.expr_end;
  comment_start = unwrap_or b.comment_start default.comment_start;
  comment_end = unwrap_or b.comment_end default.comment_end;
}

-- The error of the first loop, else that of the second one, else the syntax.
abbrev pub outcome :
    Option SyntaxError → Option SyntaxError → InnerSyntax → SyntaxError ⊎ InnerSyntax
outcome (some e) _ syntax = inl e
outcome none (some e) syntax = inl e
outcome none none syntax = inr syntax

unfoldable pub to_syntax : SyntaxBuilder → SyntaxError ⊎ InnerSyntax
unfolding fill first_error check clash delimiters pairs
to_syntax b =
    outcome (first_error check (delimiters (fill b))) (first_error clash (pairs (fill b))) (fill b)
