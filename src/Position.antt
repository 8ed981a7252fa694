-- ===== src/Position.antt =====
-- rinja_derive/src/lib.rs: `generate_row_and_column`, the place in a template that an error message
-- names. A text is the list of its characters; `debug` is the standard library's `{:?}` of a text.
use rinja.Base.{
  ◌⊎◌, ℕ, suc, ◌+◌, ◌-◌, ◌<◌, ◌≡◌, refl, ◌∙◌, ap, Bool, true, false, Option, none, some, List, [],
  ◌∷◌, ◌++◌, if◌then◌else◌, ◌==◌, ltb, Bytes, codes, newline, is_empty, length, length-append, take,
  drop, take-length-append, arith, Bool-cases, inl, inr,
}

abbrev pub carriage_return : ℕ
carriage_return = 13

-- A carriage return at the end of a line is a part of its ending.
unfoldable pub strip_cr : Bytes → Bytes
strip_cr [] = []
strip_cr (c ∷ []) = if c == carriage_return then [] else c ∷ []
strip_cr (c ∷ d ∷ s) = c ∷ strip_cr (d ∷ s)

-- `str::lines`, with the line that is being read
unfoldable pub lines : Bytes → Bytes → List Bytes
unfolding strip_cr
lines current [] = if is_empty current then [] else current ∷ []
lines current (c ∷ s) =
    let here = lines [] s in
    let further = lines (current ++ c ∷ []) s in
    if c == newline then strip_cr current ∷ here else further

-- `enumerate().last()`, from a number on
unfoldable pub last_numbered : ℕ → List Bytes → Option (ℕ × Bytes)
last_numbered n [] = none
last_numbered n (line ∷ rest) = elim (last_numbered (n + 1) rest) [
  | none ↦ some (n, line)
  | some found ↦ some found
]

pub record ErrorInfo : Type 0 where
  pub row : ℕ
  pub column : ℕ
  pub source_after : Bytes

abbrev pub max_line_len : ℕ
max_line_len = 80

-- `unwrap_or_default`
abbrev pub or_default : Option (ℕ × Bytes) → ℕ × Bytes
or_default none = (0, [])
or_default (some found) = found

unfoldable pub shortened : (Bytes → Bytes) → Bytes → Bytes
shortened debug s =
    if ltb max_line_len (length s) then debug (take max_line_len s) ++ codes "..." else debug s

unfoldable pub generate_row_and_column : (Bytes → Bytes) → Bytes → Bytes → ErrorInfo
unfolding lines last_numbered shortened
generate_row_and_column debug src input =
    let offset = length src - length input in
    let found = or_default (last_numbered 0 (lines [] (take offset src))) in
    record {
      row = found.0 + 1;
      column = length (found.1);
      source_after = shortened debug (drop offset src);
    }

-- The place behind a text: the newlines in it, and the characters behind the last one.
unfoldable pub newlines : Bytes → ℕ
newlines [] = 0
newlines (c ∷ s) = let rest = newlines s in if c == newline then suc rest else rest

unfoldable pub column_from : ℕ → Bytes → ℕ
column_from n [] = n
column_from n (c ∷ s) = column_from (if c == newline then 0 else n + 1) s

-- Whether a line starts behind the text, where one starts in front or not.
unfoldable pub at_start : Bool → Bytes → Bool
at_start start [] = start
at_start start (c ∷ s) = at_start (c == newline) s

not_empty : (s : Bytes) (c : ℕ) → is_empty (s ++ c ∷ []) ≡ false
not_empty [] c = refl
not_empty (d ∷ s) c = refl

Nat-cases : (n : ℕ) → (n ≡ 0) ⊎ (0 < n)
Nat-cases n = ground arith

within_line :
    (s current : Bytes) (n : ℕ)
    → at_start (is_empty current) s ≡ false
    → (line : Bytes) × (last_numbered n (lines current s) ≡ some (n + newlines s, line))
      × (length line ≡ column_from (length current) s)
unfolding lines last_numbered newlines column_from at_start
within_line [] current n inside =
    (current, rw inside (ap (λ k. some (k, current)) (omega arith)), refl)
within_line (c ∷ s) current n inside = elim (Bool-cases (c == newline)) [
  | inl nl ↦
      let (line, last, size) = within_line s [] (n + 1) (rw nl at inside) in
      (line, rw (nl, last) (ap (λ k. some (k, line)) (omega arith)), rw nl size)
  | inr other ↦
      let (line, last, size) =
        within_line s (current ++ c ∷ []) n (rw (not_empty current c) (rw other at inside)) in
      (
        line,
        rw other last,
        rw other (size ∙ ap (λ k. column_from k s) (length-append current (c ∷ []))),
      )
]

no_newline : (s : Bytes) (start : Bool) → newlines s ≡ 0 → at_start start s ≡ true → s ≡ []
unfolding newlines at_start
no_newline [] start none_in at = refl
no_newline (c ∷ []) start none_in at = ground arith
no_newline (c ∷ d ∷ s) start none_in at = elim (Bool-cases (c == newline)) [
  | inl nl ↦ ground arith
  | inr other ↦
      let nothing : d ∷ s ≡ [] = no_newline (d ∷ s) false (rw other at none_in) at in ground arith
]

behind_line :
    (s current : Bytes) (n : ℕ)
    → at_start (is_empty current) s ≡ true
    → 0 < newlines s
    → (line : Bytes) × (last_numbered n (lines current s) ≡ some (n + newlines s - 1, line))
unfolding lines last_numbered newlines at_start
behind_line [] current n behind some_in = ground arith
behind_line (c ∷ s) current n behind some_in = elim (Bool-cases (c == newline)) [
  | inl nl ↦ elim (Nat-cases (newlines s)) [
    | inl none_left ↦
        let nothing : s ≡ [] = no_newline s true none_left (rw nl at behind) in
        (strip_cr current, rw (nl, nothing) (ap (λ k. some (k, strip_cr current)) (omega arith)))
    | inr more ↦
        let (line, last) = behind_line s [] (n + 1) (rw nl at behind) more in
        (line, rw (nl, last) (ap (λ k. some (k, line)) (omega arith)))
  ]
  | inr other ↦
      let (line, last) =
        behind_line s (current ++ c ∷ []) n (rw (not_empty current c) (rw other at behind))
          (rw other at some_in) in
      (line, rw other last)
]

offset_lem : (before input : Bytes) → length (before ++ input) - length input ≡ length before
offset_lem before input = omega (arith, length-append before input)

-- Where the text in front of an error is inside a line, neither empty nor at the end of one: the
-- row counts the newlines of that text, from 1 on, and the column the characters behind the last
-- of them.
pub generate_row_and_column-newlines :
    (debug : Bytes → Bytes) (before input : Bytes)
    → at_start true before ≡ false
    → ((generate_row_and_column debug (before ++ input) input).row ≡ newlines before + 1)
      × ((generate_row_and_column debug (before ++ input) input).column ≡ column_from 0 before)
unfolding generate_row_and_column
generate_row_and_column-newlines debug before input inside =
    let (line, last, size) = within_line before [] 0 inside in
    rw (offset_lem before input, take-length-append before input, last) (omega arith, size)

-- Where the text in front of an error has a newline and ends with one, so that the error is in the
-- line behind it, the row is that of the line in front: one less than the newlines and one.
pub generate_row_and_column-at_start :
    (debug : Bytes → Bytes) (before input : Bytes)
    → at_start true before ≡ true
    → 0 < newlines before
    → (generate_row_and_column debug (before ++ input) input).row ≡ newlines before
unfolding generate_row_and_column
generate_row_and_column-at_start debug before input behind some_in =
    let (line, last) = behind_line before [] 0 behind some_in in
    rw (offset_lem before input, take-length-append before input, last) (omega arith)
