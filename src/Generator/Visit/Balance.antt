-- ===== src/Generator/Visit/Balance.antt =====
-- The code that rinja_derive/src/generator/expr.rs writes, read as the tokens of Rust are: brackets
-- outside of literals are closed in the reverse order of their opening, and the literals for
-- strings and characters end at a quotation mark that no backslash stands in front of.
pub mod Rules
pub mod Leaves
pub mod Targets
pub mod Arguments
pub mod Filters
pub mod Texts
pub mod Parts
pub mod Exprs
pub mod Nested
pub mod Formats
pub mod Patterns
use rinja.Base.{
  ℕ, Bool, true, false, ◌||◌, Option, none, some, List, [], ◌∷◌, ◌++◌, ◌≡◌, refl, ◌∙◌, arith,
  if◌then◌else◌, Bytes, ◌==◌, ◌>>=◌, Option-cases, inl, inr,
}

-- The closing brackets that are due, in code and in a literal that a mark ends.
pub data Lex : Type 0 where
  code : List ℕ → Lex
  quoted : ℕ → List ℕ → Lex
  behind_backslash : ℕ → List ℕ → Lex

unfoldable pub close_bracket : ℕ → List ℕ → Option Lex
close_bracket c [] = none
close_bracket c (d ∷ due) = if c == d then some (code due) else none

unfoldable pub step : ℕ → Lex → Option Lex
unfolding close_bracket
step c (code due) =
    if c == b'('
    then some (code (b')' ∷ due))
    else if c == b'['
    then some (code (b']' ∷ due))
    else if c == b'{'
    then some (code (b'}' ∷ due))
    else if c == b')' || c == b']' || c == b'}'
    then close_bracket c due
    else if c == b'"' || c == b'\''
    then some (quoted c due)
    else some (code due)
step c (quoted mark due) =
    if c == mark
    then some (code due)
    else if c == b'\\'
    then some (behind_backslash mark due)
    else some (quoted mark due)
step c (behind_backslash mark due) = some (quoted mark due)

unfoldable pub scan : Bytes → Lex → Option Lex
unfolding step
scan [] l = some l
scan (c ∷ s) l = step c l >>= scan s

-- From code with some brackets due to code with others.
pub record Moves (s : Bytes) (due due' : List ℕ) : Type 0 where
  pub scans : scan s (code due) ≡ some (code due')

-- A text that leaves what is due as it is.
abbrev pub IsClosed : Bytes → Type 0
IsClosed s = (due : List ℕ) → Moves s due due

pub scan-append : (s t : Bytes) (l : Lex) → scan (s ++ t) l ≡ (scan s l >>= scan t)
unfolding scan
scan-append [] t l = refl
scan-append (c ∷ s) t l = elim (Option-cases (step c l)) [
  | inl stuck ↦ rw stuck
  | inr (l', e) ↦ rw e (scan-append s t l')
]

pub moves :
    {s t : Bytes} {due mid end : List ℕ}
    → Moves s due mid
    → Moves t mid end
    → Moves (s ++ t) due end
moves {s} {t} {due} p q = record { scans = scan-append s t (code due) ∙ rw p.scans q.scans }

pub append-IsClosed : {s t : Bytes} → IsClosed s → IsClosed t → IsClosed (s ++ t)
append-IsClosed p q due = moves (p due) (q due)
