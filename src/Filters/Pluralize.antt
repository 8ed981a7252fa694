-- ===== src/Filters/Pluralize.antt =====
-- rinja/src/filters/builtin.rs: the filter `pluralize` on unsigned and signed integers, plain and
-- non-zero; the check of an integer cannot fail.
use rinja.Base.{
  Bool-cases, inl, inr, ℕ, ◌+◌, Bool, false, ◌||◌, Option, List, Bytes, ◌==◌, ◌≡◌, refl, arith,
  if◌then◌else◌,
}
use rinja.Fmt.{WriteStr}
use rinja.Filters.Escape.{display}

-- A signed integer: a natural number, or what is below zero, from `-1` on downwards.
pub data Signed : Type 0 where
  pos negsuc : ℕ → Signed

-- The types that implement `PluralizeCount` by the macros.
pub data Count : Type 0 where
  unsigned : ℕ → Count
  signed : Signed → Count
  non_zero : Count → Count

-- `*self == 1` and `*self == -1` on signed integers
abbrev pub is_one : Signed → Bool
is_one (pos n) = n == 1
is_one (negsuc n) = false

abbrev pub is_minus_one : Signed → Bool
is_minus_one (pos n) = false
is_minus_one (negsuc n) = n == 0

unfoldable pub is_singular : Count → Bool
is_singular (unsigned n) = n == 1
is_singular (signed i) = is_one i || is_minus_one i
is_singular (non_zero c) = is_singular c

-- `Pluralize`
pub data Pluralize : Type 0 where
  singular plural : List Bytes → Pluralize

unfoldable pub pluralize : Count → List Bytes → List Bytes → Pluralize
unfolding is_singular
pluralize count one many = if is_singular count then singular one else plural many

-- `fmt` and `write_into`
unfoldable pub write_pluralize : {W : Type 0} → WriteStr W → W → Pluralize → Option W
unfolding display
write_pluralize write_str w (singular value) = display write_str w value
write_pluralize write_str w (plural value) = display write_str w value

-- The absolute value.
abbrev pub magnitude : Count → ℕ
magnitude (unsigned n) = n
magnitude (signed (pos n)) = n
magnitude (signed (negsuc n)) = n + 1
magnitude (non_zero c) = magnitude c

is_singular-magnitude : (count : Count) → is_singular count ≡ (magnitude count == 1)
unfolding is_singular
is_singular-magnitude (unsigned n) = refl
is_singular-magnitude (signed (pos n)) = ground arith
is_singular-magnitude (signed (negsuc n)) = ground arith
is_singular-magnitude (non_zero c) = is_singular-magnitude c

-- For every destination, count and texts: the first text is written where the absolute value of
-- the count is one, else the second one.
pub write_pluralize-magnitude :
    {W : Type 0} (write_str : WriteStr W) (w : W) (count : Count) (one many : List Bytes)
    → write_pluralize write_str w (pluralize count one many)
      ≡ display write_str w (if magnitude count == 1 then one else many)
unfolding write_pluralize pluralize
write_pluralize-magnitude write_str w count one many = elim (Bool-cases (magnitude count == 1)) [
  | inl is ↦ rw (is_singular-magnitude count, is)
  | inr is_not ↦ rw (is_singular-magnitude count, is_not)
]
