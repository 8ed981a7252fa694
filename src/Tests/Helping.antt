-- ===== src/Tests/Helping.antt =====
-- rinja/src/helpers.rs, rinja/src/filters/alloc.rs, and the places and indentations of
-- rinja_derive/src/lib.rs and rinja_derive/src/input.rs on small texts.
use rinja.Base.{
  ℕ, ◌+◌, ◌*◌, ◌-◌, ◌≡◌, refl, Bool, some, none, List, [], ◌∷◌, ◌++◌, ◌==◌, ◌>>=◌, All, Bytes,
  codes, length, get_elem?, take, arith, space,
}
use rinja.Loops.{LoopItem, rounds, new, rounds-get_elem?}
use rinja.Filters.Trim.{trim, trim_start, trim_end, written, trim-written}
use rinja.Filters.Indent.{max_len, indent, dedent, further_lines, dedent-indent}
use rinja.Position.{at_start, newlines, generate_row_and_column, generate_row_and_column-at_start}
use rinja.Indentation.Prefix.{IsCuttable, prefix_of-starts_with}
use rinja.Indentation.{indentation, indentations, prefix_of, shared, shorten, shorten-shared}

rounds-get_elem?_example :
    (seen : List (ℕ × LoopItem)) × (rounds 3 (new (7 ∷ 8 ∷ [])) ≡ some seen)
    × (length seen ≡ 2)
    × ((i : ℕ)
        → get_elem? seen i ≡ (
            get_elem? (7 ∷ 8 ∷ []) i >>= λ item.
            some (item, record { index = i; first = i == 0; last = (i + 1) == 2 })))
rounds-get_elem?_example = rounds-get_elem? (7 ∷ 8 ∷ []) 3 (omega arith)

abbrev is_space : ℕ → Bool
is_space c = c == space

abbrev pieces : List Bytes
pieces = codes "  " ∷ codes " a " ∷ codes "b  " ∷ []

trim-written_example :
    trim is_space pieces ≡ trim_end is_space (trim_start is_space (written pieces))
trim-written_example = trim-written is_space pieces

trims : trim is_space pieces ≡ codes "a b"
unfolding trim
trims = refl

abbrev before : Bytes
before = codes "a\nbc"

generate_row_and_column-at_start_example :
    (generate_row_and_column (λ s. s) (codes "a\n" ++ codes "?") (codes "?")).row
    ≡ newlines (codes "a\n")
unfolding at_start newlines
generate_row_and_column-at_start_example =
    generate_row_and_column-at_start (λ s. s) (codes "a\n") (codes "?") refl (omega arith)

dedent-indent_example :
    (dedent 2 0 (indent (codes "a\nb") 2) ≡ codes "a\nb")
    × (length (indent (codes "a\nb") 2) ≡ 3 + further_lines (codes "a\nb") * 2)
unfolding max_len
dedent-indent_example = dedent-indent (codes "a\nb") 2 (omega arith) (omega arith)

prefix_of-starts_with_example :
    (indentation (prefix_of (indentations (codes "   a" ∷ codes "" ∷ codes "   b" ∷ []))) ≡ none)
    × All
        (IsCuttable (prefix_of (indentations (codes "   a" ∷ codes "" ∷ codes "   b" ∷ []))))
        (codes "   a" ∷ codes "" ∷ codes "   b" ∷ [])
prefix_of-starts_with_example = prefix_of-starts_with (codes "   a" ∷ codes "" ∷ codes "   b" ∷ [])

one_shorter : prefix_of (indentations (codes "   a" ∷ codes "   b" ∷ [])) ≡ codes "  "
unfolding prefix_of indentations
one_shorter = refl

shorten-shared_example :
    (shorten (codes "   ") (codes "  ")
      ≡ take (shared (codes "   ") (codes "  ") - 1) (codes "   "))
    × (shorten (codes "   ") (codes "   ") ≡ take (3 - 1) (codes "   "))
shorten-shared_example = shorten-shared (codes "   ") (codes "  ")
