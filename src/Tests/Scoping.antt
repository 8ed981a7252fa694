-- ===== src/Tests/Scoping.antt =====
-- The keywords and the levels of rinja_parser/src/lib.rs and the scopes of
-- rinja_derive/src/generator.rs on small inputs.
use rinja.Base.{
  inl, inr, ◌+◌, ◌≤◌, ◌<◌, true, false, none, some, List, [], ◌∷◌, ◌++◌, ◌≡◌, refl, Bytes, codes,
  ◌>>=◌, ◌⊎◌, ◌↔◌, length, bytes_eq, if◌then◌else◌,
}
use rinja.Parser.Keywords.{
  rust_keywords, padded_ident, is_rust_keyword_inner, is_rust_keyword, normalize_identifier,
}
use rinja.Parser.Keywords.Raw.{normalize_identifier-cases}
use rinja.Parser.Level.{
  Level, Step, nesting, guarding, nesting_guard, dropping, new, nest, run, max_depth,
}
use rinja.Parser.Level.Balance.{held, release_all, run-new}
use rinja.Parser.Syntax.{SyntaxBuilder, SyntaxError, to_syntax, fill, clashes, block, expression}
use rinja.Parser.Syntax.Valid.{IsFilled, IsSyntax, to_syntax-IsSyntax}
use rinja.Generator.Scopes.{Scope, initialized, with_ref, get, insert}
use rinja.Generator.Scopes.Laws.{get-insert}

abbrev kind : Bytes
kind = codes "type"

makes_raw : normalize_identifier kind ≡ some (codes "r#type")
unfolding normalize_identifier
makes_raw = refl

self_is_no_name : is_rust_keyword (codes "self") ≡ some true
unfolding is_rust_keyword
self_is_no_name = refl

normalize_identifier-cases_example :
    ((length kind ≤ 8)
      × (is_rust_keyword_inner rust_keywords (padded_ident kind) (length kind) ≡ some true)
      × (normalize_identifier kind ≡ some (codes "r#" ++ kind)))
    ⊎ ((normalize_identifier kind ≡ some kind)
        × ((8 < length kind)
            ⊎ (is_rust_keyword_inner rust_keywords (padded_ident kind) (length kind) ≡ some false)))
normalize_identifier-cases_example = normalize_identifier-cases kind

abbrev outer : Scope
outer = (codes "user", with_ref (codes "self.user")) ∷ []

get-insert_example :
    (insert kind initialized ([] ∷ outer ∷ []) >>= λ chain. some (get (codes "user") chain))
    ≡ some (
        if bytes_eq (codes "user") kind
        then some initialized
        else get (codes "user") ([] ∷ outer ∷ []))
get-insert_example = get-insert kind (codes "user") initialized [] (outer ∷ [])

abbrev steps : List Step
steps = nesting ∷ guarding ∷ nesting_guard 0 ∷ nesting_guard 0 ∷ nesting ∷ dropping ∷ []

abbrev reached : Level
reached = record { level = 125; guards = 2 ∷ 1 ∷ [] }

run-new_example :
    (125 + held (2 ∷ 1 ∷ []) ≡ max_depth)
    × ((nest reached ≡ none) ↔ (held (2 ∷ 1 ∷ []) ≡ max_depth))
    × (release_all (2 ∷ 1 ∷ []) 125 ≡ max_depth)
run-new_example = run-new steps reached (unfold run new in refl)

abbrev builder : SyntaxBuilder
builder = record {
  name = codes "custom";
  block_start = some (codes "<?");
  block_end = none;
  expr_start = some (codes "<?=");
  expr_end = none;
  comment_start = none;
  comment_end = none;
}

rejects_prefix : to_syntax builder ≡ inl (clashes block (codes "<?") expression (codes "<?="))
unfolding to_syntax rinja.Fmt.encode_utf8
rejects_prefix = refl

-- One character is enough for a delimiter, where its encoding has two bytes.
abbrev one_character : SyntaxBuilder
one_character = record builder { block_start = some (233 ∷ []); expr_start = none }

accepts_one_character : to_syntax one_character ≡ inr (fill one_character)
unfolding to_syntax rinja.Fmt.encode_utf8
accepts_one_character = refl

to_syntax-IsSyntax_example :
    IsFilled builder (fill builder)
    × (((to_syntax builder ≡ inr (fill builder)) × IsSyntax (fill builder))
        ⊎ ((e : SyntaxError) × (to_syntax builder ≡ inl e) × (¬ IsSyntax (fill builder))))
to_syntax-IsSyntax_example = to_syntax-IsSyntax builder
