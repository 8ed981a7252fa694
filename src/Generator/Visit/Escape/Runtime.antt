-- ===== src/Generator/Visit/Escape/Runtime.antt =====
-- rinja_derive/src/generator.rs and rinja/src/filters/escape.rs: what `compile_time_escape` puts into
-- the generated code is what the automatic escaping would write at run time.
use rinja.Base.{
  true, Option, none, some, [], ◌∷◌, ◌++◌, ◌≡◌, ◌≢◌, refl, ◌∙◌, ap, arith, Bytes, codes, bytes_eq,
  bytes_eq-≡, starts_with, drop, length, ◌>>=◌, Bool-cases, Option-cases, inl, inr, ◌⊎◌,
}
use rinja.Fmt.{push_str, push_str-IsWriter}
use rinja.Html.Escape.{escape, write_escaped_str-escape}
use rinja.Parser.Expr.{Expr}
use rinja.Generator.{lit}
use rinja.Filters.Escape.{
  Escaper, html, text, MaybeSafe, rinja_auto_escape, write_wrapped, display, escape_display,
  escape_writer,
}
use rinja.Generator.Visit.{Input}
use rinja.Generator.Visit.Escape.Displayed.{Displays, literal_value-found, literal_value-Displays}
use rinja.Generator.Visit.Escape.{
  filters_path, output_kind, literal_value, escape_literal, compile_time_escape,
}

-- The paths of the two escapers of the crate.
abbrev pub path_of : Escaper → Bytes
path_of html = codes "rinja::filters::Html"
path_of text = codes "rinja::filters::Text"

-- What the automatic escaping writes for a value that displays as one text.
unfoldable pub escaped_at_run_time : Escaper → Bytes → Option Bytes
escaped_at_run_time escaper value =
    write_wrapped push_str [] (rinja_auto_escape (MaybeSafe.needs_escaping (value ∷ [])) escaper)

bind_some {ℓ} : {A : Type ℓ} (o : Option A) → (o >>= some) ≡ o
bind_some none = refl
bind_some (some a) = refl

starts_with-drop : (s p : Bytes) → starts_with s p ≡ true → s ≡ p ++ drop (length p) s
starts_with-drop s [] h = refl
starts_with-drop [] (d ∷ p) h = ground arith
starts_with-drop (c ∷ s) (d ∷ p) h = ground (arith, starts_with-drop s p)

other_path : (path : Bytes) → path ≢ path_of html → path ≢ path_of text → output_kind path ≡ none
unfolding output_kind
other_path path h k = elim (Bool-cases (starts_with path filters_path)) [
  | inr other ↦ rw other
  | inl crate ↦
      let whole = starts_with-drop path filters_path crate in
      let rest = drop (length filters_path) path in
      elim (Bool-cases (bytes_eq rest (codes "Html"))) [
        | inl is ↦ absurd (h (whole ∙ ap (λ r. filters_path ++ r) (bytes_eq-≡ rest _ is)))
        | inr n₁ ↦ elim (Bool-cases (bytes_eq rest (codes "Text"))) [
          | inl is ↦ absurd (k (whole ∙ ap (λ r. filters_path ++ r) (bytes_eq-≡ rest _ is)))
          | inr n₂ ↦ rw (crate, n₁, n₂)
        ]
      ]
]

compile_time_escape_lem :
    (input : Input) {T : Type 0} (e : Expr T) (k : Escaper)
    → compile_time_escape input e (path_of k)
      ≡ (literal_value input e >>= λ value. escaped_at_run_time k value >>= λ s. some (lit s))
unfolding compile_time_escape output_kind escape_literal escaped_at_run_time write_wrapped
    rinja_auto_escape escape_display display escape_writer
compile_time_escape_lem input e html = elim (Option-cases (literal_value input e)) [
  | inl unknown ↦ rw unknown
  | inr (value, is) ↦ rw (is, bind_some)
]
compile_time_escape_lem input e text = elim (Option-cases (literal_value input e)) [
  | inl unknown ↦ rw unknown
  | inr (value, is) ↦ rw is
]

-- The automatic escaping of one text does not fail.
run_time_text : (k : Escaper) (v : Bytes) → (s : Bytes) × (escaped_at_run_time k v ≡ some s)
unfolding escaped_at_run_time write_wrapped rinja_auto_escape escape_display display escape_writer
run_time_text html v = (escape v, rw (write_escaped_str-escape push_str-IsWriter [] v) refl)
run_time_text text v = (v, refl)

-- For every input, expression and escaper of the crate: either the expression is a literal that
-- displays as some text, and it is replaced by what the automatic escaping writes for that text at
-- run time, which does not fail; or it displays as no text that is known, and it is not replaced.
pub compile_time_escape-run_time :
    (input : Input) {T : Type 0} (e : Expr T) (k : Escaper)
    → ((v : Bytes) × Displays input e v
        × (s : Bytes) × (escaped_at_run_time k v ≡ some s)
        × (compile_time_escape input e (path_of k) ≡ some (lit s)))
      ⊎ ((¬ ((v : Bytes) × Displays input e v)) × (compile_time_escape input e (path_of k) ≡ none))
compile_time_escape-run_time input e k = elim (Option-cases (literal_value input e)) [
  | inl unknown ↦ inr (
    λ d. absurd (ground (arith, literal_value-found input e d.0 d.1)),
    compile_time_escape_lem input e k ∙ rw unknown refl,
  )
  | inr (v, is) ↦
      let (s, runs) = run_time_text k v in
      inl (
        v,
        literal_value-Displays input e v is,
        s,
        runs,
        compile_time_escape_lem input e k ∙ rw (is, runs) refl,
      )
]

-- For any other escaper, nothing is escaped when the template is compiled.
pub compile_time_escape-none :
    (input : Input) {T : Type 0} (e : Expr T) (path : Bytes)
    → path ≢ path_of html
    → path ≢ path_of text
    → compile_time_escape input e path ≡ none
unfolding compile_time_escape
compile_time_escape-none input e path h k = rw (other_path path h k)
