-- ===== src/Generator/Visit/Wrapping/Filters.antt =====
-- rinja_derive/src/generator/expr.rs: which filters are reported as escaped already.
use rinja.Base.{
  true, false, List, [], ◌∷◌, ◌≡◌, refl, ◌∙◌, sym, arith, ap, String, All, Bool-cases, inl, inr,
  str_eq, eq_iff,
}
use rinja.Generator.Writables.{DisplayWrap, wrapped, unwrapped}
use rinja.Generator.Visit.{Visit, Input}
use rinja.Generator.Visit.Arguments.{Arg, is_one_of, builtin_filters}
use rinja.Generator.Visit.Filters.{
  visit_deref_filter, visit_escape_filter, visit_humansize, visit_json_filter,
  visit_linebreaks_filter, visit_pluralize_filter, visit_ref_filter, visit_safe_filter,
  visit_urlencode, visit_builtin_filter, visit_custom_filter, pluralize_with,
}
use rinja.Generator.Visit.Formats.{
  visit_filter, visit_fmt_filter, visit_format_filter, visit_join_filter, format_literal,
  fmt_literal,
}
use rinja.Generator.Visit.Wrapping.{safe_filters, wrap_if, Gives, Is, chosen}

module _ (input : Input) (name : String) (args : List Arg) where
  custom-Gives : Gives (Is unwrapped) (visit_custom_filter input name args)
  unfolding visit_custom_filter
  custom-Gives = record { gives = λ s a t e. ground arith }

  builtin-Gives : Gives (Is unwrapped) (visit_builtin_filter input name args)
  unfolding visit_builtin_filter
  builtin-Gives = record { gives = λ s a t e. ground arith }

  urlencode-Gives : Gives (Is unwrapped) (visit_urlencode input name args)
  unfolding visit_urlencode
  urlencode-Gives = record { gives = λ s a t e. ground arith }

  humansize-Gives : Gives (Is unwrapped) (visit_humansize input name args)
  unfolding visit_humansize
  humansize-Gives = record { gives = λ s a t e. ground arith }

  linebreaks-Gives : Gives (Is unwrapped) (visit_linebreaks_filter input name args)
  unfolding visit_linebreaks_filter
  linebreaks-Gives = record { gives = λ s a t e. ground arith }

  pluralized-Gives : Gives (Is wrapped) (visit_pluralize_filter input args)
  unfolding visit_pluralize_filter pluralize_with
  pluralized-Gives = record { gives = λ s a t e. ground arith }

  referenced-Gives : Gives (Is unwrapped) (visit_ref_filter input args)
  unfolding visit_ref_filter
  referenced-Gives = record { gives = λ s a t e. ground arith }

  dereferenced-Gives : Gives (Is unwrapped) (visit_deref_filter input args)
  unfolding visit_deref_filter
  dereferenced-Gives = record { gives = λ s a t e. ground arith }

  json-Gives : Gives (Is unwrapped) (visit_json_filter input args)
  unfolding visit_json_filter
  json-Gives = record { gives = λ s a t e. ground arith }

  safe-Gives : Gives (Is wrapped) (visit_safe_filter input args)
  unfolding visit_safe_filter
  safe-Gives = record { gives = λ s a t e. ground arith }

  escape-Gives : Gives (Is wrapped) (visit_escape_filter input args)
  unfolding visit_escape_filter
  escape-Gives = record { gives = λ s a t e. ground arith }

  format-Gives : Gives (Is unwrapped) (visit_format_filter input name args)
  unfolding visit_format_filter format_literal
  format-Gives = record { gives = λ s a t e. ground arith }

  fmt-Gives : Gives (Is unwrapped) (visit_fmt_filter input name args)
  unfolding visit_fmt_filter fmt_literal
  fmt-Gives = record { gives = λ s a t e. ground arith }

  join-Gives : Gives (Is unwrapped) (visit_join_filter input args)
  unfolding visit_join_filter
  join-Gives = record { gives = λ s a t e. ground arith }

  expected :
      {w w' : DisplayWrap} {m : Visit DisplayWrap} → w ≡ w' → Gives (Is w) m → Gives (Is w') m
  expected e h = rw e at h

  known :
      {w : DisplayWrap} (n : String)
      → w ≡ wrap_if (is_one_of n safe_filters)
      → str_eq name n ≡ true
      → w ≡ wrap_if (is_one_of name safe_filters)
  known n e h =
      e ∙ ap (λ (m : String). wrap_if (is_one_of m safe_filters)) (sym ((eq_iff name n).0 h))

  known_of :
      {w : DisplayWrap} (names : List String)
      → All (λ n. w ≡ wrap_if (is_one_of n safe_filters)) names
      → is_one_of name names ≡ true
      → w ≡ wrap_if (is_one_of name safe_filters)
  known_of [] e h = absurd (ground arith)
  known_of (n ∷ names) (own, others) h = elim (Bool-cases (str_eq name n)) [
    | inl same ↦ known n own same
    | inr other ↦ known_of names others (rw other at h)
  ]

  unknown :
      str_eq name "safe" ≡ false
      → is_one_of name ("escape" ∷ "e" ∷ []) ≡ false
      → str_eq name "pluralize" ≡ false
      → unwrapped ≡ wrap_if (is_one_of name safe_filters)
  unknown h k l = ground arith

  pub filter-Gives :
      Gives (Is (wrap_if (is_one_of name safe_filters))) (visit_filter input name args)
  unfolding visit_filter
  filter-Gives =
      chosen _ (λ h. expected (known "deref" refl h) dereferenced-Gives)
        λ n₁.
          chosen _
            (λ h. expected (known_of ("escape" ∷ "e" ∷ []) (refl, (refl, tt)) h) escape-Gives)
            λ n₂.
              chosen _ (λ h. expected (known "filesizeformat" refl h) humansize-Gives)
                λ n₃.
                  chosen _ (λ h. expected (known "fmt" refl h) fmt-Gives)
                    λ n₄.
                      chosen _ (λ h. expected (known "format" refl h) format-Gives)
                        λ n₅.
                          chosen _ (λ h. expected (known "join" refl h) join-Gives)
                            λ n₆.
                              chosen _
                                (λ h.
                                  expected (known_of ("json" ∷ "tojson" ∷ []) (refl, (refl, tt)) h)
                                    json-Gives)
                                λ n₇.
                                  chosen _
                                    (λ h.
                                      expected
                                        (known_of
                                          ("linebreaks" ∷ "linebreaksbr" ∷ "paragraphbreaks" ∷ [])
                                          (refl, (refl, (refl, tt))) h)
                                        linebreaks-Gives)
                                    λ n₈.
                                      chosen _
                                        (λ h. expected (known "pluralize" refl h) pluralized-Gives)
                                        λ n₉.
                                          chosen _
                                            (λ h. expected (known "ref" refl h) referenced-Gives)
                                            λ n₁₀.
                                              chosen _
                                                (λ h. expected (known "safe" refl h) safe-Gives)
                                                λ n₁₁.
                                                  chosen
                                                    (is_one_of name
                                                      ("urlencode" ∷ "urlencode_strict" ∷ []))
                                                    (λ h.
                                                      expected (unknown n₁₁ n₂ n₉) urlencode-Gives)
                                                    λ n₁₂.
                                                      chosen (is_one_of name builtin_filters)
                                                        (λ h.
                                                          expected (unknown n₁₁ n₂ n₉)
                                                            builtin-Gives)
                                                        λ n₁₃.
                                                          expected (unknown n₁₁ n₂ n₉) custom-Gives
