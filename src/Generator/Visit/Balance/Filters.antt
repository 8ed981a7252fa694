-- ===== src/Generator/Visit/Balance/Filters.antt =====
-- rinja_derive/src/generator/expr.rs: the code of a filter is closed, where that of its arguments is.
use rinja.Base.{
  ℕ, false, Option, none, some, List, [], ◌∷◌, ◌≡◌, refl, arith, Bytes, codes, ltb, ◌==◌, length,
  All, is_empty, String, Option-cases, Bool-cases, inl, inr,
}
use rinja.Config.{find_escaper, contains, Escapers}
use rinja.Parser.Expr.{StrLit}
use rinja.Generator.Writables.{wrapped, unwrapped}
use rinja.Generator.Visit.{Input}
use rinja.Generator.Visit.Arguments.{
  Arg, singular, plural, str_arg, is_one_of, builtin_filters_need_alloc,
}
use rinja.Generator.Visit.Filters.{
  visit_custom_filter, visit_builtin_filter, visit_urlencode, visit_humansize,
  visit_pluralize_filter, visit_linebreaks_filter, visit_ref_filter, visit_deref_filter,
  json_function, open_json, visit_json_filter, visit_safe_filter, escaper_named, escaper_literal,
  escaper_arg, escaper_of, first_arg, visit_escape_filter, as_literal,
}
use rinja.Generator.Visit.Balance.{IsClosed, scan}
use rinja.Generator.Visit.Balance.Rules.{
  RefIsClosed, Emits, Writes, bind, ◌before◌, pure_lem, expect_lem, refuse_lem, write_lem, when_lem,
}
use rinja.Generator.Visit.Balance.Arguments.{
  IsInput, ArgWrites, args-Writes, alloc-Writes, when_or_refuse, refuse_or_when, opening, closing,
  call_end, pluralize_with-Writes, str_arg-Writes,
}
use rinja.Generator.Visit.Balance.Leaves.{done}

module _ (input : Input) (is : IsInput input) (name : String) (h : IsClosed (codes name))
    (args : List Arg) (k : All (ArgWrites input) args) {due : List ℕ} where
  pub custom-Writes : Writes due due (visit_custom_filter input name args)
  unfolding visit_custom_filter scan
  custom-Writes =
      when_lem (is_one_of name builtin_filters_need_alloc) (alloc-Writes input is name) before λ _.
      opening input is (codes "filters::") (codes name) (codes "(") (b')' ∷ due) refl h refl
      before λ _. args-Writes input is args k before λ _. call_end input is unwrapped

  pub builtin-Writes : Writes due due (visit_builtin_filter input name args)
  unfolding visit_builtin_filter scan
  builtin-Writes =
      opening input is (codes "rinja::filters::") (codes name) (codes "(") (b')' ∷ due) refl h refl
      before λ _. args-Writes input is args k before λ _. call_end input is unwrapped

  pub urlencode-Writes : Writes due due (visit_urlencode input name args)
  unfolding visit_urlencode scan
  urlencode-Writes = when_or_refuse input is input.urlencode _ before λ _.
      opening input is (codes "rinja::filters::HtmlSafeOutput(rinja::filters::") (codes name)
        (codes "(") (b')' ∷ b')' ∷ due) refl h refl
      before λ _. args-Writes input is args k before λ _.
          done unwrapped (write_lem (codes ")?)") record { scans = refl })

  pub humansize-Writes : Writes due due (visit_humansize input name args)
  unfolding visit_humansize scan
  humansize-Writes =
      opening input is (codes "rinja::filters::HtmlSafeOutput(rinja::filters::") (codes name)
        (codes "(rinja::helpers::get_primitive_value(&(") (b')' ∷ b')' ∷ b')' ∷ b')' ∷ due) refl h
        refl
      before λ _. args-Writes input is args k before λ _. done unwrapped (
          write_lem (codes ")) as rinja::helpers::core::primitive::f32)?)") record { scans = refl })

  pub linebreaks-Writes : Writes due due (visit_linebreaks_filter input name args)
  unfolding visit_linebreaks_filter scan
  linebreaks-Writes = alloc-Writes input is name before λ _.
      when_or_refuse input is (length args == 1) _ before λ _.
      opening input is (codes "rinja::filters::") (codes name)
        (codes "(&(&&rinja::filters::AutoEscaper::new(&(") (b')' ∷ b')' ∷ b')' ∷ b')' ∷ due) refl h
        refl
      before λ _. args-Writes input is args k before λ _. done unwrapped (
          write_lem (codes "), rinja::filters::Html)).rinja_auto_escape()?)?")
            record { scans = refl })

module _ (input : Input) (is : IsInput input) where
  pub pluralize-Writes :
      (args : List Arg) {due : List ℕ}
      → All (ArgWrites input) args
      → Writes due due (visit_pluralize_filter input args)
  unfolding visit_pluralize_filter scan
  pluralize-Writes [] h = refuse_lem _
  pluralize-Writes (count ∷ []) (h, _) =
      pluralize_with-Writes input is count (str_arg singular) (str_arg plural) h
        (str_arg-Writes input is singular λ due. record { scans = refl })
        (str_arg-Writes input is plural λ due. record { scans = refl })
  pluralize-Writes (count ∷ sg ∷ []) (h, (k, _)) =
      pluralize_with-Writes input is count sg (str_arg plural) h k
        (str_arg-Writes input is plural λ due. record { scans = refl })
  pluralize-Writes (count ∷ sg ∷ pl ∷ []) (h, (k, (l, _))) =
      pluralize_with-Writes input is count sg pl h k l
  pluralize-Writes (_ ∷ _ ∷ _ ∷ _ ∷ _) h = refuse_lem _

  pub ref-Writes :
      (args : List Arg) {due : List ℕ}
      → All (ArgWrites input) args
      → Writes due due (visit_ref_filter input args)
  unfolding visit_ref_filter scan
  ref-Writes [] h = refuse_lem _
  ref-Writes (arg ∷ []) {due} (h, _) =
      write_lem (codes "&") record { scans = refl } before λ _. done unwrapped (h.expr_writes due)
  ref-Writes (_ ∷ _ ∷ _) h = refuse_lem _

  pub deref-Writes :
      (args : List Arg) {due : List ℕ}
      → All (ArgWrites input) args
      → Writes due due (visit_deref_filter input args)
  unfolding visit_deref_filter scan
  deref-Writes [] h = refuse_lem _
  deref-Writes (arg ∷ []) {due} (h, _) =
      write_lem (codes "*") record { scans = refl } before λ _. done unwrapped (h.expr_writes due)
  deref-Writes (_ ∷ _ ∷ _) h = refuse_lem _

  open_json-Writes :
      (args : List Arg) {due : List ℕ}
      → Writes due (b')' ∷ due) (open_json input (json_function input args))
  unfolding open_json json_function scan
  open_json-Writes [] = refuse_lem _
  open_json-Writes (_ ∷ []) = write_lem _ record { scans = refl }
  open_json-Writes (_ ∷ _ ∷ []) = write_lem _ record { scans = refl }
  open_json-Writes (_ ∷ _ ∷ _ ∷ _) = refuse_lem _

  pub json-Writes :
      (args : List Arg) {due : List ℕ}
      → All (ArgWrites input) args
      → Writes due due (visit_json_filter input args)
  unfolding visit_json_filter
  json-Writes args h = when_or_refuse input is input.serde_json _ before λ _.
      open_json-Writes args before λ _.
      args-Writes input is args h before λ _. call_end input is unwrapped

  pub safe-Writes :
      (args : List Arg) {due : List ℕ}
      → All (ArgWrites input) args
      → Writes due due (visit_safe_filter input args)
  unfolding visit_safe_filter scan
  safe-Writes args {due} h = when_or_refuse input is (length args == 1) _ before λ _.
      write_lem (codes "rinja::filters::safe(") record { scans = refl } before λ _.
      args-Writes input is args h before λ _.
      done wrapped (closing input is due input.escaper (codes ")?") is.escaper_closed refl)

  found-IsClosed :
      (name : Bytes) (escapers : Escapers)
      → All (λ (e : List Bytes × Bytes). IsClosed e.1) escapers
      → RefIsClosed (find_escaper name escapers)
  unfolding find_escaper
  found-IsClosed name [] h = tt
  found-IsClosed name ((extensions, path) ∷ escapers) (own, others) =
      elim (Bool-cases (contains name extensions)) [
        | inl has ↦ rw has own
        | inr lacks ↦ rw lacks (found-IsClosed name escapers others)
      ]

  named-Emits :
      {due : List ℕ} (name : String) (o : Option Bytes)
      → RefIsClosed o
      → Emits IsClosed due due (escaper_named input name o)
  unfolding escaper_named
  named-Emits name none h = refuse_lem _
  named-Emits name (some path) h = pure_lem path h

  literal-Emits : {due : List ℕ} (o : Option StrLit) → Emits IsClosed due due (escaper_arg input o)
  unfolding escaper_arg escaper_literal
  literal-Emits none = refuse_lem _
  literal-Emits (some s) = elim (Option-cases s.prefix) [
    | inl plain ↦ rw plain (
        named-Emits s.content _
          (found-IsClosed (codes s.content) input.escapers is.escapers_closed))
    | inr (prefix, e) ↦ rw e (refuse_lem _)
  ]

  escaper_of-Emits :
      {due : List ℕ} (args : List Arg) → Emits IsClosed due due (escaper_of input args)
  unfolding escaper_of
  escaper_of-Emits [] = pure_lem _ is.escaper_closed
  escaper_of-Emits (_ ∷ []) = pure_lem _ is.escaper_closed
  escaper_of-Emits (_ ∷ arg ∷ _) = literal-Emits (as_literal input arg.value)

  pub escape-Writes :
      (args : List Arg) {due : List ℕ}
      → is_empty args ≡ false
      → All (ArgWrites input) args
      → Writes due due (visit_escape_filter input args)
  unfolding visit_escape_filter first_arg scan
  escape-Writes [] filled h = absurd (ground arith)
  escape-Writes (arg ∷ args) {due} filled (h, _) =
      refuse_or_when input is (ltb 2 (length (arg ∷ args))) _ before λ _.
      bind (escaper_of-Emits (arg ∷ args)) λ escaper closed.
        write_lem (codes "rinja::filters::escape(") record { scans = refl } before λ _.
        bind (expect_lem {P = All (ArgWrites input)} (arg ∷ []) refl (h, tt)) λ first closed_args.
          args-Writes input is first closed_args before λ _.
          done wrapped (closing input is due escaper (codes ")?") closed refl)
