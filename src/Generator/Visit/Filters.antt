-- ===== src/Generator/Visit/Filters.antt =====
-- rinja_derive/src/generator/expr.rs: the visitors of the filters. An argument is the expression with
-- what the visitors make of it: `visit_expr` and `_visit_arg`.
use rinja.Base.{
  Bool, Option, none, some, List, [], ◌∷◌, ◌++◌, String, if◌then◌else◌, Bytes, codes, ltb, ◌==◌,
  length,
}
use rinja.Parser.Expr.{StrLit, str_lit}
use rinja.Parser.Node.{TargetExpr}
use rinja.Config.{find_escaper}
use rinja.Generator.Writables.{DisplayWrap, wrapped, unwrapped}
use rinja.Parser.Expr.{StrPrefix}
use rinja.Generator.Visit.{
  Visit, Input, ◌>>=◌, ◌>>◌, pure, refuse, expect, write, feature_required, unexpected_arguments,
  too_many_escape_arguments, invalid_escaper_prefix, invalid_escaper_type, invalid_escaper,
}
use rinja.Generator.Visit.Escape.{expr_is_int_lit_plus_minus_one}
use rinja.Generator.Visit.Arguments.{
  Arg, visit_args, is_one_of, builtin_filters_need_alloc, singular, plural, str_arg,
  ensure_filter_has_feature_alloc, visit_auto_escaped_arg,
}

module _ (input : Input) where
  unfoldable pub visit_custom_filter : String → List Arg → Visit DisplayWrap
  unfolding write visit_args ensure_filter_has_feature_alloc
  visit_custom_filter name args = do
    if is_one_of name builtin_filters_need_alloc
        then ensure_filter_has_feature_alloc input name
        else pure tt
    write (codes "filters::" ++ (codes name ++ codes "("))
    visit_args args
    write (codes ")?")
    pure unwrapped

  unfoldable pub visit_builtin_filter : String → List Arg → Visit DisplayWrap
  unfolding write visit_args
  visit_builtin_filter name args = do
    write (codes "rinja::filters::" ++ (codes name ++ codes "("))
    visit_args args
    write (codes ")?")
    pure unwrapped

  unfoldable pub visit_urlencode : String → List Arg → Visit DisplayWrap
  unfolding write visit_args
  visit_urlencode name args = do
    if input.urlencode then pure tt else refuse (feature_required name)
    write (codes "rinja::filters::HtmlSafeOutput(rinja::filters::" ++ (codes name ++ codes "("))
    visit_args args
    write (codes ")?)")
    pure unwrapped

  unfoldable pub visit_humansize : String → List Arg → Visit DisplayWrap
  unfolding write visit_args
  visit_humansize name args = do
    write (
        codes "rinja::filters::HtmlSafeOutput(rinja::filters::"
        ++ (codes name ++ codes "(rinja::helpers::get_primitive_value(&("))
    visit_args args
    write (codes ")) as rinja::helpers::core::primitive::f32)?)")
    pure unwrapped

  -- `count` is not written where it is known.
  unfoldable pub write_pluralized : Option Bool → Arg → Arg → Arg → Visit (Unit {0})
  unfolding write visit_auto_escaped_arg
  write_pluralized (some is_singular) count sg pl =
      visit_auto_escaped_arg input (if is_singular then sg else pl)
  write_pluralized none count sg pl = do
    write (codes "rinja::filters::pluralize(")
    count.visit_arg
    write (codes ",")
    visit_auto_escaped_arg input sg
    write (codes ",")
    visit_auto_escaped_arg input pl
    write (codes ")?")

  unfoldable pub pluralize_with : Arg → Arg → Arg → Visit DisplayWrap
  unfolding write_pluralized expr_is_int_lit_plus_minus_one
  pluralize_with count sg pl =
      write_pluralized (expr_is_int_lit_plus_minus_one input count.value) count sg pl
      >> pure wrapped

  unfoldable pub visit_pluralize_filter : List Arg → Visit DisplayWrap
  unfolding pluralize_with str_arg
  visit_pluralize_filter (count ∷ []) = pluralize_with count (str_arg singular) (str_arg plural)
  visit_pluralize_filter (count ∷ sg ∷ []) = pluralize_with count sg (str_arg plural)
  visit_pluralize_filter (count ∷ sg ∷ pl ∷ []) = pluralize_with count sg pl
  visit_pluralize_filter _ = refuse (unexpected_arguments "pluralize")

  unfoldable pub visit_linebreaks_filter : String → List Arg → Visit DisplayWrap
  unfolding write visit_args ensure_filter_has_feature_alloc
  visit_linebreaks_filter name args = do
    ensure_filter_has_feature_alloc input name
    if length args == 1 then pure tt else refuse (unexpected_arguments name)
    write (
        codes "rinja::filters::"
        ++ (codes name ++ codes "(&(&&rinja::filters::AutoEscaper::new(&("))
    visit_args args
    write (codes "), rinja::filters::Html)).rinja_auto_escape()?)?")
    pure unwrapped

  unfoldable pub visit_ref_filter : List Arg → Visit DisplayWrap
  unfolding write
  visit_ref_filter (arg ∷ []) = do write (codes "&"); arg.visit_expr; pure unwrapped
  visit_ref_filter _ = refuse (unexpected_arguments "as_ref")

  unfoldable pub visit_deref_filter : List Arg → Visit DisplayWrap
  unfolding write
  visit_deref_filter (arg ∷ []) = do write (codes "*"); arg.visit_expr; pure unwrapped
  visit_deref_filter _ = refuse (unexpected_arguments "deref")

  unfoldable pub json_function : List Arg → Option Bytes
  json_function (_ ∷ []) = some (codes "json")
  json_function (_ ∷ _ ∷ []) = some (codes "json_pretty")
  json_function _ = none

  unfoldable pub open_json : Option Bytes → Visit (Unit {0})
  unfolding write
  open_json none = refuse (unexpected_arguments "json")
  open_json (some f) = write (codes "rinja::filters::" ++ (f ++ codes "("))

  unfoldable pub visit_json_filter : List Arg → Visit DisplayWrap
  unfolding write visit_args json_function open_json
  visit_json_filter args = do
    if input.serde_json then pure tt else refuse (feature_required "json")
    open_json (json_function args)
    visit_args args
    write (codes ")?")
    pure unwrapped

  unfoldable pub visit_safe_filter : List Arg → Visit DisplayWrap
  unfolding write visit_args
  visit_safe_filter args = do
    if length args == 1 then pure tt else refuse (unexpected_arguments "safe")
    write (codes "rinja::filters::safe(")
    visit_args args
    write (codes ", " ++ (input.escaper ++ codes ")?"))
    pure wrapped

  -- `find_map` with `ok_or_else`
  unfoldable pub escaper_named : String → Option Bytes → Visit Bytes
  escaper_named name (some path) = pure path
  escaper_named name none = refuse (invalid_escaper name)

  unfoldable pub escaper_literal : Option StrPrefix → String → Visit Bytes
  unfolding escaper_named
  escaper_literal (some _) name = refuse invalid_escaper_prefix
  escaper_literal none name = escaper_named name (find_escaper (codes name) input.escapers)

  -- `as_literal` is the test of each `Expr::StrLit`.
  unfoldable pub as_literal : TargetExpr → Option StrLit
  as_literal (str_lit s) = some s
  as_literal _ = none

  unfoldable pub escaper_arg : Option StrLit → Visit Bytes
  unfolding escaper_literal
  escaper_arg none = refuse invalid_escaper_type
  escaper_arg (some s) = escaper_literal s.prefix s.content

  -- `escaper`, from the second argument where there is one
  unfoldable pub escaper_of : List Arg → Visit Bytes
  unfolding escaper_arg as_literal
  escaper_of (_ ∷ arg ∷ _) = escaper_arg (as_literal arg.value)
  escaper_of (_ ∷ []) = pure input.escaper
  escaper_of [] = pure input.escaper

  -- `&args[..1]`
  unfoldable pub first_arg : List Arg → Option (List Arg)
  first_arg [] = none
  first_arg (arg ∷ _) = some (arg ∷ [])

  unfoldable pub visit_escape_filter : List Arg → Visit DisplayWrap
  unfolding write expect visit_args escaper_of first_arg
  visit_escape_filter args = do
    if ltb 2 (length args) then refuse too_many_escape_arguments else pure tt
    escaper ← escaper_of args
    write (codes "rinja::filters::escape(")
    first ← expect (first_arg args)
    visit_args first
    write (codes ", " ++ (escaper ++ codes ")?"))
    pure wrapped
