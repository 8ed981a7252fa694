-- ===== src/Generator/Visit/Formats.antt =====
-- rinja_derive/src/generator/expr.rs: the visitors of `format`, `fmt` and `join`, and `visit_filter`.
use rinja.Base.{
  ℕ, ◌+◌, Option, none, some, List, [], ◌∷◌, String, if◌then◌else◌, codes, ltb, ◌==◌, str_eq,
}
use rinja.Parser.Expr.{StrLit}
use rinja.Generator.Writables.{DisplayWrap, unwrapped}
use rinja.Generator.Visit.{Visit, Input, ◌>>◌, pure, refuse, write, format_usage, fmt_usage}
use rinja.Generator.Visit.Leaves.{visit_str_lit}
use rinja.Generator.Visit.Arguments.{
  Arg, visit_args, is_one_of, builtin_filters, ensure_filter_has_feature_alloc,
}
use rinja.Generator.Visit.Filters.{
  visit_custom_filter, visit_builtin_filter, visit_urlencode, visit_humansize,
  visit_pluralize_filter, visit_linebreaks_filter, visit_ref_filter, visit_deref_filter,
  visit_json_filter, visit_safe_filter, as_literal, visit_escape_filter,
}

module _ (input : Input) where
  unfoldable pub more_args : List Arg → Visit (Unit {0})
  unfolding write visit_args
  more_args [] = pure tt
  more_args (arg ∷ args) = do write (codes ","); visit_args (arg ∷ args)

  unfoldable pub format_literal : Option StrLit → List Arg → Visit DisplayWrap
  unfolding write visit_str_lit more_args
  format_literal none args = refuse format_usage
  format_literal (some fmt) args = do
    write (codes "rinja::helpers::alloc::format!(")
    visit_str_lit fmt
    more_args args
    write (codes ")")
    pure unwrapped

  unfoldable pub visit_format_filter : String → List Arg → Visit DisplayWrap
  unfolding ensure_filter_has_feature_alloc format_literal as_literal
  visit_format_filter name [] = ensure_filter_has_feature_alloc input name >> refuse format_usage
  visit_format_filter name (fmt ∷ args) =
      ensure_filter_has_feature_alloc input name >> format_literal (as_literal input fmt.value) args

  unfoldable pub fmt_literal : Option StrLit → Arg → Visit DisplayWrap
  unfolding write visit_str_lit visit_args
  fmt_literal none arg = refuse fmt_usage
  fmt_literal (some fmt) arg = do
    write (codes "rinja::helpers::alloc::format!(")
    visit_str_lit fmt
    write (codes ",")
    visit_args (arg ∷ [])
    write (codes ")")
    pure unwrapped

  unfoldable pub visit_fmt_filter : String → List Arg → Visit DisplayWrap
  unfolding ensure_filter_has_feature_alloc fmt_literal as_literal
  visit_fmt_filter name (arg ∷ fmt ∷ []) =
      ensure_filter_has_feature_alloc input name >> fmt_literal (as_literal input fmt.value) arg
  visit_fmt_filter name _ = ensure_filter_has_feature_alloc input name >> refuse fmt_usage

  -- The loop of `_visit_join_filter`, with its index.
  unfoldable pub join_args : ℕ → List Arg → Visit (Unit {0})
  unfolding write
  join_args i [] = pure tt
  join_args i (arg ∷ args) = do
    if ltb 0 i then write (codes ", &") else pure tt
    arg.visit_expr
    if i == 0 then write (codes ").into_iter()") else pure tt
    join_args (i + 1) args

  unfoldable pub visit_join_filter : List Arg → Visit DisplayWrap
  unfolding write join_args
  visit_join_filter args = do
    write (codes "rinja::filters::join((&")
    join_args 0 args
    write (codes ")?")
    pure unwrapped

  unfoldable pub visit_filter : String → List Arg → Visit DisplayWrap
  visit_filter name args =
      if str_eq name "deref"
      then visit_deref_filter input args
      else if is_one_of name ("escape" ∷ "e" ∷ [])
      then visit_escape_filter input args
      else if str_eq name "filesizeformat"
      then visit_humansize input name args
      else if str_eq name "fmt"
      then visit_fmt_filter name args
      else if str_eq name "format"
      then visit_format_filter name args
      else if str_eq name "join"
      then visit_join_filter args
      else if is_one_of name ("json" ∷ "tojson" ∷ [])
      then visit_json_filter input args
      else if is_one_of name ("linebreaks" ∷ "linebreaksbr" ∷ "paragraphbreaks" ∷ [])
      then visit_linebreaks_filter input name args
      else if str_eq name "pluralize"
      then visit_pluralize_filter input args
      else if str_eq name "ref"
      then visit_ref_filter input args
      else if str_eq name "safe"
      then visit_safe_filter input args
      else if is_one_of name ("urlencode" ∷ "urlencode_strict" ∷ [])
      then visit_urlencode input name args
      else if is_one_of name builtin_filters
      then visit_builtin_filter input name args
      else visit_custom_filter input name args
