-- ===== src/Generator/Visit/Arguments.antt =====
-- rinja_derive/src/generator/expr.rs: the arguments of calls and filters. An argument is the
-- expression with what the visitors make of it: `visit_expr` and `_visit_arg`.
use rinja.Base.{
  ℕ, ◌+◌, Bool, false, ◌||◌, Option, none, some, List, [], ◌∷◌, ◌++◌, String, if◌then◌else◌, Bytes,
  codes, ltb, is_empty, str_eq,
}
use rinja.Parser.Expr.{StrLit, str_lit}
use rinja.Parser.Node.{TargetExpr}
use rinja.Generator.Writables.{DisplayWrap}
use rinja.Generator.{Writable, lit, expr}
use rinja.Generator.Visit.{
  Visit, Input, ◌>>◌, pure, refuse, write, write_escaped_str, feature_required,
}
use rinja.Generator.Visit.Escape.{compile_time_escape}
use rinja.Generator.Visit.Leaves.{visit_str_lit}

pub record Arg : Type 0 where
  pub value : TargetExpr
  pub visit_expr : Visit DisplayWrap
  pub visit_arg : Visit (Unit {0})

-- The loop of `_visit_args`, with its index.
unfoldable pub visit_args_from : ℕ → List Arg → Visit (Unit {0})
unfolding write
visit_args_from i [] = pure tt
visit_args_from i (arg ∷ args) = do
  if ltb 0 i then write (codes ",") else pure tt
  arg.visit_arg
  visit_args_from (i + 1) args

unfoldable pub visit_args : List Arg → Visit (Unit {0})
unfolding visit_args_from
visit_args args = visit_args_from 0 args

abbrev pub is_one_of : String → List String → Bool
is_one_of name [] = false
is_one_of name (n ∷ names) = str_eq name n || is_one_of name names

abbrev pub builtin_filters : List String
builtin_filters =
    "capitalize" ∷ "center" ∷ "indent" ∷ "lower" ∷ "lowercase" ∷ "title" ∷ "trim" ∷ "truncate"
    ∷ "upper" ∷ "uppercase" ∷ "wordcount" ∷ []

abbrev pub builtin_filters_need_alloc : List String
builtin_filters_need_alloc = "center" ∷ "truncate" ∷ []

-- The constants `SINGULAR` and `PLURAL`, written as arguments.
abbrev pub singular : StrLit
singular = record { prefix = none; content = "" }

abbrev pub plural : StrLit
plural = record { prefix = none; content = "s" }

unfoldable pub str_arg : StrLit → Arg
unfolding visit_str_lit
str_arg s = record {
  value = str_lit s;
  visit_expr = visit_str_lit s;
  visit_arg = visit_str_lit s >> pure tt;
}

module _ (input : Input) where
  unfoldable pub ensure_filter_has_feature_alloc : String → Visit (Unit {0})
  ensure_filter_has_feature_alloc name =
      if input.alloc then pure tt else refuse (feature_required name)

  -- The two branches of `_visit_auto_escaped_arg`, and the one inside the first.
  unfoldable pub write_safe : Bytes → Visit (Unit {0})
  unfolding write write_escaped_str
  write_safe s = if is_empty s then write (codes "rinja::helpers::Empty") else (do
    write (codes "rinja::filters::Safe(")
    write_escaped_str input.memchr3_iter s
    write (codes ")"))

  unfoldable pub write_auto_escaped : Arg → Visit (Unit {0})
  unfolding write
  write_auto_escaped arg = do
    write (codes "(&&rinja::filters::AutoEscaper::new(")
    arg.visit_arg
    write (codes ", " ++ (input.escaper ++ codes ")).rinja_auto_escape()?"))

  unfoldable pub write_known : Arg → Option (Writable TargetExpr) → Visit (Unit {0})
  unfolding write_safe write_auto_escaped
  write_known arg (some (lit s)) = write_safe s
  write_known arg (some (expr e)) = write_auto_escaped arg
  write_known arg none = write_auto_escaped arg

  unfoldable pub visit_auto_escaped_arg : Arg → Visit (Unit {0})
  unfolding write_known compile_time_escape
  visit_auto_escaped_arg arg = write_known arg (compile_time_escape input arg.value input.escaper)
