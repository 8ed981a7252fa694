-- ===== src/Tests/Calling.antt =====
-- Calls of macros in rinja_derive/src/generator/node.rs on small argument lists.
use rinja.Base.{ℕ, ◌≡◌, refl, inr, true, none, some, List, [], ◌∷◌, ◌++◌, ok, err}
use rinja.Parser.Expr.{Expr, var, bool_lit, named_argument}
use rinja.Generator.Macros.{
  Params, arg_count, passed_twice, argument_name, macro_call_ensure_arg_count, call_arguments,
}
use rinja.Generator.Macros.Count.{macro_call_ensure_arg_count-bounds}
use rinja.Generator.Macros.Positional.{defaults, call_arguments-defaults}
use rinja.Generator.Macros.Named.{AreFor, call_arguments-AreFor}

-- `{% macro m(a, b, c = true) %}`
abbrev front : Params ℕ
front = ("a", none) ∷ ("b", none) ∷ []

abbrev back : Params ℕ
back = ("c", some (bool_lit true)) ∷ []

macro_call_ensure_arg_count-bounds_example :
    macro_call_ensure_arg_count (var "x" ∷ []) (front ++ back) ≡ err (arg_count 1 true 1)
macro_call_ensure_arg_count-bounds_example =
    macro_call_ensure_arg_count-bounds (var "x" ∷ []) front back (inr (("a", none) ∷ [], "b", refl))
      (refl, tt)

call_arguments-defaults_example :
    call_arguments (var "x" ∷ var "y" ∷ []) (front ++ back)
    ≡ ok ((var "x" ∷ var "y" ∷ []) ++ defaults back)
unfolding argument_name
call_arguments-defaults_example =
    call_arguments-defaults (var "x" ∷ var "y" ∷ []) front back (refl, (refl, tt)) refl (refl, tt)

-- `{% macro m(a, b = d, c = e) %}`
abbrev params : Params ℕ
params = ("a", none) ∷ ("b", some (var "d")) ∷ ("c", some (var "e")) ∷ []

-- `m(c = x, a = y)` is refused, as if `a` were passed more than once.
refused_twice :
    call_arguments (named_argument "c" (var "x") ∷ named_argument "a" (var "y") ∷ []) params
    ≡ err (passed_twice "a")
unfolding call_arguments argument_name
refused_twice = refl

-- `m(z, c = x, a = y)` is accepted, though it passes `a` twice.
abbrev twice : List (Expr ℕ)
twice = var "z" ∷ named_argument "c" (var "x") ∷ named_argument "a" (var "y") ∷ []

call_arguments-AreFor_example :
    AreFor twice 0 params
      (named_argument "a" (var "y") ∷ var "d" ∷ named_argument "c" (var "x") ∷ [])
unfolding call_arguments argument_name
call_arguments-AreFor_example =
    call_arguments-AreFor twice params
      (named_argument "a" (var "y") ∷ var "d" ∷ named_argument "c" (var "x") ∷ []) refl
