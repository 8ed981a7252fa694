-- ===== src/Generator/Visit/Parts.antt =====
-- rinja_derive/src/generator/expr.rs: what the visitors write around the expressions inside; these
-- are given by what `visit_expr` and `_visit_arg` do for them.
use rinja.Base.{
  ℕ, zero, suc, ◌+◌, ◌/◌, Bool, true, false, not, ◌||◌, Option, none, some, List, [], ◌∷◌, ◌++◌,
  String, if◌then◌else◌, Bytes, codes, ltb, length, take, drop, str_eq, running,
}
use rinja.Parser.Expr.{var, path, array, attr, call, nil}
use rinja.Parser.Target.{Target}
use rinja.Parser.Node.{TargetExpr}
use rinja.Parser.Keywords.{normalize_identifier}
use rinja.Buffer as Buffer
use rinja.Generator.Cacheable.{is_copyable}
use rinja.Generator.Writables.{DisplayWrap, unwrapped}
use rinja.Generator.Visit.{
  Visit, ok, err, panic, ◌>>=◌, ◌>>◌, pure, refuse, expect, write, unknown_loop_variable,
  unknown_loop_method, empty_cycle,
}
use rinja.Generator.Visit.Leaves.{resolve}
use rinja.Generator.Visit.Targets.{visit_target}
use rinja.Generator.Visit.Arguments.{Arg, visit_args}

-- `"&&" | "||"` and `"*" | "&"`
abbrev pub is_and_or : String → Bool
is_and_or op = str_eq op "||" || str_eq op "&&"

abbrev pub is_reference : String → Bool
is_reference op = str_eq op "*" || str_eq op "&"

abbrev pub is_loop : TargetExpr → Bool
is_loop (var name) = str_eq name "loop"
is_loop _ = false

abbrev pub spaced : String → Bytes
spaced op = codes " " ++ (codes op ++ codes " ")

-- The attributes of `loop`.
unfoldable pub loop_attr : String → Visit DisplayWrap
unfolding write
loop_attr field =
    if str_eq field "index"
    then write (codes "(_loop_item.index + 1)") >> pure unwrapped
    else if str_eq field "index0"
    then write (codes "_loop_item.index") >> pure unwrapped
    else if str_eq field "first"
    then write (codes "_loop_item.first") >> pure unwrapped
    else if str_eq field "last"
    then write (codes "_loop_item.last") >> pure unwrapped
    else refuse unknown_loop_variable

unfoldable pub visit_attr : TargetExpr → String → Visit DisplayWrap → Visit DisplayWrap
unfolding write expect loop_attr
visit_attr obj field visit_obj = if is_loop obj then loop_attr field else (do
  visit_obj
  name ← expect (normalize_identifier (codes field))
  write (codes "." ++ name)
  pure unwrapped)

abbrev pub is_empty_array : TargetExpr → Bool
is_empty_array (array nil) = true
is_empty_array _ = false

abbrev pub cycle_end : Bytes
cycle_end =
    codes ");let _len = _cycle.len();if _len == 0 {"
    ++ (codes "return rinja::helpers::core::result::Result::Err(rinja::Error::Fmt);}"
        ++ codes "_cycle[_loop_item.index % _len]})")

unfoldable pub loop_cycle : List Arg → Visit DisplayWrap
unfolding write
loop_cycle (arg ∷ []) =
    if is_empty_array arg.value
    then refuse empty_cycle
    else (do write (codes "({let _cycle = &("); arg.visit_expr; write cycle_end; pure unwrapped)
loop_cycle _ = refuse empty_cycle

unfoldable pub loop_method : String → List Arg → Visit DisplayWrap
unfolding loop_cycle
loop_method method args =
    if str_eq method "cycle" then loop_cycle args else refuse (unknown_loop_method method)

-- What is called where it is a variable.
unfoldable pub write_callee : Bytes → Option Bytes → Visit (Unit {0})
unfolding write expect
write_callee name (some resolved) = write resolved
write_callee name none = do name ← expect (normalize_identifier name); write (codes "self." ++ name)

unfoldable pub visit_callee : TargetExpr → Visit DisplayWrap → Visit (Unit {0})
unfolding resolve write_callee
visit_callee (var name) visit_left = do
  resolved ← resolve (codes name)
  write_callee (codes name) resolved
visit_callee _ visit_left = visit_left >> pure tt

unfoldable pub call_callee : TargetExpr → Visit DisplayWrap → List Arg → Visit DisplayWrap
unfolding write visit_callee visit_args
call_callee left visit_left args = do
  visit_callee left visit_left
  write (codes "(")
  visit_args args
  write (codes ")")
  pure unwrapped

unfoldable pub visit_call : TargetExpr → Visit DisplayWrap → List Arg → Visit DisplayWrap
unfolding loop_method call_callee
visit_call (attr sub_left method) visit_left args =
    if is_loop sub_left
    then loop_method method args
    else call_callee (attr sub_left method) visit_left args
visit_call left visit_left args = call_callee left visit_left args

-- The loop of `visit_tuple` and that of `visit_array`, with their index.
unfoldable pub tuple_items : ℕ → List Arg → Visit (Unit {0})
unfolding write
tuple_items i [] = pure tt
tuple_items i (arg ∷ args) = do
  if ltb 0 i then write (codes " ") else pure tt
  arg.visit_expr
  write (codes ",")
  tuple_items (i + 1) args

unfoldable pub array_items : ℕ → List Arg → Visit (Unit {0})
unfolding write
array_items i [] = pure tt
array_items i (arg ∷ args) = do
  if ltb 0 i then write (codes ",") else pure tt
  arg.visit_expr
  array_items (i + 1) args

unfoldable pub opt_visit : Option (Visit DisplayWrap) → Visit (Unit {0})
opt_visit none = pure tt
opt_visit (some visit_expr) = visit_expr >> pure tt

-- `visit_concat` on what `visit_expr` does for each expression; the fuel bounds their number.
unfoldable pub visit_concat : ℕ → List (Visit DisplayWrap) → Visit DisplayWrap
unfolding write
visit_concat zero exprs s = running
visit_concat (suc fuel) [] s = err panic
visit_concat (suc fuel) (e ∷ []) s = e s
visit_concat (suc fuel) (e₁ ∷ e₂ ∷ exprs) s =
    let half = (length (e₁ ∷ e₂ ∷ exprs) + 1) / 2 in
    (do
      write (codes "rinja::helpers::Concat(&(")
      visit_concat fuel (take half (e₁ ∷ e₂ ∷ exprs))
      write (codes "), &(")
      visit_concat fuel (drop half (e₁ ∷ e₂ ∷ exprs))
      write (codes "))")
      pure unwrapped)
      s

unfoldable pub visit_exprs_of : List Arg → List (Visit DisplayWrap)
visit_exprs_of [] = []
visit_exprs_of (arg ∷ args) = arg.visit_expr ∷ visit_exprs_of args

unfoldable pub write_let : Option Target → Visit (Unit {0})
unfolding write visit_target
write_let none = write (codes " let ")
write_let (some target) = do write (codes " let "); visit_target true true target

-- `first` is `visit_expr_first` of the condition, on the new `expr_buf`; `not_first` is
-- `visit_expr_not_first` of it.
unfoldable pub visit_let_cond :
    Option Target → Visit DisplayWrap → (DisplayWrap → Visit DisplayWrap) → Visit DisplayWrap
unfolding write write_let
visit_let_cond target first not_first s = elim (first (record s { buf = Buffer.new })) [
  | ok (display_wrap, t) ↦
      (do write_let target; write (codes "= &" ++ t.buf.buf); not_first display_wrap)
        (record t { buf = s.buf })
  | err e ↦ err e
  | running ↦ running
]

unfoldable pub as_bool : Visit DisplayWrap → Visit (Unit {0})
unfolding write
as_bool this = do write (codes "rinja::helpers::as_bool(&("); this; write (codes "))")

-- `matches!(***left, Expr::Path(_))`, and the `match` of `_visit_arg_inner`
abbrev pub is_path : TargetExpr → Bool
is_path (path p) = true
is_path _ = false

abbrev pub is_call_of_other : TargetExpr → Bool
is_call_of_other (call left args) = not (is_path left)
is_call_of_other _ = false

unfoldable pub braced : Bool → Visit DisplayWrap → Visit (Unit {0})
unfolding write
braced braces this =
    if braces then (do write (codes "{"); this; write (codes "}")) else this >> pure tt

unfoldable pub borrowed : TargetExpr → Bool → Visit DisplayWrap → Visit (Unit {0})
unfolding write braced is_copyable
borrowed arg need_borrow this =
    if need_borrow || not (is_copyable arg)
    then (do write (codes "&("); braced (is_call_of_other arg) this; write (codes ")"))
    else braced (is_call_of_other arg) this

abbrev pub try_end : Bytes
try_end =
    codes ") { res => (&&rinja::helpers::ErrorMarker::of(&res))"
    ++ codes ".rinja_conv_result(res)? }"
