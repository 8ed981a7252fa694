-- ===== src/Generator/Visit/Exprs.antt =====
-- rinja_derive/src/generator/expr.rs: `visit_expr` and the visitors that call it. Where a visitor of
-- the source goes on to `visit_expr` with the same expression, the function here takes what
-- `visit_expr` does for it as its last argument, `this`.

use rinja.Base.{
  suc, Bool, true, false, Option, none, some, List, [], ◌∷◌, map, if◌then◌else◌, Bytes, codes,
  length, str_eq, running,
}
use rinja.Parser.Expr.{
  Exprs, OptExpr, bool_lit, num_lit, str_lit, char_lit, var, path, array, attr, index, filter, cast,
  named_argument, unary, bin_op, range, group, tuple, call, rust_macro, try, filter_source,
  is_defined, is_not_defined, concat, let_cond, nil, cons, absent, present,
}
use rinja.Parser.Target.{Target}
use rinja.Parser.Node.{TargetExpr}
use rinja.Buffer as Buffer
use rinja.Generator.Writables.{DisplayWrap, unwrapped}
use rinja.Generator.Visit.{Visit, Input, ok, err, ◌>>=◌, ◌>>◌, pure, write}
use rinja.Generator.Visit.Leaves.{
  visit_path, visit_var, visit_filter_source, visit_bool_lit, visit_str_lit, visit_char_lit,
  visit_num_lit, visit_rust_macro, visit_is_defined,
}
use rinja.Generator.Visit.Arguments.{Arg}
use rinja.Generator.Visit.Formats.{visit_filter}
use rinja.Generator.Visit.Parts.{
  is_and_or, is_reference, spaced, visit_attr, visit_call, visit_concat, visit_exprs_of,
  visit_let_cond, as_bool, borrowed,
}
use rinja.Generator.Visit.Operators.{
  visit_array, visit_index, visit_unary, visit_binop, visit_range, visit_group, visit_try,
  visit_tuple, visit_named_argument, visit_as,
}

module _ (input : Input) where
  unfoldable mutual
    unfolding write visit_bool_lit visit_num_lit visit_str_lit visit_char_lit visit_var visit_path
        visit_array visit_attr visit_index visit_filter visit_unary visit_binop visit_range
        visit_group visit_tuple visit_call visit_rust_macro visit_try visit_named_argument
        visit_filter_source visit_is_defined visit_as visit_concat visit_let_cond as_bool borrowed
        visit_exprs_of

    pub visit_expr : TargetExpr → Visit DisplayWrap
    visit_expr (bool_lit s) = visit_bool_lit s
    visit_expr (num_lit s n) = visit_num_lit (codes s)
    visit_expr (str_lit s) = visit_str_lit s
    visit_expr (char_lit c) = visit_char_lit c
    visit_expr (var s) = visit_var (codes s)
    visit_expr (path p) = visit_path (map codes p)
    visit_expr (array elements) = visit_array (visit_all elements)
    visit_expr (attr obj name) = visit_attr obj name (visit_expr obj)
    visit_expr (index obj key) = visit_index (visit_expr obj) (visit_expr key)
    visit_expr (filter name arguments) = visit_filter input name (visit_all arguments)
    visit_expr (unary op inner) = visit_unary op (visit_expr inner)
    visit_expr (bin_op op left right) = visit_binop op (visit_expr left) (visit_expr right)
    visit_expr (range op left right) = visit_range op (visit_opt left) (visit_opt right)
    visit_expr (group inner) = visit_group (visit_expr inner)
    visit_expr (call left args) = visit_call left (visit_expr left) (visit_all args)
    visit_expr (rust_macro p args) = visit_rust_macro (map codes p) (codes args)
    visit_expr (try e) = visit_try (visit_expr e)
    visit_expr (tuple exprs) = visit_tuple (visit_all exprs)
    visit_expr (named_argument name e) = visit_named_argument (visit_expr e)
    visit_expr filter_source = visit_filter_source
    visit_expr (is_defined var_name) = visit_is_defined input true (codes var_name)
    visit_expr (is_not_defined var_name) = visit_is_defined input false (codes var_name)
    visit_expr (cast e target) = visit_as target (visit_expr e)
    visit_expr (concat exprs) =
        let visits = visit_exprs_of (visit_all exprs) in visit_concat (suc (length visits)) visits
    visit_expr (let_cond target e b) =
        visit_let_cond target (visit_expr_first e (visit_expr e)) (visit_expr_not_first e)

    pub visit_expr_first : TargetExpr → Visit DisplayWrap → Visit DisplayWrap
    visit_expr_first (bin_op op left right) this =
        if is_and_or op then (do ret ← visit_expr left; write (spaced op); pure ret) else this
    visit_expr_first (unary op inner) this = do
      write (codes op)
      visit_expr_first inner (visit_expr inner)
    visit_expr_first e this = this

    pub visit_expr_not_first : TargetExpr → DisplayWrap → Visit DisplayWrap
    visit_expr_not_first (bin_op op left right) prev =
        if is_and_or op
        then (do visit_condition right (visit_expr right); pure unwrapped)
        else pure prev
    visit_expr_not_first (unary op inner) prev = visit_expr_not_first inner prev
    visit_expr_not_first e prev = pure prev

    pub visit_condition : TargetExpr → Visit DisplayWrap → Visit (Unit {0})
    visit_condition (bool_lit b) this = this >> pure tt
    visit_condition (is_defined v) this = this >> pure tt
    visit_condition (is_not_defined v) this = this >> pure tt
    visit_condition (unary op e) this =
        if str_eq op "!"
        then (do write (codes "!"); visit_condition e (visit_expr e))
        else as_bool this
    visit_condition (bin_op op left right) this =
        if is_and_or op
        then (do
          visit_condition left (visit_expr left)
          write (spaced op)
          visit_condition right (visit_expr right))
        else as_bool this
    visit_condition (group e) this = do
      write (codes "(")
      visit_condition e (visit_expr e)
      write (codes ")")
    visit_condition (let_cond target e b) this = this >> pure tt
    visit_condition e this = as_bool this

    -- `_visit_arg_inner`
    pub visit_arg_inner : TargetExpr → Bool → Visit DisplayWrap → Visit (Unit {0})
    visit_arg_inner (unary op arg) need_borrow this =
        if is_reference op
        then (do write (codes op); visit_arg_inner arg true (visit_expr arg))
        else borrowed (unary op arg) need_borrow this
    visit_arg_inner arg need_borrow this = borrowed arg need_borrow this

    pub visit_all : Exprs Target → List Arg
    visit_all nil = []
    visit_all (cons e args) =
        record {
          value = e;
          visit_expr = visit_expr e;
          visit_arg = visit_arg_inner e false (visit_expr e);
        }
        ∷ visit_all args

    pub visit_opt : OptExpr Target → Option (Visit DisplayWrap)
    visit_opt absent = none
    visit_opt (present e) = some (visit_expr e)

  -- `visit_expr_root`
  unfoldable pub visit_expr_root : TargetExpr → Visit Bytes
  unfolding visit_expr
  visit_expr_root e s = elim (visit_expr e (record s { buf = Buffer.new })) [
    | ok (w, t) ↦ ok (t.buf.buf, record t { buf = s.buf })
    | err e ↦ err e
    | running ↦ running
  ]
