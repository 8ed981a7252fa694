-- ===== src/Generator/Visit/Balance/Texts.antt =====
-- rinja_parser/src/expr.rs: what an expression holds of the text of a template.
use rinja.Base.{none, some, map, codes, All}
use rinja.Parser.Target.{Target}
use rinja.Parser.Node.{TargetExpr}
use rinja.Parser.Expr.{
  Exprs, OptExpr, bool_lit, num_lit, str_lit, char_lit, var, path, array, attr, index, filter, cast,
  named_argument, unary, bin_op, range, group, tuple, call, rust_macro, try, filter_source,
  is_defined, is_not_defined, concat, let_cond, nil, cons, absent, present,
}
use rinja.Generator.Visit.Balance.{IsClosed}
use rinja.Generator.Visit.Balance.Leaves.{StrIsClosed, CharIsClosed}
use rinja.Generator.Visit.Balance.Targets.{TextsOfTarget}

-- The texts of an expression, as the parser takes them from the template: names, literals, operators
-- and the arguments of macros. A filter and a concatenation have an expression inside.
unfoldable mutual
  pub Texts : TargetExpr → Type 0
  Texts (bool_lit b) = Unit
  Texts (num_lit s n) = IsClosed (codes s)
  Texts (str_lit s) = StrIsClosed s
  Texts (char_lit c) = CharIsClosed c
  Texts (var s) = IsClosed (codes s)
  Texts (path p) = All IsClosed (map codes p)
  Texts (array elements) = AllTexts elements
  Texts (attr obj name) = IsClosed (codes name) × Texts obj
  Texts (index obj key) = Texts obj × Texts key
  Texts (filter name nil) = ⊥
  Texts (filter name (cons e args)) = IsClosed (codes name) × Texts e × AllTexts args
  Texts (cast e target) = IsClosed (codes target) × Texts e
  Texts (named_argument name e) = Texts e
  Texts (unary op e) = IsClosed (codes op) × Texts e
  Texts (bin_op op l r) = IsClosed (codes op) × Texts l × Texts r
  Texts (range op l r) = IsClosed (codes op) × OptTexts l × OptTexts r
  Texts (group e) = Texts e
  Texts (tuple exprs) = AllTexts exprs
  Texts (call left args) = Texts left × AllTexts args
  Texts (rust_macro p args) = All IsClosed (map codes p) × IsClosed (codes args)
  Texts (try e) = Texts e
  Texts filter_source = Unit
  Texts (is_defined v) = Unit
  Texts (is_not_defined v) = Unit
  Texts (concat nil) = ⊥
  Texts (concat (cons e exprs)) = Texts e × AllTexts exprs
  Texts (let_cond none e b) = Texts e
  Texts (let_cond (some target) e b) = TextsOfTarget target × Texts e

  pub AllTexts : Exprs Target → Type 0
  AllTexts nil = Unit
  AllTexts (cons e exprs) = Texts e × AllTexts exprs

  pub OptTexts : OptExpr Target → Type 0
  OptTexts absent = Unit
  OptTexts (present e) = Texts e
