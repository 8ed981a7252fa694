-- ===== src/Generator/Cacheable.antt =====
-- rinja_derive/src/generator/node.rs and rinja_derive/src/generator.rs: what the code generator
-- assumes of an expression from its form. A `none` is a panic.
use rinja.Base.{Bool, true, false, ◌&&◌, Option, none, some, if◌then◌else◌, str_eq, ◌>>=◌}
use rinja.Parser.Expr.{
  Expr, Exprs, OptExpr, bool_lit, num_lit, str_lit, char_lit, var, path, array, attr, index, filter,
  cast, named_argument, unary, bin_op, range, group, tuple, call, rust_macro, try, filter_source,
  is_defined, is_not_defined, concat, let_cond, nil, cons, absent, present,
}

-- `Iterator::all` on expressions, `&&` on two, and `map_or(true, …)` on an optional one stop at
-- the first `false`.
unfoldable mutual
  pub is_cacheable : {T : Type 0} → Expr T → Option Bool
  is_cacheable (bool_lit b) = some true
  is_cacheable (num_lit s n) = some true
  is_cacheable (str_lit s) = some true
  is_cacheable (char_lit c) = some true
  is_cacheable (var s) = some true
  is_cacheable (path p) = some true
  is_cacheable (array args) = all_cacheable args
  is_cacheable (attr lhs s) = is_cacheable lhs
  is_cacheable (index lhs rhs) = do
    first ← is_cacheable lhs
    if first then is_cacheable rhs else some false
  is_cacheable (filter name args) = all_cacheable args
  is_cacheable (cast e ty) = is_cacheable e
  is_cacheable (named_argument name e) = is_cacheable e
  is_cacheable (unary op arg) = is_cacheable arg
  is_cacheable (bin_op op lhs rhs) = do
    first ← is_cacheable lhs
    if first then is_cacheable rhs else some false
  is_cacheable (range op lhs rhs) = do
    first ← opt_cacheable lhs
    if first then opt_cacheable rhs else some false
  is_cacheable (group arg) = is_cacheable arg
  is_cacheable (tuple args) = all_cacheable args
  is_cacheable (call e args) = some false
  is_cacheable (rust_macro p args) = some false
  is_cacheable (try e) = is_cacheable e
  is_cacheable filter_source = none
  is_cacheable (is_defined s) = some true
  is_cacheable (is_not_defined s) = some true
  is_cacheable (concat args) = all_cacheable args
  is_cacheable (let_cond t e b) = some false

  pub all_cacheable : {T : Type 0} → Exprs T → Option Bool
  all_cacheable nil = some true
  all_cacheable (cons e args) = do
    first ← is_cacheable e
    if first then all_cacheable args else some false

  pub opt_cacheable : {T : Type 0} → OptExpr T → Option Bool
  opt_cacheable absent = some true
  opt_cacheable (present e) = is_cacheable e

-- The loop of `is_attr_self`: the object of the innermost attribute is the variable `self`.
unfoldable pub is_attr_self : {T : Type 0} → Expr T → Bool
is_attr_self (attr (var s) field) = str_eq s "self"
is_attr_self (attr (attr obj inner) field) = is_attr_self (attr obj inner)
is_attr_self _ = false

unfoldable pub is_copyable_within_op : {T : Type 0} → Expr T → Bool → Bool
unfolding is_attr_self
is_copyable_within_op (bool_lit b) within_op = true
is_copyable_within_op (num_lit s n) within_op = true
is_copyable_within_op (str_lit s) within_op = true
is_copyable_within_op (char_lit c) within_op = true
is_copyable_within_op (bin_op op l r) within_op = true
is_copyable_within_op (unary op e) within_op = is_copyable_within_op e true
is_copyable_within_op (range op l r) within_op = true
is_copyable_within_op (call e args) within_op = true
is_copyable_within_op (path p) within_op = true
is_copyable_within_op (filter name args) within_op = true
is_copyable_within_op (rust_macro p args) within_op = true
is_copyable_within_op e within_op = within_op && is_attr_self e

unfoldable pub is_copyable : {T : Type 0} → Expr T → Bool
unfolding is_copyable_within_op
is_copyable e = is_copyable_within_op e false
