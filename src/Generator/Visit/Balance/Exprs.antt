-- ===== src/Generator/Visit/Balance/Exprs.antt =====
-- rinja_derive/src/generator/expr.rs: the visitors of expressions write closed code, and never panic.
use rinja.Base.{
  ℕ, suc, Bool, true, false, Option, none, some, List, ◌∷◌, refl, arith, map, String, codes, length,
  All, str_eq,
}
use rinja.Parser.Target.{Target}
use rinja.Parser.Node.{TargetExpr}
use rinja.Parser.Expr.{
  Exprs, OptExpr, bool_lit, num_lit, str_lit, char_lit, var, path, array, attr, index, filter, cast,
  named_argument, unary, bin_op, range, group, tuple, call, rust_macro, try, filter_source,
  is_defined, is_not_defined, concat, let_cond, nil, cons, absent, present,
}
use rinja.Generator.Writables.{DisplayWrap, unwrapped}
use rinja.Generator.Visit.{Visit, Visiting, Input}
use rinja.Generator.Visit.Filters.{as_literal}
use rinja.Generator.Visit.Parts.{is_and_or, is_reference, spaced, try_end, visit_exprs_of}
use rinja.Generator.Visit.Exprs.{
  visit_expr, visit_expr_first, visit_expr_not_first, visit_condition, visit_arg_inner, visit_all,
  visit_opt,
}
use rinja.Generator.Visit.Balance.{IsClosed, scan, moves}
use rinja.Generator.Visit.Balance.Rules.{
  IsReady, Leaves, Anything, ◌before◌, pure_lem, write_lem, choose,
}
use rinja.Generator.Visit.Balance.Leaves.{
  done, visit_path-Writes, visit_var-Writes, visit_filter_source-Writes, visit_bool_lit-Writes,
  visit_str_lit-Writes, visit_char_lit-Writes, visit_num_lit-Writes, visit_rust_macro-Writes,
  visit_is_defined-Writes,
}
use rinja.Generator.Visit.Balance.Texts.{Texts, AllTexts, OptTexts}
use rinja.Generator.Visit.Balance.Arguments.{IsInput, OptStrIsClosed, ArgWrites}
use rinja.Generator.Visit.Balance.Formats.{visit_filter-Writes}
use rinja.Generator.Visit.Balance.Parts.{
  AlwaysWrites, visit_attr-Writes, visit_call-Writes, tuple_items-Writes, array_items-Writes,
  visit_exprs_of-Writes,
}
use rinja.Generator.Visit.Balance.Nested.{
  OptWrites, opt_visit-Writes, visit_concat-Writes, TextsOfOpt, as_bool-Writes, borrowed-Writes,
  visit_let_cond-Writes,
}

opt-Texts :
    (target : Option Target) (e : TargetExpr) (b : Bool)
    → Texts (let_cond target e b)
    → TextsOfOpt target × Texts e
unfolding Texts
opt-Texts none e b h = (tt, h)
opt-Texts (some target) e b h = h

spaced-IsClosed : (op : String) → IsClosed (codes op) → IsClosed (spaced op)
unfolding scan
spaced-IsClosed op h due =
    moves {s = codes " "} record { scans = refl } (moves (h due) record { scans = refl })

literal : (input : Input) (e : TargetExpr) → Texts e → OptStrIsClosed (as_literal input e)
unfolding Texts as_literal
literal input (str_lit s) h = h
literal input _ h = tt

module _ (input : Input) (is : IsInput input) where
  mutual
    unfolding visit_expr visit_expr_first visit_expr_not_first visit_condition visit_arg_inner
        visit_all visit_opt Texts AllTexts OptTexts scan

    expr-Writes : (e : TargetExpr) → Texts e → AlwaysWrites (visit_expr input e)
    expr-Writes (bool_lit b) h due = visit_bool_lit-Writes b
    expr-Writes (num_lit s n) h due = visit_num_lit-Writes (codes s) h
    expr-Writes (str_lit s) h due = visit_str_lit-Writes s h
    expr-Writes (char_lit c) h due = visit_char_lit-Writes c h
    expr-Writes (var s) h due = visit_var-Writes (codes s) h
    expr-Writes (path p) h due = visit_path-Writes (map codes p) h
    expr-Writes (array elements) h due = write_lem (codes "[") record { scans = refl } before λ _.
        array_items-Writes input 0 (visit_all input elements) (all-Writes elements h) (b']' ∷ due)
        before λ _. done unwrapped (write_lem (codes "]") record { scans = refl })
    expr-Writes (attr obj name) (h, k) due =
        visit_attr-Writes obj name (visit_expr input obj) h (expr-Writes obj k) due
    expr-Writes (index obj key) (h, k) due =
        write_lem (codes "&") record { scans = refl } before λ _. expr-Writes obj h due before λ _.
        write_lem (codes "[") record { scans = refl } before λ _.
        expr-Writes key k (b']' ∷ due) before λ _.
        done unwrapped (write_lem (codes "]") record { scans = refl })
    expr-Writes (filter name nil) h due = absurd h
    expr-Writes (filter name (cons e args)) (h, k, l) due =
        visit_filter-Writes input is name (visit_all input (cons e args)) h refl
          (all-Writes (cons e args) (k, l))
    expr-Writes (cast e target) (h, k) due =
        write_lem (codes "rinja::helpers::get_primitive_value(&(") record { scans = refl }
        before λ _. expr-Writes e k (b')' ∷ b')' ∷ due) before λ _. done unwrapped (
            write_lem _ (
              moves {s = codes ")) as rinja::helpers::core::primitive::"} record { scans = refl }
                (h due)))
    expr-Writes (named_argument name e) h due = done unwrapped (expr-Writes e h due)
    expr-Writes (unary op e) (h, k) due =
        write_lem (codes op) (h due) before λ _. done unwrapped (expr-Writes e k due)
    expr-Writes (bin_op op l r) (h, k₁, k₂) due = expr-Writes l k₁ due before λ _.
        write_lem (spaced op) (spaced-IsClosed op h due) before λ _.
        done unwrapped (expr-Writes r k₂ due)
    expr-Writes (range op l r) (h, k₁, k₂) due =
        opt_visit-Writes (visit_opt input l) (opt-Writes l k₁) due before λ _.
        write_lem (codes op) (h due) before λ _.
        done unwrapped (opt_visit-Writes (visit_opt input r) (opt-Writes r k₂) due)
    expr-Writes (group e) h due = write_lem (codes "(") record { scans = refl } before λ _.
        expr-Writes e h (b')' ∷ due) before λ _.
        done unwrapped (write_lem (codes ")") record { scans = refl })
    expr-Writes (tuple exprs) h due = write_lem (codes "(") record { scans = refl } before λ _.
        tuple_items-Writes input 0 (visit_all input exprs) (all-Writes exprs h) (b')' ∷ due)
        before λ _. done unwrapped (write_lem (codes ")") record { scans = refl })
    expr-Writes (call left args) (h, k) due =
        visit_call-Writes input is (visit_all input args) (all-Writes args k) left
          (visit_expr input left) h (expr-Writes left h) due
    expr-Writes (rust_macro p args) (h, k) due =
        visit_rust_macro-Writes (map codes p) (codes args) h k
    expr-Writes (try e) h due = write_lem (codes "match (") record { scans = refl } before λ _.
        expr-Writes e h (b')' ∷ due) before λ _.
        done unwrapped (write_lem try_end record { scans = refl })
    expr-Writes filter_source h due = visit_filter_source-Writes
    expr-Writes (is_defined v) h due = visit_is_defined-Writes input true (codes v)
    expr-Writes (is_not_defined v) h due = visit_is_defined-Writes input false (codes v)
    expr-Writes (concat nil) h due = absurd h
    expr-Writes (concat (cons e exprs)) h due =
        let visits = visit_exprs_of (visit_all input (cons e exprs)) in
        visit_concat-Writes (suc (length visits)) visits (omega arith) (omega arith)
          (visit_exprs_of-Writes input (visit_all input (cons e exprs))
            (all-Writes (cons e exprs) h))
          due
    expr-Writes (let_cond target e b) h due =
        let (k, l) = opt-Texts target e b h in
        visit_let_cond-Writes target (visit_expr_first input e (visit_expr input e))
          (visit_expr_not_first input e) k (first-Writes e (visit_expr input e) l (expr-Writes e l))
          (not_first-Writes e l) due

    first-Writes :
        (e : TargetExpr) (this : Visit DisplayWrap)
        → Texts e
        → AlwaysWrites this
        → AlwaysWrites (visit_expr_first input e this)
    first-Writes (bin_op op l r) this (h, k₁, k₂) own due =
        choose (is_and_or op)
          (expr-Writes l k₁ due before λ ret.
            done ret (write_lem (spaced op) (spaced-IsClosed op h due)))
          (own due)
    first-Writes (unary op e) this (h, k) own due = write_lem (codes op) (h due) before λ _.
        first-Writes e (visit_expr input e) k (expr-Writes e k) due
    first-Writes e this h own due = own due

    not_first-Writes :
        (e : TargetExpr)
        → Texts e
        → (prev : DisplayWrap) → AlwaysWrites (visit_expr_not_first input e prev)
    not_first-Writes (bin_op op l r) (h, k₁, k₂) prev due =
        choose (is_and_or op)
          (done unwrapped (condition-Writes r (visit_expr input r) k₂ (expr-Writes r k₂) due))
          (pure_lem prev tt)
    not_first-Writes (unary op e) (h, k) prev due = not_first-Writes e k prev due
    not_first-Writes e h prev due = pure_lem prev tt

    condition-Writes :
        (e : TargetExpr) (this : Visit DisplayWrap)
        → Texts e
        → AlwaysWrites this
        → AlwaysWrites (visit_condition input e this)
    condition-Writes (bool_lit b) this h own due = done tt (own due)
    condition-Writes (is_defined v) this h own due = done tt (own due)
    condition-Writes (is_not_defined v) this h own due = done tt (own due)
    condition-Writes (let_cond target e b) this h own due = done tt (own due)
    condition-Writes (unary op e) this (h, k) own due =
        choose (str_eq op "!")
          (write_lem (codes "!") record { scans = refl } before λ _.
            condition-Writes e (visit_expr input e) k (expr-Writes e k) due)
          (as_bool-Writes this own due)
    condition-Writes (bin_op op l r) this (h, k₁, k₂) own due =
        choose (is_and_or op)
          (condition-Writes l (visit_expr input l) k₁ (expr-Writes l k₁) due before λ _.
            write_lem (spaced op) (spaced-IsClosed op h due) before λ _.
            condition-Writes r (visit_expr input r) k₂ (expr-Writes r k₂) due)
          (as_bool-Writes this own due)
    condition-Writes (group e) this h own due =
        write_lem (codes "(") record { scans = refl } before λ _.
        condition-Writes e (visit_expr input e) h (expr-Writes e h) (b')' ∷ due) before λ _.
        write_lem (codes ")") record { scans = refl }
    condition-Writes e this h own due = as_bool-Writes this own due

    arg-Writes :
        (e : TargetExpr) (need_borrow : Bool) (this : Visit DisplayWrap)
        → Texts e
        → AlwaysWrites this
        → AlwaysWrites (visit_arg_inner input e need_borrow this)
    arg-Writes (unary op e) need_borrow this (h, k) own due =
        choose (is_reference op)
          (write_lem (codes op) (h due) before λ _.
            arg-Writes e true (visit_expr input e) k (expr-Writes e k) due)
          (borrowed-Writes (unary op e) need_borrow this own due)
    arg-Writes e need_borrow this h own due = borrowed-Writes e need_borrow this own due

    all-Writes : (es : Exprs Target) → AllTexts es → All (ArgWrites input) (visit_all input es)
    all-Writes nil h = tt
    all-Writes (cons e es) (h, k) = (
      record {
        expr_writes = expr-Writes e h;
        arg_writes = arg-Writes e false (visit_expr input e) h (expr-Writes e h);
        literal_closed = literal input e h;
      },
      all-Writes es k,
    )

    opt-Writes : (o : OptExpr Target) → OptTexts o → OptWrites (visit_opt input o)
    opt-Writes absent h = tt
    opt-Writes (present e) h = expr-Writes e h

  -- For every expression whose texts are closed, and any state with a scope: as a value and as a
  -- condition, its visitor never panics and its loops end; where the template is not refused, the
  -- code that it appends is closed, whatever brackets are due, and only the innermost scope was
  -- changed.
  pub visit_expr-Leaves :
      (e : TargetExpr) (due : List ℕ) (s : Visiting)
      → Texts e
      → IsReady s
      → Leaves Anything due due s (visit_expr input e s)
        × Leaves Anything due due s (visit_condition input e (visit_expr input e) s)
  visit_expr-Leaves e due s h ready = (
    (expr-Writes e h due).runs s ready,
    (condition-Writes e (visit_expr input e) h (expr-Writes e h) due).runs s ready,
  )
