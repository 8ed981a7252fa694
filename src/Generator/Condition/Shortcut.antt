-- ===== src/Generator/Condition/Shortcut.antt =====
-- `contains_bool_lit_or_is_defined` of rinja_parser/src/expr.rs, by which the code generator of
-- rinja_derive/src/generator/node.rs skips the evaluation of a condition.
use rinja.Base.{
  Bool, false, ◌||◌, String, ◌≡◌, refl, sym, ap, ◌∙◌, arith, str_eq, eq_iff, Bool-cases, inl, inr,
}
use rinja.Parser.Expr.{
  Expr, bool_lit, unary, bin_op, group, is_defined, is_not_defined, contains_bool_lit_or_is_defined,
}
use rinja.Generator.Condition.{Evaluated, unknown, negate, conjoin, disjoin, evaluate_condition}

or_false : (a b : Bool) → (a || b) ≡ false → (a ≡ false) × (b ≡ false)
or_false a b h = ground arith

module _ {T : Type 0} (is_var_defined : String → Bool) where
  -- Nothing is known, and the expression is as before.
  abbrev pub IsUnchanged : Expr T → Evaluated T → Type 0
  IsUnchanged e r = (r.0 ≡ unknown) × (r.1 ≡ e)

  negate-IsUnchanged :
      (e : Expr T) (r : Evaluated T) → IsUnchanged e r → IsUnchanged (unary "!" e) (negate r)
  unfolding negate
  negate-IsUnchanged e (unknown, f, o) (h, k) = (refl, ap (λ x. unary "!" x) k)
  negate-IsUnchanged e (_, f, o) (h, k) = cc h

  conjoin-IsUnchanged :
      (e f : Expr T) (l r : Evaluated T)
      → IsUnchanged e l
      → IsUnchanged f r
      → IsUnchanged (bin_op "&&" e f) (conjoin l r)
  unfolding conjoin
  conjoin-IsUnchanged e f (unknown, g, o) (unknown, g', o') (h, k) (h', k') = (refl, rw (k, k'))
  conjoin-IsUnchanged e f (unknown, g, o) (_, g', o') (h, k) (h', k') = cc h'
  conjoin-IsUnchanged e f (_, g, o) (_, g', o') (h, k) (h', k') = cc h

  disjoin-IsUnchanged :
      (e f : Expr T) (l r : Evaluated T)
      → IsUnchanged e l
      → IsUnchanged f r
      → IsUnchanged (bin_op "||" e f) (disjoin l r)
  unfolding disjoin
  disjoin-IsUnchanged e f (unknown, g, o) (unknown, g', o') (h, k) (h', k') = (refl, rw (k, k'))
  disjoin-IsUnchanged e f (unknown, g, o) (_, g', o') (h, k) (h', k') = cc h'
  disjoin-IsUnchanged e f (_, g, o) (_, g', o') (h, k) (h', k') = cc h

  -- For every condition that holds no Boolean literal and no check of a definition where these
  -- count: its evaluation would find out nothing and leave the condition as it is, so that skipping
  -- it changes nothing.
  pub evaluate_condition-IsUnchanged :
      (e : Expr T) (only : Bool)
      → contains_bool_lit_or_is_defined e ≡ false
      → IsUnchanged e (evaluate_condition is_var_defined e only)
  unfolding evaluate_condition contains_bool_lit_or_is_defined
  evaluate_condition-IsUnchanged (bool_lit b) only h = cc h
  evaluate_condition-IsUnchanged (is_defined v) only h = cc h
  evaluate_condition-IsUnchanged (is_not_defined v) only h = cc h
  evaluate_condition-IsUnchanged (unary op e) only h = elim (Bool-cases (str_eq op "!")) [
    | inl is ↦
        let inner = negate-IsUnchanged e _ (evaluate_condition-IsUnchanged e only h) in
        rw is (inner.0, inner.1 ∙ ap (λ o. unary o e) (sym ((eq_iff op "!").0 is)))
    | inr is_not ↦ rw is_not (refl, refl)
  ]
  evaluate_condition-IsUnchanged (bin_op op l r) only h = elim (Bool-cases (str_eq op "&&")) [
    | inl is ↦
        let parts = or_false _ _ (rw is at h) in
        let both =
          conjoin-IsUnchanged l r _ _ (evaluate_condition-IsUnchanged l only parts.0) (
            evaluate_condition-IsUnchanged r (evaluate_condition is_var_defined l only).2
              parts.1) in
        rw is (both.0, both.1 ∙ ap (λ o. bin_op o l r) (sym ((eq_iff op "&&").0 is)))
    | inr not_and ↦ elim (Bool-cases (str_eq op "||")) [
      | inl is ↦
          let parts = or_false _ _ (rw (not_and, is) at h) in
          let both = disjoin-IsUnchanged l r _ _ (evaluate_condition-IsUnchanged l only parts.0) (
            evaluate_condition-IsUnchanged r (evaluate_condition is_var_defined l only).2
              parts.1) in
          rw (not_and, is) (both.0, both.1 ∙ ap (λ o. bin_op o l r) (sym ((eq_iff op "||").0 is)))
      | inr not_or ↦ rw (not_and, not_or) (refl, refl)
    ]
  ]
  evaluate_condition-IsUnchanged (group e) only h =
      let r = evaluate_condition-IsUnchanged e only h in (r.0, ap (λ x. group x) (r.1))
  evaluate_condition-IsUnchanged _ only h = (refl, refl)
