-- ===== src/Generator/Condition/Sound.antt =====
-- What `evaluate_condition` finds out while the template is compiled holds when it is rendered.
use rinja.Base.{
  Bool, true, false, not, ◌&&◌, ◌||◌, String, ◌≡◌, refl, arith, if◌then◌else◌, str_eq, Bool-cases,
  inl, inr,
}
use rinja.Parser.Expr.{Expr, bool_lit, unary, bin_op, group, is_defined, is_not_defined}
use rinja.Generator.Condition.{
  EvaluatedResult, Evaluated, always_true, always_false, unknown, negate, conjoin, disjoin,
  evaluate_condition,
}

-- The value of a condition: `leaf` gives the value of what is not built by the Boolean operators.
unfoldable pub eval : {T : Type 0} → (String → Bool) → (Expr T → Bool) → Expr T → Bool
eval defined leaf (bool_lit b) = b
eval defined leaf (unary op e) =
    if str_eq op "!" then not (eval defined leaf e) else leaf (unary op e)
eval defined leaf (bin_op op l r) =
    if str_eq op "&&"
    then eval defined leaf l && eval defined leaf r
    else if str_eq op "||"
    then eval defined leaf l || eval defined leaf r
    else leaf (bin_op op l r)
eval defined leaf (group e) = eval defined leaf e
eval defined leaf (is_defined v) = defined v
eval defined leaf (is_not_defined v) = not (defined v)
eval defined leaf e = leaf e

-- A result says nothing, or the value.
abbrev pub Holds : EvaluatedResult → Bool → Type 0
Holds always_true b = b ≡ true
Holds always_false b = b ≡ false
Holds unknown b = Unit

module _ {T : Type 0} (defined : String → Bool) (leaf : Expr T → Bool) where
  -- The result holds of the value `b`, and so has the expression that is left.
  abbrev pub Agrees : Bool → Evaluated T → Type 0
  Agrees b r = Holds r.0 b × (eval defined leaf r.1 ≡ b)

  negate-Agrees : (b : Bool) (r : Evaluated T) → Agrees b r → Agrees (not b) (negate r)
  unfolding negate eval
  negate-Agrees b (always_true, e, o) h = ground arith
  negate-Agrees b (always_false, e, o) h = ground arith
  negate-Agrees b (unknown, e, o) h = ground arith

  conjoin-Agrees :
      (a b : Bool) (l r : Evaluated T) → Agrees a l → Agrees b r → Agrees (a && b) (conjoin l r)
  unfolding conjoin eval
  conjoin-Agrees a b (always_true, e, o) (always_true, f, p) h k = ground arith
  conjoin-Agrees a b (_, e, o) (_, f, p) h k = ground arith

  disjoin-Agrees :
      (a b : Bool) (l r : Evaluated T) → Agrees a l → Agrees b r → Agrees (a || b) (disjoin l r)
  unfolding disjoin eval
  disjoin-Agrees a b (always_true, e, o) (always_true, f, p) h k = ground arith
  disjoin-Agrees a b (_, e, o) (_, f, p) h k = ground arith

  -- For every condition, flag and value of its parts: a condition that is found always true is
  -- true, one that is found always false is false, and the expression that is left of a condition
  -- has its value.
  pub evaluate_condition-Agrees :
      (e : Expr T) (only : Bool) → Agrees (eval defined leaf e) (evaluate_condition defined e only)
  unfolding evaluate_condition eval
  evaluate_condition-Agrees (bool_lit true) only = (refl, refl)
  evaluate_condition-Agrees (bool_lit false) only = (refl, refl)
  evaluate_condition-Agrees (unary op e) only = elim (Bool-cases (str_eq op "!")) [
    | inl is ↦ rw is (negate-Agrees _ _ (evaluate_condition-Agrees e only))
    | inr not_is ↦ rw not_is (tt, rw not_is)
  ]
  evaluate_condition-Agrees (bin_op op l r) only =
      let hl = evaluate_condition-Agrees l only in
      let hr = evaluate_condition-Agrees r (evaluate_condition defined l only).2 in
      elim (Bool-cases (str_eq op "&&")) [
        | inl is ↦ rw is (conjoin-Agrees _ _ _ _ hl hr)
        | inr not_and ↦ elim (Bool-cases (str_eq op "||")) [
          | inl is ↦ rw (not_and, is) (disjoin-Agrees _ _ _ _ hl hr)
          | inr not_or ↦ rw (not_and, not_or) (tt, rw (not_and, not_or))
        ]
      ]
  evaluate_condition-Agrees (group e) only = evaluate_condition-Agrees e only
  evaluate_condition-Agrees (is_defined v) only = ground arith
  evaluate_condition-Agrees (is_not_defined v) only = ground arith
  evaluate_condition-Agrees _ only = (tt, refl)
