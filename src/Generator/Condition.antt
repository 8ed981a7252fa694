-- ===== src/Generator/Condition.antt =====
-- rinja_derive/src/generator/node.rs: what is known of a condition when the template is compiled,
-- `evaluate_condition`, and which branches of an `if` are generated, `Conds::compute_branches`.
pub mod Shortcut
pub mod Sound
pub mod Branches
use rinja.Base.{
  ℕ, suc, ◌+◌, Bool, true, false, not, ◌&&◌, Option, none, some, String, List, [], ◌∷◌, ◌++◌,
  if◌then◌else◌, str_eq, is_empty,
}
use rinja.Parser.Whitespace.{Ws}
use rinja.Parser.Node.{CondTest}
use rinja.Parser.Expr.{Expr, bool_lit, unary, bin_op, group, is_defined, is_not_defined}

pub data EvaluatedResult : Type 0 where
  always_true always_false unknown : EvaluatedResult

-- A result, the expression that is left, and `*only_contains_is_defined`.
abbrev pub Evaluated : Type 0 → Type 0
Evaluated T = EvaluatedResult × Expr T × Bool

-- The `match` of `!`, of `&&` and of `||` on the results of their operands.
unfoldable pub negate : {T : Type 0} → Evaluated T → Evaluated T
negate (always_true, e, only) = (always_false, bool_lit false, only)
negate (always_false, e, only) = (always_true, bool_lit true, only)
negate (unknown, e, only) = (unknown, unary "!" e, only)

unfoldable pub conjoin : {T : Type 0} → Evaluated T → Evaluated T → Evaluated T
conjoin (always_false, l, only) right = (always_false, bool_lit false, only)
conjoin (always_true, l, _) (always_true, r, only) = (always_true, bool_lit true, only)
conjoin (_, l, _) (always_false, r, only) = (always_false, bin_op "&&" l r, only)
conjoin (always_true, l, _) (result, r, only) = (result, r, only)
conjoin (result, l, _) (always_true, r, only) = (result, l, only)
conjoin (unknown, l, _) (unknown, r, only) = (unknown, bin_op "&&" l r, only)

unfoldable pub disjoin : {T : Type 0} → Evaluated T → Evaluated T → Evaluated T
disjoin (always_true, l, only) right = (always_true, bool_lit true, only)
disjoin (always_false, l, _) (always_false, r, only) = (always_false, bool_lit false, only)
disjoin (_, l, _) (always_true, r, only) = (always_true, bin_op "||" l r, only)
disjoin (always_false, l, _) (result, r, only) = (result, r, only)
disjoin (result, l, _) (always_false, r, only) = (result, l, only)
disjoin (unknown, l, _) (unknown, r, only) = (unknown, bin_op "||" l r, only)

-- `is_var_defined` is decided while the template is compiled.
module _ {T : Type 0} (is_var_defined : String → Bool) where
  unfoldable pub evaluate_condition : Expr T → Bool → Evaluated T
  unfolding negate conjoin disjoin
  evaluate_condition (bool_lit true) only = (always_true, bool_lit true, only)
  evaluate_condition (bool_lit false) only = (always_false, bool_lit false, only)
  evaluate_condition (unary op inner) only =
      if str_eq op "!"
      then negate (evaluate_condition inner only)
      else (unknown, unary op inner, only)
  evaluate_condition (bin_op op left right) only =
      let l = evaluate_condition left only in
      let r = evaluate_condition right l.2 in
      if str_eq op "&&"
      then conjoin l r
      else if str_eq op "||"
      then disjoin l r
      else (unknown, bin_op op left right, false)
  evaluate_condition (group inner) only =
      let r = evaluate_condition inner only in (r.0, group r.1, r.2)
  evaluate_condition (is_defined v) only =
      if is_var_defined v
      then (always_true, bool_lit true, only)
      else (always_false, bool_lit false, only)
  evaluate_condition (is_not_defined v) only =
      if is_var_defined v
      then (always_false, bool_lit false, only)
      else (always_true, bool_lit true, only)
  evaluate_condition e only = (unknown, e, false)

-- `CondTest`, and `Cond` with a body of type `B`.
pub record Cond (T B : Type 0) : Type 0 where
  pub ws : Ws
  pub cond : Option (CondTest T)
  pub nodes : B

pub record CondInfo (T B : Type 0) : Type 0 where
  pub cond : Cond T B
  pub cond_expr : Option (Expr T)
  pub generate_condition : Bool
  pub generate_content : Bool

pub record Conds (T B : Type 0) : Type 0 where
  pub conds : List (CondInfo T B)
  pub ws_before : Option Ws
  pub ws_after : Option Ws
  pub nb_conds : ℕ

module _ {T B : Type 0} where
  -- `nb_conds += 1` where the condition is generated, and `conds.push(…)`
  unfoldable pub add_cond : CondInfo T B → Conds T B → Conds T B
  add_cond info c = record c {
    conds = c.conds ++ info ∷ [];
    nb_conds = if info.generate_condition then c.nb_conds + 1 else c.nb_conds;
  }

  -- The two cases of `ws_before` where a condition is skipped.
  unfoldable pub skip_cond : Cond T B → Conds T B → Conds T B
  skip_cond cond c = elim (c.ws_before) [
    | none ↦ if is_empty c.conds then record c { ws_before = some cond.ws } else c
    | some _ ↦ c
  ]

  -- The `match` on the result of a condition; the flag is `stop_loop`.
  unfoldable pub visit_test :
      Cond T B → Option (Expr T) → EvaluatedResult → Bool → Conds T B → Conds T B × Bool
  unfolding add_cond skip_cond
  visit_test cond e always_false true c = (skip_cond cond c, false)
  visit_test cond e always_false false c = (
    add_cond
        (record { cond = cond; cond_expr = e; generate_condition = true; generate_content = false })
        c,
    false,
  )
  visit_test cond e always_true only c = (
    add_cond
        (record {
          cond = cond;
          cond_expr = e;
          generate_condition = not only;
          generate_content = true;
        })
        c,
    true,
  )
  visit_test cond e unknown only c = (
    add_cond
        (record { cond = cond; cond_expr = e; generate_condition = true; generate_content = true })
        c,
    false,
  )

  -- The round after `stop_loop` was set: the whitespace control of the next branch is kept.
  unfoldable pub stop : List (Cond T B) → Conds T B → Conds T B
  stop [] c = c
  stop (cond ∷ _) c = record c { ws_after = some cond.ws }

  module _ (is_var_defined : String → Bool) where
    -- One round of the loop over the branches.
    unfoldable pub visit : Cond T B → Conds T B → Conds T B × Bool
    unfolding visit_test
    visit cond c = elim (cond.cond) [
      | some test ↦
          if test.contains_bool_lit_or_is_defined
          then (let r = evaluate_condition is_var_defined test.expr true in
              visit_test cond (some r.1) r.0 r.2 c)
          else visit_test cond none unknown true c
      | none ↦ (
        add_cond
            (record {
              cond = cond;
              cond_expr = none;
              generate_condition = not (is_empty c.conds);
              generate_content = true;
            })
            c,
        false,
      )
    ]

    unfoldable pub visit_all : List (Cond T B) → Conds T B → Conds T B
    unfolding visit stop
    visit_all [] c = c
    visit_all (cond ∷ branches) c =
        let r = visit cond c in
        elim (r.1) [ true ↦ stop branches r.0 | false ↦ visit_all branches r.0 ]

    unfoldable pub compute_branches : List (Cond T B) → Conds T B
    unfolding visit_all
    compute_branches branches =
        visit_all branches (record { conds = []; ws_before = none; ws_after = none; nb_conds = 0 })
