-- ===== src/Generator/Macros.antt =====
-- rinja_derive/src/generator/node.rs: which expression each argument of a macro gets in a call,
-- the first half of `write_call`, with `macro_call_ensure_arg_count`. What is done with the chosen
-- expressions is not part of it. An error is the data that its message names.
pub mod Count
pub mod Positional
pub mod Passed
pub mod Named
use rinja.Base.{
  ℕ, suc, ◌+◌, ◌-◌, Bool, true, false, ◌||◌, ◌&&◌, Option, none, some, List, [], ◌∷◌, reverse,
  if◌then◌else◌, String, str_eq, ltb, leb, ◌==◌, length, get_elem?, set, replicate, Outcome, ok,
  err, running, ◌and_then◌,
}
use rinja.Parser.Expr.{Expr, named_argument}

pub data CallError : Type 0 where
  -- the number that is expected, whether it is the least one, and the number found
  arg_count : ℕ → Bool → ℕ → CallError
  no_such_argument : String → CallError
  unnamed_behind_named : String → CallError
  passed_twice : String → CallError
  missing : String → CallError
  out_of_range : CallError

abbrev pub is_some : {A : Type 0} → Option A → Bool
is_some none = false
is_some (some a) = true

abbrev pub Params : Type 0 → Type 0
Params T = List (String × Option (Expr T))

abbrev pub Named : Type 0 → Type 0
Named T = List (String × ℕ × Expr T)

-- The local variables of the loop over the arguments of the macro.
pub record Assigning : Type 0 where
  pub allow_positional : Bool
  pub used_named_args : List Bool

-- The pattern `Expr::NamedArgument(name, _)`.
unfoldable pub argument_name : {T : Type 0} → Expr T → Option String
argument_name (named_argument name e) = some name
argument_name _ = none

module _ {T : Type 0} where
  -- `take_while` and `count`
  unfoldable pub count_defaults : Params T → ℕ
  count_defaults [] = 0
  count_defaults ((_, default_value) ∷ params) =
      let rest = count_defaults params in if is_some default_value then suc rest else 0

  unfoldable pub nb_default_args : Params T → ℕ
  unfolding count_defaults
  nb_default_args params = count_defaults (reverse params)

  unfoldable pub macro_call_ensure_arg_count : List (Expr T) → Params T → Outcome CallError Bool
  unfolding nb_default_args
  macro_call_ensure_arg_count args params =
      let nb = nb_default_args params in
      if length args == length params
      then ok true
      else if ltb (length args) (length params) && leb (length params - nb) (length args)
      then ok true
      else if nb == 0
      then err (arg_count (length params) false (length args))
      else err (arg_count nb true (length args))

  unfoldable pub has_param : String → Params T → Bool
  has_param name [] = false
  has_param name ((arg, _) ∷ params) = str_eq arg name || has_param name params

  -- The entry of `named_arguments`; a later `insert` stands in front.
  unfoldable pub find_named : String → Named T → Option (ℕ × Expr T)
  find_named arg [] = none
  find_named arg ((name, index, e) ∷ named) =
      let rest = find_named arg named in if str_eq name arg then some (index, e) else rest

  -- The loop over the arguments from the last one on; `args` is the reversed call and `index`
  -- the number of its members.
  unfoldable pub collect_named : Params T → List (Expr T) → Named T → Outcome CallError (Named T)
  unfolding has_param argument_name
  collect_named params [] named = ok named
  collect_named params (e ∷ args) named = elim (argument_name e) [
    | none ↦ ok named
    | some name ↦
        if has_param name params
        then collect_named params args ((name, length args, e) ∷ named)
        else err (no_such_argument name)
  ]

  -- `?` on the expression of one argument, and on those of the others.
  abbrev pub prepend :
      Outcome CallError (Expr T)
      → Outcome CallError (List (Expr T))
      → Outcome CallError (List (Expr T))
  prepend (ok e) (ok es) = ok (e ∷ es)
  prepend (ok e) (err other) = err other
  prepend (ok e) running = running
  prepend (err other) rest = err other
  prepend running rest = running

  abbrev pub or_missing : String → Option (Expr T) → Outcome CallError (Expr T)
  or_missing arg none = err (missing arg)
  or_missing arg (some e) = ok e

  -- The inner `match`, on the argument of the call at the index.
  unfoldable pub positional :
      String → Option (Expr T) → ℕ → Option (Expr T) → Assigning → Outcome CallError (Expr T)
  unfolding argument_name
  positional arg default_value index none s = or_missing arg default_value
  positional arg default_value index (some e) s = elim (argument_name e) [
    | none ↦ if s.allow_positional then ok e else err (unnamed_behind_named arg)
    | some name ↦ elim (get_elem? s.used_named_args index) [
      | none ↦ err out_of_range
      | some used ↦ if used then err (passed_twice name) else or_missing arg default_value
    ]
  ]

  -- The expressions that the arguments of the macro get, in order.
  unfoldable pub assign :
      List (Expr T) → Named T → Params T → ℕ → Assigning → Outcome CallError (List (Expr T))
  unfolding positional find_named
  assign args named [] index s = ok []
  assign args named ((arg, default_value) ∷ params) index s = elim (find_named arg named) [
    | some (used, e) ↦ prepend (ok e) (
        assign args named params (index + 1)
          record { allow_positional = false; used_named_args = set s.used_named_args used true })
    | none ↦
        prepend (positional arg default_value index (get_elem? args index) s)
          (assign args named params (index + 1) s)
  ]

  -- `write_call` up to the expressions.
  unfoldable pub call_arguments : List (Expr T) → Params T → Outcome CallError (List (Expr T))
  unfolding macro_call_ensure_arg_count collect_named assign
  call_arguments args params = macro_call_ensure_arg_count args params and_then λ _.
      collect_named params (reverse args) [] and_then λ named.
      assign args named params 0
        record { allow_positional = true; used_named_args = replicate (length args) false }
