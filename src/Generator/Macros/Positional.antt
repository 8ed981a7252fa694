-- ===== src/Generator/Macros/Positional.antt =====
-- Calls of macros in rinja_derive/src/generator/node.rs whose arguments have no names.
use rinja.Base.{
  ℕ, zero, suc, ◌+◌, ◌≤◌, ◌≡◌, refl, ap, Bool, true, false, none, some, List, [], ◌∷◌, ◌++◌,
  reverse, length, get_elem?, replicate, ok, All, arith, length-append, append-nil, append_assoc,
}
use rinja.Parser.Expr.{Expr}
use rinja.Generator.Macros.{
  Params, Assigning, argument_name, macro_call_ensure_arg_count, collect_named, find_named,
  positional, assign, call_arguments, prepend,
}
use rinja.Generator.Macros.Count.{HasDefault, All-reverse, nb_default_args-append}

module _ {T : Type 0} where
  abbrev pub IsUnnamed : Expr T → Type 0
  IsUnnamed e = argument_name e ≡ none

  -- The default values.
  unfoldable pub defaults : Params T → List (Expr T)
  defaults [] = []
  defaults ((_, none) ∷ params) = defaults params
  defaults ((_, some e) ∷ params) = e ∷ defaults params

  collect_named_nil :
      (params : Params T) (args : List (Expr T))
      → All IsUnnamed args
      → collect_named params args [] ≡ ok []
  unfolding collect_named
  collect_named_nil params [] h = refl
  collect_named_nil params (e ∷ args) (unnamed, h) = rw (unnamed, collect_named) refl

  get_at :
      (pre : List (Expr T)) (e : Expr T) (rest : List (Expr T))
      → get_elem? (pre ++ e ∷ rest) (length pre) ≡ some e
  get_at [] e rest = refl
  get_at (x ∷ pre) e rest = get_at pre e rest

  get_behind : (pre : List (Expr T)) (i : ℕ) → length pre ≤ i → get_elem? pre i ≡ none
  get_behind [] i h = refl
  get_behind (x ∷ pre) zero h = ground arith
  get_behind (x ∷ pre) (suc i) h = get_behind pre i (omega arith)

  -- Behind the last argument of the call, every argument gets its default.
  assign-defaults :
      (args : List (Expr T)) (back : Params T) (index : ℕ) (s : Assigning)
      → All HasDefault back
      → length args ≤ index
      → assign args [] back index s ≡ ok (defaults back)
  unfolding assign positional find_named defaults
  assign-defaults args [] index s h behind = refl
  assign-defaults args ((name, none) ∷ back) index s (has, h) behind = ground arith
  assign-defaults args ((name, some e) ∷ back) index s (has, h) behind =
      rw (get_behind args index behind, assign-defaults args back (index + 1) s h (omega arith))
        refl

  assign-append :
      (pre rest : List (Expr T)) (front back : Params T) (used : List Bool)
      → All IsUnnamed rest
      → length rest ≡ length front
      → All HasDefault back
      → assign
          (pre ++ rest)
          []
          (front ++ back)
          (length pre)
          record { allow_positional = true; used_named_args = used }
        ≡ ok (rest ++ defaults back)
  unfolding assign positional find_named
  assign-append pre [] [] back used h same has =
      rw (append-nil pre) (assign-defaults pre back (length pre) _ has (omega arith))
  assign-append pre [] (p ∷ front) back used h same has = ground arith
  assign-append pre (e ∷ rest) [] back used h same has = ground arith
  assign-append pre (e ∷ rest) ((name, d) ∷ front) back used (unnamed, h) same has =
      let rest_of = assign-append (pre ++ e ∷ []) rest front back used h (omega arith) has in
      rw (get_at pre e rest, positional, unnamed)
        (ap (prepend (ok e))
          (rw (append_assoc pre (e ∷ []) rest, length-append pre (e ∷ [])) at rest_of))

  accepts :
      (args : List (Expr T)) (front back : Params T)
      → length args ≡ length front
      → All HasDefault back
      → macro_call_ensure_arg_count args (front ++ back) ≡ ok true
  unfolding macro_call_ensure_arg_count
  accepts args front back same has =
      rw (nb_default_args-append front back has, length-append front back) (ground arith)

  -- Where no argument of the call has a name, there is one for each argument of the macro up to
  -- some place, and the arguments of the macro behind that place have defaults: the call is
  -- accepted, and the arguments of the macro get those of the call in order and then the defaults.
  pub call_arguments-defaults :
      (args : List (Expr T)) (front back : Params T)
      → All IsUnnamed args
      → length args ≡ length front
      → All HasDefault back
      → call_arguments args (front ++ back) ≡ ok (args ++ defaults back)
  unfolding call_arguments
  call_arguments-defaults args front back h same has =
      let count : macro_call_ensure_arg_count args (front ++ back) ≡ ok true =
        accepts args front back same has in
      rw (count, collect_named_nil (front ++ back) (reverse args) (All-reverse IsUnnamed args h))
        (assign-append [] args front back (replicate (length args) false) h same has)
