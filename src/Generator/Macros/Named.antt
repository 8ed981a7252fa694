-- ===== src/Generator/Macros/Named.antt =====
-- Calls of macros in rinja_derive/src/generator/node.rs whose arguments may have names: which
-- expression each argument of the macro gets.
use mathlib.Core.List.{reverse-reverse}
use rinja.Base.{
  ℕ, ◌+◌, ◌≡◌, refl, sym, ap, ◌∙◌, true, false, Option, none, some, List, [], ◌∷◌, ◌⊎◌, inl, inr,
  reverse, set, get_elem?, Outcome, ok, err, running, ◌and_then◌, arith, String, Bool-cases,
  Option-cases,
}
use rinja.Parser.Expr.{Expr}
use rinja.Generator.Macros.{
  CallError, Params, Named, Assigning, argument_name, macro_call_ensure_arg_count, collect_named,
  find_named, positional, assign, call_arguments, prepend, or_missing,
}
use rinja.Generator.Macros.Passed.{ok_injective, passed, value_of, collect_named-passed}

and_then_ok :
    {A B : Type 0} (o : Outcome CallError A) (f : A → Outcome CallError B) (b : B)
    → (o and_then f) ≡ ok b
    → (a : A) × (o ≡ ok a) × (f a ≡ ok b)
and_then_ok (ok a) f b h = (a, refl, h)
and_then_ok (err e) f b h = absurd (ground arith)
and_then_ok running f b h = absurd (ground arith)

module _ {T : Type 0} where
  -- An argument without a name, at the place of the argument of the macro.
  abbrev pub Stands : List (Expr T) → ℕ → Expr T → Type 0
  Stands args index e = (get_elem? args index ≡ some e) × (argument_name e ≡ none)

  -- The expression for one argument of the macro, and those for all of them.
  abbrev pub IsFor : List (Expr T) → ℕ → String → Option (Expr T) → Expr T → Type 0
  IsFor args index arg default_value e =
      (passed arg args ≡ some e)
      ⊎ ((passed arg args ≡ none)
          × (Stands args index e
              ⊎ ((default_value ≡ some e) × (¬ ((x : Expr T) × Stands args index x)))))

  abbrev pub AreFor : List (Expr T) → ℕ → Params T → List (Expr T) → Type 0
  AreFor args index [] es = es ≡ []
  AreFor args index ((arg, default_value) ∷ params) [] = ⊥
  AreFor args index ((arg, default_value) ∷ params) (e ∷ es) =
      IsFor args index arg default_value e × AreFor args (index + 1) params es

  default_ok :
      (arg : String) (default_value : Option (Expr T)) (e : Expr T)
      → or_missing arg default_value ≡ ok e
      → default_value ≡ some e
  default_ok arg none e h = absurd (ground arith)
  default_ok arg (some d) e h = ap some (ok_injective h)

  positional-IsFor :
      (args : List (Expr T)) (arg : String) (default_value : Option (Expr T)) (index : ℕ)
      (s : Assigning) (e : Expr T)
      → positional arg default_value index (get_elem? args index) s ≡ ok e
      → Stands args index e ⊎ ((default_value ≡ some e) × (¬ ((x : Expr T) × Stands args index x)))
  unfolding positional
  positional-IsFor args arg default_value index s e h = elim (Option-cases (get_elem? args index)) [
    | inl missing ↦ inr (
      default_ok arg default_value e (rw (missing, positional) at h),
      λ p. absurd (ground (arith, p.1)),
    )
    | inr (x, there) ↦ elim (Option-cases (argument_name x)) [
      | inl unnamed ↦ elim (Bool-cases s.allow_positional) [
        | inl allowed ↦
            let same : x ≡ e = ok_injective (rw (there, positional, unnamed, allowed) at h) in
            inl (there ∙ ap some same, rw same at unnamed)
        | inr refused ↦ absurd (ground (arith, rw (there, positional, unnamed, refused) at h))
      ]
      | inr (name, is) ↦
          let named : ¬ ((y : Expr T) × Stands args index y) = λ p. absurd (ground (arith, p.1)) in
          elim (Option-cases (get_elem? s.used_named_args index)) [
            | inl outside ↦ absurd (ground (arith, rw (there, positional, is, outside) at h))
            | inr (used, known) ↦ elim (Bool-cases used) [
              | inl twice ↦ absurd (ground (arith, rw (there, positional, is, known, twice) at h))
              | inr fresh ↦ inr (
                default_ok arg default_value e (rw (there, positional, is, known, fresh) at h),
                named,
              )
            ]
          ]
    ]
  ]

  prepend_ok :
      (a : Outcome CallError (Expr T)) (b : Outcome CallError (List (Expr T))) (es : List (Expr T))
      → prepend a b ≡ ok es
      → (e : Expr T) × (rest : List (Expr T)) × (a ≡ ok e) × (b ≡ ok rest) × (e ∷ rest ≡ es)
  prepend_ok (ok e) (ok rest) es h = (e, rest, refl, refl, ok_injective h)
  prepend_ok (ok e) (err x) es h = absurd (ground arith)
  prepend_ok (ok e) running es h = absurd (ground arith)
  prepend_ok (err x) b es h = absurd (ground arith)
  prepend_ok running b es h = absurd (ground arith)

  assign-AreFor :
      (args : List (Expr T)) (named : Named T) (params : Params T) (index : ℕ) (s : Assigning)
      (es : List (Expr T))
      → ((arg : String) → value_of (find_named arg named) ≡ passed arg args)
      → assign args named params index s ≡ ok es
      → AreFor args index params es
  unfolding assign value_of
  assign-AreFor args named [] index s es agree h = sym (ok_injective h)
  assign-AreFor args named ((arg, d) ∷ params) index s es agree h =
      elim (Option-cases (find_named arg named)) [
        | inr ((used, e), found) ↦
            let t : Assigning = record {
              allow_positional = false;
              used_named_args = set s.used_named_args used true;
            } in
            let (first, rest, is, others, whole) =
              prepend_ok (ok e) (assign args named params (index + 1) t) es
                (rw (found, assign) at h) in
            rw (sym whole) (
              inl (sym (agree arg) ∙ ap value_of found ∙ ap some (ok_injective is)),
              assign-AreFor args named params (index + 1) t rest agree others,
            )
        | inl missing ↦
            let (first, rest, is, others, whole) =
              prepend_ok (positional arg d index (get_elem? args index) s)
                (assign args named params (index + 1) s) es (rw (missing, assign) at h) in
            rw (sym whole) (
              inr (
                sym (agree arg) ∙ ap value_of missing,
                positional-IsFor args arg d index s first is,
              ),
              assign-AreFor args named params (index + 1) s rest agree others,
            )
      ]

  -- Whatever the arguments of the call and of the macro: where the call is accepted, every argument
  -- of the macro gets one expression, in order. This is the first argument of the call that passes
  -- it by its name, with names on all behind it, even where an argument without a name stands at its
  -- place; else the argument without a name at its place; and else its default.
  pub call_arguments-AreFor :
      (args : List (Expr T)) (params : Params T) (es : List (Expr T))
      → call_arguments args params ≡ ok es
      → AreFor args 0 params es
  unfolding call_arguments find_named value_of
  call_arguments-AreFor args params es h =
      let (counted, count, more) = and_then_ok (macro_call_ensure_arg_count args params) _ es h in
      let (named, collected, assigned) =
        and_then_ok (collect_named params (reverse args) []) _ es more in
      assign-AreFor args named params 0 _ es
        (λ arg.
          collect_named-passed params arg (reverse args) [] [] named refl refl collected
          ∙ ap (passed arg) (reverse-reverse args))
        assigned
