-- ===== src/Generator/Macros/Passed.antt =====
-- Calls of macros in rinja_derive/src/generator/node.rs: what a call passes by a name, and what the
-- loop over the arguments finds for it.
use mathlib.Core.List.{reverse_aux}
use rinja.Base.{
  ℕ, ◌≡◌, refl, sym, ap, ◌∙◌, Bool, true, false, ◌&&◌, Option, none, some, List, [], ◌∷◌, inl, inr,
  length, Outcome, ok, err, running, arith, str_eq, String, Bool-cases, Option-cases, if◌then◌else◌,
}
use rinja.Parser.Expr.{Expr}
use rinja.Generator.Macros.{
  CallError, Params, Named, argument_name, has_param, collect_named, find_named,
}

pub ok_injective : {B : Type 0} {a b : B} → ◌≡◌ {A = Outcome CallError B} (ok a) (ok b) → a ≡ b
ok_injective {a = a} h = ap (λ o. elim o [ ok c ↦ c | err e ↦ a | running ↦ a ]) h

module _ {T : Type 0} where
  -- Whether an argument of the call has a name, and whether it has this one.
  abbrev pub all_named : List (Expr T) → Bool
  all_named [] = true
  all_named (e ∷ args) = elim (argument_name e) [ none ↦ false | some name ↦ all_named args ]

  abbrev pub has_name : String → Expr T → Bool
  has_name arg e = elim (argument_name e) [ none ↦ false | some name ↦ str_eq name arg ]

  -- What a call passes by a name: the first argument of that name, behind which all have names.
  abbrev pub passed : String → List (Expr T) → Option (Expr T)
  passed arg [] = none
  passed arg (e ∷ args) =
      let rest = passed arg args in if has_name arg e && all_named args then some e else rest

  unfoldable pub value_of : Option (ℕ × Expr T) → Option (Expr T)
  value_of none = none
  value_of (some (index, e)) = some e

  -- A further argument in front of one without a name changes nothing.
  in_front :
      (arg : String) (e : Expr T) (zs : List (Expr T))
      → all_named zs ≡ false
      → (all_named (e ∷ zs) ≡ false) × (passed arg (e ∷ zs) ≡ passed arg zs)
  in_front arg e zs h = elim (Option-cases (argument_name e)) [
    | inl unnamed ↦ (rw (unnamed, all_named) refl, rw (unnamed, passed, has_name) refl)
    | inr (name, is) ↦ elim (Bool-cases (str_eq name arg)) [
      | inl same ↦ (rw (is, all_named) h, rw (is, passed, has_name, h, same) refl)
      | inr other ↦ (rw (is, all_named) h, rw (is, passed, has_name, h, other) refl)
    ]
  ]

  behind_unnamed :
      (arg : String) (r zs : List (Expr T))
      → all_named zs ≡ false
      → passed arg (reverse_aux r zs) ≡ passed arg zs
  behind_unnamed arg [] zs h = refl
  behind_unnamed arg (e ∷ r) zs h =
      let (unnamed, same) = in_front arg e zs h in behind_unnamed arg r (e ∷ zs) unnamed ∙ same

  -- An argument with a name in front of others is found first.
  find_first :
      (arg name : String) (index : ℕ) (e : Expr T) (ys : List (Expr T)) (named : Named T)
      → argument_name e ≡ some name
      → all_named ys ≡ true
      → value_of (find_named arg named) ≡ passed arg ys
      → value_of (find_named arg ((name, index, e) ∷ named)) ≡ passed arg (e ∷ ys)
  unfolding find_named value_of
  find_first arg name index e ys named is all h = elim (Bool-cases (str_eq name arg)) [
    | inl same ↦ rw (is, passed, has_name, all, same) refl
    | inr other ↦ rw (is, passed, has_name, other) h
  ]

  pub collect_named-passed :
      (params : Params T) (arg : String) (r ys : List (Expr T)) (named found : Named T)
      → all_named ys ≡ true
      → value_of (find_named arg named) ≡ passed arg ys
      → collect_named params r named ≡ ok found
      → value_of (find_named arg found) ≡ passed arg (reverse_aux r ys)
  unfolding collect_named
  collect_named-passed params arg [] ys named found all h is =
      ap (λ n. value_of (find_named arg n)) (sym (ok_injective is)) ∙ h
  collect_named-passed params arg (e ∷ r) ys named found all h is =
      elim (Option-cases (argument_name e)) [
        | inl unnamed ↦
            ap (λ n. value_of (find_named arg n))
              (sym (ok_injective (rw (unnamed, collect_named) at is)))
            ∙ h
            ∙ sym (
                behind_unnamed arg r (e ∷ ys) (rw (unnamed, all_named) refl)
                ∙ rw (unnamed, passed, has_name) refl)
        | inr (name, named_so) ↦ elim (Bool-cases (has_param name params)) [
          | inr unknown ↦ absurd (ground arith)
          | inl known ↦
              collect_named-passed params arg r (e ∷ ys) ((name, length r, e) ∷ named) found
                (rw (named_so, all_named) all)
                (find_first arg name (length r) e ys named named_so all h)
                (rw (named_so, collect_named, known) at is)
        ]
      ]
