-- ===== src/Generator/Macros/Count.antt =====
-- The number of arguments that `macro_call_ensure_arg_count` of rinja_derive/src/generator/node.rs
-- takes.
use mathlib.Core.List.{reverse-append, reverse-cons}
use rinja.Base.{
  false, if◌then◌else◌, ◌&&◌, leb, ◌==◌, ◌+◌, ◌≡◌, refl, ◌∙◌, ◌⊎◌, inl, inr, true, Option, none,
  List, [], ◌∷◌, ◌++◌, reverse, String, length, ok, err, All, All-append, arith, length-append,
}
use rinja.Parser.Expr.{Expr}
use rinja.Generator.Macros.{
  arg_count, Params, count_defaults, nb_default_args, macro_call_ensure_arg_count, is_some,
}

pub All-reverse : {A : Type 0} (P : A → Type 0) (xs : List A) → All P xs → All P (reverse xs)
All-reverse P [] h = tt
All-reverse P (x ∷ xs) (px, h) =
    rw (reverse-cons x xs) (All-append P (reverse xs) (x ∷ []) (All-reverse P xs h) (px, tt))

length-reverse : {A : Type 0} (xs : List A) → length (reverse xs) ≡ length xs
length-reverse [] = refl
length-reverse (x ∷ xs) =
    rw (reverse-cons x xs) (omega (arith, length-append (reverse xs) (x ∷ []), length-reverse xs))

module _ {T : Type 0} where
  abbrev pub HasDefault : String × Option (Expr T) → Type 0
  HasDefault p = is_some (p.1) ≡ true

  -- The last argument, where there is one, has no default.
  abbrev pub EndsRequired : Params T → Type 0
  EndsRequired params =
      (params ≡ []) ⊎ ((front : Params T) × (name : String) × (params ≡ front ++ (name, none) ∷ []))

  count_defaults-append :
      (xs ys : Params T)
      → All HasDefault xs
      → count_defaults (xs ++ ys) ≡ length xs + count_defaults ys
  unfolding count_defaults
  count_defaults-append [] ys h = omega arith
  count_defaults-append ((name, d) ∷ xs) ys (has, h) =
      rw has (omega (arith, count_defaults-append xs ys h))

  -- The arguments with a default at the end, whatever is in front.
  pub nb_default_args-append :
      (front back : Params T)
      → All HasDefault back
      → nb_default_args (front ++ back) ≡ length back + count_defaults (reverse front)
  unfolding nb_default_args
  nb_default_args-append front back h = rw (reverse-append front back) (
      count_defaults-append (reverse back) (reverse front) (All-reverse HasDefault back h)
      ∙ omega (arith, length-reverse back))

  no_defaults : (params : Params T) → EndsRequired params → count_defaults (reverse params) ≡ 0
  unfolding count_defaults
  no_defaults params (inl e) = rw e refl
  no_defaults params (inr (front, name, e)) = rw (e, reverse-append front ((name, none) ∷ [])) refl

  -- For a macro whose last arguments, `back`, have defaults, and whose argument in front of these
  -- has none: a call is accepted exactly when it has at least an argument for each of `front` and
  -- at most one for each of both. Any other is refused, where there are defaults with their number
  -- as the least number that is expected, and else with the number of all arguments.
  pub macro_call_ensure_arg_count-bounds :
      (args : List (Expr T)) (front back : Params T)
      → EndsRequired front
      → All HasDefault back
      → macro_call_ensure_arg_count args (front ++ back) ≡ (
          if leb (length front) (length args) && leb (length args) (length front + length back)
          then ok true
          else if length back == 0
          then err (arg_count (length front) false (length args))
          else err (arg_count (length back) true (length args)))
  unfolding macro_call_ensure_arg_count
  macro_call_ensure_arg_count-bounds args front back ends h =
      let nb : nb_default_args (front ++ back) ≡ length back =
        nb_default_args-append front back h ∙ omega (arith, no_defaults front ends) in
      rw (nb, length-append front back) (ground arith)
