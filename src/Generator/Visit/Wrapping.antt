-- ===== src/Generator/Visit/Wrapping.antt =====
-- rinja_derive/src/generator/expr.rs: which expressions the visitors report as escaped already, so
-- that `write_buf_writable` emits them without the automatic escaping.
pub mod Filters
pub mod Exprs
use rinja.Base.{
  Bool, true, false, Option, List, [], ◌∷◌, ◌++◌, ◌≡◌, refl, ◌∙◌, sym, arith, ap, String,
  if◌then◌else◌, codes, All, Bool-cases, inl, inr, str_eq, eq_iff, Outcome, ok, err, running,
}
use rinja.Buffer as Buffer
use rinja.Parser.Target.{Target}
use rinja.Parser.Node.{TargetExpr}
use rinja.Parser.Expr.{
  attr, filter, unary, bin_op, range, call, filter_source, concat, let_cond, nil, cons,
}
use rinja.Generator.Writables.{DisplayWrap, wrapped, unwrapped}
use rinja.Generator.Visit.{Failure, Visit, Visiting, Input, ◌>>=◌, ◌>>◌, pure, write}
use rinja.Generator.Visit.Leaves.{
  visit_path, visit_var, visit_filter_source, visit_bool_lit, visit_str_lit, visit_char_lit,
  visit_num_lit, visit_rust_macro, visit_is_defined,
}
use rinja.Generator.Visit.Arguments.{Arg, is_one_of, builtin_filters}
use rinja.Generator.Visit.Filters.{
  visit_deref_filter, visit_escape_filter, visit_humansize, visit_json_filter,
  visit_linebreaks_filter, visit_pluralize_filter, visit_ref_filter, visit_safe_filter,
  visit_urlencode, visit_builtin_filter, visit_custom_filter, pluralize_with,
}
use rinja.Generator.Visit.Formats.{
  visit_filter, visit_fmt_filter, visit_format_filter, visit_join_filter, format_literal,
  fmt_literal,
}
use rinja.Generator.Visit.Parts.{
  is_and_or, is_loop, loop_attr, visit_attr, loop_cycle, loop_method, call_callee, visit_call,
  visit_concat, visit_exprs_of, visit_let_cond, write_let, opt_visit,
}
use rinja.Generator.Visit.Exprs.{
  visit_expr, visit_expr_first, visit_expr_not_first, visit_all, visit_opt,
}

-- The filters whose output is safe for the escaper of the template.
abbrev pub safe_filters : List String
safe_filters = "safe" ∷ "escape" ∷ "e" ∷ "pluralize" ∷ []

abbrev pub wrap_if : Bool → DisplayWrap
wrap_if b = if b then wrapped else unwrapped

-- What is escaped already: the result of one of these filters, the body of a filter block, and a
-- concatenation of only one such expression. In `if let` it is the first operand that counts, where
-- it is not one of `&&` or `||`.
unfoldable mutual
  pub is_safe : TargetExpr → Bool
  is_safe (filter name args) = is_one_of name safe_filters
  is_safe filter_source = true
  is_safe (concat (cons e nil)) = is_safe e
  is_safe (let_cond target e b) = is_safe_cond e
  is_safe _ = false

  pub is_safe_cond : TargetExpr → Bool
  is_safe_cond (unary op e) = is_safe_cond e
  is_safe_cond (filter name args) = is_one_of name safe_filters
  is_safe_cond filter_source = true
  is_safe_cond (concat (cons e nil)) = is_safe e
  is_safe_cond (let_cond target e b) = is_safe_cond e
  is_safe_cond _ = false

-- Where a visitor returns, what it returns has a property.
pub record Gives {A : Type 0} (P : A → Type 0) (m : Visit A) : Type 0 where
  pub gives : (s : Visiting) (a : A) (t : Visiting) → m s ≡ ok (a, t) → P a

bound :
    {A B : Type 0} (P : A → Type 0) (Q : B → Type 0) (f : A → Visit B)
    (r : Outcome Failure (A × Visiting)) (b : B) (u : Visiting)
    → ((a : A) (t : Visiting) → r ≡ ok (a, t) → P a)
    → ((a : A) → P a → Gives Q (f a))
    → (elim r [ ok (a, t) ↦ f a t | err e ↦ err e | running ↦ running ]) ≡ ok (b, u)
    → Q b
bound P Q f (ok (a, t)) b u h k e = (k a (h a t refl)).gives t b u e
bound P Q f (err x) b u h k e = absurd (ground arith)
bound P Q f running b u h k e = absurd (ground arith)

pub bind :
    {A B : Type 0} (P : A → Type 0) {Q : B → Type 0} {m : Visit A} {f : A → Visit B}
    → Gives P m
    → ((a : A) → P a → Gives Q (f a))
    → Gives Q (m >>= f)
bind P {Q} {m} {f} h k = record { gives = λ s b u e. bound P Q f (m s) b u (h.gives s) k e }

abbrev pub Is : DisplayWrap → DisplayWrap → Type 0
Is w w' = w' ≡ w

pub chosen :
    {A : Type 0} {P : A → Type 0} (b : Bool) {m n : Visit A}
    → (b ≡ true → Gives P m)
    → (b ≡ false → Gives P n)
    → Gives P (if b then m else n)
chosen true h k = h refl
chosen false h k = k refl
