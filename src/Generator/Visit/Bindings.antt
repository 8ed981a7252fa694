-- ===== src/Generator/Visit/Bindings.antt =====
-- rinja_derive/src/generator/expr.rs: the variables that `visit_target` brings into scope.
pub mod Names
use rinja.Base.{
  ℕ, ◌+◌, ltb, Bool, true, false, Option, none, some, List, [], ◌∷◌, ◌++◌, ◌≡◌, refl, ◌∙◌, arith,
  map, if◌then◌else◌, Bytes, codes, bytes_eq, Option-cases, inl, inr, append-nil, Outcome, ok, err,
  running, ◌>>=◌ as bind_option,
}
use rinja.Parser.Target.{
  Target, Targets, FieldTargets, name, tuple, array, struct, num_lit, str_lit, char_lit, bool_lit,
  path, or_chain, placeholder, rest, nil, cons, nil_fields, field,
}
use rinja.Parser.Expr.{StrPrefix, StrLit, CharPrefix, CharLit}
use rinja.Generator.Writables.{unwrapped}
use rinja.Parser.Keywords.{normalize_identifier}
use rinja.Generator.Scopes as Scopes
use rinja.Generator.Scopes.{LocalMeta, MapChain, get, resolve, initialized, default}
use rinja.Generator.Scopes.Laws.{insert_all, get-insert}
use rinja.Generator.Visit.{Failure, Visit, Visiting, ◌>>=◌, pure, expect, write}
use rinja.Generator.Visit.Leaves.{
  write_path, visit_path, visit_str_lit, visit_num_lit, visit_char_lit, write_prefix,
  write_char_prefix, to_char,
}
use rinja.Generator.Visit.Targets.{
  write_separated_path, insert, borrow, visit_rest, visit_name, visit_target, visit_or, visit_each,
  visit_fields,
}

-- A name as it is written in Rust.
unfoldable pub in_rust : Bytes → Bytes
in_rust s = elim (normalize_identifier s) [ none ↦ s | some n ↦ n ]

-- The names that a pattern binds, from the left to the right. The name of `name @ ..` is put into
-- the scope as it stands in the template, and no name is bound by the rest of a struct.
unfoldable mutual
  unfolding in_rust

  pub bindings : Bool → Target → List (Bytes × LocalMeta)
  bindings ready (name s) = (in_rust (codes s), (if ready then initialized else default)) ∷ []
  bindings ready (rest (some s)) = (codes s, initialized) ∷ []
  bindings ready (or_chain targets) = bindings_of ready targets
  bindings ready (tuple p targets) = bindings_of ready targets
  bindings ready (array p targets) = bindings_of ready targets
  bindings ready (struct p targets) = bindings_of_fields ready targets
  bindings ready _ = []

  pub bindings_of : Bool → Targets → List (Bytes × LocalMeta)
  bindings_of ready nil = []
  bindings_of ready (cons t targets) = bindings ready t ++ bindings_of ready targets

  pub bindings_of_fields : Bool → FieldTargets → List (Bytes × LocalMeta)
  bindings_of_fields ready nil_fields = []
  bindings_of_fields ready (field s (rest r) targets) = bindings_of_fields ready targets
  bindings_of_fields ready (field s t targets) =
      bindings ready t ++ bindings_of_fields ready targets

-- Where a visitor returns, these were inserted.
pub record Binds {A : Type 0} (es : List (Bytes × LocalMeta)) (m : Visit A) : Type 0 where
  pub binds :
      (s : Visiting) (a : A) (t : Visiting)
      → m s ≡ ok (a, t)
      → insert_all es s.locals ≡ some t.locals

insert_all-append :
    (es ds : List (Bytes × LocalMeta)) (scopes : MapChain)
    → insert_all (es ++ ds) scopes ≡ bind_option (insert_all es scopes) (insert_all ds)
unfolding insert_all
insert_all-append [] ds scopes = refl
insert_all-append ((key, val) ∷ es) ds scopes = elim (Option-cases (Scopes.insert key val scopes)) [
  | inl stuck ↦ rw stuck
  | inr (new, e) ↦ rw e (insert_all-append es ds new)
]

bound :
    {A B : Type 0} (es ds : List (Bytes × LocalMeta)) (f : A → Visit B) (s u : Visiting) (b : B)
    (r : Outcome Failure (A × Visiting))
    → ((a : A) (t : Visiting) → r ≡ ok (a, t) → insert_all es s.locals ≡ some t.locals)
    → ((a : A) → Binds ds (f a))
    → (elim r [ ok (a, t) ↦ f a t | err e ↦ err e | running ↦ running ]) ≡ ok (b, u)
    → insert_all (es ++ ds) s.locals ≡ some u.locals
bound es ds f s u b (ok (a, t)) h k e =
    insert_all-append es ds s.locals ∙ rw (h a t refl) ((k a).binds t b u e)
bound es ds f s u b (err x) h k e = absurd (ground arith)
bound es ds f s u b running h k e = absurd (ground arith)

-- One call after another.
infixr 6 ◌before◌
pub ◌before◌ :
    {A B : Type 0} {es ds : List (Bytes × LocalMeta)} {m : Visit A} {f : A → Visit B}
    → Binds es m
    → ((a : A) → Binds ds (f a))
    → Binds (es ++ ds) (m >>= f)
◌before◌ {es = es} {ds} {m} {f} p k = record {
  binds = λ s b u e. bound es ds f s u b (m s) (p.binds s) k e;
}

-- What follows inserts nothing.
pub then_nothing :
    {A B : Type 0} {es : List (Bytes × LocalMeta)} {m : Visit A} {f : A → Visit B}
    → Binds es m
    → ((a : A) → Binds [] (f a))
    → Binds es (m >>= f)
then_nothing {es = es} p k = rw append-nil at (p before k)

pub writing : (text : Bytes) → Binds [] (write text)
unfolding write insert_all
writing text = record { binds = λ s a t e. ground arith }

pub nothing : {A : Type 0} (a : A) → Binds [] (pure a)
unfolding insert_all
nothing a = record { binds = λ s b t e. ground arith }
