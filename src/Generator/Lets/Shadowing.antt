-- ===== src/Generator/Lets/Shadowing.antt =====
-- `is_shadowing_variable` of rinja_derive/src/generator/node.rs against the variables that a pattern
-- binds, and the steps of an assignment.
use rinja.Base.{
  ℕ, Bool, true, false, Option, none, some, List, [], ◌∷◌, ◌++◌, ◌≡◌, sym, ap, ◌∙◌, refl, arith,
  Bytes, codes, bytes_eq, bytes_eq-≡, Option-cases, Bool-cases, inl, inr, Outcome, ok, err, running,
  ◌>>=◌,
}
use rinja.Parser.Target.{
  Target, Targets, FieldTargets, name, tuple, array, struct, num_lit, str_lit, char_lit, bool_lit,
  path, or_chain, placeholder, rest, nil, cons, nil_fields, field,
}
use rinja.Parser.Keywords.{normalize_identifier}
use rinja.Parser.Keywords.Raw.{normalize_identifier-twice}
use rinja.Parser.Node.{TargetExpr}
use rinja.Generator.Scopes as Scopes
use rinja.Generator.Scopes.{LocalMeta, MapChain, get, resolve, initialized}
use rinja.Generator.Scopes.Laws.{insert_all}
use rinja.Generator.Visit.{Failure, Input, Visiting}
use rinja.Generator.Visit.Targets.{visit_target}
use rinja.Generator.Visit.Bindings.{in_rust, bindings, bindings_of, bindings_of_fields}
use rinja.Generator.Visit.Bindings.Names.{visit_target-bindings, get-inserted, rust_name}
use rinja.Generator.Lets.{
  is_initialized, shadows_name, or_later, is_shadowing_variable, any_shadows, any_field_shadows,
  declares, declare, flush_if, write_buffered, Writing, answer, emit, flush, write_assignment,
}

abbrev pub Apart : Bytes → List (Bytes × LocalMeta) → Type 0
Apart n [] = Unit
Apart n ((k, meta) ∷ es) = (bytes_eq n k ≡ false) × Apart n es

Apart-append :
    (n : Bytes) (es ds : List (Bytes × LocalMeta)) → Apart n es → Apart n ds → Apart n (es ++ ds)
Apart-append n [] ds h k = k
Apart-append n ((key, meta) ∷ es) ds (differs, h) k = (differs, Apart-append n es ds h k)

pub get-insert_all :
    (n : Bytes) (es : List (Bytes × LocalMeta)) (scopes new : MapChain)
    → Apart n es
    → insert_all es scopes ≡ some new
    → get n new ≡ get n scopes
unfolding insert_all
get-insert_all n [] scopes new apart h = ground arith
get-insert_all n ((key, val) ∷ es) scopes new (differs, apart) h =
    elim (Option-cases (Scopes.insert key val scopes)) [
      | inl stuck ↦ absurd (ground arith)
      | inr (next, is) ↦
          get-insert_all n es next new apart (rw is at h)
          ∙ get-inserted key n val scopes next is differs
    ]

both_false :
    (a b : Outcome Failure Bool) → or_later a b ≡ ok false → (a ≡ ok false) × (b ≡ ok false)
both_false (ok false) b h = (refl, h)
both_false (ok true) b h = absurd (ground arith)
both_false (err e) b h = absurd (ground arith)
both_false running b h = absurd (ground arith)

pub normalized_again :
    (x n : Bytes) → normalize_identifier x ≡ some n → normalize_identifier n ≡ some n
normalized_again x n h =
    sym (ap (λ (m : Option Bytes). m >>= normalize_identifier) h) ∙ normalize_identifier-twice x ∙ h

-- `n` is a variable that is written in Rust and has a value.
module _ (locals : MapChain) (n : Bytes) (meta : LocalMeta) (raw : normalize_identifier n ≡ some n)
    (known : get n locals ≡ some meta) (ready : meta.initialized ≡ true) where
  not_the_name :
      (s k : Bytes)
      → normalize_identifier s ≡ some k
      → shadows_name locals s ≡ ok false
      → bytes_eq n k ≡ false
  unfolding shadows_name is_initialized
  not_the_name s k is h = elim (Bool-cases (bytes_eq n k)) [
    | inl same ↦ absurd (ground (arith, bytes_eq-≡ n k same))
    | inr differs ↦ differs
  ]

  name-Apart : (s : Bytes) → shadows_name locals s ≡ ok false → bytes_eq n (in_rust s) ≡ false
  name-Apart s h = elim (Option-cases (normalize_identifier s)) [
    | inl stuck ↦ absurd (unfold shadows_name in ground arith)
    | inr (k, is) ↦ rw (rust_name s k is) (not_the_name s k is h)
  ]

  rest-Apart : (s : Bytes) → shadows_name locals s ≡ ok false → bytes_eq n s ≡ false
  rest-Apart s h = elim (Bool-cases (bytes_eq n s)) [
    | inl same ↦ not_the_name s s (rw (sym (bytes_eq-≡ n s same)) raw) h
    | inr differs ↦ differs
  ]

  mutual
    unfolding is_shadowing_variable any_shadows any_field_shadows bindings bindings_of
        bindings_of_fields

    pub bindings-Apart :
        (t : Target) → is_shadowing_variable locals t ≡ ok false → Apart n (bindings true t)
    bindings-Apart placeholder h = tt
    bindings-Apart (rest none) h = tt
    bindings-Apart (rest (some s)) h = (rest-Apart (codes s) h, tt)
    bindings-Apart (name s) h = (name-Apart (codes s) h, tt)
    bindings-Apart (tuple p targets) h = each-Apart targets h
    bindings-Apart (struct p targets) h = fields-Apart targets h
    bindings-Apart (or_chain targets) h = absurd (ground arith)
    bindings-Apart (array p targets) h = absurd (ground arith)
    bindings-Apart (path p) h = tt
    bindings-Apart (str_lit s) h = tt
    bindings-Apart (num_lit s k) h = tt
    bindings-Apart (char_lit c) h = tt
    bindings-Apart (bool_lit s) h = tt

    each-Apart : (ts : Targets) → any_shadows locals ts ≡ ok false → Apart n (bindings_of true ts)
    each-Apart nil h = tt
    each-Apart (cons t ts) h =
        let (first, others) =
          both_false (is_shadowing_variable locals t) (any_shadows locals ts) h in
        Apart-append n (bindings true t) (bindings_of true ts) (bindings-Apart t first)
          (each-Apart ts others)

    fields-Apart :
        (ts : FieldTargets)
        → any_field_shadows locals ts ≡ ok false
        → Apart n (bindings_of_fields true ts)
    fields-Apart nil_fields h = tt
    fields-Apart (field s (rest r) ts) h =
        fields-Apart ts
          ((both_false (is_shadowing_variable locals (rest r)) (any_field_shadows locals ts) h).1)
    fields-Apart (field s t ts) h =
        let (first, others) =
          both_false (is_shadowing_variable locals t) (any_field_shadows locals ts) h in
        Apart-append n (bindings true t) (bindings_of_fields true ts) (bindings-Apart t first)
          (fields-Apart ts others)

pub answer_lem : {A : Type 0} (r : Outcome Failure A) (a : A) → answer r ≡ some a → r ≡ ok a
answer_lem (ok b) a h = ground arith
answer_lem (err e) a h = absurd (ground arith)
answer_lem running a h = absurd (ground arith)

pub some-injective : {A : Type 0} {a b : A} → some a ≡ some b → a ≡ b
some-injective {a = a} h = ap (λ o. elim o [ none ↦ a | some c ↦ c ]) h

pub pattern_lem :
    (ready : Bool) (var : Target) (s : Visiting) (r : Unit {0} × Visiting)
    → answer (visit_target ready true var s) ≡ some r
    → insert_all (bindings ready var) s.locals ≡ some r.1.locals
pattern_lem ready var s (tt, u) h =
    visit_target-bindings ready true var s u (answer_lem (visit_target ready true var s) (tt, u) h)

pub declare_lem :
    (shadowed : Bool) (var : Target) (s : Visiting) → (declare shadowed var s).locals ≡ s.locals
unfolding declare emit
declare_lem shadowed var s = elim (Bool-cases (declares s.locals shadowed var)) [
  | inl on ↦ rw on refl
  | inr off ↦ rw off refl
]

module _ (input : Input) (to_string : ℕ → Bytes) where
  pub flush_lem :
      (w v : Writing)
      → flush input to_string w ≡ some v
      → (v.generator.buf ≡ []) × (v.visiting.locals ≡ w.visiting.locals)
  unfolding flush
  flush_lem w v h = elim (Option-cases (write_buffered input to_string w)) [
    | inl stuck ↦ absurd (ground arith)
    | inr (r, is) ↦
        let made = sym (some-injective (rw is at h)) in
        (ap (λ u. u.generator.buf) made, ap (λ u. u.visiting.locals) made)
  ]

  pub write_assignment-cases :
      (var : Target) (val : TargetExpr) (code : Bytes) (shadowed : Bool) (w w' : Writing)
      → write_assignment input to_string var val code shadowed w ≡ some w'
      → (v : Writing) × (flush_if input to_string shadowed w ≡ some v)
        × (w'.generator ≡ v.generator)
        × (insert_all (bindings true var) v.visiting.locals ≡ some w'.visiting.locals)
  unfolding write_assignment emit
  write_assignment-cases var val code shadowed w w' h =
      elim (Option-cases (flush_if input to_string shadowed w)) [
        | inl stuck ↦ absurd (ground arith)
        | inr (v, flushed) ↦
            let start = declare shadowed var v.visiting in
            elim (Option-cases (answer (visit_target true true var start))) [
              | inl stuck ↦ absurd (ground arith)
              | inr (r, visited) ↦
                  let made = sym (some-injective (rw visited at (rw flushed at h))) in
                  let inserted = pattern_lem true var start r visited in
                  (
                    v,
                    flushed,
                    ap (λ u. u.generator) made,
                    rw (ap (λ u. u.visiting.locals) made)
                        (rw (declare_lem shadowed var v.visiting) at inserted),
                  )
            ]
      ]
