-- ===== src/Generator/Lets/Declared.antt =====
-- `write_let` of rinja_derive/src/generator/node.rs: which variables are assigned rather than
-- declared.
use rinja.Base.{
  ℕ, Bool, true, false, none, some, [], ◌∷◌, ◌++◌, ◌≡◌, sym, ap, ◌∙◌, refl, arith, if◌then◌else◌,
  Bytes, codes, bytes_eq, bytes_eq-≡, append_assoc, Option-cases, Bool-cases, inl, inr, Outcome, ok,
  err, running, String,
}
use rinja.Parser.Target.{name}
use rinja.Parser.Whitespace.{Ws}
use rinja.Parser.Keywords.{normalize_identifier}
use rinja.Parser.Node.{TargetExpr}
use rinja.Generator.{handle_ws}
use rinja.Generator.Writables.{DisplayWrap}
use rinja.Generator.Scopes as Scopes
use rinja.Generator.Scopes.{LocalMeta, MapChain, get, resolve, default, initialized}
use rinja.Generator.Scopes.Laws.{get-insert, bytes_eq_self}
use rinja.Buffer as Buffer
use rinja.Generator.Cacheable.{is_copyable}
use rinja.Generator.Visit.{Failure, expect, write, ◌>>◌, Input, Visiting}
use rinja.Generator.Visit.Targets.{visit_target, visit_name, insert}
use rinja.Generator.Visit.Bindings.{bindings}
use rinja.Generator.Visit.Bindings.Names.{get-inserted, single, rust_name}
use rinja.Generator.Lets.{
  is_initialized, shadows_name, is_shadowing_variable, declares, declare, borrowed_value, Writing,
  answer, emit, value_code, flush_if, write_assignment, write_let, flush,
}
use rinja.Generator.Lets.Shadowing.{flush_lem, pattern_lem, declare_lem, some-injective}

get_own :
    (key : Bytes) (val : LocalMeta) (scopes new : MapChain)
    → Scopes.insert key val scopes ≡ some new
    → get key new ≡ some val
unfolding Scopes.insert
get_own key val [] new h = absurd (ground arith)
get_own key val (set ∷ scopes) new h =
    cc (rw bytes_eq_self at (get-insert key key val set scopes), h)

-- Whether a name has no entry.
abbrev pub is_new : Bytes → MapChain → Bool
is_new s scopes = elim (get s scopes) [ none ↦ true | some meta ↦ false ]

declares_lem :
    (s : String) (n : Bytes) (scopes new : MapChain)
    → Scopes.insert n default scopes ≡ some new
    → declares new false (name s)
      ≡ (if bytes_eq (codes s) n then false else is_new (codes s) scopes)
unfolding declares
declares_lem s n scopes new h = elim (Bool-cases (bytes_eq (codes s) n)) [
  | inl same ↦
      rw (bytes_eq-≡ (codes s) n same, get_own n default scopes new h, bytes_eq_self n) refl
  | inr differs ↦ rw (get-inserted n (codes s) default scopes new h differs, differs) refl
]

default_lem :
    (s : String) (n : Bytes) (scopes : MapChain)
    → normalize_identifier (codes s) ≡ some n
    → get n scopes ≡ some default
    → shadows_name scopes (codes s) ≡ ok false
unfolding shadows_name is_initialized default
default_lem s n scopes raw found = rw (raw, found, shadows_name) refl

insert_known :
    (key : Bytes) (val meta : LocalMeta) (scopes : MapChain)
    → get key scopes ≡ some meta
    → (new : MapChain) × (Scopes.insert key val scopes ≡ some new)
unfolding get Scopes.insert
insert_known key val meta [] h = absurd (ground arith)
insert_known key val meta (set ∷ scopes) h = (Scopes.put key val set ∷ scopes, refl)

-- The code of a declaration, and what is written behind the name.
abbrev pub keyword : Bool → Bytes
keyword declared = if declared then codes "let " else []

abbrev pub assigned : TargetExpr → Bytes → Bytes
assigned val code =
    codes " = "
    ++ ((if is_copyable val then code else codes "&(" ++ (code ++ codes ")")) ++ codes ";")

insert_lem :
    (key : Bytes) (val : LocalMeta) (st : Visiting) (new : MapChain)
    → Scopes.insert key val st.locals ≡ some new
    → insert key val st ≡ ok (tt, record st { locals = new })
unfolding insert expect
insert_lem key val st new inserted = rw inserted refl

visit_name_lem :
    (s : String) (n : Bytes) (st : Visiting) (new : MapChain)
    → normalize_identifier (codes s) ≡ some n
    → Scopes.insert n initialized st.locals ≡ some new
    → visit_target true true (name s) st
      ≡ ok (tt, record { buf = Buffer.write n st.buf; locals = new })
unfolding visit_target visit_name expect write
visit_name_lem s n st new raw inserted =
    let first : visit_target true true (name s) st ≡ (insert n initialized >> write n) st =
      rw raw refl in
    first
    ∙ ap
        (λ (o : Outcome Failure (Unit {0} × Visiting)). elim o [
          | ok (a, u) ↦ write n u
          | err e ↦ err e
          | running ↦ running
        ])
        (insert_lem n initialized st new inserted)

-- What an assignment leaves.
abbrev behind : String → Bytes → Bytes → TargetExpr → MapChain → Writing → Writing
behind s n code val new w = record {
  visiting = record {
    buf =
        Buffer.write (borrowed_value val code)
          (Buffer.write n (declare false (name s) w.visiting).buf);
    locals = new;
  };
  generator = w.generator;
}

module _ (input : Input) (to_string : ℕ → Bytes) where
  declared_lem :
      (ws : Ws) (s : String) (n : Bytes) (w w' : Writing)
      → normalize_identifier (codes s) ≡ some n
      → write_let input to_string ws (name s) none w ≡ some w'
      → Scopes.insert n default w.visiting.locals ≡ some w'.visiting.locals
  unfolding write_let emit bindings
  declared_lem ws s n w w' raw h =
      let w₀ : Writing = record w { generator = handle_ws ws w.generator } in
      elim (Option-cases (flush input to_string w₀)) [
        | inl stuck ↦ absurd (ground (arith, stuck))
        | inr (v, flushed) ↦
            let s₀ = emit (codes "let ") v.visiting in
            elim (Option-cases (answer (visit_target false true (name s) s₀))) [
              | inl stuck ↦ absurd (ground (arith, rw stuck at (rw flushed at h)))
              | inr (r, visited) ↦
                  let made = sym (some-injective (rw visited at (rw flushed at h))) in
                  single n default w.visiting.locals w'.visiting.locals (
                    rw
                      (
                        rust_name (codes s) n raw,
                        ← ap (λ u. u.visiting.locals) made,
                        (flush_lem input to_string w₀ v flushed).1,
                      )
                      at (pattern_lem false (name s) s₀ r visited))
            ]
      ]

  assign_lem :
      (s : String) (n code : Bytes) (val : TargetExpr) (w : Writing) (new : MapChain)
      → normalize_identifier (codes s) ≡ some n
      → Scopes.insert n initialized w.visiting.locals ≡ some new
      → write_assignment input to_string (name s) val code false w
        ≡ some (behind s n code val new w)
  unfolding write_assignment flush_if emit
  assign_lem s n code val w new raw inserted =
      let puts : Scopes.insert n initialized (declare false (name s) w.visiting).locals ≡ some new =
        rw (declare_lem false (name s) w.visiting) inserted in
      rw (visit_name_lem s n (declare false (name s) w.visiting) new raw puts) refl

  text_lem :
      (s : String) (n code : Bytes) (val : TargetExpr) (st : Visiting)
      → st.buf.discard ≡ false
      → (Buffer.write
          (borrowed_value val code)
          (Buffer.write n (declare false (name s) st).buf)).buf
        ≡ st.buf.buf ++ (keyword (declares st.locals false (name s)) ++ (n ++ assigned val code))
  unfolding Buffer.write borrowed_value declare emit
  text_lem s n code val st keeps = elim (Bool-cases (declares st.locals false (name s))) [
    | inl on ↦ elim (Bool-cases (is_copyable val)) [
      | inl plain ↦ rw (on, keeps, plain) (simp append_assoc)
      | inr refers ↦ rw (on, keeps, refers) (simp append_assoc)
    ]
    | inr off ↦ elim (Bool-cases (is_copyable val)) [
      | inl plain ↦ rw (off, keeps, plain) (simp append_assoc)
      | inr refers ↦ rw (off, keeps, refers) (simp append_assoc)
    ]
  ]

  -- For `let s;` that returns, where the code is not dropped, and a second `let s = …` whose value
  -- has code and brings no variable into scope: the second one returns. It assigns the variable of
  -- the first one, without `let`, if the name is written in Rust as in the template; otherwise it
  -- declares another variable, by `let`, unless the name as it stands has an entry of its own.
  -- Behind it the name has a value.
  pub write_let-declares :
      (ws₁ ws₂ : Ws) (s : String) (n code : Bytes) (wrap : DisplayWrap) (val : TargetExpr)
      (w w' : Writing)
      → normalize_identifier (codes s) ≡ some n
      → write_let input to_string ws₁ (name s) none w ≡ some w'
      → w'.visiting.buf.discard ≡ false
      → value_code input to_string val w'.visiting ≡ some ((wrap, code), w'.visiting)
      → (u : Writing) × (write_let input to_string ws₂ (name s) (some val) w' ≡ some u)
        × (u.visiting.buf.buf
            ≡ w'.visiting.buf.buf
              ++ (keyword
                    (if bytes_eq (codes s) n then false else is_new (codes s) w.visiting.locals)
                  ++ (n ++ assigned val code)))
        × (get n u.visiting.locals ≡ some initialized)
  unfolding write_let is_shadowing_variable
  write_let-declares ws₁ ws₂ s n code wrap val w w' raw h keeps valued =
      let inserted = declared_lem ws₁ s n w w' raw h in
      let own = get_own n default w.visiting.locals w'.visiting.locals inserted in
      let calm = default_lem s n w'.visiting.locals raw own in
      let (new, puts) = insert_known n initialized default w'.visiting.locals own in
      let w₂ : Writing = record w' { generator = handle_ws ws₂ w'.generator } in
      let made = assign_lem s n code val w₂ new raw puts in
      (
        behind s n code val new w₂,
        rw (valued, calm) made,
        text_lem s n code val w'.visiting keeps
            ∙ ap (λ b. w'.visiting.buf.buf ++ (keyword b ++ (n ++ assigned val code)))
                (declares_lem s n w.visiting.locals w'.visiting.locals inserted),
        get_own n initialized w'.visiting.locals new puts,
      )
