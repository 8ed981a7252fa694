-- ===== src/Generator/Visit/Bindings/Names.antt =====
-- rinja_derive/src/generator/expr.rs: `visit_target` inserts the names of the pattern.
use rinja.Base.{
  ℕ, ◌+◌, ltb, Bool, true, false, Option, none, some, List, [], ◌∷◌, ◌++◌, ◌≡◌, arith, map,
  if◌then◌else◌, Bytes, codes, bytes_eq, Option-cases, inl, inr, ok,
}
use rinja.Parser.Target.{
  Target, Targets, FieldTargets, name, tuple, array, struct, num_lit, str_lit, char_lit, bool_lit,
  path, or_chain, placeholder, rest, nil, cons, nil_fields, field,
}
use rinja.Parser.Expr.{StrPrefix, StrLit, CharPrefix, CharLit}
use rinja.Generator.Writables.{unwrapped}
use rinja.Parser.Keywords.{normalize_identifier}
use rinja.Generator.Scopes as Scopes
use rinja.Generator.Scopes.{LocalMeta, MapChain, get, resolve, initialized, default}
use rinja.Generator.Scopes.Laws.{insert_all, get-insert}
use rinja.Generator.Visit.{Visit, Visiting, pure, expect}
use rinja.Generator.Visit.Leaves.{
  write_path, visit_path, visit_str_lit, visit_num_lit, visit_char_lit, write_prefix,
  write_char_prefix, to_char,
}
use rinja.Generator.Visit.Targets.{
  write_separated_path, insert, borrow, visit_rest, visit_name, visit_target, visit_or, visit_each,
  visit_fields,
}
use rinja.Generator.Visit.Bindings.{
  in_rust, bindings, bindings_of, bindings_of_fields, Binds, ◌before◌, then_nothing, writing,
  nothing,
}

inserting : (key : Bytes) (val : LocalMeta) → Binds ((key, val) ∷ []) (insert key val)
unfolding insert expect insert_all
inserting key val = record {
  binds = λ s a t e. elim (Option-cases (Scopes.insert key val s.locals)) [
    | inl stuck ↦ ground arith
    | inr (new, is) ↦ ground arith
  ];
}

pub rust_name : (s n : Bytes) → normalize_identifier s ≡ some n → in_rust s ≡ n
unfolding in_rust
rust_name s n is = rw (is, in_rust)

pub name-Binds :
    (ready : Bool) (s : Bytes)
    → Binds ((in_rust s, (if ready then initialized else default)) ∷ []) (visit_name ready s)
unfolding visit_name expect
name-Binds ready s = elim (Option-cases (normalize_identifier s)) [
  | inl stuck ↦ record { binds = λ st a u e. absurd (ground arith) }
  | inr (n, is) ↦
      rw (rust_name s n is, is)
        (then_nothing (inserting n (if ready then initialized else default)) λ _. writing n)
]

rest-Binds : (s : Bytes) → Binds ((s, initialized) ∷ []) (visit_rest (some s))
unfolding visit_rest
rest-Binds s = then_nothing (inserting s initialized) λ _.
    then_nothing (writing s) λ _. then_nothing (writing (codes " @ ")) λ _. writing (codes "..")

path-Binds : (p : List Bytes) → Binds [] (write_separated_path p)
unfolding write_separated_path insert_all
path-Binds p = record { binds = λ s a t e. ground arith }

borrow-Binds : (first_level : Bool) → Binds [] (borrow first_level)
unfolding borrow
borrow-Binds true = writing (codes "&")
borrow-Binds false = nothing tt

when-Binds : (b : Bool) {m : Visit (Unit {0})} → Binds [] m → Binds [] (if b then m else pure tt)
when-Binds true h = h
when-Binds false h = nothing tt

prefix-Binds : (o : Option StrPrefix) → Binds [] (write_prefix o)
unfolding write_prefix
prefix-Binds none = nothing tt
prefix-Binds (some prefix) = writing (to_char prefix)

char_prefix-Binds : (o : Option CharPrefix) → Binds [] (write_char_prefix o)
unfolding write_char_prefix
char_prefix-Binds none = nothing tt
char_prefix-Binds (some CharPrefix.binary) = writing (codes "b")

expecting : {A : Type 0} (o : Option A) → Binds [] (expect o)
unfolding expect insert_all
expecting none = record { binds = λ s a t e. absurd (ground arith) }
expecting (some b) = nothing b

write_path-Binds : (i : ℕ) (p : List Bytes) → Binds [] (write_path i p)
unfolding write_path
write_path-Binds i [] = nothing tt
write_path-Binds i (part ∷ parts) = when-Binds (ltb 0 i) (writing (codes "::")) before λ _.
    writing part before λ _. write_path-Binds (i + 1) parts

str-Binds : (s : StrLit) → Binds [] (visit_str_lit s)
unfolding visit_str_lit
str-Binds s = prefix-Binds s.prefix before λ _.
    (writing (codes "\"" ++ (codes s.content ++ codes "\"")) before λ _. nothing unwrapped)

char-Binds : (c : CharLit) → Binds [] (visit_char_lit c)
unfolding visit_char_lit
char-Binds c = char_prefix-Binds c.prefix before λ _.
    (writing (codes "'" ++ (codes c.content ++ codes "'")) before λ _. nothing unwrapped)

mutual
  unfolding visit_target visit_or visit_each visit_fields bindings bindings_of bindings_of_fields
      visit_rest visit_path visit_num_lit

  target-Binds :
      (ready first_level : Bool) (t : Target)
      → Binds (bindings ready t) (visit_target ready first_level t)
  target-Binds ready first_level placeholder = writing (codes "_")
  target-Binds ready first_level (rest none) = writing (codes "..")
  target-Binds ready first_level (rest (some s)) = rest-Binds (codes s)
  target-Binds ready first_level (name s) = name-Binds ready (codes s)
  target-Binds ready first_level (or_chain nil) = writing (codes "_")
  target-Binds ready first_level (or_chain (cons t targets)) =
      target-Binds ready first_level t before λ _. or-Binds ready first_level targets
  target-Binds ready first_level (tuple p targets) = path-Binds (map codes p) before λ _.
      writing (codes "(") before λ _.
      then_nothing (each-Binds ready targets) λ _. writing (codes ")")
  target-Binds ready first_level (array p targets) = path-Binds (map codes p) before λ _.
      writing (codes "[") before λ _.
      then_nothing (each-Binds ready targets) λ _. writing (codes "]")
  target-Binds ready first_level (struct p targets) = path-Binds (map codes p) before λ _.
      writing (codes "{") before λ _.
      then_nothing (fields-Binds ready targets) λ _. writing (codes "}")
  target-Binds ready first_level (path p) =
      (write_path-Binds 0 (map codes p) before λ _. nothing unwrapped) before λ _.
      writing (codes "{}")
  target-Binds ready first_level (str_lit s) =
      borrow-Binds first_level before λ _. (str-Binds s before λ _. nothing tt)
  target-Binds ready first_level (num_lit s n) = borrow-Binds first_level before λ _.
      ((writing (codes s) before λ _. nothing unwrapped) before λ _. nothing tt)
  target-Binds ready first_level (char_lit c) =
      borrow-Binds first_level before λ _. (char-Binds c before λ _. nothing tt)
  target-Binds ready first_level (bool_lit s) =
      borrow-Binds first_level before λ _. writing (codes s)

  or-Binds :
      (ready first_level : Bool) (targets : Targets)
      → Binds (bindings_of ready targets) (visit_or ready first_level targets)
  or-Binds ready first_level nil = nothing tt
  or-Binds ready first_level (cons t targets) = writing (codes "|") before λ _.
      target-Binds ready first_level t before λ _. or-Binds ready first_level targets

  each-Binds :
      (ready : Bool) (targets : Targets)
      → Binds (bindings_of ready targets) (visit_each ready targets)
  each-Binds ready nil = nothing tt
  each-Binds ready (cons t targets) = target-Binds ready false t before λ _.
      writing (codes ",") before λ _. each-Binds ready targets

  fields-Binds :
      (ready : Bool) (targets : FieldTargets)
      → Binds (bindings_of_fields ready targets) (visit_fields ready targets)
  fields-Binds ready nil_fields = nothing tt
  fields-Binds ready (field s (rest r) targets) =
      writing (codes "..") before λ _. fields-Binds ready targets
  fields-Binds ready (field s t targets) = expecting (normalize_identifier (codes s)) before λ n.
      writing n before λ _. writing (codes ": ") before λ _. target-Binds ready false t before λ _.
      writing (codes ",") before λ _. fields-Binds ready targets

-- For every pattern and state: where the visitor returns, the variables in scope are those from
-- before with the names that the pattern binds inserted, from the left to the right.
pub visit_target-bindings :
    (ready first_level : Bool) (t : Target) (s u : Visiting)
    → visit_target ready first_level t s ≡ ok (tt, u)
    → insert_all (bindings ready t) s.locals ≡ some u.locals
visit_target-bindings ready first_level t s u h = (target-Binds ready first_level t).binds s tt u h

pub get-inserted :
    (key k : Bytes) (val : LocalMeta) (scopes new : MapChain)
    → Scopes.insert key val scopes ≡ some new
    → bytes_eq k key ≡ false
    → get k new ≡ get k scopes
unfolding Scopes.insert
get-inserted key k val [] new h differs = absurd (ground arith)
get-inserted key k val (set ∷ scopes) new h differs =
    cc (rw differs at (get-insert key k val set scopes))

pub single :
    (key : Bytes) (val : LocalMeta) (scopes new : MapChain)
    → insert_all ((key, val) ∷ []) scopes ≡ some new
    → Scopes.insert key val scopes ≡ some new
unfolding insert_all
single key val scopes new h = elim (Option-cases (Scopes.insert key val scopes)) [
  | inl stuck ↦ absurd (ground arith)
  | inr (known, e) ↦ ground arith
]

-- Where the name of `name @ ..` is written differently in Rust, as a keyword is: the pattern binds
-- it, and yet the name resolves to what it did before.
pub visit_rest-resolve :
    (s : Bytes) (n : Bytes) (st u : Visiting)
    → normalize_identifier s ≡ some n
    → bytes_eq n s ≡ false
    → visit_rest (some s) st ≡ ok (tt, u)
    → resolve s u.locals ≡ resolve s st.locals
unfolding resolve
visit_rest-resolve s n st u is differs h =
    let inserted = single s initialized st.locals u.locals ((rest-Binds s).binds st tt u h) in
    rw (is, get-inserted s n initialized st.locals u.locals inserted differs)
