-- ===== src/Generator/Visit/Balance/Targets.antt =====
-- rinja_derive/src/generator/expr.rs: the code of a pattern is closed, where its names and literals
-- are.
use rinja.Base.{
  ℕ, ◌+◌, Bool, true, false, Option, none, some, List, [], ◌∷◌, ◌++◌, ◌≡◌, refl, arith, map,
  if◌then◌else◌, Bytes, codes, ltb, All, drop, is_empty, append_assoc, append-nil, bytes_eq,
  Bool-cases, inl, inr,
}
use rinja.Buffer as Buffer
use rinja.Parser.Target.{
  Target, Targets, FieldTargets, name, tuple, array, struct, num_lit, str_lit, char_lit, bool_lit,
  path, or_chain, placeholder, rest, nil, cons, nil_fields, field,
}
use rinja.Generator.Scopes as Scopes
use rinja.Generator.Scopes.{LocalMeta, Scope, MapChain, put}
use rinja.Generator.Visit.{expect}
use rinja.Generator.Visit.Targets.{write_separated_path, insert, borrow, visit_rest, visit_name}
use rinja.Generator.Visit.Balance.{Moves, IsClosed, scan, moves}
use rinja.Generator.Visit.Balance.Rules.{
  EntryIsClosed, RefIsClosed, Writes, bind, ◌before◌, write_lem, when_lem,
}
use rinja.Generator.Visit.Balance.Leaves.{StrIsClosed, CharIsClosed, normal-Emits}

-- The texts of a pattern, as the parser takes them from the template.
unfoldable mutual
  pub TextsOfTarget : Target → Type 0
  TextsOfTarget placeholder = Unit
  TextsOfTarget (rest none) = Unit
  TextsOfTarget (rest (some s)) = IsClosed (codes s)
  TextsOfTarget (name s) = IsClosed (codes s)
  TextsOfTarget (or_chain targets) = TextsOfTargets targets
  TextsOfTarget (tuple p targets) = All IsClosed (map codes p) × TextsOfTargets targets
  TextsOfTarget (array p targets) = All IsClosed (map codes p) × TextsOfTargets targets
  TextsOfTarget (struct p targets) = All IsClosed (map codes p) × TextsOfFields targets
  TextsOfTarget (path p) = All IsClosed (map codes p)
  TextsOfTarget (str_lit s) = StrIsClosed s
  TextsOfTarget (num_lit s n) = IsClosed (codes s)
  TextsOfTarget (char_lit c) = CharIsClosed c
  TextsOfTarget (bool_lit s) = IsClosed (codes s)

  pub TextsOfTargets : Targets → Type 0
  TextsOfTargets nil = Unit
  TextsOfTargets (cons t targets) = TextsOfTarget t × TextsOfTargets targets

  pub TextsOfFields : FieldTargets → Type 0
  TextsOfFields nil_fields = Unit
  TextsOfFields (field s t targets) = IsClosed (codes s) × TextsOfTarget t × TextsOfFields targets

put-EntryIsClosed :
    (key : Bytes) (val : LocalMeta) (set : Scope)
    → RefIsClosed val.refs
    → All EntryIsClosed set
    → All EntryIsClosed (put key val set)
unfolding put
put-EntryIsClosed key val [] h k = (h, tt)
put-EntryIsClosed key val ((k', v) ∷ set) h (own, others) = elim (Bool-cases (bytes_eq key k')) [
  | inl same ↦ rw same (h, others)
  | inr other ↦ rw other (own, put-EntryIsClosed key val set h others)
]

inserted :
    (key : Bytes) (val : LocalMeta) (scopes : MapChain)
    → RefIsClosed val.refs
    → is_empty scopes ≡ false
    → All (All EntryIsClosed) scopes
    → (new : MapChain) × (Scopes.insert key val scopes ≡ some new)
      × (drop 1 new ≡ drop 1 scopes)
      × (is_empty new ≡ false)
      × All (All EntryIsClosed) new
unfolding Scopes.insert
inserted key val [] h scoped k = absurd (ground arith)
inserted key val (set ∷ scopes) h scoped (own, others) =
    (put key val set ∷ scopes, refl, refl, refl, (put-EntryIsClosed key val set h own, others))

insert-Writes :
    {due : List ℕ} (key : Bytes) (val : LocalMeta)
    → RefIsClosed val.refs
    → Writes due due (insert key val)
unfolding insert expect scan
insert-Writes key val h = record {
  runs = λ s ready.
      let (new, e, outer, scoped, closed) = inserted key val s.locals h ready.scoped ready.closed in
      rw e (
        tt,
        record {
          out = [];
          appended = rw append-nil;
          moved = record { scans = refl };
          outer = outer;
          ready = record { writes = ready.writes; scoped = scoped; closed = closed };
        },
      );
}

path-Moves :
    {due : List ℕ} (i : ℕ) (p : List Bytes) (buf : Bytes)
    → All IsClosed p
    → (out : Bytes) × (Buffer.push_path p i buf ≡ buf ++ out) × Moves out due due
unfolding Buffer.push_path scan
path-Moves i [] buf h = ([], rw append-nil, record { scans = refl })
path-Moves {due} i (part ∷ parts) buf (own, others) = elim (Bool-cases (ltb 0 i)) [
  | inl later ↦
      let (out, e, m) = path-Moves {due = due} (i + 1) parts ((buf ++ codes "::") ++ part) others in
      (
        codes "::" ++ (part ++ out),
        rw (later, e) (rw (append_assoc, append_assoc)),
        moves {s = codes "::"} {mid = due} record { scans = refl } (moves (own due) m),
      )
  | inr first ↦
      let (out, e, m) = path-Moves {due = due} (i + 1) parts (buf ++ part) others in
      (part ++ out, rw (first, e) (rw append_assoc), moves (own due) m)
]

pub write_separated_path-Writes :
    {due : List ℕ} (p : List Bytes) → All IsClosed p → Writes due due (write_separated_path p)
unfolding write_separated_path Buffer.write_separated_path
write_separated_path-Writes {due} p h = record {
  runs = λ s ready.
      let (out, e, m) = path-Moves {due = due} 0 p s.buf.buf h in
      rw ready.writes (
        tt,
        record {
          out = out;
          appended = e;
          moved = m;
          outer = refl;
          ready = record { writes = refl; scoped = ready.scoped; closed = ready.closed };
        },
      );
}

pub borrow-Writes : {due : List ℕ} (first_level : Bool) → Writes due due (borrow first_level)
unfolding borrow scan
borrow-Writes first_level = when_lem first_level (write_lem (codes "&") record { scans = refl })

pub visit_rest-Writes :
    {due : List ℕ} (s : Option Bytes) → RefIsClosed s → Writes due due (visit_rest s)
unfolding visit_rest scan Scopes.initialized
visit_rest-Writes none h = write_lem _ record { scans = refl }
visit_rest-Writes {due} (some s) h = insert-Writes s Scopes.initialized tt before λ _.
    write_lem s (h due) before λ _. write_lem (codes " @ ") record { scans = refl } before λ _.
    write_lem (codes "..") record { scans = refl }

fresh-RefIsClosed :
    (initialized : Bool)
    → RefIsClosed (if initialized then Scopes.initialized else Scopes.default).refs
unfolding Scopes.initialized Scopes.default
fresh-RefIsClosed true = tt
fresh-RefIsClosed false = tt

pub visit_name-Writes :
    {due : List ℕ} (initialized : Bool) (s : Bytes)
    → IsClosed s
    → Writes due due (visit_name initialized s)
unfolding visit_name
visit_name-Writes {due} initialized s h = bind (normal-Emits s h) λ normal closed.
    insert-Writes normal (if initialized then Scopes.initialized else Scopes.default)
      (fresh-RefIsClosed initialized)
    before λ _. write_lem normal (closed due)
