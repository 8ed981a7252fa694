-- ===== src/Generator/Visit/Targets.antt =====
-- rinja_derive/src/generator/expr.rs: `visit_target`, the code of a pattern. It puts the names that
-- the pattern binds into the innermost scope.
use rinja.Base.{Bool, false, Option, none, some, List, map, if◌then◌else◌, Bytes, codes}
use rinja.Buffer as Buffer
use rinja.Parser.Target.{
  Target, Targets, FieldTargets, name, tuple, array, struct, num_lit, str_lit, char_lit, bool_lit,
  path, or_chain, placeholder, rest, nil, cons, nil_fields, field,
}
use rinja.Parser.Keywords.{normalize_identifier}
use rinja.Generator.Scopes as Scopes
use rinja.Generator.Scopes.{LocalMeta}
use rinja.Generator.Visit.{Visit, ok, ◌>>=◌, ◌>>◌, pure, expect, write}
use rinja.Generator.Visit.Leaves.{visit_path, visit_str_lit, visit_num_lit, visit_char_lit}

-- `buf.write_separated_path`
unfoldable pub write_separated_path : List Bytes → Visit (Unit {0})
write_separated_path p s = ok (tt, record s { buf = Buffer.write_separated_path p s.buf })

-- `self.locals.insert`
unfoldable pub insert : Bytes → LocalMeta → Visit (Unit {0})
unfolding expect
insert key val s =
    (do
      locals ← expect (Scopes.insert key val s.locals)
      λ t. ok (tt, record t { locals = locals }))
      s

-- `&` in front of a literal at the first level.
unfoldable pub borrow : Bool → Visit (Unit {0})
unfolding write
borrow first_level = if first_level then write (codes "&") else pure tt

unfoldable pub visit_rest : Option Bytes → Visit (Unit {0})
unfolding write insert
visit_rest none = write (codes "..")
visit_rest (some var_name) = do
  insert var_name Scopes.initialized
  write var_name
  write (codes " @ ")
  write (codes "..")

unfoldable pub visit_name : Bool → Bytes → Visit (Unit {0})
unfolding write expect insert
visit_name initialized s = do
  s ← expect (normalize_identifier s)
  insert s (if initialized then Scopes.initialized else Scopes.default)
  write s

-- `visit_each` is the loop over the elements of a tuple or an array, `visit_or` that over the
-- further targets of a chain, and `visit_fields` that over the fields of a struct.
unfoldable mutual
  unfolding write expect write_separated_path borrow visit_rest visit_name

  pub visit_target : Bool → Bool → Target → Visit (Unit {0})
  visit_target initialized first_level placeholder = write (codes "_")
  visit_target initialized first_level (rest none) = visit_rest none
  visit_target initialized first_level (rest (some s)) = visit_rest (some (codes s))
  visit_target initialized first_level (name s) = visit_name initialized (codes s)
  visit_target initialized first_level (or_chain nil) = write (codes "_")
  visit_target initialized first_level (or_chain (cons t targets)) = do
    visit_target initialized first_level t
    visit_or initialized first_level targets
  visit_target initialized first_level (tuple p targets) = do
    write_separated_path (map codes p)
    write (codes "(")
    visit_each initialized targets
    write (codes ")")
  visit_target initialized first_level (array p targets) = do
    write_separated_path (map codes p)
    write (codes "[")
    visit_each initialized targets
    write (codes "]")
  visit_target initialized first_level (struct p targets) = do
    write_separated_path (map codes p)
    write (codes "{")
    visit_fields initialized targets
    write (codes "}")
  visit_target initialized first_level (path p) = do visit_path (map codes p); write (codes "{}")
  visit_target initialized first_level (str_lit s) = do borrow first_level; visit_str_lit s; pure tt
  visit_target initialized first_level (num_lit s n) = do
    borrow first_level
    visit_num_lit (codes s)
    pure tt
  visit_target initialized first_level (char_lit c) = do
    borrow first_level
    visit_char_lit c
    pure tt
  visit_target initialized first_level (bool_lit s) = do borrow first_level; write (codes s)

  pub visit_or : Bool → Bool → Targets → Visit (Unit {0})
  visit_or initialized first_level nil = pure tt
  visit_or initialized first_level (cons t targets) = do
    write (codes "|")
    visit_target initialized first_level t
    visit_or initialized first_level targets

  pub visit_each : Bool → Targets → Visit (Unit {0})
  visit_each initialized nil = pure tt
  visit_each initialized (cons t targets) = do
    visit_target initialized false t
    write (codes ",")
    visit_each initialized targets

  pub visit_fields : Bool → FieldTargets → Visit (Unit {0})
  visit_fields initialized nil_fields = pure tt
  visit_fields initialized (field s (rest r) targets) = do
    write (codes "..")
    visit_fields initialized targets
  visit_fields initialized (field s t targets) = do
    s ← expect (normalize_identifier (codes s))
    write s
    write (codes ": ")
    visit_target initialized false t
    write (codes ",")
    visit_fields initialized targets
