-- ===== src/Generator/Lets.antt =====
-- rinja_derive/src/generator/node.rs: `write_let`, the code of `{% let %}`, with
-- `is_shadowing_variable`, which decides whether what is buffered is written before the variable.
-- Expressions that are buffered hold no `let` (rinja_parser/src/node.rs makes one in the condition
-- of an `if` only), so that their visitor leaves the variables in scope as they are.
pub mod Shadowing
pub mod Kept
pub mod Declared
use rinja.Base.{
  ℕ, Bool, true, false, not, ◌||◌, Option, none, some, [], ◌++◌, if◌then◌else◌, Bytes, codes,
  Outcome, ok, err, running, ◌>>=◌,
}
use rinja.Buffer as Buffer
use rinja.Parser.Whitespace.{Ws}
use rinja.Parser.Target.{
  Target, Targets, FieldTargets, name, tuple, struct, placeholder, rest, nil, cons, nil_fields,
  field,
}
use rinja.Parser.Keywords.{normalize_identifier}
use rinja.Parser.Node.{TargetExpr}
use rinja.Generator.{Generator, handle_ws}
use rinja.Generator.Scopes.{LocalMeta, MapChain, get}
use rinja.Generator.Cacheable.{is_copyable}
use rinja.Generator.Writables.{DisplayWrap, write_buf_writable}
use rinja.Generator.Visit.{Failure, Visiting, Input, literal_assigned, error, panic}
use rinja.Generator.Visit.Targets.{visit_target}
use rinja.Generator.Visit.Exprs.{visit_expr}

-- The `match` on the variable that is found.
unfoldable pub is_initialized : Option LocalMeta → Bool
is_initialized none = false
is_initialized (some meta) = meta.initialized

unfoldable pub shadows_name : MapChain → Bytes → Outcome Failure Bool
unfolding is_initialized
shadows_name locals s = elim (normalize_identifier s) [
  | none ↦ err panic
  | some n ↦ ok (is_initialized (get n locals))
]

-- `Ok(false) => continue`, and any other outcome is returned.
abbrev pub or_later : Outcome Failure Bool → Outcome Failure Bool → Outcome Failure Bool
or_later (ok false) k = k
or_later outcome k = outcome

-- `any_shadows` is the loop over the elements of a tuple, `any_field_shadows` that over the fields
-- of a struct.
unfoldable mutual
  unfolding shadows_name

  pub is_shadowing_variable : MapChain → Target → Outcome Failure Bool
  is_shadowing_variable locals (name s) = shadows_name locals (codes s)
  is_shadowing_variable locals placeholder = ok false
  is_shadowing_variable locals (rest none) = ok false
  is_shadowing_variable locals (rest (some s)) = shadows_name locals (codes s)
  is_shadowing_variable locals (tuple p targets) = any_shadows locals targets
  is_shadowing_variable locals (struct p targets) = any_field_shadows locals targets
  is_shadowing_variable locals _ = err (error literal_assigned)

  pub any_shadows : MapChain → Targets → Outcome Failure Bool
  any_shadows locals nil = ok false
  any_shadows locals (cons t targets) =
      or_later (is_shadowing_variable locals t) (any_shadows locals targets)

  pub any_field_shadows : MapChain → FieldTargets → Outcome Failure Bool
  any_field_shadows locals nil_fields = ok false
  any_field_shadows locals (field s t targets) =
      or_later (is_shadowing_variable locals t) (any_field_shadows locals targets)

-- The condition of `let `; a name is looked up as it stands in the template.
unfoldable pub declares : MapChain → Bool → Target → Bool
declares locals shadowed (name s) =
    shadowed || elim (get (codes s) locals) [ none ↦ true | some meta ↦ false ]
declares locals shadowed t = true

-- The arguments and the fields of the generator that `write_let` changes.
pub record Writing : Type 0 where
  pub visiting : Visiting
  pub generator : Generator TargetExpr

abbrev pub answer : {A : Type 0} → Outcome Failure A → Option A
answer (ok a) = some a
answer (err e) = none
answer running = none

unfoldable pub emit : Bytes → Visiting → Visiting
emit src s = record s { buf = Buffer.write src s.buf }

unfoldable pub declare : Bool → Target → Visiting → Visiting
unfolding declares emit
declare shadowed var s = if declares s.locals shadowed var then emit (codes "let ") s else s

-- `before` and `after`
unfoldable pub borrowed_value : TargetExpr → Bytes → Bytes
borrowed_value val code =
    if is_copyable val
    then codes " = " ++ (code ++ codes ";")
    else codes " = &(" ++ (code ++ codes ");")

module _ (input : Input) (to_string : ℕ → Bytes) where
  -- `visit_expr` on a new buffer.
  unfoldable pub value_code : TargetExpr → Visiting → Option ((DisplayWrap × Bytes) × Visiting)
  value_code e s = do
    r ← answer (visit_expr input e (record s { buf = Buffer.new }))
    some ((r.0, r.1.buf.buf), record r.1 { buf = s.buf })

  -- `self.write_buf_writable(ctx, buf)?`; a `none` is an error or a panic, here and below.
  unfoldable pub write_buffered : Writing → Option (Buffer.Buffer × ℕ)
  unfolding value_code
  write_buffered w =
      write_buf_writable (λ e. do r ← value_code e w.visiting; some (r.0)) input.escaper to_string
        input.memchr3_iter w.generator.buf w.visiting.buf

  unfoldable pub flush : Writing → Option Writing
  unfolding write_buffered
  flush w = do
    r ← write_buffered w
    some record {
      visiting = record w.visiting { buf = r.0 };
      generator = record w.generator { buf = [] };
    }

  -- What follows once it is known whether a variable is shadowed.
  unfoldable pub flush_if : Bool → Writing → Option Writing
  unfolding flush
  flush_if shadowed w = if shadowed then flush w else some w

  unfoldable pub write_assignment : Target → TargetExpr → Bytes → Bool → Writing → Option Writing
  unfolding flush_if declare emit borrowed_value
  write_assignment var val code shadowed w = do
    w ← flush_if shadowed w
    r ← answer (visit_target true true var (declare shadowed var w.visiting))
    some (record w { visiting = emit (borrowed_value val code) (r.1) })

  unfoldable pub write_let : Ws → Target → Option TargetExpr → Writing → Option Writing
  unfolding flush emit value_code write_assignment is_shadowing_variable
  write_let ws var none w = do
    w ← flush (record w { generator = handle_ws ws w.generator })
    r ← answer (visit_target false true var (emit (codes "let ") w.visiting))
    some (record w { visiting = emit (codes ";") (r.1) })
  write_let ws var (some val) w = do
    r ← value_code val w.visiting
    shadowed ← answer (is_shadowing_variable r.1.locals var)
    write_assignment var val (r.0.1) shadowed
        (record { visiting = r.1; generator = handle_ws ws w.generator })
