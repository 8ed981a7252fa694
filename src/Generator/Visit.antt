-- ===== src/Generator/Visit.antt =====
-- rinja_derive/src/generator/expr.rs: the visitors of expressions, as functions on the code that
-- is generated and the variables in scope. A visitor returns, refuses the template, or panics; the
-- division of a concatenation runs on fuel.
pub mod Escape
pub mod Leaves
pub mod Targets
pub mod Arguments
pub mod Filters
pub mod Parts
pub mod Exprs
pub mod Balance
pub mod Wrapping
pub mod Bindings
pub mod Operators
pub mod Formats
use rinja.Base.{
  ℕ, Bool, Option, none, some, List, Bytes, String, Outcome, ok, err, running, if◌then◌else◌,
}
use rinja.Buffer as Buffer
use rinja.Buffer.{Buffer, Memchr3Iter}
use rinja.Parser.Expr.{IntKind, FloatKind}
use rinja.Generator.Scopes.{MapChain}

-- What `generate_error` is called with.
pub data VisitError : Type 0 where
  unknown_loop_variable : VisitError
  unknown_loop_method : String → VisitError
  empty_cycle : VisitError
  feature_required : String → VisitError
  unexpected_arguments : String → VisitError
  too_many_escape_arguments : VisitError
  invalid_escaper_prefix : VisitError
  invalid_escaper_type : VisitError
  invalid_escaper : String → VisitError
  format_usage : VisitError
  fmt_usage : VisitError
  literal_assigned : VisitError

pub data Failure : Type 0 where
  error : VisitError → Failure
  panic : Failure

-- The two arguments that the visitors change: `self.locals` and `buf`.
pub record Visiting : Type 0 where
  pub buf : Buffer
  pub locals : MapChain

abbrev pub Visit : Type 0 → Type 0
Visit A = Visiting → Outcome Failure (A × Visiting)

infixl 5 ◌>>=◌ ◌>>◌
abbrev pub ◌>>=◌ : {A B : Type 0} → Visit A → (A → Visit B) → Visit B
◌>>=◌ m f s = elim (m s) [ ok (a, t) ↦ f a t | err e ↦ err e | running ↦ running ]

abbrev pub ◌>>◌ : {A B : Type 0} → Visit A → Visit B → Visit B
m >> k = m >>= λ _. k

abbrev pub pure : {A : Type 0} → A → Visit A
pure a s = ok (a, s)

abbrev pub refuse : {A : Type 0} → VisitError → Visit A
refuse e s = err (error e)

-- A panic where there is no value.
unfoldable pub expect : {A : Type 0} → Option A → Visit A
expect none s = err panic
expect (some a) s = ok (a, s)

-- `buf.write`, and `buf.write_escaped_str`
unfoldable pub write : Bytes → Visit (Unit {0})
write src s = ok (tt, record s { buf = Buffer.write src s.buf })

unfoldable pub write_escaped_str : Memchr3Iter → Bytes → Visit (Unit {0})
write_escaped_str memchr3_iter text s = elim (Buffer.write_escaped_str memchr3_iter text s.buf) [
  | none ↦ err panic
  | some buf ↦ ok (tt, record s { buf = buf })
]

-- An integer: its sign, `true` below 0, and its magnitude.
abbrev pub Signed : Type 0
Signed = Bool × ℕ

-- What the visitors ask of the template and its configuration, of the features that the crate was
-- built with, and of the crates and types that they call: `from_str_radix` and `to_string` of the
-- integers, the display of a parsed float, and the value of a literal by the crate syn.
pub record Input : Type 0 where
  pub escaper : Bytes
  pub escapers : List (List Bytes × Bytes)
  pub fields : List Bytes
  pub alloc : Bool
  pub urlencode : Bool
  pub serde_json : Bool
  pub from_str_radix : IntKind → Bytes → Option Signed
  pub int_to_string : Signed → Bytes
  pub float_to_string : FloatKind → Bytes → Option Bytes
  pub lit_str : Bytes → Option Bytes
  pub lit_char : Bytes → Option Bytes
  pub memchr3_iter : Memchr3Iter
