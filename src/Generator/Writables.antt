-- ===== src/Generator/Writables.antt =====
-- rinja_derive/src/generator/node.rs: `write_buf_writable`, which turns the buffered literals and
-- expressions into one `match` whose arguments are the expressions. `visit_expr` is the visitor of
-- rinja_derive/src/generator/expr.rs, `escaper` the path of the escaper of the template,
-- `to_string` the standard library's display of a `usize`. A `none` is an error or a panic.
pub mod Plan
pub mod Binding
pub mod Arguments
pub mod Pieces
pub mod Loop
pub mod Evaluation
use rinja.Base.{
  ℕ, ◌+◌, Bool, true, false, Option, none, some, List, [], ◌∷◌, ◌++◌, if◌then◌else◌, Bytes, codes,
  bytes_eq, length, ◌>>=◌,
}
use rinja.Parser.Expr.{Expr}
use rinja.Buffer.{Buffer, Memchr3Iter, new, write, write_writer}
use rinja.Generator.{Writable, lit, expr}
use rinja.Generator.Cacheable.{is_cacheable}

pub data DisplayWrap : Type 0 where
  wrapped unwrapped : DisplayWrap

-- The `match` on what `visit_expr` returns.
unfoldable pub display_code : Bytes → DisplayWrap × Bytes → Bytes
display_code escaper (wrapped, expr_buf) = expr_buf
display_code escaper (unwrapped, expr_buf) =
    codes "(&&rinja::filters::AutoEscaper::new(&("
    ++ (expr_buf ++ (codes "), " ++ (escaper ++ codes ")).rinja_auto_escape()?")))

-- `expr_cache.entry`
unfoldable pub find_cached : Bytes → List (Bytes × ℕ) → Option ℕ
find_cached key [] = none
find_cached key ((k, idx) ∷ cache) =
    let rest = find_cached key cache in if bytes_eq key k then some idx else rest

unfoldable pub argument : Bytes → Bytes
argument code = codes "&(" ++ (code ++ codes "),")

module _ (memchr3_iter : Memchr3Iter) where
  -- A run of literals, with the size hint that has been counted.
  unfoldable pub write_all : List Bytes → Buffer → ℕ → Option (Buffer × ℕ)
  unfolding write_writer
  write_all [] b size_hint = some (b, size_hint)
  write_all (s ∷ items) b size_hint = do
    r ← write_writer memchr3_iter s b
    write_all items (r.0) (size_hint + r.1)

-- The local variables of the function; `items` is the run of literals that is being read.
pub record Emitting : Type 0 where
  pub buf : Buffer
  pub targets : Buffer
  pub lines : Buffer
  pub expr_cache : List (Bytes × ℕ)
  pub items : List Bytes
  pub size_hint : ℕ

module _ {T : Type 0} where
  -- The literals in front of the first expression, and what is left.
  unfoldable pub leading : List (Writable (Expr T)) → List Bytes
  leading (lit s ∷ it) = s ∷ leading it
  leading _ = []

  unfoldable pub behind_leading : List (Writable (Expr T)) → List (Writable (Expr T))
  behind_leading (lit s ∷ it) = behind_leading it
  behind_leading it = it

unfoldable pub match_arm : Bytes → Bytes → Bytes
match_arm targets lines = codes ") {(" ++ (targets ++ (codes ") => {" ++ (lines ++ codes "}}")))

module _ (to_string : ℕ → Bytes) where
  unfoldable pub target : ℕ → Bytes
  target idx = codes "expr" ++ to_string idx

  unfoldable pub line : ℕ → Bytes
  unfolding target
  line idx =
      codes "(&&rinja::filters::Writable("
      ++ (target idx ++ codes ")).rinja_write(__rinja_writer)?;")

  -- A new argument of the `match`, bound under its index.
  unfoldable pub bind_arg : Bytes → ℕ → Bytes → Emitting → Emitting
  unfolding argument target write
  bind_arg code idx separator s = record s {
    buf = write (argument code) s.buf;
    targets = write (target idx ++ separator) s.targets;
  }

  -- `idx` of the second `let`: the index of a cached argument, or a new argument.
  unfoldable pub cached : Bytes → ℕ → Bool → Emitting → Emitting × ℕ
  unfolding bind_arg find_cached
  cached code idx false s = (bind_arg code idx (codes ", ") s, idx)
  cached code idx true s = elim (find_cached code s.expr_cache) [
    | some known ↦ (s, known)
    | none ↦
        (record (bind_arg code idx (codes ",") s) { expr_cache = (code, idx) ∷ s.expr_cache }, idx)
  ]

  unfoldable pub write_line : Emitting × ℕ → Emitting
  unfolding line write
  write_line (s, idx) = record s { lines = write (line idx) s.lines }

module _ {T : Type 0} (visit_expr : Expr T → Option (DisplayWrap × Bytes)) (escaper : Bytes)
    (to_string : ℕ → Bytes) (memchr3_iter : Memchr3Iter) where
  -- One round for an expression; the literals read before it are written to the lines first.
  unfoldable pub emit_expr : Expr T → ℕ → Emitting → Option Emitting
  unfolding write_all display_code cached write_line
  emit_expr e idx s = do
    r ← write_all memchr3_iter s.items s.lines s.size_hint
    displayed ← visit_expr e
    cacheable ← is_cacheable e
    some (
        write_line to_string (
          cached to_string (display_code escaper displayed) idx cacheable
            (record s { lines = r.0; items = []; size_hint = r.1 + 3 })))

  -- The second `while let`; `items` that are left at its end are `trailing_simple_lines`.
  unfoldable pub emit_all : List (Writable (Expr T)) → ℕ → Emitting → Option Emitting
  unfolding emit_expr
  emit_all [] idx s = some s
  emit_all (lit l ∷ it) idx s = emit_all it (idx + 1) (record s { items = s.items ++ l ∷ [] })
  emit_all (expr e ∷ it) idx s = do s ← emit_expr e idx s; emit_all it (idx + 1) s

  -- What follows where the items are not all literals; `idx` counts the leading literals.
  unfoldable pub write_match : List (Writable (Expr T)) → ℕ → Buffer × ℕ → Option (Buffer × ℕ)
  unfolding emit_all match_arm write_all new
  write_match [] idx r = some r
  write_match (w ∷ it) idx (buf, size_hint) = do
    s ← emit_all (w ∷ it) idx record {
      buf = write (codes "match (") buf;
      targets = new;
      lines = new;
      expr_cache = [];
      items = [];
      size_hint = size_hint;
    }
    write_all memchr3_iter s.items (write (match_arm s.targets.buf s.lines.buf) s.buf) s.size_hint

  unfoldable pub write_buf_writable : List (Writable (Expr T)) → Buffer → Option (Buffer × ℕ)
  unfolding leading behind_leading write_match
  write_buf_writable items buf = do
    r ← write_all memchr3_iter (leading items) buf 0
    write_match (behind_leading items) (length (leading items)) r
