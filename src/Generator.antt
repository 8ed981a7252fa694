-- ===== src/Generator.antt =====
-- rinja_derive/src/generator.rs and rinja_derive/src/generator/node.rs: the state of the code
-- generator that decides which text reaches the output, and the handlers of the nodes that write
-- text or expressions. `E` is the type of expressions; `compile_time_escape` turns an expression
-- that is known when the template is compiled into text.
pub mod Spacing
pub mod Output
pub mod Render
pub mod Controls
pub mod Condition
pub mod Scopes
pub mod Cacheable
pub mod Writables
pub mod Visit
pub mod Lets
pub mod Macros
use rinja.Base.{
  ℕ, Bool, true, false, Option, none, some, List, [], ◌∷◌, ◌++◌, if◌then◌else◌, Bytes, is_empty,
  contains_byte, newline, space, ◌>>=◌,
}
use rinja.Parser.Whitespace.{Whitespace, Ws, preserve, suppress, minimize}
use rinja.Parser.Lit.{Lit}

pub data Writable (E : Type 0) : Type 0 where
  lit : Bytes → Writable E
  expr : E → Writable E

-- The fields of `Generator` that the handlers below touch: `discard` and `buf` are those of
-- `buf_writable`, and `whitespace` is `input.config.whitespace`.
pub record Generator (E : Type 0) : Type 0 where
  pub next_ws : Option Bytes
  pub skip_ws : Whitespace
  pub buf : List (Writable E)
  pub discard : Bool
  pub whitespace : Whitespace

-- The nodes of `parser::Node` whose handlers write text only.
pub data Node (E : Type 0) : Type 0 where
  lit : Lit → Node E
  comment : Ws → Node E
  expr : Ws → List E → Node E
  macro : Ws → Ws → Node E
  raw : Ws → Lit → Ws → Node E
  import : Ws → Node E

-- `ws.unwrap_or(self.input.config.whitespace)`
abbrev pub resolve : Whitespace → Option Whitespace → Whitespace
resolve whitespace none = whitespace
resolve whitespace (some ws) = ws

module _ {E : Type 0} where
  -- `Generator::new`
  pub new : Bool → Whitespace → Generator E
  new discard whitespace = record {
    next_ws = none;
    skip_ws = preserve;
    buf = [];
    discard = discard;
    whitespace = whitespace;
  }

  -- `WritableBuffer::push`
  unfoldable pub push : Writable E → Generator E → Generator E
  push w g = if g.discard then g else record g { buf = g.buf ++ w ∷ [] }

  unfoldable pub should_trim_ws : Generator E → Option Whitespace → Whitespace
  should_trim_ws g ws = resolve g.whitespace ws

-- The `match` on `contains('\\n')` that minimizing makes.
unfoldable pub minimized : Bytes → Bytes
minimized val = if contains_byte newline val then newline ∷ [] else space ∷ []

module _ {E : Type 0} where
  -- The `match` of `flush_ws`.
  unfoldable pub push_ws : Whitespace → Bytes → Generator E → Generator E
  unfolding push
  push_ws preserve val g = if is_empty val then g else push (lit val) g
  push_ws minimize val g = if is_empty val then g else push (lit (minimized val)) g
  push_ws suppress val g = g

  unfoldable pub flush_ws : Ws → Generator E → Generator E
  unfolding push_ws should_trim_ws
  flush_ws ws g = elim (g.next_ws) [
    | none ↦ g
    | some val ↦ let g' = push_ws (should_trim_ws g ws.before) val g in record g' { next_ws = none }
  ]

  unfoldable pub prepare_ws : Ws → Generator E → Generator E
  unfolding should_trim_ws
  prepare_ws ws g = record g { skip_ws = should_trim_ws g ws.after }

  unfoldable pub handle_ws : Ws → Generator E → Generator E
  unfolding flush_ws prepare_ws
  handle_ws ws g = prepare_ws ws (flush_ws ws g)

  -- The first `if` of `write_lit`, by `skip_ws`; `none` is a failed assertion.
  unfoldable pub write_lws : Whitespace → Lit → Generator E → Option (Generator E)
  unfolding push
  write_lws suppress l g = some g
  write_lws preserve l g =
      if is_empty l.val
      then if is_empty l.rws then some (record g { next_ws = some l.lws }) else none
      else some (push (lit l.lws) g)
  write_lws minimize l g =
      if is_empty l.val
      then if is_empty l.rws then some (record g { next_ws = some l.lws }) else none
      else some (push (lit (minimized l.lws)) g)

  unfoldable pub write_val : Lit → Generator E → Generator E
  unfolding push
  write_val l g = if is_empty l.val then g else push (lit l.val) (record g { skip_ws = preserve })

  unfoldable pub write_rws : Lit → Generator E → Generator E
  write_rws l g = if is_empty l.rws then g else record g { next_ws = some l.rws }

  unfoldable pub write_lit : Lit → Generator E → Option (Generator E)
  unfolding write_lws write_val write_rws
  write_lit l g = elim (g.next_ws) [
    | some _ ↦ none
    | none ↦ do
      g ← if is_empty l.lws then some g else write_lws g.skip_ws l g
      some (write_rws l (write_val l g))
  ]

  -- What `handle` does behind its loop at the top level, before the buffer is written.
  unfoldable pub finish : Generator E → Generator E
  unfolding flush_ws
  finish g = flush_ws (record { before = some g.skip_ws; after = none }) g

  module _ (compile_time_escape : E → Option Bytes) where
    -- The loop of `write_expr`.
    unfoldable pub push_items : List E → Generator E → Generator E
    unfolding push
    push_items [] g = g
    push_items (s ∷ items) g =
        push_items items (push (elim (compile_time_escape s) [ some t ↦ lit t | none ↦ expr s ]) g)

    -- One round of `handle`, at the top level, where `macro` and `import` are allowed.
    unfoldable pub handle_node : Node E → Generator E → Option (Generator E)
    unfolding push_items write_lit handle_ws
    handle_node (lit l) g = write_lit l g
    handle_node (comment ws) g = some (handle_ws ws g)
    handle_node (expr ws items) g = some (push_items items (handle_ws ws g))
    handle_node (macro ws1 ws2) g = some (prepare_ws ws2 (flush_ws ws1 g))
    handle_node (raw ws1 l ws2) g = do g ← write_lit l (handle_ws ws1 g); some (handle_ws ws2 g)
    handle_node (import ws) g = some (handle_ws ws g)

    unfoldable pub handle_nodes : List (Node E) → Generator E → Option (Generator E)
    unfolding handle_node
    handle_nodes [] g = some g
    handle_nodes (n ∷ nodes) g = do g ← handle_node n g; handle_nodes nodes g

    unfoldable pub handle : List (Node E) → Generator E → Option (Generator E)
    unfolding handle_nodes finish
    handle nodes g = do g ← handle_nodes nodes g; some (finish g)
