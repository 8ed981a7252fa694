-- ===== src/Inheritance/Context.antt =====
-- rinja_derive/src/heritage.rs: `Context::new`, which collects the blocks, macros and imports of a
-- template with a work list of nested nodes. `find_template` is that of the configuration, at the
-- path of the template, and an error is what its message says.
pub mod Measure
pub mod Effects
pub mod Steps
pub mod Rounds
pub mod Complete
use rinja.Base.{
  ℕ, zero, suc, ◌+◌, Bool, true, false, ◌||◌, ◌&&◌, Option, none, some, List, [], ◌∷◌, Bytes, codes,
  if◌then◌else◌, Outcome, ok, err, running, map_insert, ◌and_then◌,
}
use rinja.Parser.Whitespace.{Ws}
use rinja.Parser.Expr.{Expr}
use rinja.Parser.Target.{Target}
use rinja.Parser.Node.{
  Node, Nodes, Branches, Arms, extends, block_def, import, macro, if_chain, match_on, loop, nil,
  cons, no_branch, branch, no_arm, arm, TargetExpr,
}

pub data CompileError : Type 0 where
  below_top_level : Bytes → CompileError
  multiple_extends : CompileError
  not_found : Bytes → CompileError

pub record BlockDef : Type 0 where
  pub ws1 : Ws
  pub nodes : Nodes
  pub ws2 : Ws

pub record Macro : Type 0 where
  pub ws1 : Ws
  pub args : List (Bytes × Option TargetExpr)
  pub nodes : Nodes
  pub ws2 : Ws

-- The fields that `Context::new` computes.
pub record Context : Type 0 where
  pub extended : Option Bytes
  pub blocks : List (Bytes × BlockDef)
  pub macros : List (Bytes × Macro)
  pub imports : List (Bytes × Bytes)

-- The local variables of `Context::new`; the end of the vector `nested` is listed first.
pub record Scan : Type 0 where
  pub context : Context
  pub nested : List Nodes

-- The loops over the branches of an `If` and the arms of a `Match`.
unfoldable pub push_branches : Branches → List Nodes → List Nodes
push_branches no_branch nested = nested
push_branches (branch ws cond nodes branches) nested = push_branches branches (nodes ∷ nested)

unfoldable pub push_arms : Arms → List Nodes → List Nodes
push_arms no_arm nested = nested
push_arms (arm ws target nodes arms) nested = push_arms arms (nodes ∷ nested)

abbrev pub ensure_top : Bool → Bytes → Outcome CompileError Bool
ensure_top true kind = ok true
ensure_top false kind = err (below_top_level kind)

module _ (find_template : Bytes → Option Bytes) where
  abbrev pub found : Bytes → Outcome CompileError Bytes
  found path = elim (find_template path) [ none ↦ err (not_found path) | some p ↦ ok p ]

  -- The `match` on a node.
  unfoldable pub scan_node : Bool → Node → Scan → Outcome CompileError Scan
  unfolding push_branches push_arms
  scan_node top (extends path) s = ensure_top top (codes "extends") and_then λ _.
      elim (s.context.extended) [
        | some _ ↦ err multiple_extends
        | none ↦ found path and_then λ p.
            ok (record s { context = record (s.context) { extended = some p } })
      ]
  scan_node top (macro ws1 name args nodes ws2) s =
      let def : Macro = record { ws1 = ws1; args = args; nodes = nodes; ws2 = ws2 } in
      ensure_top top (codes "macro") and_then λ _.
      ok (record s {
        context = record (s.context) { macros = map_insert name def s.context.macros };
      })
  scan_node top (import ws path scope) s = ensure_top top (codes "import") and_then λ _.
      found path and_then λ p.
      ok (record s {
        context = record (s.context) { imports = map_insert scope p s.context.imports };
      })
  scan_node top (block_def ws1 name nodes ws2) s =
      let def : BlockDef = record { ws1 = ws1; nodes = nodes; ws2 = ws2 } in
      ok record {
        context = record (s.context) { blocks = map_insert name def s.context.blocks };
        nested = nodes ∷ s.nested;
      }
  scan_node top (if_chain ws branches) s =
      ok (record s { nested = push_branches branches s.nested })
  scan_node top (loop ws1 target iter cond body ws2 else_nodes ws3) s =
      ok (record s { nested = else_nodes ∷ body ∷ s.nested })
  scan_node top (match_on ws1 e arms ws2) s = ok (record s { nested = push_arms arms s.nested })
  scan_node top _ s = ok s

  unfoldable pub scan_nodes : Bool → Nodes → Scan → Outcome CompileError Scan
  unfolding scan_node
  scan_nodes top nil s = ok s
  scan_nodes top (cons n nodes) s = scan_node top n s and_then λ s. scan_nodes top nodes s

  -- The `while let`, on fuel.
  unfoldable pub scan_all : ℕ → Bool → Scan → Outcome CompileError Context
  unfolding scan_nodes
  scan_all zero top s = running
  scan_all (suc fuel) top s = elim (s.nested) [
    | [] ↦ ok s.context
    | nodes ∷ nested ↦
        scan_nodes top nodes (record s { nested = nested }) and_then λ s. scan_all fuel false s
  ]

  unfoldable pub new : ℕ → Nodes → Outcome CompileError Context
  unfolding scan_all
  new fuel nodes = scan_all fuel true record {
    context = record { extended = none; blocks = []; macros = []; imports = [] };
    nested = nodes ∷ [];
  }
