-- ===== src/Parser/Node.antt =====
-- rinja_parser/src/node.rs: the nodes of a template. `Nodes` is `Vec<Node>`, `Branches` the
-- `Vec<Cond>` of an `If`, and `Arms` the `Vec<When>` of a `Match`. The arguments of a constructor
-- are the fields of the struct of that name, in its order; spans are left out.
use rinja.Base.{Bool, Option, List, Bytes}
use rinja.Parser.Whitespace.{Ws}
use rinja.Parser.Lit.{Lit}
use rinja.Parser.Expr.{Expr, Exprs}
use rinja.Parser.Target.{Target}

abbrev pub TargetExpr : Type 0
TargetExpr = Expr Target

pub record CondTest (T : Type 0) : Type 0 where
  pub target : Option T
  pub expr : Expr T
  pub contains_bool_lit_or_is_defined : Bool

mutual
  pub data Node : Type 0 where
    lit : Lit → Node
    comment : Ws → Bytes → Node
    expr : Ws → TargetExpr → Node
    call : Ws → Option Bytes → Bytes → List TargetExpr → Node
    let_var : Ws → Target → Option TargetExpr → Node
    if_chain : Ws → Branches → Node
    match_on : Ws → TargetExpr → Arms → Ws → Node
    loop : Ws → Target → TargetExpr → Option TargetExpr → Nodes → Ws → Nodes → Ws → Node
    extends : Bytes → Node
    block_def : Ws → Bytes → Nodes → Ws → Node
    include : Ws → Bytes → Node
    import : Ws → Bytes → Bytes → Node
    macro : Ws → Bytes → List (Bytes × Option TargetExpr) → Nodes → Ws → Node
    raw : Ws → Lit → Ws → Node
    break : Ws → Node
    continue : Ws → Node
    filter_block : Ws → Bytes → Exprs Target → Nodes → Ws → Node

  pub data Nodes : Type 0 where
    nil : Nodes
    cons : Node → Nodes → Nodes

  pub data Branches : Type 0 where
    no_branch : Branches
    branch : Ws → Option (CondTest Target) → Nodes → Branches → Branches

  pub data Arms : Type 0 where
    no_arm : Arms
    arm : Ws → List Target → Nodes → Arms → Arms
