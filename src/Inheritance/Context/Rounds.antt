-- ===== src/Inheritance/Context/Rounds.antt =====
-- `Context::new` of rinja_derive/src/heritage.rs with its how many lists of
-- nodes its work list goes through.
use rinja.Base.{ℕ, ◌+◌, ◌≡◌, List, ◌∷◌, length, arith}
use rinja.Parser.Node.{
  Node, Nodes, Branches, Arms, lit, comment, expr, call, let_var, if_chain, match_on, extends,
  block_def, include, import, macro, raw, filter_block, nil, cons, no_branch, branch, no_arm, arm,
}
use rinja.Inheritance.Context.{push_branches, push_arms}
use rinja.Inheritance.Context.Measure.{Monoid, pushed, flat, waiting, deep, deep-flat}
use rinja.Inheritance.Context.Effects.{pushed_all, waiting-pushed_all}

abbrev pub sum : Monoid ℕ
sum = record {
  one = 0;
  mul = λ a b. a + b;
  unit = λ a. omega arith;
  assoc = λ a b c. omega arith;
  comm = λ a b. omega arith;
}

unfoldable pub branch_count : Branches → ℕ
branch_count no_branch = 0
branch_count (branch ws cond nodes branches) = 1 + branch_count branches

unfoldable pub arm_count : Arms → ℕ
arm_count no_arm = 0
arm_count (arm ws target nodes arms) = 1 + arm_count arms

-- How many lists a node puts on the work list.
unfoldable pub pushes : Node → ℕ
unfolding branch_count arm_count
pushes (block_def ws1 name nodes ws2) = 1
pushes (if_chain ws branches) = branch_count branches
pushes (Node.loop ws1 target iter cond body ws2 else_nodes ws3) = 2
pushes (match_on ws1 e arms ws2) = arm_count arms
pushes _ = 0

-- How many lists of nodes a template has, where the list itself counts.
unfoldable pub list_count : Nodes → ℕ
list_count nodes = 1 + deep sum pushes nodes

length-push_branches :
    (branches : Branches) (nested : List Nodes)
    → length (push_branches branches nested) ≡ branch_count branches + length nested
unfolding push_branches branch_count
length-push_branches no_branch nested = omega arith
length-push_branches (branch ws cond nodes branches) nested =
    omega (arith, length-push_branches branches (nodes ∷ nested))

length-push_arms :
    (arms : Arms) (nested : List Nodes)
    → length (push_arms arms nested) ≡ arm_count arms + length nested
unfolding push_arms arm_count
length-push_arms no_arm nested = omega arith
length-push_arms (arm ws target nodes arms) nested =
    omega (arith, length-push_arms arms (nodes ∷ nested))

length-pushed :
    (n : Node) (nested : List Nodes) → length (pushed n nested) ≡ pushes n + length nested
unfolding pushed pushes
length-pushed (block_def ws1 name nodes ws2) nested = omega arith
length-pushed (if_chain ws branches) nested = length-push_branches branches nested
length-pushed (Node.loop ws1 target iter cond body ws2 else_nodes ws3) nested = omega arith
length-pushed (match_on ws1 e arms ws2) nested = length-push_arms arms nested
length-pushed (lit l) nested = omega arith
length-pushed (comment ws t) nested = omega arith
length-pushed (expr ws e) nested = omega arith
length-pushed (call ws scope name args) nested = omega arith
length-pushed (let_var ws t e) nested = omega arith
length-pushed (include ws p) nested = omega arith
length-pushed (raw ws1 l ws2) nested = omega arith
length-pushed (Node.break ws) nested = omega arith
length-pushed (Node.continue ws) nested = omega arith
length-pushed (filter_block ws1 name args nodes ws2) nested = omega arith
length-pushed (extends p) nested = omega arith
length-pushed (macro ws1 name args nodes ws2) nested = omega arith
length-pushed (import ws p scope) nested = omega arith

length-pushed_all :
    (nodes : Nodes) (nested : List Nodes)
    → length (pushed_all nodes nested) ≡ flat sum pushes nodes + length nested
unfolding pushed_all flat
length-pushed_all nil nested = omega arith
length-pushed_all (cons n nodes) nested =
    omega (arith, length-pushed_all nodes (pushed n nested), length-pushed n nested)

-- The rounds that are left for a work list.
abbrev pub rounds : List Nodes → ℕ
rounds nested = length nested + waiting sum pushes nested

-- A popped list is replaced by the lists in it: one round less.
pub rounds-pushed_all :
    (nodes : Nodes) (nested : List Nodes)
    → 1 + rounds (pushed_all nodes nested) ≡ rounds (nodes ∷ nested)
unfolding waiting
rounds-pushed_all nodes nested = omega (
  arith,
  length-pushed_all nodes nested,
  waiting-pushed_all sum pushes nodes nested,
  deep-flat sum pushes nodes,
)
