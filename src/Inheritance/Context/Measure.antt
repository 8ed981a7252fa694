-- ===== src/Inheritance/Context/Measure.antt =====
-- Sums over the nodes that the work list of rinja_derive/src/heritage.rs visits, with values in any
-- commutative monoid: what one node is worth alone, a node with all that is nested in it, and the
-- lists that are waiting.
use rinja.Base.{◌≡◌, refl, sym, ◌∙◌, ap, List, [], ◌∷◌}
use rinja.Parser.Node.{
  Node, Nodes, Branches, Arms, lit, comment, expr, call, let_var, if_chain, match_on, extends,
  block_def, include, import, macro, raw, filter_block, nil, cons, no_branch, branch, no_arm, arm,
}
use rinja.Inheritance.Context.{push_branches, push_arms}

pub record Monoid (M : Type 0) : Type 0 where
  pub one : M
  pub mul : M → M → M
  pub unit : (a : M) → mul one a ≡ a
  pub assoc : (a b c : M) → mul (mul a b) c ≡ mul a (mul b c)
  pub comm : (a b : M) → mul a b ≡ mul b a

-- What a node pushes.
unfoldable pub pushed : Node → List Nodes → List Nodes
unfolding push_branches push_arms
pushed (block_def ws1 name nodes ws2) nested = nodes ∷ nested
pushed (if_chain ws branches) nested = push_branches branches nested
pushed (Node.loop ws1 target iter cond body ws2 else_nodes ws3) nested = else_nodes ∷ body ∷ nested
pushed (match_on ws1 e arms ws2) nested = push_arms arms nested
pushed _ nested = nested

module _ {M : Type 0} (m : Monoid M) (own : Node → M) where
  unfoldable mutual
    pub deep : Nodes → M
    deep nil = m.one
    deep (cons n nodes) = m.mul (own n) (m.mul (below n) (deep nodes))

    pub below : Node → M
    below (block_def ws1 name nodes ws2) = deep nodes
    below (if_chain ws branches) = deep_branches branches
    below (Node.loop ws1 target iter cond body ws2 else_nodes ws3) =
        m.mul (deep else_nodes) (deep body)
    below (match_on ws1 e arms ws2) = deep_arms arms
    below _ = m.one

    pub deep_branches : Branches → M
    deep_branches no_branch = m.one
    deep_branches (branch ws cond nodes branches) = m.mul (deep nodes) (deep_branches branches)

    pub deep_arms : Arms → M
    deep_arms no_arm = m.one
    deep_arms (arm ws target nodes arms) = m.mul (deep nodes) (deep_arms arms)

  -- One list without what is nested in it, and what is nested in it.
  unfoldable pub flat : Nodes → M
  flat nil = m.one
  flat (cons n nodes) = m.mul (own n) (flat nodes)

  unfoldable pub nested_in : Nodes → M
  unfolding below
  nested_in nil = m.one
  nested_in (cons n nodes) = m.mul (below n) (nested_in nodes)

  unfoldable pub waiting : List Nodes → M
  unfolding deep
  waiting [] = m.one
  waiting (nodes ∷ nested) = m.mul (deep nodes) (waiting nested)

  swap : (a b c : M) → m.mul a (m.mul b c) ≡ m.mul b (m.mul a c)
  swap a b c = sym (m.assoc a b c) ∙ (ap (λ x. m.mul x c) (m.comm a b) ∙ m.assoc b a c)

  pub deep-flat : (nodes : Nodes) → deep nodes ≡ m.mul (flat nodes) (nested_in nodes)
  unfolding deep flat nested_in
  deep-flat nil = sym (m.unit m.one)
  deep-flat (cons n nodes) =
      ap (λ x. m.mul (own n) (m.mul (below n) x)) (deep-flat nodes)
      ∙ (ap (λ x. m.mul (own n) x) (swap (below n) (flat nodes) (nested_in nodes))
          ∙ sym (m.assoc (own n) (flat nodes) (m.mul (below n) (nested_in nodes))))

  branches_lem :
      (branches : Branches) (nested : List Nodes)
      → waiting (push_branches branches nested) ≡ m.mul (deep_branches branches) (waiting nested)
  unfolding waiting push_branches deep_branches
  branches_lem no_branch nested = sym (m.unit (waiting nested))
  branches_lem (branch ws cond nodes branches) nested =
      branches_lem branches (nodes ∷ nested)
      ∙ (swap (deep_branches branches) (deep nodes) (waiting nested)
          ∙ sym (m.assoc (deep nodes) (deep_branches branches) (waiting nested)))

  arms_lem :
      (arms : Arms) (nested : List Nodes)
      → waiting (push_arms arms nested) ≡ m.mul (deep_arms arms) (waiting nested)
  unfolding waiting push_arms deep_arms
  arms_lem no_arm nested = sym (m.unit (waiting nested))
  arms_lem (arm ws target nodes arms) nested =
      arms_lem arms (nodes ∷ nested)
      ∙ (swap (deep_arms arms) (deep nodes) (waiting nested)
          ∙ sym (m.assoc (deep nodes) (deep_arms arms) (waiting nested)))

  pub waiting-pushed :
      (n : Node) (nested : List Nodes)
      → waiting (pushed n nested) ≡ m.mul (below n) (waiting nested)
  unfolding waiting pushed below
  waiting-pushed (block_def ws1 name nodes ws2) nested = refl
  waiting-pushed (if_chain ws branches) nested = branches_lem branches nested
  waiting-pushed (Node.loop ws1 target iter cond body ws2 else_nodes ws3) nested =
      sym (m.assoc (deep else_nodes) (deep body) (waiting nested))
  waiting-pushed (match_on ws1 e arms ws2) nested = arms_lem arms nested
  waiting-pushed (lit l) nested = sym (m.unit (waiting nested))
  waiting-pushed (comment ws s) nested = sym (m.unit (waiting nested))
  waiting-pushed (expr ws e) nested = sym (m.unit (waiting nested))
  waiting-pushed (call ws scope name args) nested = sym (m.unit (waiting nested))
  waiting-pushed (let_var ws t e) nested = sym (m.unit (waiting nested))
  waiting-pushed (extends p) nested = sym (m.unit (waiting nested))
  waiting-pushed (include ws p) nested = sym (m.unit (waiting nested))
  waiting-pushed (import ws p scope) nested = sym (m.unit (waiting nested))
  waiting-pushed (macro ws1 name args nodes ws2) nested = sym (m.unit (waiting nested))
  waiting-pushed (raw ws1 l ws2) nested = sym (m.unit (waiting nested))
  waiting-pushed (Node.break ws) nested = sym (m.unit (waiting nested))
  waiting-pushed (Node.continue ws) nested = sym (m.unit (waiting nested))
  waiting-pushed (filter_block ws1 name args nodes ws2) nested = sym (m.unit (waiting nested))
