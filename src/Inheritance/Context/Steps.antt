-- ===== src/Inheritance/Context/Steps.antt =====
-- One node and one list of nodes in the scan of rinja_derive/src/heritage.rs: what is pushed, which
-- blocks are added, and which nodes are refused below the top level.
use rinja.Base.{
  map_insert-Distinct, ◌and_then◌, ◌≡◌, refl, ◌∙◌, ap, Bool, true, false, ◌||◌, Option, Bytes,
  arith, Option-cases, inl, inr, ok, err, running, Outcome, map_has-map_insert,
}
use rinja.Parser.Node.{
  Node, Nodes, lit, comment, expr, call, let_var, if_chain, match_on, extends, block_def, include,
  import, macro, raw, filter_block, nil, cons,
}
use rinja.Inheritance.Context.{
  CompileError, below_top_level, multiple_extends, not_found, Scan, scan_node, scan_nodes, found,
}
use rinja.Inheritance.Context.Measure.{pushed, flat}
use rinja.Inheritance.Context.Effects.{is_plain, defines, any, all, pushed_all, Effect, Scans}

module _ (find_template : Bytes → Option Bytes) where
  or_true : (b : Bool) → (b || true) ≡ true
  or_true true = refl
  or_true false = refl

  scan_node-Scans :
      (top : Bool) (n : Node) (s : Scan)
      → Scans find_template top
          (pushed n)
          (λ key. defines key n)
          (is_plain n)
          s
          (scan_node find_template top n s)
  unfolding scan_node pushed defines is_plain
  scan_node-Scans true (extends path) s = elim (Option-cases s.context.extended) [
    | inl e ↦ elim (Option-cases (find_template path)) [
      | inl f ↦ rw (e, found, f) f
      | inr (p, f) ↦
          rw (e, found, f)
            record { nested = refl; blocks = λ key. refl; placed = refl; distinct = λ d. d }
    ]
    | inr (p, e) ↦ rw e tt
  ]
  scan_node-Scans false (extends path) s = refl
  scan_node-Scans true (macro ws1 name args nodes ws2) s = record {
    nested = refl;
    blocks = λ key. refl;
    placed = refl;
    distinct = λ d. d;
  }
  scan_node-Scans false (macro ws1 name args nodes ws2) s = refl
  scan_node-Scans true (import ws path scope) s = elim (Option-cases (find_template path)) [
    | inl f ↦ rw (found, f) f
    | inr (p, f) ↦
        rw (found, f)
          record { nested = refl; blocks = λ key. refl; placed = refl; distinct = λ d. d }
  ]
  scan_node-Scans false (import ws path scope) s = refl
  scan_node-Scans top (block_def ws1 name nodes ws2) s = record {
    nested = refl;
    blocks = λ key. map_has-map_insert key name _ s.context.blocks;
    placed = or_true top;
    distinct = map_insert-Distinct name _ s.context.blocks;
  }
  scan_node-Scans top (if_chain ws branches) s = record {
    nested = refl;
    blocks = λ key. refl;
    placed = or_true top;
    distinct = λ d. d;
  }
  scan_node-Scans top (Node.loop ws1 target iter cond body ws2 else_nodes ws3) s = record {
    nested = refl;
    blocks = λ key. refl;
    placed = or_true top;
    distinct = λ d. d;
  }
  scan_node-Scans top (match_on ws1 e arms ws2) s = record {
    nested = refl;
    blocks = λ key. refl;
    placed = or_true top;
    distinct = λ d. d;
  }
  scan_node-Scans top (lit l) s = record {
    nested = refl;
    blocks = λ key. refl;
    placed = or_true top;
    distinct = λ d. d;
  }
  scan_node-Scans top (comment ws t) s = record {
    nested = refl;
    blocks = λ key. refl;
    placed = or_true top;
    distinct = λ d. d;
  }
  scan_node-Scans top (expr ws e) s = record {
    nested = refl;
    blocks = λ key. refl;
    placed = or_true top;
    distinct = λ d. d;
  }
  scan_node-Scans top (call ws scope name args) s = record {
    nested = refl;
    blocks = λ key. refl;
    placed = or_true top;
    distinct = λ d. d;
  }
  scan_node-Scans top (let_var ws t e) s = record {
    nested = refl;
    blocks = λ key. refl;
    placed = or_true top;
    distinct = λ d. d;
  }
  scan_node-Scans top (include ws p) s = record {
    nested = refl;
    blocks = λ key. refl;
    placed = or_true top;
    distinct = λ d. d;
  }
  scan_node-Scans top (raw ws1 l ws2) s = record {
    nested = refl;
    blocks = λ key. refl;
    placed = or_true top;
    distinct = λ d. d;
  }
  scan_node-Scans top (Node.break ws) s = record {
    nested = refl;
    blocks = λ key. refl;
    placed = or_true top;
    distinct = λ d. d;
  }
  scan_node-Scans top (Node.continue ws) s = record {
    nested = refl;
    blocks = λ key. refl;
    placed = or_true top;
    distinct = λ d. d;
  }
  scan_node-Scans top (filter_block ws1 name args nodes ws2) s = record {
    nested = refl;
    blocks = λ key. refl;
    placed = or_true top;
    distinct = λ d. d;
  }

  -- The effect of a node and of the nodes behind it.
  behind_Scans :
      (top : Bool) (n : Node) (nodes : Nodes) (s s₁ : Scan) (r : Outcome CompileError Scan)
      → Effect top (pushed n) (λ key. defines key n) (is_plain n) s s₁
      → Scans find_template top
          (pushed_all nodes)
          (λ key. flat any (defines key) nodes)
          (flat all is_plain nodes)
          s₁
          r
      → Scans find_template top
          (pushed_all (cons n nodes))
          (λ key. flat any (defines key) (cons n nodes))
          (flat all is_plain (cons n nodes))
          s
          r
  unfolding pushed_all flat
  behind_Scans top n nodes s s₁ (ok s₂) h f = record {
    nested = f.nested ∙ ap (pushed_all nodes) h.nested;
    blocks = λ key. ground (arith, f.blocks key, h.blocks key);
    placed = ground (arith, f.placed, h.placed);
    distinct = λ d. f.distinct (h.distinct d);
  }
  behind_Scans top n nodes s s₁ (err (below_top_level kind)) h f = ground arith
  behind_Scans top n nodes s s₁ (err multiple_extends) h f = tt
  behind_Scans top n nodes s s₁ (err (not_found path)) h f = f
  behind_Scans top n nodes s s₁ running h f = f

  then_Scans :
      (top : Bool) (n : Node) (nodes : Nodes) (s : Scan) (r : Outcome CompileError Scan)
      → Scans find_template top (pushed n) (λ key. defines key n) (is_plain n) s r
      → ((s₁ : Scan)
          → Scans find_template top
              (pushed_all nodes)
              (λ key. flat any (defines key) nodes)
              (flat all is_plain nodes)
              s₁
              (scan_nodes find_template top nodes s₁))
      → Scans find_template top
          (pushed_all (cons n nodes))
          (λ key. flat any (defines key) (cons n nodes))
          (flat all is_plain (cons n nodes))
          s
          (r and_then λ s. scan_nodes find_template top nodes s)
  then_Scans top n nodes s (ok s₁) h rest =
      behind_Scans top n nodes s s₁ (scan_nodes find_template top nodes s₁) h (rest s₁)
  then_Scans top n nodes s (err (below_top_level kind)) h rest = unfold flat in ground arith
  then_Scans top n nodes s (err multiple_extends) h rest = tt
  then_Scans top n nodes s (err (not_found path)) h rest = h
  then_Scans top n nodes s running h rest = h

  pub scan_nodes-Scans :
      (top : Bool) (nodes : Nodes) (s : Scan)
      → Scans find_template top
          (pushed_all nodes)
          (λ key. flat any (defines key) nodes)
          (flat all is_plain nodes)
          s
          (scan_nodes find_template top nodes s)
  unfolding scan_nodes pushed_all flat
  scan_nodes-Scans top nil s = record {
    nested = refl;
    blocks = λ key. refl;
    placed = or_true top;
    distinct = λ d. d;
  }
  scan_nodes-Scans top (cons n nodes) s =
      then_Scans top n nodes s (scan_node find_template top n s) (scan_node-Scans top n s)
        (scan_nodes-Scans top nodes)
