-- ===== src/Inheritance/Context/Effects.antt =====
-- What one node does to the scan of rinja_derive/src/heritage.rs: what is pushed, which blocks are
-- added, and whether it may stand below the top level.
use mathlib.Core.Bool.{or_assoc, or_comm, and_assoc, and_comm}
use rinja.Base.{
  Distinct, ◌≡◌, refl, sym, ◌∙◌, ap, Bool, true, false, ◌||◌, ◌&&◌, Option, none, List, Bytes,
  bytes_eq, ok, err, running, Outcome, map_has,
}
use rinja.Parser.Node.{Node, Nodes, extends, block_def, import, macro, nil, cons}
use rinja.Inheritance.Context.{CompileError, below_top_level, multiple_extends, not_found, Scan}
use rinja.Inheritance.Context.Measure.{Monoid, pushed, nested_in, waiting, below, waiting-pushed}

-- A node that may stand below the top level.
unfoldable pub is_plain : Node → Bool
is_plain (extends path) = false
is_plain (macro ws1 name args nodes ws2) = false
is_plain (import ws path scope) = false
is_plain _ = true

unfoldable pub defines : Bytes → Node → Bool
defines key (block_def ws1 name nodes ws2) = bytes_eq key name
defines key _ = false

abbrev pub any : Monoid Bool
any = record {
  one = false;
  mul = λ a b. a || b;
  unit = λ a. refl;
  assoc = or_assoc;
  comm = or_comm;
}

abbrev pub all : Monoid Bool
all = record {
  one = true;
  mul = λ a b. a && b;
  unit = λ a. refl;
  assoc = and_assoc;
  comm = and_comm;
}

unfoldable pub pushed_all : Nodes → List Nodes → List Nodes
pushed_all nil nested = nested
pushed_all (cons n nodes) nested = pushed_all nodes (pushed n nested)

pub waiting-pushed_all :
    {M : Type 0} (m : Monoid M) (own : Node → M) (nodes : Nodes) (nested : List Nodes)
    → waiting m own (pushed_all nodes nested) ≡ m.mul (nested_in m own nodes) (waiting m own nested)
unfolding pushed_all nested_in
waiting-pushed_all m own nil nested = sym (m.unit (waiting m own nested))
waiting-pushed_all m own (cons n nodes) nested =
    waiting-pushed_all m own nodes (pushed n nested)
    ∙ (ap (λ x. m.mul (nested_in m own nodes) x) (waiting-pushed m own n nested)
        ∙ (sym (m.assoc (nested_in m own nodes) (below m own n) (waiting m own nested))
            ∙ ap (λ x. m.mul x (waiting m own nested))
                (m.comm (nested_in m own nodes) (below m own n))))

-- What a node, or a list of nodes, does: `pushes` is what is put on the work list, `named` whether
-- it defines a block of a name, and `plain` whether it may stand below the top level.
pub record Effect (top : Bool) (pushes : List Nodes → List Nodes) (named : Bytes → Bool)
    (plain : Bool) (s s' : Scan) : Type 0 where
  pub nested : s'.nested ≡ pushes s.nested
  pub blocks :
      (key : Bytes) → map_has key s'.context.blocks ≡ (named key || map_has key s.context.blocks)
  pub placed : (top || plain) ≡ true
  pub distinct : Distinct s.context.blocks → Distinct s'.context.blocks

module _ (find_template : Bytes → Option Bytes) where
  -- An error is one that its message tells.
  abbrev pub Blames : Bool → Bool → CompileError → Type 0
  Blames top plain (below_top_level kind) = (top || plain) ≡ false
  Blames top plain multiple_extends = Unit
  Blames top plain (not_found path) = find_template path ≡ none

  abbrev pub Scans :
      Bool
      → (List Nodes → List Nodes)
      → (Bytes → Bool)
      → Bool
      → Scan
      → Outcome CompileError Scan
      → Type 0
  Scans top pushes named plain s (ok s') = Effect top pushes named plain s s'
  Scans top pushes named plain s (err e) = Blames top plain e
  Scans top pushes named plain s running = ⊥
