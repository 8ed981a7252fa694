-- ===== src/Inheritance/Context/Complete.antt =====
-- `Context::new` of rinja_derive/src/heritage.rs as a whole: it ends, it knows every block that is
-- reached, and it refuses what stands below the top level.
use mathlib.Core.Bool.{and_assoc, or-true, or-false}
use rinja.Base.{
  Distinct, ◌and_then◌, ℕ, zero, suc, ◌≤◌, ◌<◌, ◌≡◌, refl, sym, ◌∙◌, ap, Bool, true, false, ◌||◌,
  ◌&&◌, Option, none, List, [], ◌∷◌, Bytes, arith, ok, err, running, Outcome, map_has,
}
use rinja.Parser.Node.{Nodes}
use rinja.Inheritance.Context.{
  CompileError, below_top_level, multiple_extends, not_found, Context, Scan, scan_nodes, scan_all,
  new,
}
use rinja.Inheritance.Context.Measure.{flat, nested_in, waiting, deep, deep-flat}
use rinja.Inheritance.Context.Effects.{
  is_plain, defines, any, all, pushed_all, waiting-pushed_all, Effect, Scans,
}
use rinja.Inheritance.Context.Steps.{scan_nodes-Scans}
use rinja.Inheritance.Context.Rounds.{list_count, rounds, rounds-pushed_all}

listed : (a b c d : Bool) → a ≡ (b && c) → (b && (c && d)) ≡ (a && d)
listed a b c d h = rw h (sym (and_assoc b c d))

swap_or : (n f w m : Bool) → ((n || w) || (f || m)) ≡ (((f || n) || w) || m)
swap_or n true w m = or-true (n || w)
swap_or n false w m = refl

and_true : (a : Bool) → (a && true) ≡ a
and_true true = refl
and_true false = refl

fits : (nodes : Nodes) (fuel : ℕ) → list_count nodes < suc fuel → rounds (nodes ∷ []) ≤ fuel
unfolding list_count waiting
fits nodes fuel bound = omega arith

module _ (find_template : Bytes → Option Bytes) where
  -- The outcome, where `named` are the blocks that the context knows, and `plain` says that
  -- nothing below the top level is a parent, a macro or an import.
  abbrev pub Collects : (Bytes → Bool) → Bool → Outcome CompileError Context → Type 0
  Collects named plain (ok c) =
      ((key : Bytes) → map_has key c.blocks ≡ named key) × (plain ≡ true) × Distinct c.blocks
  Collects named plain (err (below_top_level kind)) = plain ≡ false
  Collects named plain (err multiple_extends) = Unit
  Collects named plain (err (not_found path)) = find_template path ≡ none
  Collects named plain running = ⊥

  retold :
      (named named' : Bytes → Bool) (plain plain' : Bool) (r : Outcome CompileError Context)
      → ((key : Bytes) → named key ≡ named' key)
      → plain ≡ plain'
      → Collects named plain r
      → Collects named' plain' r
  retold named named' plain plain' (ok c) same same_plain (knows, placed, distinct) =
      ((λ key. knows key ∙ same key), sym same_plain ∙ placed, distinct)
  retold named named' plain plain' (err (below_top_level kind)) same same_plain h =
      sym same_plain ∙ h
  retold named named' plain plain' (err multiple_extends) same same_plain h = h
  retold named named' plain plain' (err (not_found path)) same same_plain h = h
  retold named named' plain plain' running same same_plain h = h

  abbrev reached : Scan → Bytes → Bool
  reached s key = waiting any (defines key) s.nested || map_has key s.context.blocks

  -- What a round leaves to be found, and to be refused.
  waits_any :
      (key : Bytes) (s s₁ : Scan) (nodes : Nodes) (top : Bool)
      → Effect top
          (pushed_all nodes)
          (λ key. flat any (defines key) nodes)
          (flat all is_plain nodes)
          s
          s₁
      → reached s₁ key
        ≡ (waiting any (defines key) (nodes ∷ s.nested) || map_has key s.context.blocks)
  unfolding waiting
  waits_any key s s₁ nodes top e =
      let left : waiting any (defines key) (pushed_all nodes s.nested)
          ≡ (nested_in any (defines key) nodes || waiting any (defines key) s.nested) =
        waiting-pushed_all any (defines key) nodes s.nested in
      let split : deep any (defines key) nodes
          ≡ (flat any (defines key) nodes || nested_in any (defines key) nodes) =
        deep-flat any (defines key) nodes in
      let same : waiting any (defines key) s₁.nested
          ≡ waiting any (defines key) (pushed_all nodes s.nested) =
        ap (waiting any (defines key)) e.nested in
      rw (same, left, split, e.blocks key)
        (swap_or (nested_in any (defines key) nodes) (flat any (defines key) nodes)
          (waiting any (defines key) s.nested) (map_has key s.context.blocks))

  waits_all :
      (s s₁ : Scan) (nodes : Nodes) (top : Bool)
      → Effect top
          (pushed_all nodes)
          (λ key. flat any (defines key) nodes)
          (flat all is_plain nodes)
          s
          s₁
      → waiting all is_plain s₁.nested ≡ (
          (top || flat all is_plain nodes)
          && (nested_in all is_plain nodes && waiting all is_plain s.nested))
  waits_all s s₁ nodes top e =
      ap (waiting all is_plain) e.nested
      ∙ (waiting-pushed_all all is_plain nodes s.nested ∙ rw e.placed refl)

  -- A round of the loop on a list, and then the loop on what is left.
  round_Collects :
      (top : Bool) (nodes : Nodes) (s : Scan) (fuel : ℕ) (r : Outcome CompileError Scan)
      → Scans find_template top
          (pushed_all nodes)
          (λ key. flat any (defines key) nodes)
          (flat all is_plain nodes)
          s
          r
      → rounds (nodes ∷ s.nested) ≤ fuel
      → Distinct s.context.blocks
      → ((s₁ : Scan)
          → rounds s₁.nested < fuel
          → Distinct s₁.context.blocks
          → Collects
              (reached s₁)
              (waiting all is_plain s₁.nested)
              (scan_all find_template fuel false s₁))
      → Collects
          (λ key. waiting any (defines key) (nodes ∷ s.nested) || map_has key s.context.blocks)
          ((top || flat all is_plain nodes)
            && (nested_in all is_plain nodes && waiting all is_plain s.nested))
          (r and_then λ s. scan_all find_template fuel false s)
  round_Collects top nodes s fuel (ok s₁) e bound distinct rest =
      let smaller : rounds s₁.nested < fuel =
        omega (arith, ap rounds e.nested, rounds-pushed_all nodes s.nested) in
      retold (reached s₁)
        (λ key. waiting any (defines key) (nodes ∷ s.nested) || map_has key s.context.blocks)
        (waiting all is_plain s₁.nested)
        ((top || flat all is_plain nodes)
          && (nested_in all is_plain nodes && waiting all is_plain s.nested))
        (scan_all find_template fuel false s₁) (λ key. waits_any key s s₁ nodes top e)
        (waits_all s s₁ nodes top e) (rest s₁ smaller (e.distinct distinct))
  round_Collects top nodes s fuel (err (below_top_level kind)) e bound distinct rest = ground arith
  round_Collects top nodes s fuel (err multiple_extends) e bound distinct rest = tt
  round_Collects top nodes s fuel (err (not_found path)) e bound distinct rest = e
  round_Collects top nodes s fuel running e bound distinct rest = e

  scan_all-Collects :
      (fuel : ℕ) (context : Context) (nested : List Nodes)
      → rounds nested < fuel
      → Distinct context.blocks
      → let s : Scan = record { context = context; nested = nested } in
        Collects (reached s) (waiting all is_plain nested) (scan_all find_template fuel false s)
  unfolding scan_all
  scan_all-Collects zero context nested bound distinct = ground arith
  scan_all-Collects (suc fuel) context [] bound distinct =
      unfold waiting in ((λ key. refl), refl, distinct)
  scan_all-Collects (suc fuel) context (nodes ∷ nested) bound distinct =
      let s : Scan = record { context = context; nested = nested } in
      retold (λ key. waiting any (defines key) (nodes ∷ s.nested) || map_has key s.context.blocks)
        (λ key. waiting any (defines key) (nodes ∷ nested) || map_has key context.blocks)
        (flat all is_plain nodes && (nested_in all is_plain nodes && waiting all is_plain nested))
        (waiting all is_plain (nodes ∷ nested))
        (scan_nodes find_template false nodes s and_then λ s. scan_all find_template fuel false s)
        (λ key. refl)
        (unfold waiting in
          listed (deep all is_plain nodes) (flat all is_plain nodes) (nested_in all is_plain nodes)
            (waiting all is_plain nested) (deep-flat all is_plain nodes))
        (round_Collects false nodes s fuel (scan_nodes find_template false nodes s)
          (scan_nodes-Scans find_template false nodes s) (omega arith) distinct
          (λ s₁. scan_all-Collects fuel s₁.context s₁.nested))

  -- On enough fuel, one more than the lists of nodes of the template: `Context::new` ends. Where it
  -- returns, its blocks are those that are defined anywhere in the template, in branches, loops,
  -- arms and blocks, each name stands once in the map, and below its top level there is no parent, macro or import. Where it refuses
  -- a node for its place, there is such a node below the top level; where it misses a template,
  -- that template is not found.
  pub new-Collects :
      (fuel : ℕ) (nodes : Nodes)
      → list_count nodes < fuel
      → Collects
          (λ key. deep any (defines key) nodes)
          (nested_in all is_plain nodes)
          (new find_template fuel nodes)
  unfolding new scan_all
  new-Collects zero nodes bound = ground arith
  new-Collects (suc fuel) nodes bound =
      let s : Scan = record {
        context = record { extended = none; blocks = []; macros = []; imports = [] };
        nested = [];
      } in
      retold (λ key. waiting any (defines key) (nodes ∷ s.nested) || map_has key s.context.blocks)
        (λ key. deep any (defines key) nodes)
        (nested_in all is_plain nodes && waiting all is_plain s.nested)
        (nested_in all is_plain nodes)
        (scan_nodes find_template true nodes s and_then λ s. scan_all find_template fuel false s)
        (λ key.
          unfold waiting in
          unfold map_has in
          or-false (deep any (defines key) nodes || false)
          ∙ or-false (deep any (defines key) nodes))
        (unfold waiting in and_true (nested_in all is_plain nodes))
        (round_Collects true nodes s fuel (scan_nodes find_template true nodes s)
          (scan_nodes-Scans find_template true nodes s) (fits nodes fuel bound) tt
          (λ s₁. scan_all-Collects fuel s₁.context s₁.nested))
