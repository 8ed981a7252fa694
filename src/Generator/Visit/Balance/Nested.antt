-- ===== src/Generator/Visit/Balance/Nested.antt =====
-- rinja_derive/src/generator/expr.rs: concatenations, conditions with `let`, and borrowed arguments
-- are closed code, where the expressions inside are.
use rinja.Base.{
  ℕ, zero, suc, ◌+◌, ◌/◌, ◌<◌, Bool, true, not, ◌||◌, Option, none, some, List, [], ◌∷◌, ◌++◌, ◌≡◌,
  refl, arith, codes, length, take, drop, All, Outcome, ok, err, running, length-take, length-drop,
  append-nil,
}
use rinja.Buffer as Buffer
use rinja.Buffer.{Buffer}
use rinja.Parser.Target.{Target}
use rinja.Parser.Node.{TargetExpr}
use rinja.Generator.Cacheable.{is_copyable}
use rinja.Generator.Writables.{DisplayWrap, unwrapped}
use rinja.Generator.Visit.{Failure, error, panic, Visit, Visiting, ◌>>◌, write}
use rinja.Generator.Visit.Parts.{
  opt_visit, visit_concat, write_let, visit_let_cond, as_bool, is_call_of_other, braced, borrowed,
}
use rinja.Generator.Visit.Balance.{IsClosed, scan, moves}
use rinja.Generator.Visit.Balance.Rules.{
  IsReady, Extends, Leaves, Anything, ◌before◌, pure_lem, write_lem, choose, Leaves_trans,
}
use rinja.Generator.Visit.Balance.Leaves.{done}
use rinja.Generator.Visit.Balance.Targets.{TextsOfTarget}
use rinja.Generator.Visit.Balance.Patterns.{visit_target-Writes}
use rinja.Generator.Visit.Balance.Parts.{AlwaysWrites}

abbrev pub OptWrites : Option (Visit DisplayWrap) → Type 0
OptWrites none = Unit
OptWrites (some m) = AlwaysWrites m

pub opt_visit-Writes : (o : Option (Visit DisplayWrap)) → OptWrites o → AlwaysWrites (opt_visit o)
unfolding opt_visit
opt_visit-Writes none h due = pure_lem tt tt
opt_visit-Writes (some m) h due = done tt (h due)

All-take :
    (n : ℕ) (ms : List (Visit DisplayWrap)) → All AlwaysWrites ms → All AlwaysWrites (take n ms)
All-take zero ms h = tt
All-take (suc n) [] h = tt
All-take (suc n) (m ∷ ms) (own, others) = (own, All-take n ms others)

All-drop :
    (n : ℕ) (ms : List (Visit DisplayWrap)) → All AlwaysWrites ms → All AlwaysWrites (drop n ms)
All-drop zero ms h = h
All-drop (suc n) [] h = tt
All-drop (suc n) (m ∷ ms) (own, others) = All-drop n ms others

halves :
    {A : Type 0} (xs : List A) (n : ℕ)
    → 1 < length xs
    → n ≡ (length xs + 1) / 2
    → (0 < length (take n xs))
      × (length (take n xs) < length xs)
      × (0 < length (drop n xs))
      × (length (drop n xs) < length xs)
halves xs n h e = ground (arith, length-take n xs, length-drop n xs)

-- A list that is not empty is divided into two such lists until there is one expression; more fuel
-- than expressions is enough.
pub visit_concat-Writes :
    (fuel : ℕ) (exprs : List (Visit DisplayWrap))
    → 0 < length exprs
    → length exprs < fuel
    → All AlwaysWrites exprs
    → AlwaysWrites (visit_concat fuel exprs)
unfolding visit_concat scan
visit_concat-Writes zero exprs p q h due = absurd (omega arith)
visit_concat-Writes (suc fuel) [] p q h due = absurd (omega arith)
visit_concat-Writes (suc fuel) (e ∷ []) p q (h, _) due = record { runs = (h due).runs }
visit_concat-Writes (suc fuel) (e₁ ∷ e₂ ∷ exprs) p q h due =
    let all = e₁ ∷ e₂ ∷ exprs in
    let half = (length all + 1) / 2 in
    let (left, left_less, right, right_less) = halves all half (omega arith) refl in
    let due' = b')' ∷ b')' ∷ due in
    record {
      runs = λ s ready.
          (write_lem (codes "rinja::helpers::Concat(&(") record { scans = refl } before λ _.
          visit_concat-Writes fuel (take half all) left (omega arith) (All-take half all h) due'
          before λ _. write_lem (codes "), &(") record { scans = refl } before λ _.
              visit_concat-Writes fuel (drop half all) right (omega arith) (All-drop half all h)
                due'
              before λ _. done unwrapped (write_lem (codes "))") record { scans = refl })).runs
            s ready;
    }

abbrev pub TextsOfOpt : Option Target → Type 0
TextsOfOpt none = Unit
TextsOfOpt (some target) = TextsOfTarget target

write_let-Writes : (target : Option Target) → TextsOfOpt target → AlwaysWrites (write_let target)
unfolding write_let scan
write_let-Writes none h due = write_lem _ record { scans = refl }
write_let-Writes (some target) h due = write_lem (codes " let ") record { scans = refl } before λ _.
    visit_target-Writes true true target h

pub as_bool-Writes : (this : Visit DisplayWrap) → AlwaysWrites this → AlwaysWrites (as_bool this)
unfolding as_bool scan
as_bool-Writes this h due =
    write_lem (codes "rinja::helpers::as_bool(&(") record { scans = refl } before λ _.
    h (b')' ∷ b')' ∷ due) before λ _. write_lem (codes "))") record { scans = refl }

braced-Writes :
    (braces : Bool) (this : Visit DisplayWrap)
    → AlwaysWrites this
    → AlwaysWrites (braced braces this)
unfolding braced scan
braced-Writes braces this h due =
    choose braces
      (write_lem (codes "{") record { scans = refl } before λ _.
        h (b'}' ∷ due) before λ _. write_lem (codes "}") record { scans = refl })
      (done tt (h due))

pub borrowed-Writes :
    (arg : TargetExpr) (need_borrow : Bool) (this : Visit DisplayWrap)
    → AlwaysWrites this
    → AlwaysWrites (borrowed arg need_borrow this)
unfolding borrowed scan
borrowed-Writes arg need_borrow this h due =
    choose (need_borrow || not (is_copyable arg))
      (write_lem (codes "&(") record { scans = refl } before λ _.
        braced-Writes (is_call_of_other arg) this h (b')' ∷ due) before λ _.
        write_lem (codes ")") record { scans = refl })
      (braced-Writes (is_call_of_other arg) this h due)

-- The end of `visit_let_cond`, on what became of the condition in its own buffer.
let_rest :
    (target : Option Target) (not_first : DisplayWrap → Visit DisplayWrap) (s : Visiting)
    (due : List ℕ) (r : Outcome Failure (DisplayWrap × Visiting))
    → TextsOfOpt target
    → ((w : DisplayWrap) → AlwaysWrites (not_first w))
    → IsReady s
    → ((due' : List ℕ) → Leaves Anything due' due' (record s { buf = Buffer.new }) r)
    → Leaves Anything due due s (elim r [
      | ok (display_wrap, t) ↦
          (write_let target >> (write (codes "= &" ++ t.buf.buf) >> not_first display_wrap))
            (record t { buf = s.buf })
      | err e ↦ err e
      | running ↦ running
    ])
unfolding Buffer.new scan
let_rest target not_first s due (err (error e)) h k ready p = tt
let_rest target not_first s due (err panic) h k ready p = p due
let_rest target not_first s due running h k ready p = p due
let_rest target not_first s due (ok (w, t)) h k ready p =
    let (_, own) = p due in
    let closed : IsClosed t.buf.buf = λ due'. rw ((p due').1.appended) ((p due').1.moved) in
    let here : Extends due due s (record t { buf = s.buf }) = record {
      out = [];
      appended = rw append-nil;
      moved = record { scans = refl };
      outer = own.outer;
      ready = record {
        writes = ready.writes;
        scoped = own.ready.scoped;
        closed = own.ready.closed;
      };
    } in
    Leaves_trans Anything due _ here (
      (write_let-Writes target h due before λ _.
      write_lem _ (moves {s = codes "= &"} record { scans = refl } (closed due)) before λ _.
      k w due).runs
        (record t { buf = s.buf }) here.ready)

pub visit_let_cond-Writes :
    (target : Option Target) (first : Visit DisplayWrap)
    (not_first : DisplayWrap → Visit DisplayWrap)
    → TextsOfOpt target
    → AlwaysWrites first
    → ((w : DisplayWrap) → AlwaysWrites (not_first w))
    → AlwaysWrites (visit_let_cond target first not_first)
unfolding visit_let_cond Buffer.new
visit_let_cond-Writes target first not_first h p k due = record {
  runs = λ s ready.
      let ready' : IsReady (record s { buf = Buffer.new }) = record {
        writes = refl;
        scoped = ready.scoped;
        closed = ready.closed;
      } in
      let_rest target not_first s due (first (record s { buf = Buffer.new })) h k ready
        (λ due'. (p due').runs (record s { buf = Buffer.new }) ready');
}
