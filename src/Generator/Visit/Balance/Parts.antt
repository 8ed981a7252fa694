-- ===== src/Generator/Visit/Balance/Parts.antt =====
-- rinja_derive/src/generator/expr.rs: what the visitors of expressions do around the expressions
-- inside writes closed code, where the visitors of those do.
use rinja.Base.{
  ℕ, ◌+◌, Option, none, some, List, [], ◌∷◌, refl, String, Bytes, codes, ltb, All, str_eq,
}
use rinja.Parser.Node.{TargetExpr}
use rinja.Parser.Expr.{var, attr}
use rinja.Generator.Writables.{DisplayWrap, unwrapped}
use rinja.Generator.Visit.{Visit, Input}
use rinja.Generator.Visit.Arguments.{Arg}
use rinja.Generator.Visit.Parts.{
  is_loop, loop_attr, visit_attr, cycle_end, is_empty_array, loop_cycle, loop_method, write_callee,
  visit_callee, call_callee, visit_call, tuple_items, array_items, visit_exprs_of,
}
use rinja.Generator.Visit.Balance.{IsClosed, scan, moves}
use rinja.Generator.Visit.Balance.Rules.{
  RefIsClosed, Writes, bind, ◌before◌, pure_lem, refuse_lem, write_lem, when_lem, choose,
}
use rinja.Generator.Visit.Balance.Leaves.{resolve-Emits, normal-Emits, done}
use rinja.Generator.Visit.Balance.Texts.{Texts}
use rinja.Generator.Visit.Balance.Arguments.{IsInput, ArgWrites, args-Writes}

-- At any brackets that are due.
abbrev pub AlwaysWrites : {A : Type 0} → Visit A → Type 0
AlwaysWrites m = (due : List ℕ) → Writes due due m

loop_attr-Writes : (field : String) → AlwaysWrites (loop_attr field)
unfolding loop_attr scan
loop_attr-Writes field due =
    choose (str_eq field "index") (done unwrapped (write_lem _ record { scans = refl })) (
      choose (str_eq field "index0") (done unwrapped (write_lem _ record { scans = refl })) (
        choose (str_eq field "first") (done unwrapped (write_lem _ record { scans = refl })) (
          choose (str_eq field "last") (done unwrapped (write_lem _ record { scans = refl }))
            (refuse_lem _))))

pub visit_attr-Writes :
    (obj : TargetExpr) (field : String) (visit_obj : Visit DisplayWrap)
    → IsClosed (codes field)
    → AlwaysWrites visit_obj
    → AlwaysWrites (visit_attr obj field visit_obj)
unfolding visit_attr scan
visit_attr-Writes obj field visit_obj h k due = choose (is_loop obj) (loop_attr-Writes field due) (
    k due before λ _. bind (normal-Emits (codes field) h) λ name closed.
      done unwrapped (write_lem _ (moves {s = codes "."} record { scans = refl } (closed due))))

module _ (input : Input) where
  loop_cycle-Writes :
      (args : List Arg) → All (ArgWrites input) args → AlwaysWrites (loop_cycle args)
  unfolding loop_cycle scan
  loop_cycle-Writes [] h due = refuse_lem _
  loop_cycle-Writes (arg ∷ []) (h, _) due = choose (is_empty_array arg.value) (refuse_lem _) (
      write_lem (codes "({let _cycle = &(") record { scans = refl } before λ _.
      h.expr_writes (b')' ∷ b'}' ∷ b')' ∷ due) before λ _.
      done unwrapped (write_lem cycle_end record { scans = refl }))
  loop_cycle-Writes (_ ∷ _ ∷ _) h due = refuse_lem _

  loop_method-Writes :
      (method : String) (args : List Arg)
      → All (ArgWrites input) args
      → AlwaysWrites (loop_method method args)
  unfolding loop_method
  loop_method-Writes method args h due =
      choose (str_eq method "cycle") (loop_cycle-Writes args h due) (refuse_lem _)

  write_callee-Writes :
      (name : Bytes) (resolved : Option Bytes)
      → IsClosed name
      → RefIsClosed resolved
      → AlwaysWrites (write_callee name resolved)
  unfolding write_callee scan
  write_callee-Writes name none h k due =
      bind (normal-Emits name h) λ normal closed.
        write_lem _ (moves {s = codes "self."} record { scans = refl } (closed due))
  write_callee-Writes name (some text) h k due = write_lem text (k due)

  visit_callee-Writes :
      (left : TargetExpr) (visit_left : Visit DisplayWrap)
      → Texts left
      → AlwaysWrites visit_left
      → AlwaysWrites (visit_callee left visit_left)
  unfolding visit_callee Texts
  visit_callee-Writes (var name) visit_left h k due =
      bind (resolve-Emits (codes name) h)
        λ resolved closed. write_callee-Writes (codes name) resolved h closed due
  visit_callee-Writes _ visit_left h k due = done tt (k due)

  module _ (is : IsInput input) (args : List Arg) (l : All (ArgWrites input) args) where
    call_callee-Writes :
        (left : TargetExpr) (visit_left : Visit DisplayWrap)
        → Texts left
        → AlwaysWrites visit_left
        → AlwaysWrites (call_callee left visit_left args)
    unfolding call_callee scan
    call_callee-Writes left visit_left h k due =
        visit_callee-Writes left visit_left h k due before λ _.
        write_lem (codes "(") record { scans = refl } before λ _.
        args-Writes input is args l before λ _.
        done unwrapped (write_lem (codes ")") record { scans = refl })

    pub visit_call-Writes :
        (left : TargetExpr) (visit_left : Visit DisplayWrap)
        → Texts left
        → AlwaysWrites visit_left
        → AlwaysWrites (visit_call left visit_left args)
    unfolding visit_call
    visit_call-Writes (attr sub_left method) visit_left h k due =
        choose (is_loop sub_left) (loop_method-Writes method args l due)
          (call_callee-Writes (attr sub_left method) visit_left h k due)
    visit_call-Writes left visit_left h k due = call_callee-Writes left visit_left h k due

  pub tuple_items-Writes :
      (i : ℕ) (args : List Arg) → All (ArgWrites input) args → AlwaysWrites (tuple_items i args)
  unfolding tuple_items scan
  tuple_items-Writes i [] h due = pure_lem tt tt
  tuple_items-Writes i (arg ∷ args) (own, others) due =
      when_lem (ltb 0 i) (write_lem (codes " ") record { scans = refl }) before λ _.
      own.expr_writes due before λ _. write_lem (codes ",") record { scans = refl } before λ _.
      tuple_items-Writes (i + 1) args others due

  pub array_items-Writes :
      (i : ℕ) (args : List Arg) → All (ArgWrites input) args → AlwaysWrites (array_items i args)
  unfolding array_items scan
  array_items-Writes i [] h due = pure_lem tt tt
  array_items-Writes i (arg ∷ args) (own, others) due =
      when_lem (ltb 0 i) (write_lem (codes ",") record { scans = refl }) before λ _.
      own.expr_writes due before λ _. array_items-Writes (i + 1) args others due

  pub visit_exprs_of-Writes :
      (args : List Arg) → All (ArgWrites input) args → All AlwaysWrites (visit_exprs_of args)
  unfolding visit_exprs_of
  visit_exprs_of-Writes [] h = tt
  visit_exprs_of-Writes (arg ∷ args) (own, others) =
      (own.expr_writes, visit_exprs_of-Writes args others)
