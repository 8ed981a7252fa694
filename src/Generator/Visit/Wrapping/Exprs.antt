-- ===== src/Generator/Visit/Wrapping/Exprs.antt =====
-- rinja_derive/src/generator/expr.rs: which expressions are reported as escaped already.
use rinja.Base.{
  false, Option, List, ◌++◌, ◌≡◌, refl, arith, String, if◌then◌else◌, codes, Outcome, ok, err,
  running,
}
use rinja.Buffer as Buffer
use rinja.Parser.Target.{Target}
use rinja.Parser.Node.{TargetExpr}
use rinja.Parser.Expr.{attr, filter, unary, bin_op, range, call, concat, let_cond, nil, cons}
use rinja.Generator.Writables.{DisplayWrap, wrapped, unwrapped}
use rinja.Generator.Visit.{Failure, Visit, Visiting, Input, ◌>>◌, pure, write}
use rinja.Generator.Visit.Leaves.{
  visit_path, visit_var, visit_filter_source, visit_bool_lit, visit_str_lit, visit_char_lit,
  visit_num_lit, visit_rust_macro, visit_is_defined,
}
use rinja.Generator.Visit.Arguments.{Arg}
use rinja.Generator.Visit.Parts.{
  is_and_or, is_loop, loop_attr, visit_attr, loop_cycle, loop_method, call_callee, visit_call,
  visit_concat, visit_exprs_of, visit_let_cond, write_let, opt_visit,
}
use rinja.Generator.Visit.Exprs.{
  visit_expr, visit_expr_first, visit_expr_not_first, visit_all, visit_opt,
}
use rinja.Generator.Visit.Wrapping.{wrap_if, is_safe, is_safe_cond, Gives, bind, Is, chosen}
use rinja.Generator.Visit.Wrapping.Filters.{filter-Gives}

visit_attr-Gives :
    (obj : TargetExpr) (field : String) (m : Visit DisplayWrap)
    → Gives (Is unwrapped) (visit_attr obj field m)
unfolding visit_attr loop_attr
visit_attr-Gives obj field m = record { gives = λ s a t e. ground arith }

call_callee-Gives :
    (left : TargetExpr) (m : Visit DisplayWrap) (args : List Arg)
    → Gives (Is unwrapped) (call_callee left m args)
unfolding call_callee
call_callee-Gives left m args = record { gives = λ s a t e. ground arith }

loop_method-Gives :
    (method : String) (args : List Arg) → Gives (Is unwrapped) (loop_method method args)
unfolding loop_method loop_cycle
loop_method-Gives method args = record { gives = λ s a t e. ground arith }

visit_call-Gives :
    (left : TargetExpr) (m : Visit DisplayWrap) (args : List Arg)
    → Gives (Is unwrapped) (visit_call left m args)
unfolding visit_call
visit_call-Gives (attr sub_left method) m args =
    chosen (is_loop sub_left) (λ _. loop_method-Gives method args)
      (λ _. call_callee-Gives (attr sub_left method) m args)
visit_call-Gives left m args = call_callee-Gives left m args

after_three :
    {A B C : Type 0} (l : Visit A) (m : Visit B) (n : Visit C)
    → Gives (Is unwrapped) (l >> (m >> (n >> pure unwrapped)))
after_three l m n = record { gives = λ s a t e. ground arith }

anything : {A : Type 0} (m : Visit A) → Gives (λ (a : A). Unit {0}) m
anything m = record { gives = λ s a t e. tt }

let_rest :
    (target : Option Target) (P Q : DisplayWrap → Type 0)
    (not_first : DisplayWrap → Visit DisplayWrap) (s u : Visiting) (a : DisplayWrap)
    (r : Outcome Failure (DisplayWrap × Visiting))
    → ((w : DisplayWrap) (t : Visiting) → r ≡ ok (w, t) → P w)
    → ((w : DisplayWrap) → P w → Gives Q (not_first w))
    → (elim r [
      | ok (display_wrap, t) ↦
          (write_let target >> (write (codes "= &" ++ t.buf.buf) >> not_first display_wrap))
            (record t { buf = s.buf })
      | err e ↦ err e
      | running ↦ running
    ])
      ≡ ok (a, u)
    → Q a
let_rest target P Q not_first s u a (ok (w, t)) h k e =
    (bind _ (anything (write_let target))
        λ _ _. bind _ (anything (write (codes "= &" ++ t.buf.buf))) λ _ _. k w (h w t refl)).gives
      (record t { buf = s.buf }) a u e
let_rest target P Q not_first s u a (err x) h k e = absurd (ground arith)
let_rest target P Q not_first s u a running h k e = absurd (ground arith)

let_cond-Gives :
    (target : Option Target) (P Q : DisplayWrap → Type 0) (first : Visit DisplayWrap)
    (not_first : DisplayWrap → Visit DisplayWrap)
    → Gives P first
    → ((w : DisplayWrap) → P w → Gives Q (not_first w))
    → Gives Q (visit_let_cond target first not_first)
unfolding visit_let_cond
let_cond-Gives target P Q first not_first h k = record {
  gives = λ s a u e.
      let_rest target P Q not_first s u a (first (record s { buf = Buffer.new }))
        (λ w t. h.gives (record s { buf = Buffer.new }) w t) k e;
}

-- What `visit_expr_first` returns, as far as `visit_expr_not_first` passes it on.
FirstGives : TargetExpr → DisplayWrap → Type 0
FirstGives (bin_op op l r) w = is_and_or op ≡ false → w ≡ unwrapped
FirstGives (unary op e) w = FirstGives e w
FirstGives e w = w ≡ wrap_if (is_safe_cond e)

not_first-Gives :
    (input : Input) (e : TargetExpr) (w : DisplayWrap)
    → FirstGives e w
    → Gives (Is (wrap_if (is_safe_cond e))) (visit_expr_not_first input e w)
unfolding FirstGives is_safe_cond visit_expr_not_first
not_first-Gives input (bin_op op l r) w h = record { gives = λ s a t e. ground arith }
not_first-Gives input (unary op e) w h = not_first-Gives input e w h
not_first-Gives input e w h = record { gives = λ s a t e. ground arith }

mutual
  unfolding visit_expr visit_expr_first visit_concat visit_exprs_of visit_all is_safe is_safe_cond
      FirstGives visit_path visit_var visit_filter_source visit_bool_lit visit_str_lit
      visit_char_lit visit_num_lit visit_rust_macro visit_is_defined

  expr-Gives :
      (input : Input) (e : TargetExpr) → Gives (Is (wrap_if (is_safe e))) (visit_expr input e)
  expr-Gives input (filter name args) = filter-Gives input name (visit_all input args)
  expr-Gives input (attr obj name) = visit_attr-Gives obj name (visit_expr input obj)
  expr-Gives input (call left args) =
      visit_call-Gives left (visit_expr input left) (visit_all input args)
  expr-Gives input (range op left right) =
      after_three (opt_visit (visit_opt input left)) (write (codes op))
        (opt_visit (visit_opt input right))
  expr-Gives input (concat nil) = record { gives = λ s a t e. ground arith }
  expr-Gives input (concat (cons e nil)) = record { gives = (expr-Gives input e).gives }
  expr-Gives input (concat (cons e (cons e' es))) = record { gives = λ s a t e. ground arith }
  expr-Gives input (let_cond target e b) =
      let_cond-Gives target (FirstGives e) (Is (wrap_if (is_safe_cond e)))
        (visit_expr_first input e (visit_expr input e)) (visit_expr_not_first input e)
        (first-Gives input e (visit_expr input e) (expr-Gives input e)) (not_first-Gives input e)
  expr-Gives input _ = record { gives = λ s a t e. ground arith }

  first-Gives :
      (input : Input) (e : TargetExpr) (this : Visit DisplayWrap)
      → Gives (Is (wrap_if (is_safe e))) this
      → Gives (FirstGives e) (visit_expr_first input e this)
  first-Gives input (bin_op op l r) this h = record {
    gives = λ s a t e not_logical. ground (arith, h.gives s a t);
  }
  first-Gives input (unary op e) this h =
      bind _ (anything (write (codes op)))
        λ _ _. first-Gives input e (visit_expr input e) (expr-Gives input e)
  first-Gives input (concat nil) this h = h
  first-Gives input (concat (cons e nil)) this h = h
  first-Gives input (concat (cons e (cons e' es))) this h = h
  first-Gives input e this h = h

-- For every expression and state: what the visitor returns, where it returns, says that the code is
-- escaped already exactly where the expression is of these forms.
pub visit_expr-is_safe :
    (input : Input) (e : TargetExpr) (s t : Visiting) (w : DisplayWrap)
    → visit_expr input e s ≡ ok (w, t)
    → w ≡ (if is_safe e then wrapped else unwrapped)
visit_expr-is_safe input e s t w h = (expr-Gives input e).gives s w t h
