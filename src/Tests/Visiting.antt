-- ===== src/Tests/Visiting.antt =====
-- rinja_derive/src/generator/expr.rs: the code of small expressions, and the theorems about it.
use rinja.Base.{
  Bytes, ◌⊎◌, true, false, none, some, [], ◌∷◌, ◌≡◌, refl, codes, String, if◌then◌else◌, ok,
}
use rinja.Buffer as Buffer
use rinja.Buffer.{Memchr3Iter}
use rinja.Buffer.Escape.{places}
use rinja.Filters.Escape.{html}
use rinja.Parser.Target.{Target}
use rinja.Parser.Target as Target
use rinja.Parser.Node.{TargetExpr}
use rinja.Parser.Expr.{int, num_lit, str_lit, var, index, filter, bin_op, let_cond, nil, cons}
use rinja.Parser.Keywords.{normalize_identifier}
use rinja.Generator.{lit}
use rinja.Generator.Writables.{wrapped, unwrapped}
use rinja.Generator.Scopes.{initialized, resolve, insert, resolve_or_self}
use rinja.Generator.Visit.Filters.{visit_escape_filter}
use rinja.Generator.Visit.Balance.Targets.{TextsOfTarget}
use rinja.Generator.Scopes.Laws.{insert_all}
use rinja.Generator.Visit.{Visiting, Input}
use rinja.Generator.Visit.Escape.{compile_time_escape}
use rinja.Generator.Visit.Escape.Displayed.{Displays}
use rinja.Generator.Visit.Escape.Runtime.{
  path_of, escaped_at_run_time, compile_time_escape-run_time,
}
use rinja.Generator.Visit.Targets.{visit_target, visit_rest}
use rinja.Generator.Visit.Exprs.{visit_expr, visit_condition, visit_expr_root}
use rinja.Generator.Visit.Bindings.{bindings}
use rinja.Generator.Visit.Bindings.Names.{visit_target-bindings, visit_rest-resolve}
use rinja.Generator.Visit.Wrapping.{is_safe}
use rinja.Generator.Visit.Wrapping.Exprs.{visit_expr-is_safe}
use rinja.Generator.Visit.Balance.{scan}
use rinja.Generator.Visit.Balance.Rules.{IsReady, Leaves, Anything}
use rinja.Generator.Visit.Balance.Arguments.{IsInput}
use rinja.Generator.Visit.Balance.Texts.{Texts}
use rinja.Generator.Visit.Balance.Exprs.{visit_expr-Leaves}

abbrev memchr3_iter : Memchr3Iter
memchr3_iter x y z s = places x y z s 0

abbrev pub html_input : Input
html_input = record {
  escaper = codes "rinja::filters::Html";
  escapers = (codes "html" ∷ [], codes "rinja::filters::Html") ∷ [];
  fields = codes "name" ∷ [];
  alloc = true;
  urlencode = true;
  serde_json = false;
  from_str_radix = λ kind text. none;
  int_to_string = λ n. [];
  float_to_string = λ kind text. none;
  lit_str = λ content. none;
  lit_char = λ content. none;
  memchr3_iter = memchr3_iter;
}

abbrev pub start : Visiting
start = record {
  buf = record { buf = []; discard = false; last_was_write_str = false };
  locals = ((codes "x", record { refs = none; initialized = true }) ∷ []) ∷ [];
}

-- `name|escape + (xs[0])`, and `if let Some(x) = name && x`
abbrev sum : TargetExpr
sum =
    bin_op "+" (filter "escape" (cons (var "name") nil))
      (index (var "xs") (num_lit "0" (int "0" none)))

abbrev condition : TargetExpr
condition =
    let_cond (some (Target.tuple ("Some" ∷ []) (Target.cons (Target.name "y") Target.nil)))
      (bin_op "&&" (var "name") (var "y")) false

html_input-IsInput : IsInput html_input
unfolding scan places
html_input-IsInput = record {
  escaper_closed = λ due. record { scans = refl };
  escapers_closed = ((λ due. record { scans = refl }), tt);
  memchr = record { finds = λ x y z s. refl };
}

start-IsReady : IsReady start
start-IsReady = record { writes = refl; scoped = refl; closed = ((tt, tt), tt) }

condition-Texts : Texts condition
unfolding Texts TextsOfTarget scan
condition-Texts = (
  (((λ due. record { scans = refl }), tt), ((λ due. record { scans = refl }), tt)),
  (
    (λ due. record { scans = refl }),
    (λ due. record { scans = refl }),
    (λ due. record { scans = refl }),
  ),
)

visit_sum :
    visit_expr_root html_input sum start
    ≡ ok (codes "rinja::filters::escape(&(self.name), rinja::filters::Html)? + &self.xs[0]", start)
unfolding visit_expr_root visit_escape_filter resolve_or_self normalize_identifier Buffer.write
    Buffer.new
visit_sum = refl

visit_expr-Leaves_example :
    Leaves Anything (b')' ∷ []) (b')' ∷ []) start (visit_expr html_input condition start)
    × Leaves Anything
        (b')' ∷ [])
        (b')' ∷ [])
        start
        (visit_condition html_input condition (visit_expr html_input condition) start)
visit_expr-Leaves_example =
    visit_expr-Leaves html_input html_input-IsInput condition (b')' ∷ []) start condition-Texts
      start-IsReady

abbrev written : String → Visiting
written text = record start {
  buf = record { buf = codes text; discard = false; last_was_write_str = false };
}

visit_expr-is_safe_example :
    wrapped ≡ (if is_safe (filter "escape" (cons (var "x") nil)) then wrapped else unwrapped)
unfolding visit_expr visit_escape_filter resolve_or_self normalize_identifier Buffer.write
visit_expr-is_safe_example =
    visit_expr-is_safe html_input (filter "escape" (cons (var "x") nil)) start
      (written "rinja::filters::escape(&(x), rinja::filters::Html)?") wrapped refl

-- `Some(y)`, with `y` in scope behind it
abbrev behind_some : Visiting
behind_some = record {
  buf = record { buf = codes "Some(y,)"; discard = false; last_was_write_str = false };
  locals =
      ((codes "x", record { refs = none; initialized = true })
        ∷ (codes "y", record { refs = none; initialized = true })
        ∷ [])
      ∷ [];
}

abbrev some_y : Target
some_y = Target.tuple ("Some" ∷ []) (Target.cons (Target.name "y") Target.nil)

visit_target-bindings_example :
    insert_all (bindings true some_y) start.locals ≡ some behind_some.locals
unfolding visit_target normalize_identifier Buffer.write Buffer.write_separated_path initialized
    insert
visit_target-bindings_example = visit_target-bindings true true some_y start behind_some refl

abbrev behind_type : Visiting
behind_type = record {
  buf = record { buf = codes "type @ .."; discard = false; last_was_write_str = false };
  locals =
      ((codes "x", record { refs = none; initialized = true })
        ∷ (codes "type", record { refs = none; initialized = true })
        ∷ [])
      ∷ [];
}

visit_rest-resolve_example :
    resolve (codes "type") behind_type.locals ≡ resolve (codes "type") start.locals
unfolding visit_rest normalize_identifier Buffer.write initialized insert
visit_rest-resolve_example =
    visit_rest-resolve (codes "type") (codes "r#type") start behind_type refl refl refl

abbrev less : TargetExpr
less = str_lit record { prefix = none; content = "a<b" }

compile_time_escape-run_time_example :
    ((v : Bytes) × Displays html_input less v
      × (s : Bytes) × (escaped_at_run_time html v ≡ some s)
      × (compile_time_escape html_input less (path_of html) ≡ some (lit s)))
    ⊎ ((¬ ((v : Bytes) × Displays html_input less v))
        × (compile_time_escape html_input less (path_of html) ≡ none))
compile_time_escape-run_time_example = compile_time_escape-run_time html_input less html
