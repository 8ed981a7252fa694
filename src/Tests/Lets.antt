-- ===== src/Tests/Lets.antt =====
-- rinja_derive/src/generator/node.rs: `let` on small templates, and the theorems about it.
use rinja.Base.{
  ℕ, true, false, none, some, [], ◌++◌, bytes_eq, ◌∷◌, ◌≡◌, ◌⊎◌, refl, codes, Bytes, if◌then◌else◌,
  ok,
}
use rinja.Buffer as Buffer
use rinja.Parser.Whitespace.{Ws, preserve}
use rinja.Parser.Expr.{int, num_lit, var}
use rinja.Parser.Target.{Target}
use rinja.Parser.Target as Target
use rinja.Parser.Node.{TargetExpr}
use rinja.Parser.Keywords.{normalize_identifier}
use rinja.Generator.{Generator, expr, handle_ws}
use rinja.Generator.Scopes.{initialized, insert, resolve, get, default}
use rinja.Generator.Writables.{unwrapped, write_buf_writable}
use rinja.Generator.Lets.{is_shadowing_variable, Writing, write_let, value_code}
use rinja.Generator.Lets.Kept.{write_let-resolve}
use rinja.Generator.Lets.Declared.{is_new, keyword, assigned, write_let-declares}
use rinja.Generator.Visit.Exprs.{visit_expr}
use rinja.Generator.Visit.Targets.{visit_target}
use rinja.Generator.Cacheable.{is_copyable}
use rinja.Tests.Visiting.{html_input, start}

abbrev no_ws : Ws
no_ws = record { before = none; after = none }

abbrev to_string : ℕ → Bytes
to_string n = codes "0"

abbrev one : TargetExpr
one = num_lit "1" (int "1" none)

abbrev fresh : Generator TargetExpr
fresh = record {
  next_ws = none;
  skip_ws = preserve;
  buf = [];
  discard = false;
  whitespace = preserve;
}

-- `{{ x }}` is buffered, `x` is in scope
abbrev waiting : Writing
waiting = record { visiting = start; generator = record fresh { buf = expr (var "x") ∷ [] } }

-- behind `{% let y = 1 %}`
abbrev behind_y : Writing
behind_y = record {
  visiting = record {
    buf = record { buf = codes "let y = 1;"; discard = false; last_was_write_str = false };
    locals =
        ((codes "x", record { refs = none; initialized = true })
          ∷ (codes "y", record { refs = none; initialized = true })
          ∷ [])
        ∷ [];
  };
  generator = waiting.generator;
}

-- `x` is shadowed by the second name of the tuple, and a literal is refused.
shadows_second :
    is_shadowing_variable start.locals
      (Target.tuple [] (Target.cons (Target.name "y") (Target.cons (Target.name "x") Target.nil)))
    ≡ ok true
unfolding is_shadowing_variable normalize_identifier get
shadows_second = refl

write_let-resolve_example :
    (behind_y.generator.buf ≡ [])
    ⊎ (resolve (codes "x") behind_y.visiting.locals ≡ resolve (codes "x") start.locals)
unfolding write_let visit_expr visit_target handle_ws is_copyable normalize_identifier Buffer.write
    Buffer.new initialized insert get
write_let-resolve_example =
    write_let-resolve html_input to_string no_ws (Target.name "y") one (codes "x") (codes "x")
      (codes "1") unwrapped initialized start waiting behind_y refl refl refl refl refl

-- behind `{% let type %}`, where nothing is buffered
abbrev idle : Writing
idle = record { visiting = start; generator = fresh }

abbrev behind_type : Writing
behind_type = record {
  visiting = record {
    buf = record { buf = codes "let r#type;"; discard = false; last_was_write_str = false };
    locals =
        ((codes "x", record { refs = none; initialized = true })
          ∷ (codes "r#type", record { refs = none; initialized = false })
          ∷ [])
        ∷ [];
  };
  generator = idle.generator;
}

-- The second tag of `{% let type %}{% let type = 1 %}` declares another variable.
write_let-declares_example :
    (u : Writing) × (write_let html_input to_string no_ws
        (Target.name "type")
        (some one)
        behind_type
      ≡ some u)
    × (u.visiting.buf.buf
        ≡ codes "let r#type;"
          ++ (keyword (
                if bytes_eq (codes "type") (codes "r#type")
                then false
                else is_new (codes "type") start.locals)
              ++ (codes "r#type" ++ assigned one (codes "1"))))
    × (get (codes "r#type") u.visiting.locals ≡ some initialized)
unfolding write_let value_code visit_expr visit_target handle_ws normalize_identifier
    write_buf_writable Buffer.write Buffer.new default insert
write_let-declares_example =
    write_let-declares html_input to_string no_ws no_ws "type" (codes "r#type") (codes "1")
      unwrapped one idle behind_type refl refl refl refl
