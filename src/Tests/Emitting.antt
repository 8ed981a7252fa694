-- ===== src/Tests/Emitting.antt =====
-- Conditions and branches of rinja_derive/src/generator/node.rs and the buffer of
-- rinja_derive/src/integration.rs on small inputs.
use rinja.Base.{
  ℕ, Bool, true, false, none, some, String, List, [], ◌∷◌, ◌++◌, ◌≡◌, refl, arith, Bytes, codes,
  str_eq, All,
}
use rinja.Parser.Whitespace.{Ws}
use rinja.Parser.Expr.{contains_bool_lit_or_is_defined, Expr, unary, bin_op, is_defined, var}
use rinja.Generator.Condition.{Cond, evaluate_condition, compute_branches}
use rinja.Generator.Condition.Sound.{Agrees, eval, evaluate_condition-Agrees}
use rinja.Generator.Condition.Shortcut.{IsUnchanged, evaluate_condition-IsUnchanged}
use rinja.Generator.Condition.Branches.{IsPlain, choose, choose_info, compute_branches-choose}
use rinja.Buffer.{Buffer, Memchr3Iter, quote, string_escape, new}
use rinja.Buffer.Escape.{places}
use rinja.Buffer.Literal.{read_literal, read_literal-string_escape}
use rinja.Buffer.Ask.{Op, write_code, write_text, write_path, discard, ask_all, apply_all, Means}
use rinja.Buffer.Merge.{apply_all-ask_all}

abbrev is_x : String → Bool
is_x v = str_eq v "x"

abbrev yes : Expr ℕ → Bool
yes e = true

-- `!(x is defined) || y`
abbrev test : Expr ℕ
test = bin_op "||" (unary "!" (is_defined "x")) (var "y")

evaluate_condition-Agrees_example :
    Agrees is_x yes (eval is_x yes test) (evaluate_condition is_x test true)
evaluate_condition-Agrees_example = evaluate_condition-Agrees is_x yes test true

abbrev no_ws : Ws
no_ws = record { before = none; after = none }

abbrev branches : List (Cond ℕ ℕ)
branches =
    record {
      ws = no_ws;
      cond = some record {
        target = none;
        expr = unary "!" (is_defined "x");
        contains_bool_lit_or_is_defined = true;
      };
      nodes = 1;
    }
    ∷ record {
      ws = no_ws;
      cond = some record { target = none; expr = test; contains_bool_lit_or_is_defined = true };
      nodes = 2;
    }
    ∷ record { ws = no_ws; cond = none; nodes = 3 }
    ∷ []

plain : All IsPlain branches
plain = ((λ t e c. ground arith), ((λ t e c. ground arith), ((λ t e c. ground arith), tt)))

compute_branches-choose_example :
    choose_info is_x yes (λ t e. false) (compute_branches is_x branches).conds
    ≡ choose is_x yes (λ t e. false) branches
compute_branches-choose_example = compute_branches-choose is_x yes (λ t e. false) branches plain

abbrev memchr3_iter : Memchr3Iter
memchr3_iter x y z s = places x y z s 0

abbrev quoted : Bytes
quoted = codes "say \"a\\b\""

read_literal-string_escape_example :
    (out : Bytes) × (string_escape memchr3_iter (codes "(") quoted ≡ some (codes "(" ++ out))
    × (read_literal false (out ++ quote ∷ codes ")?;") ≡ some (quoted, codes ")?;"))
read_literal-string_escape_example =
    read_literal-string_escape (record { finds = λ x y z s. refl }) (codes "(") quoted (codes ")?;")

abbrev calls : List Op
calls =
    write_text (codes "a\"")
    ∷ write_text (codes "b")
    ∷ write_code (codes "f();")
    ∷ discard true
    ∷ write_text (codes "c")
    ∷ discard false
    ∷ write_path (codes "std" ∷ codes "fmt" ∷ [])
    ∷ []

prints_merged :
    apply_all memchr3_iter calls new
    ≡ some record {
      buf = codes "__rinja_writer.write_str(\"a\\\"b\")?;f();std::fmt";
      discard = false;
      last_was_write_str = false;
    }
unfolding apply_all places new
prints_merged = refl

apply_all-ask_all_example :
    (b : Buffer) × (apply_all memchr3_iter calls new ≡ some b)
    × Means (ask_all calls record { discarding = false; wanted = [] }) b
apply_all-ask_all_example = apply_all-ask_all (record { finds = λ x y z s. refl }) calls

evaluate_condition-IsUnchanged_example :
    IsUnchanged {T = ℕ} is_x
      (bin_op "&&" (unary "!" (var "a")) (var "b"))
      (evaluate_condition is_x (bin_op "&&" (unary "!" (var "a")) (var "b")) true)
unfolding contains_bool_lit_or_is_defined
evaluate_condition-IsUnchanged_example =
    evaluate_condition-IsUnchanged is_x (bin_op "&&" (unary "!" (var "a")) (var "b")) true refl
