-- ===== src/Tests/Matching.antt =====
-- `write_buf_writable` of rinja_derive/src/generator/node.rs on a small sequence of items.
use rinja.Base.{
  ℕ, ◌≡◌, refl, Option, none, some, List, [], ◌∷◌, ◌⊎◌, arith, Bytes, codes, if◌then◌else◌, ◌==◌,
}
use rinja.Buffer.{Buffer, Memchr3Iter, new}
use rinja.Buffer.Escape.{places}
use rinja.Buffer.Ask.{code, byte, Means, print, events}
use rinja.Generator.{Writable, lit, expr}
use rinja.Parser.Expr.{Expr, var}
use rinja.Generator.Cacheable.{is_cacheable}
use rinja.Generator.Writables.{display_code, DisplayWrap, wrapped, write_buf_writable}
use rinja.Generator.Writables.Arguments.{start}
use rinja.Generator.Writables.Pieces.{pieces, weight}
use rinja.Generator.Writables.Evaluation.{IsTexts, IsMatch, write_buf_writable-evaluate}

abbrev memchr3_iter : Memchr3Iter
memchr3_iter x y z s = places x y z s 0

abbrev visit_var : Expr ℕ → Option (DisplayWrap × Bytes)
visit_var (var s) = some (wrapped, codes s)
visit_var _ = none

abbrev digit : ℕ → Bytes
digit n = if n == 1 then codes "1" else codes "3"

-- `a{{ x }}b{{ x }}c`: both expressions are one argument.
abbrev items : List (Writable (Expr ℕ))
items = lit (codes "a") ∷ expr (var "x") ∷ lit (codes "b") ∷ expr (var "x") ∷ lit (codes "c") ∷ []

pieces_of_items :
    pieces visit_var [] items
    ≡ some (byte b'a' ∷ code (codes "x") ∷ byte b'b' ∷ code (codes "x") ∷ byte b'c' ∷ [])
unfolding pieces is_cacheable display_code
pieces_of_items = refl

new-Means : Means start new
unfolding new print events
new-Means = record {
  items = [];
  discards = refl;
  prints = refl;
  asked = refl;
  merges = λ h. ground arith;
}

one_argument :
    (b : Buffer) × (write_buf_writable visit_var [] digit memchr3_iter items new ≡ some (b, 9))
    × (b.buf
        ≡ codes
            "__rinja_writer.write_str(\"a\")?;match (&(x),) {(expr1,) => {(&&rinja::filters::Writable(expr1)).rinja_write(__rinja_writer)?;__rinja_writer.write_str(\"b\")?;(&&rinja::filters::Writable(expr1)).rinja_write(__rinja_writer)?;}}__rinja_writer.write_str(\"c\")?;")
unfolding write_buf_writable places new is_cacheable
one_argument = (_, refl, refl)

write_buf_writable-evaluate_example :
    (r : Buffer × ℕ) × (write_buf_writable visit_var [] digit memchr3_iter items new ≡ some r)
    × (IsTexts
          (byte b'a' ∷ code (codes "x") ∷ byte b'b' ∷ code (codes "x") ∷ byte b'c' ∷ [])
          start
          (r.0)
        ⊎ IsMatch digit
            (byte b'a' ∷ code (codes "x") ∷ byte b'b' ∷ code (codes "x") ∷ byte b'c' ∷ [])
            start
            (r.0))
    × (r.1 ≡ weight items)
write_buf_writable-evaluate_example =
    write_buf_writable-evaluate (record { finds = λ x y z s. refl }) visit_var [] digit items
      (byte b'a' ∷ code (codes "x") ∷ byte b'b' ∷ code (codes "x") ∷ byte b'c' ∷ []) pieces_of_items
      start new new-Means
