-- ===== src/Generator/Writables/Pieces.antt =====
-- What the buffered items of `write_buf_writable` (rinja_derive/src/generator/node.rs) are to write.
use mathlib.Core.List.{map}
use rinja.Base.{
  ℕ, ◌+◌, ◌≡◌, refl, Bool, Option, some, List, [], ◌∷◌, ◌++◌, ◌∙◌, ap, Bytes, length, ◌>>=◌, arith,
  append_assoc, Option-cases, inl, inr,
}
use rinja.Buffer.Ask.{byte, Event}
use rinja.Generator.{Writable, lit, expr}
use rinja.Generator.Cacheable.{is_cacheable}
use rinja.Parser.Expr.{Expr}
use rinja.Generator.Writables.{DisplayWrap, display_code, leading, behind_leading}
use rinja.Generator.Writables.Plan.{bytes_of}
use rinja.Generator.Writables.Arguments.{total}

unfoldable pub weight : {T : Type 0} → List (Writable (Expr T)) → ℕ
weight [] = 0
weight (lit s ∷ items) = length s + weight items
weight (expr e ∷ items) = 3 + weight items

module _ {T : Type 0} (visit_expr : Expr T → Option (DisplayWrap × Bytes)) (escaper : Bytes) where
  -- What is to be written: the bytes of the literals and the code of the expressions, where every
  -- expression can be visited.
  unfoldable pub pieces : List (Writable (Expr T)) → Option (List Event)
  pieces [] = some []
  pieces (lit s ∷ items) = do es ← pieces items; some (map byte s ++ es)
  pieces (expr e ∷ items) = do
    displayed ← visit_expr e
    cacheable ← is_cacheable e
    es ← pieces items
    some (Event.code (display_code escaper displayed) ∷ es)

  pub pieces_nil : (es : List Event) → pieces [] ≡ some es → [] ≡ es
  unfolding pieces
  pieces_nil es h = cc

  pub pieces_lit :
      (l : Bytes) (items : List (Writable (Expr T))) (es : List Event)
      → pieces (lit l ∷ items) ≡ some es
      → (rest : List Event) × (pieces items ≡ some rest) × (map byte l ++ rest ≡ es)
  unfolding pieces
  pieces_lit l items es h = elim (Option-cases (pieces items)) [
    | inl e ↦ ground arith
    | inr (rest, e) ↦ (rest, e, ground arith)
  ]

  pub pieces_expr :
      (e : Expr T) (items : List (Writable (Expr T))) (es : List Event)
      → pieces (expr e ∷ items) ≡ some es
      → (displayed : DisplayWrap × Bytes) × (cacheable : Bool) × (rest : List Event) × (visit_expr e
          ≡ some displayed)
        × (is_cacheable e ≡ some cacheable)
        × (pieces items ≡ some rest)
        × (Event.code (display_code escaper displayed) ∷ rest ≡ es)
  unfolding pieces
  pieces_expr e items es h = elim (Option-cases (visit_expr e)) [
    | inl v ↦ ground arith
    | inr (displayed, v) ↦ elim (Option-cases (is_cacheable e)) [
      | inl c ↦ ground arith
      | inr (cacheable, c) ↦ elim (Option-cases (pieces items)) [
        | inl p ↦ ground arith
        | inr (rest, p) ↦ (displayed, cacheable, rest, v, c, p, ground arith)
      ]
    ]
  ]

-- The items behind the leading literals write what these leave.
pub pieces-behind_leading :
    {T : Type 0} (visit_expr : Expr T → Option (DisplayWrap × Bytes)) (escaper : Bytes)
    (items : List (Writable (Expr T))) (es : List Event)
    → pieces visit_expr escaper items ≡ some es
    → (rest : List Event) × (pieces visit_expr escaper (behind_leading items) ≡ some rest)
      × (bytes_of (leading items) ++ rest ≡ es)
      × (total (leading items) + weight (behind_leading items) ≡ weight items)
unfolding leading behind_leading bytes_of total weight
pieces-behind_leading visit_expr escaper [] es h = (es, h, refl, omega arith)
pieces-behind_leading visit_expr escaper (expr e ∷ items) es h = (es, h, refl, omega arith)
pieces-behind_leading visit_expr escaper (lit l ∷ items) es h =
    let (rest, e, same) = pieces_lit visit_expr escaper l items es h in
    let (rest', e', same', sizes) = pieces-behind_leading visit_expr escaper items rest e in
    (
      rest',
      e',
      append_assoc (map byte l) (bytes_of (leading items)) rest'
          ∙ (ap (λ es. map byte l ++ es) same' ∙ same),
      omega (arith, sizes),
    )
