-- ===== src/Parser/Syntax/Valid.antt =====
-- Which delimiters `SyntaxBuilder::to_syntax` of rinja_parser/src/lib.rs accepts.
use rinja.Base.{
  codes, String, true, false, Option, none, some, ◌≡◌, refl, ap, ◌∙◌, ◌⊎◌, inl, inr, arith, All,
}
use rinja.Parser.Syntax.{
  Chars, InnerSyntax, SyntaxBuilder, Kind, block, expression, comment, SyntaxError, clash,
  first_error, delimiters, pairs, fill, outcome, to_syntax, unwrap_or,
}
use rinja.Parser.Syntax.Delimiters.{
  IsOpening, IsClosing, AreApart, IsDelimiter, IsApart, first_error-Decides, check-Decides,
  clash-Decides,
}

-- What all six delimiters have to be.
pub record IsSyntax (syntax : InnerSyntax) : Type 0 where
  pub opens_block : IsOpening syntax.block_start
  pub closes_block : IsClosing syntax.block_end
  pub opens_expr : IsOpening syntax.expr_start
  pub closes_expr : IsClosing syntax.expr_end
  pub opens_comment : IsOpening syntax.comment_start
  pub closes_comment : IsClosing syntax.comment_end
  pub block_or_expr : AreApart syntax.block_start syntax.expr_start
  pub block_or_comment : AreApart syntax.block_start syntax.comment_start
  pub expr_or_comment : AreApart syntax.expr_start syntax.comment_start

-- A delimiter as it is configured, or else the one of the default.
abbrev pub IsGiven : Option Chars → String → Chars → Type 0
IsGiven given default s = (given ≡ some s) ⊎ ((given ≡ none) × (s ≡ codes default))

pub record IsFilled (b : SyntaxBuilder) (syntax : InnerSyntax) : Type 0 where
  pub block_start : IsGiven b.block_start "{%" syntax.block_start
  pub block_end : IsGiven b.block_end "%}" syntax.block_end
  pub expr_start : IsGiven b.expr_start "{{" syntax.expr_start
  pub expr_end : IsGiven b.expr_end "}}" syntax.expr_end
  pub comment_start : IsGiven b.comment_start "{#" syntax.comment_start
  pub comment_end : IsGiven b.comment_end "#}" syntax.comment_end

unwrap_or-IsGiven :
    (given : Option Chars) (default : String)
    → IsGiven given default (unwrap_or given (codes default))
unwrap_or-IsGiven none default = inr (refl, refl)
unwrap_or-IsGiven (some s) default = inl refl

fill-IsFilled : (b : SyntaxBuilder) → IsFilled b (fill b)
unfolding fill
fill-IsFilled b = record {
  block_start = unwrap_or-IsGiven b.block_start "{%";
  block_end = unwrap_or-IsGiven b.block_end "%}";
  expr_start = unwrap_or-IsGiven b.expr_start "{{";
  expr_end = unwrap_or-IsGiven b.expr_end "}}";
  comment_start = unwrap_or-IsGiven b.comment_start "{#";
  comment_end = unwrap_or-IsGiven b.comment_end "#}";
}

abbrev Passes : InnerSyntax → Type 0
Passes syntax = All IsDelimiter (delimiters syntax) × All IsApart (pairs syntax)

passes-IsSyntax : (syntax : InnerSyntax) → Passes syntax → IsSyntax syntax
unfolding delimiters pairs
passes-IsSyntax syntax
      ((bs, (be, (es, (ee, (cs, (ce, _)))))), (be_apart, (bc_apart, (ec_apart, _)))) =
    record {
      opens_block = bs.0;
      closes_block = (be.0, be.1 refl);
      opens_expr = es.0;
      closes_expr = (ee.0, ee.1 refl);
      opens_comment = cs.0;
      closes_comment = (ce.0, ce.1 refl);
      block_or_expr = be_apart;
      block_or_comment = bc_apart;
      expr_or_comment = ec_apart;
    }

IsSyntax-passes : (syntax : InnerSyntax) → IsSyntax syntax → Passes syntax
unfolding delimiters pairs
IsSyntax-passes syntax v = (
  (
    opening block v.opens_block,
    (
      closing block v.closes_block,
      (
        opening expression v.opens_expr,
        (
          closing expression v.closes_expr,
          (opening comment v.opens_comment, (closing comment v.closes_comment, tt)),
        ),
      ),
    ),
  ),
  (v.block_or_expr, (v.block_or_comment, (v.expr_or_comment, tt))),
)
  where
    opening : {s : Chars} (k : Kind) → IsOpening s → IsDelimiter (s, k, false)
    opening k h = (h, λ e. absurd (ground arith))

    closing : {s : Chars} (k : Kind) → IsClosing s → IsDelimiter (s, k, true)
    closing k h = (h.0, λ e. h.1)

checked :
    (b : SyntaxBuilder)
    → ((to_syntax b ≡ inr (fill b)) × IsSyntax (fill b))
      ⊎ ((e : SyntaxError) × (to_syntax b ≡ inl e) × (¬ IsSyntax (fill b)))
unfolding to_syntax
checked b =
    let syntax = fill b in
    let second = first_error clash (pairs syntax) in
    elim (first_error-Decides check-Decides (delimiters syntax)) [
      | inr (e, found, fails) ↦ inr (
        e,
        ap (λ (o : Option SyntaxError). outcome o second syntax) found,
        λ v. fails ((IsSyntax-passes syntax v).0),
      )
      | inl (passes, ds) ↦
          let begin = ap (λ (o : Option SyntaxError). outcome o second syntax) passes in
          elim (first_error-Decides clash-Decides (pairs syntax)) [
            | inl (apart, ps) ↦ inl (
              begin ∙ ap (λ (o : Option SyntaxError). outcome none o syntax) apart,
              passes-IsSyntax syntax (ds, ps),
            )
            | inr (e, found, fails) ↦ inr (
              e,
              begin ∙ ap (λ (o : Option SyntaxError). outcome none o syntax) found,
              λ v. fails ((IsSyntax-passes syntax v).1),
            )
          ]
    ]

-- For every configuration: the six delimiters are the configured ones, or those of the default where
-- none is configured. Either all are encoded in two to 32 bytes and hold no whitespace, no closing
-- one starts with one of the characters `(-+~.><&|!`, and no opening one is a prefix of another, and
-- they are the result; or one of this fails, and the result is an error.
pub to_syntax-IsSyntax :
    (b : SyntaxBuilder)
    → IsFilled b (fill b)
      × (((to_syntax b ≡ inr (fill b)) × IsSyntax (fill b))
          ⊎ ((e : SyntaxError) × (to_syntax b ≡ inl e) × (¬ IsSyntax (fill b))))
to_syntax-IsSyntax b = (fill-IsFilled b, checked b)
