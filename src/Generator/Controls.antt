-- ===== src/Generator/Controls.antt =====
-- Two controls at one span of whitespace: book/src/template_syntax.md, "Whitespace control".
use rinja.Base.{Option, none, some, List, [], ◌∷◌, ◌≡◌, ap, ◌∙◌, Bytes, append-nil, ◌>>=◌, false}
use rinja.Parser.Whitespace.{Whitespace, preserve, suppress}
use rinja.Parser.Lit.{IsBlank, split_ws_parts, split_ws_parts-blank, split_ws_parts-IsSplit, Lit}
use rinja.Generator.{Node, new, handle}
use rinja.Generator.Spacing.{bytes, pieces, kept, text}
use rinja.Generator.Render.{handle-render, render}
use rinja.Generator.Output.{right_of}

-- A span between two tags, the first with control `left` behind it, the other with `right`
-- before it.
abbrev pub between : {E : Type 0} → Whitespace → Lit → Whitespace → List (Node E)
between left l right =
    Node.comment (record { before = none; after = some left })
    ∷ Node.lit l
    ∷ Node.comment (record { before = some right; after = none })
    ∷ []

-- A span of whitespace only, between two tags: it is dropped if the first one suppresses, and else
-- the control of the second one alone decides, whatever the first one asks for.
pub handle-blank :
    {E : Type 0} (compile_time_escape : E → Option Bytes) (cfg left right : Whitespace) (s : Bytes)
    → IsBlank s
    → (handle compile_time_escape (between left (split_ws_parts s) right) (new false cfg) >>= λ g.
        some (pieces g.buf))
      ≡ some (bytes (elim left [ suppress ↦ [] | _ ↦ kept right s ]))
unfolding render text right_of
handle-blank cte cfg left right s h =
    handle-render cte cfg (between left (split_ws_parts s) right)
      ((split_ws_parts-IsSplit s).no_rws, tt, tt)
    ∙ ap (λ l. some (render cte cfg preserve (between left l right))) (split_ws_parts-blank s h)
    ∙ go left
  where
    go :
        (w : Whitespace)
        → some (render cte cfg preserve (between w (record { lws = s; val = []; rws = [] }) right))
          ≡ some (bytes (elim w [ suppress ↦ [] | _ ↦ kept right s ]))
    go suppress = rw append-nil
    go _ = rw append-nil
