-- ===== src/Tests/Rendering.antt =====
-- Escaping of rinja/src/html.rs, the literals of rinja_parser/src/node.rs and the whitespace
-- control of rinja_derive/src/generator/node.rs on small texts and templates.
use rinja.Base.{
  ℕ, Option, none, some, List, [], ◌∷◌, ◌≡◌, refl, Bytes, codes, ◌>>=◌, if◌then◌else◌, ◌==◌, false,
  All,
}
use rinja.Fmt.{push_str, push_str-IsWriter}
use rinja.Html.{write_escaped_str}
use rinja.Html.Escape.{escape, write_escaped_str-escape}
use rinja.Html.Safety.{IsInert, unescape, write_escaped_str-IsInert}
use rinja.Parser.Whitespace.{Whitespace, Ws, preserve, suppress, minimize}
use rinja.Parser.Lit.{Lit, split_ws_parts, IsSplit, split_ws_parts-IsSplit}
use rinja.Generator.{Node, new, handle}
use rinja.Generator.Spacing.{bytes, pieces, kept}
use rinja.Generator.Render.{handle-render, render}
use rinja.Generator.Controls.{between, handle-blank}

abbrev script : Bytes
script = codes "<a>'&\""

write_escaped_str-escape_example :
    write_escaped_str push_str (codes "x=") script ≡ push_str (codes "x=") (escape script)
write_escaped_str-escape_example = write_escaped_str-escape push_str-IsWriter (codes "x=") script

write_escaped_str-IsInert_example :
    (out : Bytes) × (write_escaped_str push_str [] script ≡ push_str [] out)
    × All IsInert out
    × (unescape out ≡ script)
write_escaped_str-IsInert_example = write_escaped_str-IsInert push_str-IsWriter [] script

abbrev greeting : Bytes
greeting = codes " \nhello, you\t"

split_ws_parts-IsSplit_example : IsSplit greeting (split_ws_parts greeting)
split_ws_parts-IsSplit_example = split_ws_parts-IsSplit greeting

abbrev tag : Option Whitespace → Option Whitespace → Ws
tag before after = record { before = before; after = after }

abbrev blank : Lit
blank = record { lws = codes " \n "; val = []; rws = [] }

abbrev hello : Lit
hello = record { lws = codes " "; val = codes "hello"; rws = codes "\n\n" }

-- Expressions are numbers; the ones below ten are known when the template is compiled.
abbrev digit : ℕ → Option Bytes
digit e = if e == 1 then some (codes "1") else none

abbrev page : List (Node ℕ)
page =
    Node.lit hello
    ∷ Node.expr (tag (some suppress) (some minimize)) (1 ∷ 20 ∷ [])
    ∷ Node.lit blank
    ∷ Node.comment (tag none (some suppress))
    ∷ []

handle-render_example :
    (handle digit page (new false preserve) >>= λ g. some (pieces g.buf))
    ≡ some (render digit preserve preserve page)
handle-render_example = handle-render digit preserve page ((λ e. cc e), tt, ((λ e. refl), tt, tt))

handle-blank_example :
    (handle digit (between minimize (split_ws_parts (codes " \n ")) preserve) (new false preserve)
      >>= λ g. some (pieces g.buf))
    ≡ some (bytes (codes " \n "))
unfolding kept
handle-blank_example =
    handle-blank digit preserve minimize preserve (codes " \n ") (refl, (refl, (refl, tt)))
