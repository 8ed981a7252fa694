-- ===== src/Generator/Render.antt =====
-- A whole template of text, comments, expressions, raw blocks, macro definitions and imports: what
-- the handlers of rinja_derive/src/generator/node.rs leave in the buffer, against a description
-- that looks at each literal with the tags on its two sides.
use rinja.Base.{
  false, Option, none, some, List, [], ◌∷◌, ◌++◌, map, ◌≡◌, refl, sym, ap, ◌∙◌, arith, Bytes, ◌>>=◌,
}
use rinja.Parser.Whitespace.{Whitespace, preserve}
use rinja.Generator.{Writable, Node, resolve, new, handle_nodes, finish, handle}
use rinja.Generator.Spacing.{
  Piece, hole, bytes, pieces, text, left_after, ready, pieces-append, pieces-written,
}
use rinja.Generator.Output.{bind-map, right_of, IsTemplate, item, output, run, run-output}

module _ {E : Type 0} where
  module _ (compile_time_escape : E → Option Bytes) where
    item_pieces : List E → List (Piece E)
    item_pieces [] = []
    item_pieces (s ∷ items) = elim (compile_time_escape s) [
      | some t ↦ bytes t ++ item_pieces items
      | none ↦ hole s ∷ item_pieces items
    ]

    -- The text of a template: every literal under the controls of its two neighbours, every
    -- expression in its place.
    unfoldable pub render : Whitespace → Whitespace → List (Node E) → List (Piece E)
    unfolding item_pieces
    render cfg left [] = []
    render cfg left (Node.lit l ∷ nodes) =
        bytes (text left (right_of cfg left l nodes) l) ++ render cfg (left_after left l) nodes
    render cfg left (Node.comment ws ∷ nodes) = render cfg (resolve cfg ws.after) nodes
    render cfg left (Node.expr ws items ∷ nodes) =
        item_pieces items ++ render cfg (resolve cfg ws.after) nodes
    render cfg left (Node.macro ws1 ws2 ∷ nodes) = render cfg (resolve cfg ws2.after) nodes
    render cfg left (Node.raw ws1 l ws2 ∷ nodes) =
        bytes (text (resolve cfg ws1.after) (resolve cfg ws2.before) l)
        ++ render cfg (resolve cfg ws2.after) nodes
    render cfg left (Node.import ws ∷ nodes) = render cfg (resolve cfg ws.after) nodes

    pieces-items :
        (items : List E) → pieces (map (item compile_time_escape) items) ≡ item_pieces items
    unfolding pieces item item_pieces
    pieces-items [] = refl
    pieces-items (s ∷ items) = ground (arith, pieces-items items)

    pieces-output :
        (nodes : List (Node E)) (cfg left : Whitespace)
        → pieces (output compile_time_escape cfg left nodes) ≡ render cfg left nodes
    unfolding output render
    pieces-output [] cfg left = unfold pieces in refl
    pieces-output (Node.lit l ∷ nodes) cfg left =
        simp (pieces-append, pieces-written, pieces-output nodes)
    pieces-output (Node.comment ws ∷ nodes) cfg left = pieces-output nodes cfg _
    pieces-output (Node.expr ws items ∷ nodes) cfg left =
        simp (pieces-append, pieces-items, pieces-output nodes)
    pieces-output (Node.macro ws1 ws2 ∷ nodes) cfg left = pieces-output nodes cfg _
    pieces-output (Node.raw ws1 l ws2 ∷ nodes) cfg left =
        simp (pieces-append, pieces-written, pieces-output nodes)
    pieces-output (Node.import ws ∷ nodes) cfg left = pieces-output nodes cfg _

    -- For every node list in which no literal follows a literal directly, and whose literals
    -- without text have no trailing whitespace: the handlers meet no failed assertion, and the
    -- buffer that they leave reads as the template in which each literal was cut by the controls
    -- of its two neighbours.
    pub handle-render :
        (cfg : Whitespace) (nodes : List (Node E))
        → IsTemplate nodes
        → (handle compile_time_escape nodes (new false cfg) >>= λ g. some (pieces g.buf))
          ≡ some (render cfg preserve nodes)
    unfolding handle new run
    handle-render cfg nodes h =
        sym (
          bind-map (handle_nodes compile_time_escape nodes (ready cfg preserve [])) finish
            (λ g. some (pieces g.buf)))
        ∙ bind-map (handle_nodes compile_time_escape nodes (ready cfg preserve []))
            (λ g. (finish g).buf) (λ b. some (pieces b))
        ∙ ap (λ (m : Option (List (Writable E))). m >>= λ b. some (pieces b))
            (run-output compile_time_escape nodes cfg preserve [] h)
        ∙ ap (λ (p : List (Piece E)). some p) (pieces-output nodes cfg preserve)
