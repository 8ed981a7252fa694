-- ===== src/Generator/Output.antt =====
-- The writables that a whole template leaves in the buffer of the code generator of
-- rinja_derive/src/generator/node.rs, handler by handler.
use mathlib.Core.Path.{fun_ext}
use rinja.Base.{
  Option, none, some, List, [], ◌∷◌, ◌++◌, map, ◌≡◌, refl, sym, ap, ◌∙◌, arith, Bytes, append_assoc,
  append-nil, ◌>>=◌,
}
use rinja.Parser.Whitespace.{Whitespace, Ws}
use rinja.Parser.Lit.{Lit}
use rinja.Generator.{
  Writable, lit, expr, Generator, Node, resolve, push, push_items, flush_ws, prepare_ws, handle_ws,
  write_lit, handle_node, handle_nodes, finish,
}
use rinja.Generator.Spacing.{left_after, written, ready, flush-write_lit}

-- What `split_ws_parts` guarantees of a literal without text.
abbrev pub IsLit : Lit → Type 0
IsLit l = l.val ≡ [] → l.rws ≡ []

pub bind-map {ℓ} :
    {A B C : Type ℓ} (m : Option A) (f : A → B) (k : B → Option C)
    → (m >>= λ a. k (f a)) ≡ ((m >>= λ a. some (f a)) >>= k)
bind-map none f k = refl
bind-map (some a) f k = refl

module _ {E : Type 0} where
  -- The control on the left edge of a tag.
  unfoldable pub opening : Node E → Option Whitespace
  opening (Node.lit l) = none
  opening (Node.comment ws) = ws.before
  opening (Node.expr ws items) = ws.before
  opening (Node.macro ws1 ws2) = ws1.before
  opening (Node.raw ws1 l ws2) = ws1.before
  opening (Node.import ws) = ws.before

  -- The control on the right of a literal: of the tag that follows, or at the end of the template
  -- the one that is still in force.
  unfoldable pub right_of : Whitespace → Whitespace → Lit → List (Node E) → Whitespace
  unfolding opening left_after
  right_of cfg left l [] = left_after left l
  right_of cfg left l (n ∷ nodes) = resolve cfg (opening n)

  abbrev pub IsTag : Node E → Type 0
  IsTag (Node.lit l) = ⊥
  IsTag _ = Unit

  abbrev pub StartsWithTag : List (Node E) → Type 0
  StartsWithTag [] = Unit
  StartsWithTag (n ∷ nodes) = IsTag n

  -- A node list as the parser makes it: no literal follows a literal.
  abbrev pub IsTemplate : List (Node E) → Type 0
  IsTemplate [] = Unit
  IsTemplate (Node.lit l ∷ nodes) = IsLit l × StartsWithTag nodes × IsTemplate nodes
  IsTemplate (Node.raw ws1 l ws2 ∷ nodes) = IsLit l × IsTemplate nodes
  IsTemplate (_ ∷ nodes) = IsTemplate nodes

  flush_twice :
      (ws : Ws) (after : Option Whitespace) (g : Generator E)
      → flush_ws ws (flush_ws (record { before = ws.before; after = after }) g) ≡ flush_ws ws g
  unfolding flush_ws
  flush_twice ws after g = ground arith

  after-literal :
      {C : Type 0} (cfg left : Whitespace) (buf : List (Writable E)) (l : Lit) (ws : Ws)
      (k : Generator E → Option C)
      → IsLit l
      → (write_lit l (ready cfg left buf) >>= λ g. k (flush_ws ws g))
        ≡ k (ready cfg (left_after left l) (buf ++ written left (resolve cfg ws.before) l))
  after-literal cfg left buf l ws k h =
      bind-map (write_lit l (ready cfg left buf)) (flush_ws ws) k
      ∙ ap (λ (m : Option (Generator E)). m >>= k) (flush-write_lit cfg left buf l ws h)

  finish-write_lit :
      (cfg left : Whitespace) (buf : List (Writable E)) (l : Lit)
      → IsLit l
      → (write_lit l (ready cfg left buf) >>= λ g. some (finish g)) ≡ (
          write_lit l (ready cfg left buf) >>= λ g.
          some (flush_ws (record { before = some (left_after left l); after = none }) g))
  unfolding write_lit finish left_after
  finish-write_lit cfg left buf l h = ground arith

  module _ (compile_time_escape : E → Option Bytes) where
    unfoldable pub item : E → Writable E
    item s = elim (compile_time_escape s) [ some t ↦ lit t | none ↦ expr s ]

    -- What a template writes, behind a tag whose trailing control is `left`.
    unfoldable pub output : Whitespace → Whitespace → List (Node E) → List (Writable E)
    unfolding item right_of
    output cfg left [] = []
    output cfg left (Node.lit l ∷ nodes) =
        written left (right_of cfg left l nodes) l ++ output cfg (left_after left l) nodes
    output cfg left (Node.comment ws ∷ nodes) = output cfg (resolve cfg ws.after) nodes
    output cfg left (Node.expr ws items ∷ nodes) =
        map item items ++ output cfg (resolve cfg ws.after) nodes
    output cfg left (Node.macro ws1 ws2 ∷ nodes) = output cfg (resolve cfg ws2.after) nodes
    output cfg left (Node.raw ws1 l ws2 ∷ nodes) =
        written (resolve cfg ws1.after) (resolve cfg ws2.before) l
        ++ output cfg (resolve cfg ws2.after) nodes
    output cfg left (Node.import ws ∷ nodes) = output cfg (resolve cfg ws.after) nodes

    push_items-ready :
        (items : List E) (cfg left : Whitespace) (buf : List (Writable E))
        → push_items compile_time_escape items (ready cfg left buf)
          ≡ ready cfg left (buf ++ map item items)
    unfolding push_items push item
    push_items-ready [] cfg left buf = rw append-nil
    push_items-ready (s ∷ items) cfg left buf = simp (push_items-ready items, append_assoc)

    unfoldable pub run : List (Node E) → Generator E → Option (List (Writable E))
    run nodes g = handle_nodes compile_time_escape nodes g >>= λ g. some (finish g).buf

    -- A tag decides on pending whitespace first, so that may be done before it.
    run-flush :
        (n : Node E) (nodes : List (Node E)) (after : Option Whitespace) (g : Generator E)
        → IsTag n
        → run (n ∷ nodes) g
          ≡ run (n ∷ nodes) (flush_ws (record { before = opening n; after = after }) g)
    unfolding run handle_nodes handle_ws opening
    run-flush (Node.lit l) nodes after g t = absurd t
    run-flush (Node.comment ws) nodes after g t = simp (flush_twice ws after)
    run-flush (Node.expr ws items) nodes after g t = simp (flush_twice ws after)
    run-flush (Node.macro ws1 ws2) nodes after g t = simp (flush_twice ws1 after)
    run-flush (Node.raw ws1 l ws2) nodes after g t = simp (flush_twice ws1 after)
    run-flush (Node.import ws) nodes after g t = simp (flush_twice ws after)

    run-cons :
        (n : Node E) (nodes : List (Node E)) (g : Generator E)
        → run (n ∷ nodes) g ≡ (handle_node compile_time_escape n g >>= run nodes)
    unfolding run handle_nodes
    run-cons n nodes g = go (handle_node compile_time_escape n g)
      where
        go :
            (m : Option (Generator E))
            → ((m >>= λ g. handle_nodes compile_time_escape nodes g) >>= λ g. some (finish g).buf)
              ≡ (m >>= run nodes)
        go none = refl
        go (some g) = refl

    -- The handlers from any point between two nodes on.
    pub run-output :
        (nodes : List (Node E)) (cfg left : Whitespace) (buf : List (Writable E))
        → IsTemplate nodes
        → run nodes (ready cfg left buf) ≡ some (buf ++ output cfg left nodes)
    unfolding run handle_nodes output handle_ws
    run-output [] cfg left buf h = unfold finish in rw append-nil
    run-output (Node.comment ws ∷ nodes) cfg left buf h = run-output nodes cfg _ buf h
    run-output (Node.expr ws items ∷ nodes) cfg left buf h =
        rw push_items-ready
          (run-output nodes cfg (resolve cfg ws.after) (buf ++ map item items) h ∙ rw append_assoc)
    run-output (Node.macro ws1 ws2 ∷ nodes) cfg left buf h = run-output nodes cfg _ buf h
    run-output (Node.import ws ∷ nodes) cfg left buf h = run-output nodes cfg _ buf h
    run-output (Node.raw ws1 l ws2 ∷ nodes) cfg left buf (hl, h) =
        run-cons (Node.raw ws1 l ws2) nodes (ready cfg left buf)
        ∙ ap (λ (m : Option (Generator E)). m >>= run nodes)
            (after-literal cfg (resolve cfg ws1.after) buf l ws2 (λ g. some (prepare_ws ws2 g)) hl)
        ∙ run-output nodes cfg (resolve cfg ws2.after) _ h
        ∙ rw append_assoc
    run-output (Node.lit l ∷ []) cfg left buf (hl, _, h) =
        let end : Ws = record { before = some (left_after left l); after = none } in
        run-cons (Node.lit l) [] (ready cfg left buf)
        ∙ bind-map (write_lit l (ready cfg left buf)) finish (λ g. some g.buf)
        ∙ ap (λ (m : Option (Generator E)). m >>= λ g. some g.buf)
            (finish-write_lit cfg left buf l hl)
        ∙ sym (bind-map (write_lit l (ready cfg left buf)) (flush_ws end) (λ g. some g.buf))
        ∙ after-literal cfg left buf l end (λ g. some g.buf) hl
        ∙ rw append-nil
    run-output (Node.lit l ∷ n ∷ nodes) cfg left buf (hl, t, h) =
        run-cons (Node.lit l) (n ∷ nodes) (ready cfg left buf)
        ∙ ap
            (λ (k : Generator E → Option (List (Writable E))).
              write_lit l (ready cfg left buf) >>= k)
            (fun_ext λ g. run-flush n nodes none g t)
        ∙ after-literal cfg left buf l (record { before = opening n; after = none })
            (run (n ∷ nodes)) hl
        ∙ run-output (n ∷ nodes) cfg (left_after left l) _ h
        ∙ rw append_assoc
