-- ===== src/Generator/Spacing.antt =====
-- One literal between two tags: what the two-step protocol of rinja_derive/src/generator/node.rs
-- (`write_lit` writes or keeps, the next tag's `flush_ws` decides on the rest) writes in total.
use rinja.Base.{
  ℕ, false, Option, none, some, List, [], ◌∷◌, ◌++◌, map, ◌≡◌, refl, if◌then◌else◌, Bytes, is_empty,
  append_assoc, append-nil, ap, ◌>>=◌,
}
use rinja.Parser.Whitespace.{Whitespace, Ws, preserve, suppress, minimize}
use rinja.Parser.Lit.{Lit}
use rinja.Generator.{
  Writable, lit, expr, Generator, push_ws, minimized, flush_ws, write_lit, resolve,
}

-- The output as a sequence of bytes and of expressions to be displayed.
pub data Piece (E : Type 0) : Type 0 where
  byte : ℕ → Piece E
  hole : E → Piece E

module _ {E : Type 0} where
  unfoldable pub bytes : Bytes → List (Piece E)
  bytes = map byte

  unfoldable pub pieces : List (Writable E) → List (Piece E)
  unfolding bytes
  pieces [] = []
  pieces (lit s ∷ ws) = bytes s ++ pieces ws
  pieces (expr e ∷ ws) = hole e ∷ pieces ws

  pub bytes-append : (s t : Bytes) → bytes (s ++ t) ≡ bytes s ++ bytes t
  unfolding bytes
  bytes-append [] t = refl
  bytes-append (c ∷ s) t = rw (bytes-append s t)

  pub pieces-append : (v w : List (Writable E)) → pieces (v ++ w) ≡ pieces v ++ pieces w
  unfolding pieces
  pieces-append [] w = refl
  pieces-append (lit s ∷ v) w = simp (pieces-append v w, append_assoc)
  pieces-append (expr e ∷ v) w = rw (pieces-append v w)

-- What is left of a span of whitespace under a control.
unfoldable pub kept : Whitespace → Bytes → Bytes
unfolding minimized
kept preserve s = s
kept suppress s = []
kept minimize s = if is_empty s then [] else minimized s

-- What is left of a literal between the control of the tag before it and of the tag behind it: of
-- a literal with text each side is controlled by its own tag; a literal of whitespace only is
-- dropped if the tag before it suppresses, and else controlled by the tag behind it alone.
unfoldable pub text : Whitespace → Whitespace → Lit → Bytes
unfolding kept
text left right l =
    if is_empty l.val
    then elim left [ suppress ↦ [] | _ ↦ kept right l.lws ]
    else kept left l.lws ++ (l.val ++ kept right l.rws)

-- The control that is in force behind the literal.
unfoldable pub left_after : Whitespace → Lit → Whitespace
left_after left l = if is_empty l.val then left else preserve

module _ {E : Type 0} where
  -- What is written for a span of whitespace, and for a literal.
  unfoldable pub ws_written : Whitespace → Bytes → List (Writable E)
  ws_written preserve s = if is_empty s then [] else lit s ∷ []
  ws_written suppress s = []
  ws_written minimize s = if is_empty s then [] else lit (minimized s) ∷ []

  unfoldable pub written : Whitespace → Whitespace → Lit → List (Writable E)
  unfolding ws_written
  written left right l =
      if is_empty l.val
      then elim left [ suppress ↦ [] | _ ↦ ws_written right l.lws ]
      else ws_written left l.lws ++ lit l.val ∷ ws_written right l.rws

  -- A generator between two nodes, behind a tag whose trailing control is `left`.
  abbrev pub ready : Whitespace → Whitespace → List (Writable E) → Generator E
  ready whitespace left buf = record {
    next_ws = none;
    skip_ws = left;
    buf = buf;
    discard = false;
    whitespace = whitespace;
  }

  pieces-ws_written : (w : Whitespace) (s : Bytes) → pieces (ws_written w s) ≡ bytes (kept w s)
  unfolding ws_written kept pieces
  pieces-ws_written preserve [] = refl
  pieces-ws_written preserve (c ∷ s) = append-nil _
  pieces-ws_written suppress s = refl
  pieces-ws_written minimize [] = refl
  pieces-ws_written minimize (c ∷ s) = append-nil _

  pub pieces-written :
      (left right : Whitespace) (l : Lit)
      → pieces (written left right l) ≡ bytes (text left right l)
  unfolding written text
  pieces-written left right l = go left l.lws l.val l.rws
    where
      go :
          (w : Whitespace) (lws val rws : Bytes)
          → pieces (written w right (record { lws = lws; val = val; rws = rws }))
            ≡ bytes (text w right (record { lws = lws; val = val; rws = rws }))
      go suppress lws [] rws = unfold pieces bytes in refl
      go preserve lws [] rws = pieces-ws_written right lws
      go minimize lws [] rws = pieces-ws_written right lws
      go w lws (c ∷ v) rws =
          simp (pieces-append, pieces-ws_written, bytes-append)
            (unfold pieces in simp pieces-ws_written)

  push_ws-ready :
      (right cfg left : Whitespace) (buf : List (Writable E)) (s : Bytes) (next : Option Bytes)
      → push_ws right s (record (ready cfg left buf) { next_ws = next })
        ≡ record (ready cfg left (buf ++ ws_written right s)) { next_ws = next }
  unfolding push_ws ws_written
  push_ws-ready preserve cfg left buf [] next = rw append-nil
  push_ws-ready minimize cfg left buf [] next = rw append-nil
  push_ws-ready suppress cfg left buf s next = rw append-nil
  push_ws-ready _ cfg left buf (c ∷ s) next = refl

  flush_pending :
      (cfg left : Whitespace) (buf : List (Writable E)) (s : Bytes) (ws : Ws)
      → flush_ws ws (record (ready cfg left buf) { next_ws = some s })
        ≡ ready cfg left (buf ++ ws_written (resolve cfg ws.before) s)
  unfolding flush_ws
  flush_pending cfg left buf s ws =
      ap (λ (g : Generator E). record g { next_ws = none })
        (push_ws-ready (resolve cfg ws.before) cfg left buf s (some s))

  ws_written-nil : (w : Whitespace) → ws_written w [] ≡ []
  unfolding ws_written
  ws_written-nil preserve = refl
  ws_written-nil _ = refl

  flush_idle :
      (cfg left : Whitespace) (buf : List (Writable E)) (ws : Ws)
      → flush_ws ws (ready cfg left buf) ≡ ready cfg left buf
  unfolding flush_ws
  flush_idle cfg left buf ws = refl

  ruleset flushing = (flush_idle, flush_pending, ws_written-nil, append-nil, append_assoc)

  flush-parts :
      (cfg : Whitespace) (buf : List (Writable E)) (ws : Ws) (w : Whitespace) (lws val rws : Bytes)
      → (val ≡ [] → rws ≡ [])
      → (write_lit (record { lws = lws; val = val; rws = rws }) (ready cfg w buf) >>= λ g.
          some (flush_ws ws g))
        ≡ some (
            ready cfg (left_after w (record { lws = lws; val = val; rws = rws })) (
              buf
              ++ written w (resolve cfg ws.before) (record { lws = lws; val = val; rws = rws })))
  unfolding write_lit written left_after
  flush-parts cfg buf ws w lws [] (c ∷ rws) h = cc (h refl)
  flush-parts cfg buf ws preserve [] [] [] h = simp flushing
  flush-parts cfg buf ws preserve [] (c ∷ val) [] h = simp flushing
  flush-parts cfg buf ws preserve [] (c ∷ val) (d ∷ rws) h = simp flushing
  flush-parts cfg buf ws preserve (b ∷ lws) [] [] h = simp flushing
  flush-parts cfg buf ws preserve (b ∷ lws) (c ∷ val) [] h = simp flushing
  flush-parts cfg buf ws preserve (b ∷ lws) (c ∷ val) (d ∷ rws) h = simp flushing
  flush-parts cfg buf ws suppress [] [] [] h = simp flushing
  flush-parts cfg buf ws suppress [] (c ∷ val) [] h = simp flushing
  flush-parts cfg buf ws suppress [] (c ∷ val) (d ∷ rws) h = simp flushing
  flush-parts cfg buf ws suppress (b ∷ lws) [] [] h = simp flushing
  flush-parts cfg buf ws suppress (b ∷ lws) (c ∷ val) [] h = simp flushing
  flush-parts cfg buf ws suppress (b ∷ lws) (c ∷ val) (d ∷ rws) h = simp flushing
  flush-parts cfg buf ws minimize [] [] [] h = simp flushing
  flush-parts cfg buf ws minimize [] (c ∷ val) [] h = simp flushing
  flush-parts cfg buf ws minimize [] (c ∷ val) (d ∷ rws) h = simp flushing
  flush-parts cfg buf ws minimize (b ∷ lws) [] [] h = simp flushing
  flush-parts cfg buf ws minimize (b ∷ lws) (c ∷ val) [] h = simp flushing
  flush-parts cfg buf ws minimize (b ∷ lws) (c ∷ val) (d ∷ rws) h = simp flushing

  -- The literal, and the flush of the tag that follows it.
  pub flush-write_lit :
      (cfg left : Whitespace) (buf : List (Writable E)) (l : Lit) (ws : Ws)
      → (l.val ≡ [] → l.rws ≡ [])
      → (write_lit l (ready cfg left buf) >>= λ g. some (flush_ws ws g))
        ≡ some (ready cfg (left_after left l) (buf ++ written left (resolve cfg ws.before) l))
  flush-write_lit cfg left buf l ws split = flush-parts cfg buf ws left l.lws l.val l.rws split
