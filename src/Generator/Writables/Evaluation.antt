-- ===== src/Generator/Writables/Evaluation.antt =====
-- `write_buf_writable` of rinja_derive/src/generator/node.rs against the items that were buffered:
-- the generated code writes them in order, though equal expressions share one argument.
use mathlib.Core.Path.{subst}
use rinja.Base.{
  ℕ, ◌+◌, ◌≡◌, refl, Option, some, List, [], ◌∷◌, ◌++◌, ◌∙◌, ap, sym, ◌⊎◌, Bytes, codes, length,
  arith, append-nil, inl, inr,
}
use rinja.Buffer.{Buffer, Memchr3Iter, new, write}
use rinja.Buffer.Escape.{IsMemchr3}
use rinja.Buffer.Ask.{Event, Asked, ask, print, events, write_code, Means}
use rinja.Buffer.Pieces.{write-Means}
use rinja.Generator.{Writable}
use rinja.Parser.Expr.{Expr}
use rinja.Generator.Writables.{
  DisplayWrap, leading, behind_leading, match_arm, write_match, write_buf_writable,
}
use rinja.Generator.Writables.Plan.{
  Arg, Line, Below, bytes_of, evaluate, ask_texts, ask_args, target_list, ask_lines,
}
use rinja.Generator.Writables.Arguments.{start, total, write_all-Means}
use rinja.Generator.Writables.Pieces.{weight, pieces, pieces_nil, pieces-behind_leading}
use rinja.Generator.Writables.Loop.{Follows, emit_all-Follows}

-- The code is texts in front, a `match`, and texts behind: each argument has a target of its own,
-- and the lines of the arm, with the arguments put in, write what is between the texts.
pub record IsMatch (to_string : ℕ → Bytes) (es : List Event) (a : Asked) (b : Buffer) : Type 0 where
  pub front : List Bytes
  pub args : List Arg
  pub lines : List Line
  pub back : List Bytes
  pub arm : Buffer
  pub written : List Event
  pub bound : ℕ
  pub distinct : Below bound args
  pub arm_lines : Means (ask_lines to_string lines start) arm
  pub evaluates : evaluate args lines ≡ some written
  pub complete : bytes_of front ++ (written ++ bytes_of back) ≡ es
  pub prints :
      Means
        (ask_texts back (
          ask
            (write_code (match_arm (target_list to_string args) arm.buf))
            (ask_args args (ask (write_code (codes "match (")) (ask_texts front a)))))
        b

-- The code is texts only.
pub record IsTexts (es : List Event) (a : Asked) (b : Buffer) : Type 0 where
  pub texts : List Bytes
  pub complete : bytes_of texts ≡ es
  pub prints : Means (ask_texts texts a) b

start-Follows :
    (to_string : ℕ → Bytes) (a : Asked) (idx n : ℕ) (b : Buffer)
    → Means a b
    → Follows to_string a idx [] n
        record { buf = b; targets = new; lines = new; expr_cache = []; items = []; size_hint = n }
unfolding new evaluate bytes_of total ask_args ask_lines target_list print events
start-Follows to_string a idx n b m = record {
  args = [];
  lines = [];
  written = [];
  binds = record { below = tt; arguments = m; keeps = refl; named = refl; known = tt };
  arm = record {
    items = [];
    discards = refl;
    prints = refl;
    asked = refl;
    merges = λ h. ground arith;
  };
  evaluates = refl;
  complete = refl;
  hint = omega arith;
}

module _ {memchr3_iter : Memchr3Iter} (memchr : IsMemchr3 memchr3_iter) {T : Type 0}
    (visit_expr : Expr T → Option (DisplayWrap × Bytes)) (escaper : Bytes)
    (to_string : ℕ → Bytes) where
  -- The code behind the leading literals, which are in the buffer.
  write_match-Follows :
      (it : List (Writable (Expr T))) (front : List Bytes) (es : List Event)
      → pieces visit_expr escaper it ≡ some es
      → (a : Asked) (b : Buffer) (idx n : ℕ) → Means (ask_texts front a) b
      → (r : Buffer × ℕ) × (write_match visit_expr escaper to_string memchr3_iter it idx (b, n)
          ≡ some r)
        × (IsTexts (bytes_of front ++ es) a (r.0)
            ⊎ IsMatch to_string (bytes_of front ++ es) a (r.0))
        × (r.1 ≡ n + weight it)
  unfolding write_match weight
  write_match-Follows [] front es h a b idx n m = (
    (b, n),
    refl,
    inl record {
      texts = front;
      complete =
          sym (append-nil (bytes_of front))
          ∙ ap (λ es. bytes_of front ++ es) (pieces_nil visit_expr escaper es h);
      prints = m;
    },
    omega arith,
  )
  write_match-Follows (w ∷ it) front es h a b idx n m =
      let asked = ask (write_code (codes "match (")) (ask_texts front a) in
      let (s, idx', runs, f) =
        emit_all-Follows memchr visit_expr escaper to_string (w ∷ it) es h asked idx [] n
          record {
            buf = write (codes "match (") b;
            targets = new;
            lines = new;
            expr_cache = [];
            items = [];
            size_hint = n;
          }
          (start-Follows to_string asked idx n _ (write-Means (codes "match (") _ b m)) in
      let (b', flushed, m') = write_all-Means memchr s.items _ _ s.size_hint (
        write-Means (match_arm s.targets.buf s.lines.buf) (ask_args f.args asked) s.buf
          f.binds.arguments) in
      (
        (b', s.size_hint + total s.items),
        rw runs flushed,
        inr record {
          front = front;
          args = f.args;
          lines = f.lines;
          back = s.items;
          arm = s.lines;
          written = f.written;
          bound = idx';
          distinct = f.binds.below;
          arm_lines = f.arm;
          evaluates = f.evaluates;
          complete = ap (λ es. bytes_of front ++ es) f.complete;
          prints =
              subst
                (λ t.
                  Means
                    (ask_texts s.items
                      (ask (write_code (match_arm t s.lines.buf)) (ask_args f.args asked)))
                    b')
                f.binds.named m';
        },
        f.hint,
      )

  -- Whatever was buffered, where its expressions can be visited, and whatever the buffer holds: the
  -- function returns, and what it adds to the buffer is either the literals, where there are only
  -- literals, or a `match` between literals whose lines, with the arguments put in for their
  -- targets, write the literals and the code of the expressions in the order they were buffered; no
  -- two arguments have one target. The size hint is the length of the literals and three for each
  -- expression.
  pub write_buf_writable-evaluate :
      (items : List (Writable (Expr T))) (es : List Event)
      → pieces visit_expr escaper items ≡ some es
      → (a : Asked) (b : Buffer) → Means a b
      → (r : Buffer × ℕ) × (write_buf_writable visit_expr escaper to_string memchr3_iter items b
          ≡ some r)
        × (IsTexts es a (r.0) ⊎ IsMatch to_string es a (r.0))
        × (r.1 ≡ weight items)
  unfolding write_buf_writable
  write_buf_writable-evaluate items es h a b m =
      let (rest, p, same, sizes) = pieces-behind_leading visit_expr escaper items es h in
      let (b₁, leads, m₁) = write_all-Means memchr (leading items) a b 0 m in
      let (r, matches, emits, hint) =
        write_match-Follows (behind_leading items) (leading items) rest p a b₁
          (length (leading items)) (0 + total (leading items)) m₁ in
      (
        r,
        rw leads matches,
        subst (λ es. IsTexts es a (r.0) ⊎ IsMatch to_string es a (r.0)) same emits,
        omega (arith, hint, sizes),
      )
