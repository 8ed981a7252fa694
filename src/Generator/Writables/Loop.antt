-- ===== src/Generator/Writables/Loop.antt =====
-- The loop of `write_buf_writable` (rinja_derive/src/generator/node.rs): its buffers and its cache
-- follow the items that were read.
use mathlib.Core.List.{map}
use mathlib.Core.Path.{subst}
use rinja.Base.{
  ℕ, ◌+◌, ◌≡◌, refl, Bool, Option, some, List, [], ◌∷◌, ◌++◌, ◌∙◌, ap, sym, Bytes, length, arith,
  append_assoc, append-nil,
}
use rinja.Buffer.{Memchr3Iter}
use rinja.Buffer.Escape.{IsMemchr3}
use rinja.Buffer.Ask.{byte, Event, Asked, Means}
use rinja.Buffer.Pieces.{write-Means}
use rinja.Generator.{Writable, lit, expr}
use rinja.Generator.Cacheable.{is_cacheable}
use rinja.Parser.Expr.{Expr}
use rinja.Generator.Writables.{
  DisplayWrap, display_code, Emitting, line, cached, write_line, emit_expr, emit_all,
}
use rinja.Generator.Writables.Plan.{Arg, Line, use_of, bytes_of, evaluate, push_texts, ask_lines}
use rinja.Generator.Writables.Binding.{
  Below_suc, evaluate-push_texts, ask_lines-push_texts, bytes_of-append,
}
use rinja.Generator.Writables.Arguments.{
  start, total, write_all-Means, Binds, IsBound, cached-IsBound,
}
use rinja.Generator.Writables.Pieces.{weight, pieces, pieces_nil, pieces_lit, pieces_expr}

total-append : (xs ys : List Bytes) → total (xs ++ ys) ≡ total xs + total ys
unfolding total
total-append [] ys = omega arith
total-append (x ∷ xs) ys = omega (arith, total-append xs ys)

-- The state of the loop, where `done` is what the items up to `idx` write and `n` their weight.
pub record Follows (to_string : ℕ → Bytes) (a : Asked) (idx : ℕ) (done : List Event) (n : ℕ)
    (s : Emitting) : Type 0 where
  pub args : List Arg
  pub lines : List Line
  pub written : List Event
  pub binds : Binds to_string a idx args s
  pub arm : Means (ask_lines to_string lines start) s.lines
  pub evaluates : evaluate args lines ≡ some written
  pub complete : written ++ bytes_of s.items ≡ done
  pub hint : s.size_hint + total s.items ≡ n

moved :
    (to_string : ℕ → Bytes) (a : Asked) (idx : ℕ) {done done' : List Event} {n n' : ℕ}
    (s : Emitting)
    → done ≡ done'
    → n ≡ n'
    → Follows to_string a idx done n s
    → Follows to_string a idx done' n' s
moved to_string a idx s same same_n f = record {
  args = f.args;
  lines = f.lines;
  written = f.written;
  binds = f.binds;
  arm = f.arm;
  evaluates = f.evaluates;
  complete = f.complete ∙ same;
  hint = f.hint ∙ same_n;
}

lit-Follows :
    (to_string : ℕ → Bytes) (l : Bytes) (a : Asked) (idx : ℕ) (done : List Event) (n : ℕ)
    (s : Emitting)
    → Follows to_string a idx done n s
    → Follows to_string a
        (idx + 1)
        (done ++ map byte l)
        (n + length l)
        (record s { items = s.items ++ l ∷ [] })
unfolding total bytes_of
lit-Follows to_string l a idx done n s f = record {
  args = f.args;
  lines = f.lines;
  written = f.written;
  binds = record {
    below = Below_suc idx f.args f.binds.below;
    arguments = f.binds.arguments;
    keeps = f.binds.keeps;
    named = f.binds.named;
    known = f.binds.known;
  };
  arm = f.arm;
  evaluates = f.evaluates;
  complete =
      rw (bytes_of-append s.items (l ∷ []), append-nil)
        (sym (append_assoc f.written (bytes_of s.items) (map byte l))
          ∙ ap (λ es. es ++ map byte l) f.complete);
  hint = omega (arith, total-append s.items (l ∷ []), f.hint);
}

write_line-Follows :
    (to_string : ℕ → Bytes) (code : Bytes) (a : Asked) (idx : ℕ) (lines : List Line)
    (es : List Event) (n : ℕ) (s : Emitting) (r : Emitting × ℕ)
    → IsBound to_string code a idx lines es s r
    → Means (ask_lines to_string lines start) s.lines
    → s.items ≡ []
    → s.size_hint ≡ n
    → Follows to_string a (idx + 1) (es ++ Event.code code ∷ []) n (write_line to_string r)
unfolding write_line ask_lines evaluate bytes_of total
write_line-Follows to_string code a idx lines es n s r bound arm no_items hint = record {
  args = bound.args;
  lines = use_of (r.1) ∷ lines;
  written = es ++ Event.code code ∷ [];
  binds = record {
    below = bound.binds.below;
    arguments = bound.binds.arguments;
    keeps = bound.binds.keeps;
    named = bound.binds.named;
    known = bound.binds.known;
  };
  arm =
      write-Means (line to_string (r.1)) (ask_lines to_string lines start) (r.0.lines)
        (subst (λ b. Means (ask_lines to_string lines start) b) (sym bound.same_lines) arm);
  evaluates = rw (bound.evaluates, bound.holds) refl;
  complete =
      ap (λ items. (es ++ Event.code code ∷ []) ++ bytes_of items) (bound.same_items ∙ no_items)
      ∙ append-nil (es ++ Event.code code ∷ []);
  hint =
      ap (λ items. r.0.size_hint + total items) (bound.same_items ∙ no_items)
      ∙ omega (arith, bound.same_hint, hint);
}

module _ {memchr3_iter : Memchr3Iter} (memchr : IsMemchr3 memchr3_iter) {T : Type 0}
    (visit_expr : Expr T → Option (DisplayWrap × Bytes)) (escaper : Bytes)
    (to_string : ℕ → Bytes) where
  emit_expr-Follows :
      (e : Expr T) (displayed : DisplayWrap × Bytes) (cacheable : Bool)
      → visit_expr e ≡ some displayed
      → is_cacheable e ≡ some cacheable
      → (a : Asked) (idx : ℕ) (done : List Event) (n : ℕ) (s : Emitting)
      → Follows to_string a idx done n s
      → (s' : Emitting) × (emit_expr visit_expr escaper to_string memchr3_iter e idx s ≡ some s')
        × Follows to_string a
            (idx + 1)
            (done ++ Event.code (display_code escaper displayed) ∷ [])
            (n + 3)
            s'
  unfolding emit_expr
  emit_expr-Follows e displayed cacheable visits caches a idx done n s f =
      let (b, flushed, arm) =
        write_all-Means memchr s.items (ask_lines to_string f.lines start) s.lines s.size_hint
          f.arm in
      let lines = push_texts s.items f.lines in
      let code = display_code escaper displayed in
      let s₁ : Emitting = record s {
        lines = b;
        items = [];
        size_hint = s.size_hint + total s.items + 3;
      } in
      let bound : IsBound to_string code a idx lines done s₁
          (cached to_string code idx cacheable s₁) =
        cached-IsBound to_string code a idx f.args lines done cacheable s₁
          record {
            below = f.binds.below;
            arguments = f.binds.arguments;
            keeps = f.binds.keeps;
            named = f.binds.named;
            known = f.binds.known;
          }
          (evaluate-push_texts f.args s.items f.lines f.written f.evaluates
            ∙ ap (λ es. some es) f.complete) in
      (
        write_line to_string (cached to_string code idx cacheable s₁),
        rw (flushed, visits, caches) refl,
        write_line-Follows to_string code a idx lines done (n + 3) s₁
            (cached to_string code idx cacheable s₁) bound
            (rw (ask_lines-push_texts to_string s.items f.lines start) arm) refl
            (omega (arith, f.hint)),
      )

  pub emit_all-Follows :
      (items : List (Writable (Expr T))) (es : List Event)
      → pieces visit_expr escaper items ≡ some es
      → (a : Asked) (idx : ℕ) (done : List Event) (n : ℕ) (s : Emitting)
      → Follows to_string a idx done n s
      → (s' : Emitting) × (idx' : ℕ) × (emit_all visit_expr escaper to_string memchr3_iter items idx
            s
          ≡ some s')
        × Follows to_string a idx' (done ++ es) (n + weight items) s'
  unfolding emit_all weight
  emit_all-Follows [] es h a idx done n s f = (
    s,
    idx,
    refl,
    moved to_string a idx s
        (sym (append-nil done) ∙ ap (λ es. done ++ es) (pieces_nil visit_expr escaper es h))
        (omega arith) f,
  )
  emit_all-Follows (lit l ∷ items) es h a idx done n s f =
      let (rest, e, same) = pieces_lit visit_expr escaper l items es h in
      let (s', idx', runs, f') =
        emit_all-Follows items rest e a (idx + 1) (done ++ map byte l) (n + length l)
          (record s { items = s.items ++ l ∷ [] }) (lit-Follows to_string l a idx done n s f) in
      (
        s',
        idx',
        runs,
        moved to_string a idx' s' (append_assoc done (map byte l) rest ∙ ap (λ es. done ++ es) same)
            (omega arith) f',
      )
  emit_all-Follows (expr e ∷ items) es h a idx done n s f =
      let (displayed, cacheable, rest, visits, caches, p, same) =
        pieces_expr visit_expr escaper e items es h in
      let code = Event.code (display_code escaper displayed) in
      let (s₁, emits, f₁) =
        emit_expr-Follows e displayed cacheable visits caches a idx done n s f in
      let (s', idx', runs, f') =
        emit_all-Follows items rest p a (idx + 1) (done ++ code ∷ []) (n + 3) s₁ f₁ in
      (
        s',
        idx',
        rw emits runs,
        moved to_string a idx' s' (append_assoc done (code ∷ []) rest ∙ ap (λ es. done ++ es) same)
            (omega arith) f',
      )
