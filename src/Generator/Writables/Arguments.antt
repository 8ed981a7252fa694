-- ===== src/Generator/Writables/Arguments.antt =====
-- The arguments of the `match` of `write_buf_writable` (rinja_derive/src/generator/node.rs) in the
-- buffers that are written: every new one gets its own target, a cached one is found again.
use rinja.Base.{
  ℕ, ◌+◌, ◌≡◌, refl, Bool, true, false, some, List, [], ◌∷◌, ap, Bytes, codes, length, arith,
  Option-cases, inl, inr,
}
use rinja.Buffer.{Buffer, Memchr3Iter, write, write_writer}
use rinja.Buffer.Escape.{IsMemchr3}
use rinja.Buffer.Ask.{Event, Asked, ask, write_text, Means, apply}
use rinja.Buffer.Pieces.{write-Means}
use rinja.Buffer.Merge.{write_text-Means}
use rinja.Generator.Writables.{find_cached, argument, write_all, Emitting, bind_arg, cached}
use rinja.Generator.Writables.Plan.{
  Arg, Line, bound_code, Below, evaluate, ask_texts, ask_args, target_list,
}
use rinja.Generator.Writables.Binding.{
  Known, bound_code_new, Below_suc, Known_older, find_cached-Known, evaluate_older,
}

abbrev pub start : Asked
start = record { discarding = false; wanted = [] }

unfoldable pub total : List Bytes → ℕ
total [] = 0
total (s ∷ items) = length s + total items

module _ {memchr3_iter : Memchr3Iter} (memchr : IsMemchr3 memchr3_iter) where
  writer_size :
      (s : Bytes) (b b' : Buffer)
      → apply memchr3_iter (write_text s) b ≡ some b'
      → write_writer memchr3_iter s b ≡ some (b', length s)
  unfolding apply write_writer
  writer_size s b b' h = ground arith

  pub write_all-Means :
      (items : List Bytes) (a : Asked) (b : Buffer) (n : ℕ)
      → Means a b
      → (b' : Buffer) × (write_all memchr3_iter items b n ≡ some (b', n + total items))
        × Means (ask_texts items a) b'
  unfolding write_all ask_texts total
  write_all-Means [] a b n m = (b, ap (λ k. some (b, k)) (omega arith), m)
  write_all-Means (s ∷ items) a b n m =
      let (b₁, applied, m₁) = write_text-Means memchr s a b m in
      let (b₂, rest, m₂) = write_all-Means items (ask (write_text s) a) b₁ (n + length s) m₁ in
      (b₂, rw (writer_size s b b₁ applied, rest) (ap (λ k. some (b₂, k)) (omega arith)), m₂)

-- The arguments that are bound so far, with their targets and the cache.
pub record Binds (to_string : ℕ → Bytes) (a : Asked) (idx : ℕ) (args : List Arg) (s : Emitting)
    : Type 0 where
  pub below : Below idx args
  pub arguments : Means (ask_args args a) s.buf
  pub keeps : s.targets.discard ≡ false
  pub named : s.targets.buf ≡ target_list to_string args
  pub known : Known args s.expr_cache

module _ (to_string : ℕ → Bytes) where
  bind_arg-Binds :
      (code sep : Bytes) (a : Asked) (idx : ℕ) (args : List Arg) (s : Emitting)
      → Binds to_string a idx args s
      → Binds to_string a (idx + 1) ((idx, code, sep) ∷ args) (bind_arg to_string code idx sep s)
  unfolding bind_arg target_list ask_args
  bind_arg-Binds code sep a idx args s m = record {
    below = (omega arith, m.below);
    arguments = write-Means (argument code) (ask_args args a) s.buf m.arguments;
    keeps = unfold write in rw m.keeps refl;
    named = unfold write in rw (m.keeps, m.named) refl;
    known = Known_older idx code sep args s.expr_cache m.below m.known;
  }

  -- What `cached` leaves: the arguments it ends with, and the one that holds the code.
  pub record IsBound (code : Bytes) (a : Asked) (idx : ℕ) (lines : List Line) (es : List Event)
      (s : Emitting) (r : Emitting × ℕ) : Type 0 where
    pub args : List Arg
    pub binds : Binds to_string a (idx + 1) args (r.0)
    pub holds : bound_code (r.1) args ≡ some code
    pub evaluates : evaluate args lines ≡ some es
    pub same_lines : r.0.lines ≡ s.lines
    pub same_items : r.0.items ≡ s.items
    pub same_hint : r.0.size_hint ≡ s.size_hint

  pub cached-IsBound :
      (code : Bytes) (a : Asked) (idx : ℕ) (args : List Arg) (lines : List Line) (es : List Event)
      (cacheable : Bool) (s : Emitting)
      → Binds to_string a idx args s
      → evaluate args lines ≡ some es
      → IsBound code a idx lines es s (cached to_string code idx cacheable s)
  unfolding cached
  cached-IsBound code a idx args lines es false s m h = record {
    args = (idx, code, codes ", ") ∷ args;
    binds = bind_arg-Binds code (codes ", ") a idx args s m;
    holds = bound_code_new idx code (codes ", ") args;
    evaluates = evaluate_older idx code (codes ", ") args lines es m.below h;
    same_lines = unfold bind_arg in refl;
    same_items = unfold bind_arg in refl;
    same_hint = unfold bind_arg in refl;
  }
  cached-IsBound code a idx args lines es true s m h =
      elim (Option-cases (find_cached code s.expr_cache)) [
        | inl fresh ↦
            let b = bind_arg-Binds code (codes ",") a idx args s m in
            rw (fresh, cached)
              record {
                args = (idx, code, codes ",") ∷ args;
                binds = record {
                  below = b.below;
                  arguments = b.arguments;
                  keeps = b.keeps;
                  named = b.named;
                  known = (
                    bound_code_new idx code (codes ",") args,
                    Known_older idx code (codes ",") args s.expr_cache m.below m.known,
                  );
                };
                holds = bound_code_new idx code (codes ",") args;
                evaluates = evaluate_older idx code (codes ",") args lines es m.below h;
                same_lines = unfold bind_arg in refl;
                same_items = unfold bind_arg in refl;
                same_hint = unfold bind_arg in refl;
              }
        | inr (known, found) ↦
            rw (found, cached)
              record {
                args = args;
                binds = record {
                  below = Below_suc idx args m.below;
                  arguments = m.arguments;
                  keeps = m.keeps;
                  named = m.named;
                  known = m.known;
                };
                holds = find_cached-Known code known args s.expr_cache m.known found;
                evaluates = h;
                same_lines = refl;
                same_items = refl;
                same_hint = refl;
              }
      ]
