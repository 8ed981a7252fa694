-- ===== src/Filters/Truncate/Cut.antt =====
-- What `TruncateWriter` of rinja/src/filters/builtin.rs lets through of a value, however the value
-- cuts its text into writes.
use mathlib.Core.Path.{fun_ext}
use rinja.Base.{
  ℕ, zero, suc, ◌+◌, ◌-◌, ◌<◌, true, false, Option, none, some, List, [], ◌∷◌, ◌++◌, ◌≡◌, refl, sym,
  ap, ◌∙◌, arith, ltb, ltb→lt, leb, leb→le, bind_assoc, ◌==◌, length, take, drop, Bytes, ◌>>=◌, All,
  append_assoc, append-nil, length-append, take-append-drop, Bool-cases, ◌⊎◌, inl, inr, length-take,
  take-length-append, length-drop,
}
use rinja.Fmt.{WriteStr, IsWriter}
use rinja.Filters.Escape.{display, concat}
use rinja.Filters.Truncate.{
  is_continuation, next_boundary, TruncateWriter, new, dots, close, truncate_write_str,
}
use rinja.Filters.Truncate.Boundary.{
  truncated, StartsChar, continuation, behind, continuation-append, truncated-short, truncated-open,
  truncated-closed, next_boundary-continuation, truncated-append,
}

bind_some : {A : Type 0} (m : Option A) → (m >>= λ a. some a) ≡ m
bind_some none = refl
bind_some (some a) = refl

module _ {W : Type 0} where
  abbrev opened : ℕ → W → TruncateWriter W
  opened n w = record { dest = w; is_some = true; remaining = n }

  abbrev closed : ℕ → W → TruncateWriter W
  closed n w = record { dest = w; is_some = false; remaining = n }

module _ {W : Type 0} (write_str : WriteStr W) (w : W) (n : ℕ) (s : Bytes) where
  -- The writer passes on a text and stays open, or passes on a text and closes.
  record Passes : Type 0 where
    out : Bytes
    next : ℕ
    writes :
        truncate_write_str write_str (opened n w) s
        ≡ (write_str w out >>= λ d. some (opened next d))
    goes_on : (rest : Bytes) → truncated n (s ++ rest) ≡ out ++ truncated next rest

  record Closes : Type 0 where
    out : Bytes
    writes :
        truncate_write_str write_str (opened n w) s ≡ (write_str w out >>= λ d. some (closed n d))
    ends : (rest : Bytes) → truncated n (s ++ rest) ≡ out

module _ {W : Type 0} {write_str : WriteStr W} (writer : IsWriter write_str) where
  short : (w : W) (n : ℕ) (s : Bytes) → leb (length s) n ≡ true → Passes write_str w n s
  unfolding truncate_write_str
  short w n s h = record {
    out = s;
    next = n - length s;
    writes = rw h;
    goes_on = λ rest. truncated-short n s rest (leb→le (length s) n h);
  }

  at_once : (w : W) (c : ℕ) (s : Bytes) → is_continuation c ≡ false → Closes write_str w 0 (c ∷ s)
  unfolding truncate_write_str truncated
  at_once w c s h = record { out = dots; writes = ground arith; ends = λ rest. rw h }

  long : (p q : Bytes) → 0 < length q → leb (length (p ++ q)) (length p) ≡ false
  long p q h = ground (arith, length-append p q)

  completes :
      (p q : Bytes)
      → 0 < length p
      → next_boundary (length (p ++ q)) (p ++ q) (length p) ≡ some (length (p ++ continuation q))
  completes p q h =
      next_boundary-continuation q p (length (p ++ q)) (length p) h refl
        (omega (arith, length-append p q))
      ∙ ap some (sym (length-append p (continuation q)))

  -- A text that ends before the character does, or right behind it.
  whole :
      (w : W) (p q : Bytes)
      → ltb 0 (length p) ≡ true
      → 0 < length q
      → behind q ≡ []
      → Passes write_str w (length p) (p ++ q)
  unfolding truncate_write_str
  whole w p q hp hq h =
      let all : continuation q ≡ q = cc (continuation-append q, h, append-nil (continuation q)) in
      let at_end : (length (p ++ q) == length (p ++ q)) ≡ true = ground arith in
      record {
        out = p ++ q;
        next = 0;
        writes = rw (long p q hq, hp, completes p q (ltb→lt _ _ hp), all, at_end);
        goes_on = λ rest. rw append_assoc (
            truncated-append p (q ++ rest)
            ∙ ap (λ u. p ++ u) (truncated-open q rest h)
            ∙ sym (append_assoc p q (truncated 0 rest)));
      }

  part :
      (w : W) (p q : Bytes) (c : ℕ) (t : Bytes)
      → ltb 0 (length p) ≡ true
      → behind q ≡ c ∷ t
      → Closes write_str w (length p) (p ++ q)
  unfolding truncate_write_str close
  part w p q c t hp h =
      let upto = p ++ continuation q in
      let split : p ++ q ≡ upto ++ c ∷ t =
        cc (continuation-append q, h, append_assoc p (continuation q) (c ∷ t)) in
      let size : length (p ++ q) ≡ length upto + length (c ∷ t) =
        ap length split ∙ length-append upto (c ∷ t) in
      let positive : 0 < length q =
        omega (arith, size, length-append p q, length-append p (continuation q)) in
      let not_end : (length upto == length (p ++ q)) ≡ false = ground arith in
      let taken : take (length upto) (p ++ q) ≡ upto =
        ap (take (length upto)) split ∙ take-length-append upto (c ∷ t) in
      record {
        out = upto ++ dots;
        writes =
            rw
              (
                long p q positive,
                hp,
                completes p q (ltb→lt _ _ hp),
                not_end,
                taken,
                writer.write-append w upto dots,
              )
              (sym (bind_assoc (write_str w upto) _ _));
        ends = λ rest. rw append_assoc (
            truncated-append p (q ++ rest)
            ∙ ap (λ u. p ++ u) (truncated-closed q rest c t h)
            ∙ sym (append_assoc p (continuation q) dots));
      }

  either :
      (w : W) (p q : Bytes)
      → ltb 0 (length p) ≡ true
      → 0 < length q
      → Passes write_str w (length p) (p ++ q) ⊎ Closes write_str w (length p) (p ++ q)
  either w p q hp hq = go (behind q) refl
    where
      go :
          (b : Bytes)
          → behind q ≡ b
          → Passes write_str w (length p) (p ++ q) ⊎ Closes write_str w (length p) (p ++ q)
      go [] e = inl (whole w p q hp hq e)
      go (c ∷ t) e = inr (part w p q c t hp e)

  too_long :
      (w : W) (n : ℕ) (s : Bytes)
      → StartsChar s
      → leb (length s) n ≡ false
      → Passes write_str w n s ⊎ Closes write_str w n s
  too_long w zero [] hs h = ground arith
  too_long w zero (c ∷ s) hs h = inr (at_once w c s hs)
  too_long w (suc n) s hs h =
      let count : length (take (suc n) s) ≡ suc n = ground (arith, length-take (suc n) s) in
      rw (count, take-append-drop (suc n) s) at
        (either w (take (suc n) s) (drop (suc n) s) (ground arith)
          (ground (arith, length-drop (suc n) s)))

  step :
      (w : W) (n : ℕ) (s : Bytes) → StartsChar s → Passes write_str w n s ⊎ Closes write_str w n s
  step w n s hs = elim (Bool-cases (leb (length s) n)) [
    | inl fits ↦ inl (short w n s fits)
    | inr over ↦ too_long w n s hs over
  ]

  display-closed :
      (n : ℕ) (w : W) (value : List Bytes)
      → display (truncate_write_str write_str) (closed n w) value ≡ some (closed n w)
  unfolding display truncate_write_str
  display-closed n w [] = refl
  display-closed n w (s ∷ value) = display-closed n w value

  display-opened :
      (value : List Bytes)
      → All StartsChar value
      → (n : ℕ) (w : W)
      → (display (truncate_write_str write_str) (opened n w) value >>= λ t. some t.dest)
        ≡ write_str w (truncated n (concat value))
  unfolding display
  display-opened [] h n w = unfold truncated in sym (writer.write-nil w)
  display-opened (s ∷ value) (hs, h) n w = elim (step w n s hs) [
    | inl p ↦
        rw
          (
            p.writes,
            p.goes_on (concat value),
            writer.write-append w p.out (truncated p.next (concat value)),
            bind_assoc,
            bind_assoc,
          )
          (ap (λ (f : W → Option W). write_str w p.out >>= f)
            (fun_ext λ d. display-opened value h p.next d))
    | inr c ↦
        rw (c.writes, c.ends (concat value), bind_assoc, bind_assoc)
          (ap (λ (f : W → Option W). write_str w c.out >>= f)
              (fun_ext λ d.
                ap (λ (o : Option (TruncateWriter W)). o >>= λ t. some t.dest)
                  (display-closed n d value))
            ∙ bind_some (write_str w c.out))
  ]

  -- For every destination, number of bytes and value whose texts do not start inside a character:
  -- what the filter lets through, in all, is at least that many bytes, as many more as complete
  -- the last character, and dots exactly if something is behind; the loop that looks for the end
  -- of the character stops.
  pub display-truncated :
      (w : W) (n : ℕ) (value : List Bytes)
      → All StartsChar value
      → (display (truncate_write_str write_str) (new w n) value >>= λ t. some t.dest)
        ≡ write_str w (truncated n (concat value))
  unfolding new
  display-truncated w n value h = display-opened value h n w
