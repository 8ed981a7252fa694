-- ===== src/Parser/Lit.antt =====
-- rinja_parser/src/node.rs: `Lit`, the text between two tags, cut into the whitespace that it
-- starts with, the text, and the whitespace that it ends with.
use rinja.Base.{
  ℕ, ◌-◌, Bool, true, false, ◌&&◌, ◌||◌, [], ◌∷◌, ◌++◌, ◌==◌, ◌≡◌, ◌≢◌, refl, arith, Bytes, take,
  drop, length, All, is_empty, take-length-append, drop-length-append, length-append, if◌then◌else◌,
  sym, ap, ◌∙◌,
}

-- `u8::is_ascii_whitespace`
abbrev pub is_ascii_whitespace : ℕ → Bool
is_ascii_whitespace c = c == 32 || c == 9 || c == 10 || c == 12 || c == 13

-- `str::trim_ascii_start` and `str::trim_ascii_end`
unfoldable pub trim_ascii_start : Bytes → Bytes
trim_ascii_start [] = []
trim_ascii_start (c ∷ s) = if is_ascii_whitespace c then trim_ascii_start s else c ∷ s

unfoldable pub trim_ascii_end : Bytes → Bytes
trim_ascii_end [] = []
trim_ascii_end (c ∷ s) =
    let rest = trim_ascii_end s in if is_ascii_whitespace c && is_empty rest then [] else c ∷ rest

pub record Lit : Type 0 where
  pub lws : Bytes
  pub val : Bytes
  pub rws : Bytes

unfoldable pub split_ws_parts : Bytes → Lit
split_ws_parts s =
    let trimmed_start = trim_ascii_start s in
    let trimmed = trim_ascii_end trimmed_start in
    record {
      lws = take (length s - length trimmed_start) s;
      val = trimmed;
      rws = drop (length trimmed) trimmed_start;
    }

abbrev pub IsBlank : Bytes → Type 0
IsBlank = All (λ c. is_ascii_whitespace c ≡ true)

-- The first byte, if there is one, is no whitespace; so for the last one.
abbrev pub StartsInk : Bytes → Type 0
StartsInk [] = Unit
StartsInk (c ∷ s) = is_ascii_whitespace c ≡ false

abbrev pub EndsInk : Bytes → Type 0
EndsInk [] = Unit
EndsInk (c ∷ []) = is_ascii_whitespace c ≡ false
EndsInk (_ ∷ d ∷ s) = EndsInk (d ∷ s)

-- What `trim_ascii_start` and `trim_ascii_end` take away.
leading : Bytes → Bytes
leading [] = []
leading (c ∷ s) = if is_ascii_whitespace c then c ∷ leading s else []

trailing : Bytes → Bytes
unfolding trim_ascii_end
trailing [] = []
trailing (c ∷ s) =
    if is_ascii_whitespace c && is_empty (trim_ascii_end s) then c ∷ trailing s else trailing s

leading-append : (s : Bytes) → leading s ++ trim_ascii_start s ≡ s
unfolding leading trim_ascii_start
leading-append [] = refl
leading-append (c ∷ s) = ground (arith, leading-append s)

trim-append : (s : Bytes) → trim_ascii_end s ++ trailing s ≡ s
unfolding trailing trim_ascii_end
trim-append [] = refl
trim-append (c ∷ s) = ground (arith, trim-append s)

leading-IsBlank : (s : Bytes) → IsBlank (leading s)
unfolding leading
leading-IsBlank [] = tt
leading-IsBlank (c ∷ s) = ground (arith, leading-IsBlank s)

trailing-IsBlank : (s : Bytes) → IsBlank (trailing s)
unfolding trailing
trailing-IsBlank [] = tt
trailing-IsBlank (c ∷ s) = ground (arith, trailing-IsBlank s)

trim_start-StartsInk : (s : Bytes) → StartsInk (trim_ascii_start s)
unfolding trim_ascii_start
trim_start-StartsInk [] = tt
trim_start-StartsInk (c ∷ s) = ground (arith, trim_start-StartsInk s)

trim_end-StartsInk : (s : Bytes) → StartsInk s → StartsInk (trim_ascii_end s)
unfolding trim_ascii_end
trim_end-StartsInk [] h = tt
trim_end-StartsInk (c ∷ s) h = ground arith

EndsInk-cons : (c : ℕ) (s : Bytes) → EndsInk s → s ≢ [] → EndsInk (c ∷ s)
EndsInk-cons c [] h n = absurd (n refl)
EndsInk-cons c (d ∷ s) h n = h

trim_end-EndsInk : (s : Bytes) → EndsInk (trim_ascii_end s)
unfolding trim_ascii_end
trim_end-EndsInk [] = tt
trim_end-EndsInk (c ∷ s) = go (trim_ascii_end s) (trim_end-EndsInk s) (is_ascii_whitespace c) refl
  where
    go :
        (r : Bytes)
        → EndsInk r
        → (b : Bool) → is_ascii_whitespace c ≡ b
        → EndsInk (if b && is_empty r then [] else c ∷ r)
    go [] h true e = tt
    go [] h false e = e
    go (d ∷ r) h true e = h
    go (d ∷ r) h false e = h

trim_end-nil : (s : Bytes) → StartsInk s → trim_ascii_end s ≡ [] → s ≡ []
unfolding trim_ascii_end
trim_end-nil [] h e = refl
trim_end-nil (c ∷ s) h e = ground arith

-- The three parts, with the lengths that the code computes taken away.
split_lem :
    (s : Bytes)
    → split_ws_parts s ≡ record {
      lws = leading s;
      val = trim_ascii_end (trim_ascii_start s);
      rws = trailing (trim_ascii_start s);
    }
unfolding split_ws_parts
split_lem s =
    let count : length s - length (trim_ascii_start s) ≡ length (leading s) =
      omega (arith, ap length (leading-append s), length-append (leading s) (trim_ascii_start s)) in
    let front : take (length (leading s)) s ≡ leading s =
      ap (take (length (leading s))) (sym (leading-append s))
      ∙ take-length-append (leading s) (trim_ascii_start s) in
    let t = trim_ascii_start s in
    let back : drop (length (trim_ascii_end t)) t ≡ trailing t =
      ap (drop (length (trim_ascii_end t))) (sym (trim-append t))
      ∙ drop-length-append (trim_ascii_end t) (trailing t) in
    cc (ap (λ n. take n s) count, front, back)

-- The properties of a literal's parts.
pub record IsSplit (s : Bytes) (l : Lit) : Type 0 where
  pub whole : l.lws ++ (l.val ++ l.rws) ≡ s
  pub lws_blank : IsBlank l.lws
  pub rws_blank : IsBlank l.rws
  pub val_starts : StartsInk l.val
  pub val_ends : EndsInk l.val
  pub no_rws : l.val ≡ [] → l.rws ≡ []

-- For every text: the three parts are the text again, the outer two hold whitespace only, the
-- middle one neither starts nor ends with whitespace, and where it is empty so is the last one.
pub split_ws_parts-IsSplit : (s : Bytes) → IsSplit s (split_ws_parts s)
split_ws_parts-IsSplit s =
    let t = trim_ascii_start s in
    rw (split_lem s) (record {
      whole = ap (λ r. leading s ++ r) (trim-append t) ∙ leading-append s;
      lws_blank = leading-IsBlank s;
      rws_blank = trailing-IsBlank t;
      val_starts = trim_end-StartsInk t (trim_start-StartsInk s);
      val_ends = trim_end-EndsInk t;
      no_rws = λ e. unfold trailing in rw (trim_end-nil t (trim_start-StartsInk s) e);
    })

leading-blank : (s : Bytes) → IsBlank s → (leading s ≡ s) × (trim_ascii_start s ≡ [])
unfolding leading trim_ascii_start
leading-blank [] h = (refl, refl)
leading-blank (c ∷ s) (hc, hs) = ground (arith, leading-blank s hs)

-- A text of whitespace only is all leading whitespace.
pub split_ws_parts-blank :
    (s : Bytes) → IsBlank s → split_ws_parts s ≡ record { lws = s; val = []; rws = [] }
split_ws_parts-blank s h =
    let (all, none_left) = leading-blank s h in
    rw (split_lem s, all, none_left) (unfold trim_ascii_end trailing in refl)
