-- ===== src/Filters/Indent.antt =====
-- rinja/src/filters/alloc.rs: the filter `indent`, on the text that its value writes. An index is
-- smaller than the length less one exactly where more text follows.
use rinja.Base.{
  ℕ, zero, suc, ◌+◌, ◌*◌, ◌<◌, ◌≡◌, refl, ◌∙◌, ap, true, false, not, ◌&&◌, ◌||◌, [], ◌∷◌, ◌++◌,
  if◌then◌else◌, ◌==◌, leb, Bytes, is_empty, newline, space, length, length-append, replicate,
  arith, Bool-cases, inl, inr,
}

unfoldable pub max_len : ℕ
max_len = 10000

-- The loop over the characters.
unfoldable pub indent_lines : ℕ → Bytes → Bytes
indent_lines width [] = []
indent_lines width (c ∷ s) =
    let rest = indent_lines width s in
    c ∷ (if c == newline && not (is_empty s) then replicate width space ++ rest else rest)

unfoldable pub indent : Bytes → ℕ → Bytes
unfolding max_len indent_lines
indent s width = if leb max_len width || leb max_len (length s) then s else indent_lines width s

-- Takes `width` characters off behind each newline that is not at the end; `skip` are left to go.
unfoldable pub dedent : ℕ → ℕ → Bytes → Bytes
dedent width skip [] = []
dedent width zero (c ∷ s) =
    c ∷ dedent width (if c == newline && not (is_empty s) then width else 0) s
dedent width (suc skip) (c ∷ s) = dedent width skip s

-- The lines behind the first one.
unfoldable pub further_lines : Bytes → ℕ
further_lines [] = 0
further_lines (c ∷ s) =
    let rest = further_lines s in if c == newline && not (is_empty s) then suc rest else rest

dedent-replicate :
    (width n : ℕ) (s : Bytes) → dedent width n (replicate n space ++ s) ≡ dedent width 0 s
unfolding dedent
dedent-replicate width zero s = refl
dedent-replicate width (suc n) s = dedent-replicate width n s

still_more :
    (width n : ℕ) (c : ℕ) (s : Bytes)
    → is_empty (replicate n space ++ indent_lines width (c ∷ s)) ≡ false
unfolding indent_lines
still_more width zero c s = refl
still_more width (suc n) c s = refl

behind_newline :
    (width c : ℕ) (t : Bytes)
    → (c == newline) ≡ true
    → is_empty (replicate width space ++ t) ≡ false
    → dedent width 0 (c ∷ (replicate width space ++ t)) ≡ c ∷ dedent width 0 t
unfolding dedent
behind_newline width c t nl more = rw (nl, more) (ap (λ r. c ∷ r) (dedent-replicate width width t))

in_line :
    (width c : ℕ) (t : Bytes)
    → (c == newline) ≡ false
    → dedent width 0 (c ∷ t) ≡ c ∷ dedent width 0 t
unfolding dedent
in_line width c t other = rw other refl

indent_newline :
    (width c d : ℕ) (s : Bytes)
    → (c == newline) ≡ true
    → indent_lines width (c ∷ d ∷ s) ≡ c ∷ (replicate width space ++ indent_lines width (d ∷ s))
unfolding indent_lines
indent_newline width c d s nl = rw nl refl

indent_in_line :
    (width c d : ℕ) (s : Bytes)
    → (c == newline) ≡ false
    → indent_lines width (c ∷ d ∷ s) ≡ c ∷ indent_lines width (d ∷ s)
unfolding indent_lines
indent_in_line width c d s other = rw other refl

dedent_one : (width c : ℕ) → dedent width 0 (indent_lines width (c ∷ [])) ≡ c ∷ []
unfolding dedent indent_lines
dedent_one width c = ground arith

dedent-indent_lines : (width : ℕ) (s : Bytes) → dedent width 0 (indent_lines width s) ≡ s
dedent-indent_lines width [] = unfold dedent indent_lines in refl
dedent-indent_lines width (c ∷ []) = dedent_one width c
dedent-indent_lines width (c ∷ d ∷ s) =
    let rest = dedent-indent_lines width (d ∷ s) in
    elim (Bool-cases (c == newline)) [
      | inl nl ↦
          ap (dedent width 0) (indent_newline width c d s nl)
          ∙ (behind_newline width c (indent_lines width (d ∷ s)) nl (still_more width width d s)
              ∙ ap (λ r. c ∷ r) rest)
      | inr other ↦
          ap (dedent width 0) (indent_in_line width c d s other)
          ∙ (in_line width c (indent_lines width (d ∷ s)) other ∙ ap (λ r. c ∷ r) rest)
    ]

length-replicate : (n : ℕ) → length (replicate n space) ≡ n
length-replicate zero = refl
length-replicate (suc n) = ap suc (length-replicate n)

length-indent_lines :
    (width : ℕ) (s : Bytes) → length (indent_lines width s) ≡ length s + further_lines s * width
unfolding indent_lines further_lines
length-indent_lines width [] = omega arith
length-indent_lines width (c ∷ s) = elim (Bool-cases (c == newline && not (is_empty s))) [
  | inl more ↦ rw more (
      omega (
        arith,
        length-append (replicate width space) (indent_lines width s),
        length-replicate width,
        length-indent_lines width s,
      ))
  | inr other ↦ rw other (omega (arith, length-indent_lines width s))
]

below : {n m : ℕ} → n < max_len → m < max_len → (leb max_len n || leb max_len m) ≡ false
below narrow small = ground arith

-- Where the text and the width are below the limit: taking `width` characters off behind every
-- newline that more text follows gives the text back, and the result is longer by just the width
-- for each line behind the first.
pub dedent-indent :
    (s : Bytes) (width : ℕ)
    → length s < max_len
    → width < max_len
    → (dedent width 0 (indent s width) ≡ s)
      × (length (indent s width) ≡ length s + further_lines s * width)
unfolding indent
dedent-indent s width small narrow =
    let short : (leb max_len width || leb max_len (length s)) ≡ false = below narrow small in
    rw short (dedent-indent_lines width s, length-indent_lines width s)
