-- ===== src/Html/Escape.antt =====
-- The loop of rinja/src/html.rs against a description of escaping that has no loop.
use mathlib.Core.List.{flat_map}
use mathlib.Core.Path.{fun_ext}
use rinja.Base.{
  ℕ, ◌+◌, Option, none, some, [], ◌∷◌, ◌++◌, if◌then◌else◌, Bytes, ◌==◌, codes, ◌≡◌, refl, sym,
  append_assoc, length-append, ap, ◌⊎◌, inl, inr, drop-length-append, slice-append, length, arith,
  ◌>>=◌,
}
use rinja.Fmt.{WriteStr, IsWriter}
use rinja.Html.{get_escaped, escaped_buf, write_escaped_str, write_str_if_nonempty, escape_loop}

-- The decimal character references of the five characters that are special in HTML.
unfoldable pub escape_byte : ℕ → Bytes
escape_byte c =
    if c == b'"'
    then codes "&#34;"
    else if c == b'&'
    then codes "&#38;"
    else if c == b'\''
    then codes "&#39;"
    else if c == b'<'
    then codes "&#60;"
    else if c == b'>'
    then codes "&#62;"
    else c ∷ []

unfoldable pub escape : Bytes → Bytes
unfolding flat_map escape_byte
escape s = flat_map escape_byte s

abbrev pub escape_digits : ℕ → Option (ℕ × ℕ)
escape_digits c =
    if c == 34
    then some (b'3', b'4')
    else if c == 38
    then some (b'3', b'8')
    else if c == 39
    then some (b'3', b'9')
    else if c == 60
    then some (b'6', b'0')
    else if c == 62
    then some (b'6', b'2')
    else none

pub get_escaped_lem : (c : ℕ) → get_escaped c ≡ escape_digits c
unfolding get_escaped
get_escaped_lem c = ground arith

-- What one byte contributes: itself, or the buffer with the digits of the table.
pub get_escaped-cases :
    (c : ℕ)
    → ((get_escaped c ≡ none) × (escape_byte c ≡ c ∷ []))
      ⊎ ((d : ℕ × ℕ) × (get_escaped c ≡ some d) × (escape_byte c ≡ escaped_buf d))
unfolding escape_byte escaped_buf
get_escaped-cases c = ground (arith, get_escaped_lem c)

module _ {W : Type 0} {write_str : WriteStr W} (writer : IsWriter write_str) where
  nonempty_lem : (w : W) (s : Bytes) → write_str_if_nonempty write_str w s ≡ write_str w s
  unfolding write_str_if_nonempty
  nonempty_lem w [] = sym (writer.write-nil w)
  nonempty_lem w (_ ∷ _) = refl

  -- Two writes with a third behind them, as one.
  write_twice :
      (w : W) (a b : Bytes) (k : W → Option W) (c : Bytes)
      → ((w' : W) → k w' ≡ write_str w' c)
      → (do w₁ ← write_str w a; w₂ ← write_str w₁ b; k w₂) ≡ write_str w (a ++ (b ++ c))
  write_twice w a b k c h = rw (writer.write-append w a (b ++ c)) (
      ap (λ (f : W → Option W). write_str w a >>= f)
        (fun_ext λ w₁. rw (fun_ext h) (sym (writer.write-append w₁ b c))))

  escape_loop_lem :
      (rest before pending : Bytes) (dest : W) (index last : ℕ)
      → last ≡ length before
      → index ≡ last + length pending
      → escape_loop write_str (before ++ (pending ++ rest)) dest rest index last
        ≡ write_str dest (pending ++ escape rest)
  unfolding escape_loop escape
  escape_loop_lem [] before pending dest index last hl hi =
      rw (hl, drop-length-append before (pending ++ []), nonempty_lem)
  escape_loop_lem (c ∷ rest) before pending dest index last hl hi = elim (get_escaped-cases c) [
    | inl (plain, out) ↦
        rw (plain, escape_loop)
          (rw out (
            simp append_assoc at (
              escape_loop_lem rest before (pending ++ c ∷ []) dest (index + 1) last hl
                (omega (arith, length-append pending (c ∷ []))))))
    | inr (d, found, out) ↦
        rw (found, escape_loop)
          (rw (out, nonempty_lem, slice-append before pending (c ∷ rest) last index hl hi)
            (write_twice dest pending (escaped_buf d) _ _ (λ w. simp append_assoc at (
              escape_loop_lem rest (before ++ (pending ++ c ∷ [])) [] w (index + 1) (index + 1)
                (omega
                  (arith, length-append before (pending ++ c ∷ []), length-append pending (c ∷ [])))
                (omega arith)))))
  ]

  -- Whatever the destination: writing the escape of a text byte by byte, as the loop of
  -- `write_escaped_str` does, is one write of the text in which every special byte is replaced.
  pub write_escaped_str-escape :
      (dest : W) (src : Bytes) → write_escaped_str write_str dest src ≡ write_str dest (escape src)
  unfolding write_escaped_str
  write_escaped_str-escape dest src = escape_loop_lem src [] [] dest 0 0 refl refl
