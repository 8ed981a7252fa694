-- ===== src/Html/Safety.antt =====
-- What the escaped text of rinja/src/html.rs is good for: it holds none of the bytes that end a
-- text or an attribute, and a reader of character references gets the original back.
use rinja.Base.{
  ℕ, ◌+◌, ◌-◌, ◌*◌, ◌≤◌, ◌≢◌, append_assoc, append-nil, ◌<◌, ◌&&◌, true, false, [], ◌∷◌, ◌++◌,
  Bytes, ◌==◌, ◌≡◌, refl, arith, All, All-append,
}
use rinja.Fmt.{WriteStr, IsWriter, encode_utf8}
use rinja.Html.{write_escaped_str, write_escaped_char}
use rinja.Html.Escape.{escape_byte, escape, get_escaped-cases, write_escaped_str-escape}

-- A byte that can neither open or close a tag nor end a quoted attribute.
abbrev pub IsInert : ℕ → Type 0
IsInert c = (c ≢ b'<') × (c ≢ b'>') × (c ≢ b'"') × (c ≢ b'\'')

-- Reads back the references of two decimal digits, and copies every other byte.
unfoldable pub unescape : Bytes → Bytes
unescape (a ∷ b ∷ c ∷ d ∷ e ∷ s) = elim (a == b'&' && b == b'#' && e == b';') [
  | true ↦ ((c - b'0') * 10 + (d - b'0')) ∷ unescape s
  | false ↦ a ∷ unescape (b ∷ c ∷ d ∷ e ∷ s)
]
unescape s = s

escape_byte-IsInert : (c : ℕ) → All IsInert (escape_byte c)
unfolding escape_byte
escape_byte-IsInert c = ground arith

escape-IsInert : (s : Bytes) → All IsInert (escape s)
unfolding escape
escape-IsInert [] = tt
escape-IsInert (c ∷ s) =
    All-append IsInert (escape_byte c) (escape s) (escape_byte-IsInert c) (escape-IsInert s)

unescape_plain : (c : ℕ) (s : Bytes) → c ≢ b'&' → unescape (c ∷ s) ≡ c ∷ unescape s
unfolding unescape
unescape_plain c [] h = refl
unescape_plain c (_ ∷ []) h = refl
unescape_plain c (_ ∷ _ ∷ []) h = refl
unescape_plain c (_ ∷ _ ∷ _ ∷ []) h = refl
unescape_plain c (b ∷ d ∷ e ∷ f ∷ s) h = ground arith

unescape-escape_byte : (c : ℕ) (s : Bytes) → unescape (escape_byte c ++ s) ≡ c ∷ unescape s
unfolding escape_byte unescape
unescape-escape_byte c s = ground (arith, unescape_plain c s)

unescape-escape : (s : Bytes) → unescape (escape s) ≡ s
unfolding escape
unescape-escape [] = unfold unescape in refl
unescape-escape (c ∷ s) = rw (unescape-escape_byte c (escape s), unescape-escape s)

-- Escaping goes through a text piece by piece.
pub escape-append : (a b : Bytes) → escape (a ++ b) ≡ escape a ++ escape b
unfolding escape
escape-append [] b = refl
escape-append (c ∷ a) b = simp (escape-append a b, append_assoc)

-- Whatever the text and the destination: what `write_escaped_str` writes is one text that holds
-- no `<`, no `>`, no `"` and no `'`, and that reads back, reference by reference, as the original.
pub write_escaped_str-IsInert :
    {W : Type 0} {write_str : WriteStr W} (writer : IsWriter write_str) (dest : W) (src : Bytes)
    → (out : Bytes) × (write_escaped_str write_str dest src ≡ write_str dest out)
      × All IsInert out
      × (unescape out ≡ src)
write_escaped_str-IsInert writer dest src =
    (escape src, write_escaped_str-escape writer dest src, escape-IsInert src, unescape-escape src)

escape_high : (s : Bytes) → All (λ c. 128 ≤ c) s → escape s ≡ s
unfolding escape escape_byte
escape_high [] h = refl
escape_high (c ∷ s) (hc, hs) = ground (arith, escape_high s hs)

encode_utf8_high : (c : ℕ) → 128 ≤ c → All (λ b. 128 ≤ b) (encode_utf8 c)
unfolding encode_utf8
encode_utf8_high c h = ground arith

encode_utf8_low : (c : ℕ) → c < 128 → encode_utf8 c ≡ c ∷ []
unfolding encode_utf8
encode_utf8_low c h = ground arith

escape_single : (c : ℕ) → escape (c ∷ []) ≡ escape_byte c
unfolding escape
escape_single c = append-nil (escape_byte c)

-- A single character is escaped as the text that consists of it.
pub write_escaped_char-str :
    {W : Type 0} {write_str : WriteStr W} (writer : IsWriter write_str) (dest : W) (c : ℕ)
    → write_escaped_char write_str dest c ≡ write_escaped_str write_str dest (encode_utf8 c)
unfolding write_escaped_char
write_escaped_char-str writer dest c = ground (
  arith,
  write_escaped_str-escape writer dest (encode_utf8 c),
  get_escaped-cases c,
  escape_single c,
  encode_utf8_low c,
  escape_high (encode_utf8 c),
  encode_utf8_high c,
)
