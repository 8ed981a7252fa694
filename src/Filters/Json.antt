-- ===== src/Filters/Json.antt =====
-- rinja/src/filters/json.rs: the writer behind the serializer, which escapes the characters that
-- are special in HTML by the escapes of JSON strings.
use mathlib.Core.Path.{fun_ext}
use Prim.Native.Nat.{◌/◌, ◌%◌}
use rinja.Base.{
  ℕ, ◌+◌, ◌-◌, ltb, contains_byte, true, Bool-cases, Option, none, some, [], ◌∷◌, ◌++◌,
  if◌then◌else◌, Bytes, ◌==◌, codes, ◌≡◌, refl, sym, ap, append_assoc, length-append, length, drop,
  slice, drop-length-append, slice-append, arith, ◌>>=◌, ◌≢◌, All, All-append, inl, inr, ◌⊎◌,
}
use rinja.Fmt.{WriteStr, IsWriter}

-- The `match byte`.
unfoldable pub escaped : ℕ → Option Bytes
escaped byte =
    if byte == b'&'
    then some (codes "\\u0026")
    else if byte == b'\''
    then some (codes "\\u0027")
    else if byte == b'<'
    then some (codes "\\u003c")
    else if byte == b'>'
    then some (codes "\\u003e")
    else none

module _ {W : Type 0} (write_str : WriteStr W) where
  -- The loop of `write`: the bytes that are left, `index` and `last`.
  unfoldable pub write_loop : Bytes → W → Bytes → ℕ → ℕ → Option W
  write_loop bytes f [] index last = write_str f (drop last bytes)
  write_loop bytes f (byte ∷ rest) index last = elim (escaped byte) [
    | none ↦ write_loop bytes f rest (index + 1) last
    | some escaped ↦ do
      f ← write_str f (slice bytes last index)
      f ← write_str f escaped
      write_loop bytes f rest (index + 1) (index + 1)
  ]

  unfoldable pub write : W → Bytes → Option W
  unfolding write_loop
  write f bytes = write_loop bytes f bytes 0 0

  -- `io::Write` for `JsonWriter`: `write_all`, and `write` with the number of bytes.
  unfoldable pub json_write_all : W → Bytes → Option W
  unfolding write
  json_write_all f bytes = write f bytes

  unfoldable pub json_write : W → Bytes → Option (W × ℕ)
  unfolding json_write_all
  json_write f bytes = do f ← json_write_all f bytes; some (f, length bytes)

-- A digit of base 16.
unfoldable pub hex_digit : ℕ → ℕ
hex_digit d = if ltb d 10 then b'0' + d else b'a' + (d - 10)

-- The escape of JSON for a byte: its code, in base 16.
unfoldable pub json_escape : ℕ → Bytes
unfolding hex_digit
json_escape c = codes "\\u00" ++ hex_digit (c / 16) ∷ hex_digit (c % 16) ∷ []

-- A byte as it must stand in HTML: those that are special there as their escapes.
unfoldable pub escape_byte : ℕ → Bytes
unfolding json_escape
escape_byte c = if contains_byte c (codes "<>&'") then json_escape c else c ∷ []

unfoldable pub escape : Bytes → Bytes
unfolding escape_byte
escape [] = []
escape (c ∷ s) = escape_byte c ++ escape s

-- A byte that can neither open or close a tag, start a character reference, nor end an attribute
-- in single quotation marks.
abbrev pub IsHarmless : ℕ → Type 0
IsHarmless c = (c ≢ b'<') × (c ≢ b'>') × (c ≢ b'&') × (c ≢ b'\'')

abbrev IsEscapedAs : ℕ → Type 0
IsEscapedAs c =
    ((escaped c ≡ none) × (escape_byte c ≡ c ∷ []))
    ⊎ ((e : Bytes) × (escaped c ≡ some e) × (escape_byte c ≡ e))

special : (c d : ℕ) → (c == d) ≡ true → IsEscapedAs d → IsEscapedAs c
special c d same h = let at : c ≡ d = ground arith in rw at h

escape_byte-cases : (c : ℕ) → IsEscapedAs c
unfolding escape_byte escaped
escape_byte-cases c = elim (Bool-cases (c == b'&')) [
  | inl same ↦ special c b'&' same (inr (codes "\\u0026", refl, refl))
  | inr n₁ ↦ elim (Bool-cases (c == b'\'')) [
    | inl same ↦ special c b'\'' same (inr (codes "\\u0027", refl, refl))
    | inr n₂ ↦ elim (Bool-cases (c == b'<')) [
      | inl same ↦ special c b'<' same (inr (codes "\\u003c", refl, refl))
      | inr n₃ ↦ elim (Bool-cases (c == b'>')) [
        | inl same ↦ special c b'>' same (inr (codes "\\u003e", refl, refl))
        | inr n₄ ↦ inl (rw (n₁, n₂, n₃, n₄) refl, ground arith)
      ]
    ]
  ]
]

escape_byte-IsHarmless : (c : ℕ) → All IsHarmless (escape_byte c)
unfolding escaped
escape_byte-IsHarmless c = ground (arith, escape_byte-cases c)

escape-IsHarmless : (s : Bytes) → All IsHarmless (escape s)
unfolding escape
escape-IsHarmless [] = tt
escape-IsHarmless (c ∷ s) =
    All-append IsHarmless (escape_byte c) (escape s) (escape_byte-IsHarmless c)
      (escape-IsHarmless s)

module _ {W : Type 0} {write_str : WriteStr W} (writer : IsWriter write_str) where
  write_twice :
      (w : W) (a b : Bytes) (k : W → Option W) (c : Bytes)
      → ((w' : W) → k w' ≡ write_str w' c)
      → (do w₁ ← write_str w a; w₂ ← write_str w₁ b; k w₂) ≡ write_str w (a ++ (b ++ c))
  write_twice w a b k c h = rw (writer.write-append w a (b ++ c)) (
      ap (λ (f : W → Option W). write_str w a >>= f)
        (fun_ext λ w₁. rw (fun_ext h) (sym (writer.write-append w₁ b c))))

  write_loop_lem :
      (rest before pending : Bytes) (dest : W) (index last : ℕ)
      → last ≡ length before
      → index ≡ last + length pending
      → write_loop write_str (before ++ (pending ++ rest)) dest rest index last
        ≡ write_str dest (pending ++ escape rest)
  unfolding write_loop escape
  write_loop_lem [] before pending dest index last hl hi =
      rw (hl, drop-length-append before (pending ++ []))
  write_loop_lem (c ∷ rest) before pending dest index last hl hi = elim (escape_byte-cases c) [
    | inl (plain, out) ↦
        rw (plain, write_loop)
          (rw out (
            simp append_assoc at (
              write_loop_lem rest before (pending ++ c ∷ []) dest (index + 1) last hl
                (omega (arith, length-append pending (c ∷ []))))))
    | inr (e, found, out) ↦
        rw (found, write_loop)
          (rw (out, slice-append before pending (c ∷ rest) last index hl hi)
            (write_twice dest pending e _ _ (λ w. simp append_assoc at (
              write_loop_lem rest (before ++ (pending ++ c ∷ [])) [] w (index + 1) (index + 1)
                (omega
                  (arith, length-append before (pending ++ c ∷ []), length-append pending (c ∷ [])))
                (omega arith)))))
  ]

  -- Whatever the destination and the bytes: what the writer passes on is one text that holds no
  -- `<`, no `>`, no `&` and no `'`, in which every such byte is replaced by `\u00` with its code in
  -- base 16, and all other bytes are kept; and all bytes are reported as written.
  pub json_write-escape :
      (dest : W) (bytes : Bytes)
      → (json_write write_str dest bytes
          ≡ (write_str dest (escape bytes) >>= λ f. some (f, length bytes)))
        × All IsHarmless (escape bytes)
  unfolding json_write
  json_write-escape dest bytes = (
    ap (λ (m : Option W). m >>= λ f. some (f, length bytes))
        (write_loop_lem bytes [] [] dest 0 0 refl refl),
    escape-IsHarmless bytes,
  )
