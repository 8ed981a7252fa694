-- ===== src/Html.antt =====
-- rinja/src/html.rs: escaping for HTML and XML. The table of escapes is built the way the
-- constants of that file build it; the escaping loop walks the bytes with their index and keeps
-- the place behind the last escaped byte.
pub mod Escape
pub mod Safety
use rinja.Base.{
  ℕ, ◌+◌, ◌-◌, Bool, ◌&&◌, Option, none, some, List, [], ◌∷◌, ltb, leb, length, set, get_elem?,
  slice, take, drop, replicate, if◌then◌else◌, ◌>>=◌, Bytes, codes, is_empty, ◌≡◌, refl, ◌==◌,
}
use rinja.Fmt.{WriteStr, encode_utf8}

-- `enum Digits`
pub data Digits : Type 0 where
  v34 v38 v39 v60 v62 : Digits

-- `Digits::to_bytes`
pub to_bytes : Digits → ℕ × ℕ
to_bytes v34 = (b'3', b'4')
to_bytes v38 = (b'3', b'8')
to_bytes v39 = (b'3', b'9')
to_bytes v60 = (b'6', b'0')
to_bytes v62 = (b'6', b'2')

-- `Digits::new`; `none` is its panic
pub digits_new : ℕ → Option Digits
digits_new v =
    if v == 34
    then some v34
    else if v == 38
    then some v38
    else if v == 39
    then some v39
    else if v == 60
    then some v60
    else if v == 62
    then some v62
    else none

abbrev pub chars : Bytes
chars = codes "\"&'<>"

-- The loops of `MIN_CHAR` and `MAX_CHAR`.
smallest : ℕ → Bytes → ℕ
smallest v [] = v
smallest v (c ∷ cs) = smallest (if ltb c v then c else v) cs

largest : ℕ → Bytes → ℕ
largest v [] = v
largest v (c ∷ cs) = largest (if ltb v c then c else v) cs

pub min_char : ℕ
unfolding smallest
min_char = smallest 255 chars

pub max_char : ℕ
unfolding largest
max_char = largest 0 chars

-- The loop of `TABLE`.
fill : List (Option Digits) → Bytes → List (Option Digits)
unfolding digits_new min_char
fill table [] = table
fill table (c ∷ cs) = fill (set table (c - min_char) (digits_new c)) cs

pub table : List (Option Digits)
unfolding fill max_char
table = fill (replicate (max_char - min_char + 1) none) chars

-- What the table holds at an index, as digits.
lookup : ℕ → Option (ℕ × ℕ)
unfolding table to_bytes
lookup i = do entry ← get_elem? table i; d ← entry; some (to_bytes d)

pub get_escaped : ℕ → Option (ℕ × ℕ)
unfolding lookup
get_escaped byte = if leb min_char byte && leb byte max_char then lookup (byte - min_char) else none

-- `&escaped_buf[..ESCAPED_BUF_LEN]` after the two digits are put in.
pub escaped_buf : ℕ × ℕ → Bytes
escaped_buf (a, b) = take 5 (set (set (codes "&#__;\0\0\0") 2 a) 3 b)

module _ {W : Type 0} (write_str : WriteStr W) where
  pub write_str_if_nonempty : W → Bytes → Option W
  write_str_if_nonempty output input =
      if is_empty input then some output else write_str output input

  -- The loop of `write_escaped_str`: the bytes that are left, `index` and `last`.
  pub escape_loop : Bytes → W → Bytes → ℕ → ℕ → Option W
  escape_loop src dest [] index last = write_str_if_nonempty dest (drop last src)
  escape_loop src dest (byte ∷ rest) index last = elim (get_escaped byte) [
    | none ↦ escape_loop src dest rest (index + 1) last
    | some escaped ↦ do
      dest ← write_str_if_nonempty dest (slice src last index)
      dest ← write_str dest (escaped_buf escaped)
      escape_loop src dest rest (index + 1) (index + 1)
  ]

  pub write_escaped_str : W → Bytes → Option W
  write_escaped_str dest src = escape_loop src dest src 0 0

  -- `write_char` is `write_str` of the character's encoding.
  pub write_escaped_char : W → ℕ → Option W
  write_escaped_char dest c =
      if ltb c 128
      then elim (get_escaped c) [
        | none ↦ write_str dest (encode_utf8 c)
        | some escaped ↦ write_str dest (escaped_buf escaped)
      ]
      else write_str dest (encode_utf8 c)
