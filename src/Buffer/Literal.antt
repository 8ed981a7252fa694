-- ===== src/Buffer/Literal.antt =====
-- The string literals that rinja_derive/src/integration.rs generates, read back by the rules that
-- its comment on `string_escape` cites from the Rust reference.
use rinja.Base.{
  ℕ, Bool, true, false, Option, none, some, [], ◌∷◌, ◌++◌, ◌≡◌, refl, arith, if◌then◌else◌, Bytes,
  ◌==◌,
}
use rinja.Buffer.{quote, backslash, carriage_return, escaped, Memchr3Iter, string_escape}
use rinja.Buffer.Escape.{IsMemchr3, escape, string_escape-escape}

-- What a character stands for behind a backslash; the other escapes are not needed here.
abbrev unescaped : ℕ → Option ℕ
unescaped c =
    if c == backslash
    then some backslash
    else if c == quote
    then some quote
    else if c == b'r'
    then some carriage_return
    else none

abbrev put : ℕ → Option (Bytes × Bytes) → Option (Bytes × Bytes)
put c none = none
put c (some (text, rest)) = some (c ∷ text, rest)

-- The text of a literal up to its closing quotation mark, and what is behind it. The flag says
-- that a backslash was read. A carriage return may not stand in a literal.
unfoldable pub read_literal : Bool → Bytes → Option (Bytes × Bytes)
read_literal behind_backslash [] = none
read_literal true (c ∷ s) = elim (unescaped c) [
  | none ↦ none
  | some d ↦ put d (read_literal false s)
]
read_literal false (c ∷ s) =
    let plain = read_literal false s in
    let special = read_literal true s in
    if c == quote
    then some ([], s)
    else if c == carriage_return
    then none
    else if c == backslash
    then special
    else put c plain

read_literal-escape :
    (s rest : Bytes) → read_literal false (escape s ++ b'"' ∷ rest) ≡ some (s, rest)
unfolding read_literal escape escaped
read_literal-escape [] rest = refl
read_literal-escape (c ∷ s) rest = ground (arith, read_literal-escape s rest)

-- Whatever the text: `string_escape` appends a text that, up to a closing quotation mark, is read
-- as exactly the original, and reading stops right behind that mark.
pub read_literal-string_escape :
    {memchr3_iter : Memchr3Iter} (memchr : IsMemchr3 memchr3_iter) (dest src rest : Bytes)
    → (out : Bytes) × (string_escape memchr3_iter dest src ≡ some (dest ++ out))
      × (read_literal false (out ++ quote ∷ rest) ≡ some (src, rest))
read_literal-string_escape memchr dest src rest =
    (escape src, string_escape-escape memchr dest src, read_literal-escape src rest)
