-- ===== src/Buffer/Escape.antt =====
-- `string_escape` of rinja_derive/src/integration.rs: what it appends, and that the compiler reads
-- the text of the literal back.
use rinja.Base.{
  ℕ, ◌+◌, Bool, false, ◌||◌, some, List, [], ◌∷◌, ◌++◌, ◌≡◌, refl, arith, if◌then◌else◌, Bytes, ltb,
  ◌==◌, length, get_elem?, append_assoc, length-append, drop-length-append, slice-append,
  Bool-cases, inl, inr,
}
use rinja.Buffer.{Memchr3Iter, quote, backslash, carriage_return, escaped, escape_at, string_escape}

abbrev pub is_special : ℕ → Bool
is_special c = c == backslash || c == quote || c == carriage_return

-- The places of three bytes in a text, in ascending order, counted from `i` on.
unfoldable pub places : ℕ → ℕ → ℕ → Bytes → ℕ → List ℕ
places x y z [] i = []
places x y z (c ∷ s) i =
    if c == x || c == y || c == z then i ∷ places x y z s (i + 1) else places x y z s (i + 1)

-- What the crate memchr documents of its iterator.
pub record IsMemchr3 (memchr3_iter : Memchr3Iter) : Type 0 where
  pub finds : (x y z : ℕ) (s : Bytes) → memchr3_iter x y z s ≡ places x y z s 0

unfoldable pub escape : Bytes → Bytes
unfolding escaped
escape [] = []
escape (c ∷ s) = (if is_special c then escaped c else c ∷ []) ++ escape s

get_elem?-append :
    (xs : Bytes) (c : ℕ) (ys : Bytes) (i : ℕ) → i ≡ length xs → get_elem? (xs ++ c ∷ ys) i ≡ some c
get_elem?-append [] c ys i h = rw h
get_elem?-append (x ∷ xs) c ys i h = rw h (get_elem?-append xs c ys (length xs) refl)

escape_at_lem :
    (rest before pending dest : Bytes) (i last : ℕ)
    → last ≡ length before
    → i ≡ last + length pending
    → escape_at
        (before ++ (pending ++ rest))
        (places backslash quote carriage_return rest i)
        dest
        last
      ≡ some (dest ++ (pending ++ escape rest))
unfolding escape_at places escape
escape_at_lem [] before pending dest i last hl hi =
    let in_range : ltb (length (before ++ (pending ++ []))) last ≡ false =
      ground (arith, length-append before (pending ++ [])) in
    rw (in_range, hl, drop-length-append before (pending ++ []))
escape_at_lem (c ∷ rest) before pending dest i last hl hi =
    let found : get_elem? (before ++ (pending ++ c ∷ rest)) i ≡ some c = simp append_assoc at (
      get_elem?-append (before ++ pending) c rest i
        (omega (arith, length-append before pending))) in
    let ordered : ltb i last ≡ false = ground arith in
    elim (Bool-cases (is_special c)) [
      | inl is ↦
          rw (is, escape_at)
            (rw (found, ordered, slice-append before pending (c ∷ rest) last i hl hi)
              (simp append_assoc at (
                escape_at_lem rest (before ++ (pending ++ c ∷ [])) []
                  (dest ++ (pending ++ escaped c)) (i + 1) (i + 1)
                  (omega (
                    arith,
                    length-append before (pending ++ c ∷ []),
                    length-append pending (c ∷ []),
                  ))
                  (omega arith))))
      | inr not_is ↦ rw not_is (
          simp append_assoc at (
            escape_at_lem rest before (pending ++ c ∷ []) dest (i + 1) last hl
              (omega (arith, length-append pending (c ∷ [])))))
    ]

-- Whatever the text: its special bytes are escaped, all others are copied, and no slice of the
-- loop is out of range.
pub string_escape-escape :
    {memchr3_iter : Memchr3Iter} (memchr : IsMemchr3 memchr3_iter) (dest src : Bytes)
    → string_escape memchr3_iter dest src ≡ some (dest ++ escape src)
unfolding string_escape
string_escape-escape memchr dest src = rw memchr.finds (escape_at_lem src [] [] dest 0 0 refl refl)
