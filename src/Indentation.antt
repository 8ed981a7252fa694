-- ===== src/Indentation.antt =====
-- rinja_derive/src/input.rs: `strip_common_ws_prefix`, which takes the indentation that the lines
-- of a template in a doc comment share off them.
pub mod Prefix
use rinja.Base.{
  Option-cases, ◌⊎◌, inl, inr, ℕ, zero, suc, ◌+◌, ◌-◌, ◌≤◌, ◌≡◌, refl, ◌∙◌, ap, Bool, true, ◌||◌,
  Option, none, some, List, [], ◌∷◌, ◌++◌, if◌then◌else◌, ◌==◌, Bytes, newline, space, is_empty,
  length, take, drop, starts_with, All, arith, ◌>>=◌,
}
use rinja.Position.{lines}

-- `char::is_ascii_whitespace`
unfoldable pub is_ascii_whitespace : ℕ → Bool
is_ascii_whitespace c = c == space || c == 9 || c == newline || c == 12 || c == 13

-- A line up to its first character that is no whitespace, where it has one.
unfoldable pub indentation : Bytes → Option Bytes
unfolding is_ascii_whitespace
indentation [] = none
indentation (c ∷ s) =
    let rest = indentation s >>= λ ws. some (c ∷ ws) in
    if is_ascii_whitespace c then rest else some []

-- `filter_map`
unfoldable pub indentations : List Bytes → List Bytes
unfolding indentation
indentations [] = []
indentations (line ∷ rest) = elim (indentation line) [
  | none ↦ indentations rest
  | some p ↦ p ∷ indentations rest
]

-- The position of the last pair of `zip` before the first that differs, 0 where there is none.
unfoldable pub last_match : Bytes → Bytes → ℕ → ℕ → ℕ
last_match [] q i pos = pos
last_match (l ∷ p) [] i pos = pos
last_match (l ∷ p) (r ∷ q) i pos =
    let next = last_match p q (i + 1) i in if l == r then next else pos

unfoldable pub shorten : Bytes → Bytes → Bytes
unfolding last_match
shorten prefix p = take (last_match prefix p 0 0) prefix

-- The `for` loop.
unfoldable pub common_prefix : Bytes → List Bytes → Bytes
unfolding shorten
common_prefix prefix [] = prefix
common_prefix prefix (p ∷ rest) =
    let shorter = common_prefix (shorten prefix p) rest in
    if is_empty prefix then prefix else shorter

-- `next().unwrap_or_default()` and the loop on the others
unfoldable pub prefix_of : List Bytes → Bytes
unfolding common_prefix
prefix_of [] = []
prefix_of (p ∷ rest) = common_prefix p rest

-- `flat_map` and `collect`
unfoldable pub cut_all : ℕ → List Bytes → Bytes
cut_all n [] = []
cut_all n (line ∷ rest) = drop n line ++ newline ∷ cut_all n rest

unfoldable pub strip_common_ws_prefix : Bytes → Bytes
unfolding prefix_of indentations cut_all
strip_common_ws_prefix source =
    let prefix = prefix_of (indentations (lines [] source)) in
    if is_empty prefix then source else cut_all (length prefix) (lines [] source)

-- The length of the longest prefix that two texts share.
unfoldable pub shared : Bytes → Bytes → ℕ
shared [] q = 0
shared (l ∷ p) [] = 0
shared (l ∷ p) (r ∷ q) = let rest = shared p q in if l == r then suc rest else 0

last_match-shared :
    (p q : Bytes) (i pos : ℕ)
    → last_match p q i pos ≡ (if shared p q == 0 then pos else i + shared p q - 1)
unfolding last_match shared
last_match-shared [] q i pos = refl
last_match-shared (l ∷ p) [] i pos = refl
last_match-shared (l ∷ p) (r ∷ q) i pos = ground (arith, last_match-shared p q (i + 1) i)

shared_self : (p : Bytes) → shared p p ≡ length p
unfolding shared
shared_self [] = refl
shared_self (c ∷ p) = ground (arith, shared_self p)

pub shorter : (prefix p : Bytes) → shorten prefix p ≡ take (shared prefix p - 1) prefix
unfolding shorten
shorter prefix p = ap (λ n. take n prefix) (last_match-shared prefix p 0 0 ∙ ground arith)

-- A further line makes the prefix one character shorter than what it shares with the line, where it
-- shares anything; so a line with the same indentation as the lines before it does so too.
pub shorten-shared :
    (prefix p : Bytes)
    → (shorten prefix p ≡ take (shared prefix p - 1) prefix)
      × (shorten prefix prefix ≡ take (length prefix - 1) prefix)
unfolding shorten
shorten-shared prefix p =
    (shorter prefix p, shorter prefix prefix ∙ ap (λ n. take (n - 1) prefix) (shared_self prefix))
