-- ===== src/Parser/Syntax/Delimiters.antt =====
-- Which delimiters one round of each loop of `SyntaxBuilder::to_syntax` (rinja_parser/src/lib.rs)
-- lets pass.
use rinja.Base.{
  ℕ, codes, contains_byte, ◌≤◌, Bool, true, false, Option, none, some, List, [], ◌∷◌, ◌++◌, ◌≡◌,
  refl, ap, if◌then◌else◌, ◌⊎◌, inl, inr, arith, starts_with, All, ◌==◌, Bool-cases, ltb,
}
use rinja.Parser.Syntax.{
  Chars, len, is_whitespace, any_whitespace, Kind, SyntaxError, starts_operator, too_short,
  too_long, contains_white_spaces, starts_with_operator, check, clash, first_error, clashes,
}

abbrev pub IsPrefix : Chars → Chars → Type 0
IsPrefix s t = (rest : Chars) × (s ++ rest ≡ t)

-- The first characters of what may stand in front of a closing delimiter.
abbrev pub operators : Chars
operators = codes "(-+~.><&|!"

abbrev pub StartsNone : Chars → Chars → Type 0
StartsNone ops s = All (λ c. ¬ IsPrefix (c ∷ []) s) ops

-- Delimiters that may be used, and two opening delimiters that may be used together. The length is
-- that of the encoding.
abbrev pub IsOpening : Chars → Type 0
IsOpening s = (2 ≤ len s) × (len s ≤ 32) × All (λ c. is_whitespace c ≡ false) s

abbrev pub IsClosing : Chars → Type 0
IsClosing s = IsOpening s × StartsNone operators s

abbrev pub AreApart : Chars → Chars → Type 0
AreApart s t = (¬ IsPrefix s t) × (¬ IsPrefix t s)

-- What one round of each loop decides.
abbrev pub IsDelimiter : Chars × Kind × Bool → Type 0
IsDelimiter (s, k, is_closing) = IsOpening s × (is_closing ≡ true → StartsNone operators s)

abbrev pub IsApart : (Chars × Kind) × Chars × Kind → Type 0
IsApart ((s1, k1), s2, k2) = AreApart s1 s2

-- Whether the first character is one of a list.
contains-StartsNone :
    (c : ℕ) (s ops : Chars)
    → ((contains_byte c ops ≡ false) × StartsNone ops (c ∷ s))
      ⊎ ((contains_byte c ops ≡ true) × (¬ StartsNone ops (c ∷ s)))
contains-StartsNone c s [] = inl (refl, tt)
contains-StartsNone c s (o ∷ ops) = elim (Bool-cases (o == c)) [
  | inl same ↦ let at : o ≡ c = ground arith in inr (rw same, λ h. h.0 (s, ap (λ d. d ∷ s) at))
  | inr other ↦ elim (contains-StartsNone c s ops) [
    | inl (fine, all) ↦
        inl (rw (other, fine), (λ p. let at : o ≡ c = cc (p.1) in ground (arith, at), all))
    | inr (found, fails) ↦ inr (rw (other, found), λ h. fails (h.1))
  ]
]

StartsNone-nil : (ops : Chars) → StartsNone ops []
StartsNone-nil [] = tt
StartsNone-nil (o ∷ ops) = (λ p. cc (p.1), StartsNone-nil ops)

starts_operator-StartsNone :
    (s : Chars)
    → ((starts_operator s ≡ false) × StartsNone operators s)
      ⊎ ((starts_operator s ≡ true) × (¬ StartsNone operators s))
unfolding starts_operator
starts_operator-StartsNone [] = inl (refl, StartsNone-nil operators)
starts_operator-StartsNone (c ∷ s) = contains-StartsNone c s operators

-- A test that returns an error exactly where a predicate fails.
abbrev pub Decides : {A : Type 0} → (A → Option SyntaxError) → (A → Type 0) → A → Type 0
Decides test P a = ((test a ≡ none) × P a) ⊎ ((e : SyntaxError) × (test a ≡ some e) × (¬ P a))

pub first_error-Decides :
    {A : Type 0} {test : A → Option SyntaxError} {P : A → Type 0}
    → ((a : A) → Decides test P a)
    → (rounds : List A) → Decides (first_error test) (All P) rounds
unfolding first_error
first_error-Decides h [] = inl (refl, tt)
first_error-Decides h (a ∷ rounds) = elim (h a) [
  | inr (e, found, fails) ↦ inr (e, rw (found, first_error) refl, λ p. fails (p.0))
  | inl (passes, p) ↦ elim (first_error-Decides h rounds) [
    | inl (rest, ps) ↦ inl (rw (passes, first_error) rest, (p, ps))
    | inr (e, found, fails) ↦ inr (e, rw (passes, first_error) found, λ ps. fails (ps.1))
  ]
]

any_whitespace-All :
    (s : Chars)
    → ((any_whitespace s ≡ false) × All (λ c. is_whitespace c ≡ false) s)
      ⊎ ((any_whitespace s ≡ true) × (¬ All (λ c. is_whitespace c ≡ false) s))
unfolding any_whitespace
any_whitespace-All [] = inl (refl, tt)
any_whitespace-All (c ∷ s) = ground (arith, any_whitespace-All s)

closing_check :
    (s : Chars) (k : Kind) (is_closing : Bool)
    → ltb (len s) 2 ≡ false
    → ltb 32 (len s) ≡ false
    → any_whitespace s ≡ false
    → IsOpening s
    → Decides check IsDelimiter (s, k, is_closing)
unfolding check
closing_check s k false not_short not_long solid opens =
    inl (rw (not_short, not_long, solid), (opens, λ h. absurd (ground arith)))
closing_check s k true not_short not_long solid opens = elim (starts_operator-StartsNone s) [
  | inl (fine, starts) ↦ inl (rw (not_short, not_long, solid, fine), (opens, λ h. starts))
  | inr (found, fails) ↦
      inr (
        starts_with_operator true k s,
        rw (not_short, not_long, solid, found),
        λ d. fails (d.1 refl),
      )
]

pub check-Decides : (d : Chars × Kind × Bool) → Decides check IsDelimiter d
unfolding check
check-Decides (s, k, is_closing) = elim (Bool-cases (ltb (len s) 2)) [
  | inl short ↦ inr (too_short is_closing k s, rw short, λ d. ground (arith, d.0.0))
  | inr not_short ↦ elim (Bool-cases (ltb 32 (len s))) [
    | inl long ↦ inr (too_long is_closing k s, rw (not_short, long), λ d. ground (arith, d.0.1))
    | inr not_long ↦ elim (any_whitespace-All s) [
      | inr (blank, fails) ↦ inr (
        contains_white_spaces is_closing k s,
        rw (not_short, not_long, blank),
        λ d. fails (d.0.2),
      )
      | inl (solid, all) ↦
          closing_check s k is_closing not_short not_long solid (ground arith, ground arith, all)
    ]
  ]
]

starts_with-IsPrefix :
    (t s : Chars)
    → ((starts_with t s ≡ true) × IsPrefix s t) ⊎ ((starts_with t s ≡ false) × (¬ IsPrefix s t))
starts_with-IsPrefix t [] = inl (refl, (t, refl))
starts_with-IsPrefix [] (c ∷ s) = inr (refl, λ p. cc (p.1))
starts_with-IsPrefix (d ∷ t) (c ∷ s) = elim (Bool-cases (d == c)) [
  | inl same ↦ elim (starts_with-IsPrefix t s) [
    | inl (is, prefix) ↦
        let first : c ≡ d = ground arith in inl (rw (same, is), (prefix.0, cc (prefix.1, first)))
    | inr (differs, fails) ↦ inr (rw (same, differs), λ p. fails (p.0, cc (p.1)))
  ]
  | inr other ↦ inr (rw other, λ p. let first : c ≡ d = cc (p.1) in ground (arith, first))
]

pub clash-Decides : (p : (Chars × Kind) × Chars × Kind) → Decides clash IsApart p
unfolding clash
clash-Decides ((s1, k1), s2, k2) =
    let e = if ltb (len s1) (len s2) then clashes k1 s1 k2 s2 else clashes k2 s2 k1 s1 in
    elim (starts_with-IsPrefix s1 s2) [
      | inl (is, prefix) ↦ inr (e, rw is, λ p. p.1 prefix)
      | inr (is_not, apart) ↦ elim (starts_with-IsPrefix s2 s1) [
        | inl (is, prefix) ↦ inr (e, rw (is_not, is), λ p. p.0 prefix)
        | inr (is_neither, fails) ↦ inl (rw (is_not, is_neither), (fails, apart))
      ]
    ]
