-- ===== src/Indentation/Prefix.antt =====
-- rinja_derive/src/input.rs: what `strip_common_ws_prefix` cuts off the lines.
use rinja.Base.{
  Option-cases, ◌⊎◌, inl, inr, ℕ, zero, suc, ◌-◌, ◌≤◌, ◌≡◌, refl, true, none, some, List, [], ◌∷◌,
  Bytes, take, starts_with, All, arith,
}
use rinja.Indentation.{
  indentation, indentations, shorten, common_prefix, prefix_of, shared, shorter,
}

starts_with_nil : (s : Bytes) → starts_with s [] ≡ true
starts_with_nil [] = refl
starts_with_nil (c ∷ s) = refl

take_prefix : (n : ℕ) (s : Bytes) → starts_with s (take n s) ≡ true
take_prefix zero s = starts_with_nil s
take_prefix (suc n) [] = refl
take_prefix (suc n) (c ∷ s) = ground (arith, take_prefix n s)

starts_with-take : (n : ℕ) (p q : Bytes) → n ≤ shared p q → starts_with q (take n p) ≡ true
unfolding shared
starts_with-take zero p q h = starts_with_nil q
starts_with-take (suc n) [] q h = ground arith
starts_with-take (suc n) (l ∷ p) [] h = ground arith
starts_with-take (suc n) (l ∷ p) (r ∷ q) h = ground (arith, starts_with-take n p q)

starts_with_trans :
    (a b c : Bytes) → starts_with a b ≡ true → starts_with b c ≡ true → starts_with a c ≡ true
starts_with_trans a b [] h k = starts_with_nil a
starts_with_trans a [] (z ∷ c) h k = ground arith
starts_with_trans [] (y ∷ b) (z ∷ c) h k = ground arith
starts_with_trans (x ∷ a) (y ∷ b) (z ∷ c) h k = ground (arith, starts_with_trans a b c)

nil_prefixes : (ps : List Bytes) → All (λ p. starts_with p [] ≡ true) ps
nil_prefixes [] = tt
nil_prefixes (p ∷ ps) = (starts_with_nil p, nil_prefixes ps)

starts_with_refl : (s : Bytes) → starts_with s s ≡ true
starts_with_refl [] = refl
starts_with_refl (c ∷ s) = ground (arith, starts_with_refl s)

shorten_lem :
    (prefix p : Bytes)
    → (starts_with prefix (shorten prefix p) ≡ true) × (starts_with p (shorten prefix p) ≡ true)
shorten_lem prefix p = rw (shorter prefix p) (
  take_prefix (shared prefix p - 1) prefix,
  starts_with-take (shared prefix p - 1) prefix p (omega arith),
)

common_prefix-starts_with :
    (prefix : Bytes) (ps : List Bytes)
    → (starts_with prefix (common_prefix prefix ps) ≡ true)
      × All (λ p. starts_with p (common_prefix prefix ps) ≡ true) ps
unfolding common_prefix
common_prefix-starts_with prefix [] = (starts_with_refl prefix, tt)
common_prefix-starts_with [] (p ∷ ps) = (refl, (starts_with_nil p, nil_prefixes ps))
common_prefix-starts_with (c ∷ prefix) (p ∷ ps) =
    let (own, others) = common_prefix-starts_with (shorten (c ∷ prefix) p) ps in
    let result = common_prefix (shorten (c ∷ prefix) p) ps in
    let (of_prefix, of_p) = shorten_lem (c ∷ prefix) p in
    (
      starts_with_trans (c ∷ prefix) (shorten (c ∷ prefix) p) result of_prefix own,
      (starts_with_trans p (shorten (c ∷ prefix) p) result of_p own, others),
    )

prefixes : (ps : List Bytes) → All (λ p. starts_with p (prefix_of ps) ≡ true) ps
unfolding prefix_of
prefixes [] = tt
prefixes (p ∷ ps) = common_prefix-starts_with p ps

indentation-starts_with : (line p : Bytes) → indentation line ≡ some p → starts_with line p ≡ true
unfolding indentation
indentation-starts_with [] p h = ground arith
indentation-starts_with (c ∷ s) [] h = refl
indentation-starts_with (c ∷ s) (d ∷ p) h = elim (Option-cases (indentation s)) [
  | inl none_left ↦ ground arith
  | inr (ws, e) ↦ ground (arith, indentation-starts_with s ws e)
]

indentation_blank : (line p : Bytes) → indentation line ≡ some p → indentation p ≡ none
unfolding indentation
indentation_blank [] p h = ground arith
indentation_blank (c ∷ s) [] h = refl
indentation_blank (c ∷ s) (d ∷ p) h = elim (Option-cases (indentation s)) [
  | inl none_left ↦ ground arith
  | inr (ws, e) ↦ ground (arith, indentation_blank s ws e)
]

blank_prefix : (p x : Bytes) → starts_with p x ≡ true → indentation p ≡ none → indentation x ≡ none
unfolding indentation
blank_prefix p [] h k = refl
blank_prefix [] (d ∷ x) h k = ground arith
blank_prefix (c ∷ p) (d ∷ x) h k = elim (Option-cases (indentation p)) [
  | inl blank ↦ ground (arith, blank_prefix p x)
  | inr (ws, e) ↦ ground arith
]

-- A line without characters other than whitespace, or one that a prefix starts.
abbrev pub IsCuttable : Bytes → Bytes → Type 0
IsCuttable prefix line = (indentation line ≡ none) ⊎ (starts_with line prefix ≡ true)

skipped :
    (line : Bytes) (rest : List Bytes)
    → indentation line ≡ none
    → indentations (line ∷ rest) ≡ indentations rest
unfolding indentations
skipped line rest e = ground arith

kept :
    (line p : Bytes) (rest : List Bytes)
    → indentation line ≡ some p
    → indentations (line ∷ rest) ≡ p ∷ indentations rest
unfolding indentations
kept line p rest e = ground arith

indentations-IsCuttable :
    (source : List Bytes) (prefix : Bytes)
    → All (λ p. starts_with p prefix ≡ true) (indentations source)
    → All (IsCuttable prefix) source
unfolding indentations
indentations-IsCuttable [] prefix h = tt
indentations-IsCuttable (line ∷ source) prefix h = elim (Option-cases (indentation line)) [
  | inl blank ↦
      (inl blank, indentations-IsCuttable source prefix (rw (skipped line source blank) at h))
  | inr (p, e) ↦
      let (own, others) = rw (kept line p source e) at h in
      (
        inr (starts_with_trans line p prefix (indentation-starts_with line p e) own),
        indentations-IsCuttable source prefix others,
      )
]

blank_indentations : (source : List Bytes) → All (λ p. indentation p ≡ none) (indentations source)
unfolding indentations
blank_indentations [] = tt
blank_indentations (line ∷ source) = elim (Option-cases (indentation line)) [
  | inl blank ↦ rw (skipped line source blank) (blank_indentations source)
  | inr (p, e) ↦ rw (kept line p source e) (indentation_blank line p e, blank_indentations source)
]

blank_result :
    (ps : List Bytes) → All (λ p. indentation p ≡ none) ps → indentation (prefix_of ps) ≡ none
unfolding prefix_of indentation
blank_result [] h = refl
blank_result (p ∷ ps) (own, others) =
    blank_prefix p (common_prefix p ps) ((common_prefix-starts_with p ps).0) own

-- Whatever the lines: what is cut off is whitespace only, and it is what every line that is not
-- blank starts with.
pub prefix_of-starts_with :
    (source : List Bytes)
    → (indentation (prefix_of (indentations source)) ≡ none)
      × All (IsCuttable (prefix_of (indentations source))) source
prefix_of-starts_with source = (
  blank_result (indentations source) (blank_indentations source),
  indentations-IsCuttable source (prefix_of (indentations source)) (prefixes (indentations source)),
)
