-- ===== src/Parser/Keywords/Raw.antt =====
-- The table of keywords of rinja_parser/src/lib.rs as rinja_derive/src/generator.rs uses it: which
-- identifiers are made raw.
use rinja.Base.{
  ℕ, zero, suc, ◌+◌, ◌≤◌, ◌<◌, true, false, none, some, List, [], ◌∷◌, ◌++◌, ◌≡◌, refl, sym, ap,
  ◌∙◌, Bytes, codes, ltb, length, get_elem?, take, drop, bytes_eq, bytes_eq-≡, ◌>>=◌, arith, All,
  Bool-cases, ltb→lt, inl, inr, take-length-append, ◌≢◌, ◌⊎◌,
}
use rinja.Parser.Keywords.{
  rust_keywords, padded_ident, any_keyword, find_keyword, is_rust_keyword_inner,
  normalize_identifier,
}

-- A row of the table: `r#`, and behind it no second `#` in its place.
abbrev IsRow : Bytes → Type 0
IsRow row = (take 2 row ≡ codes "r#") × (get_elem? (drop 2 row) 1 ≢ some b'#')

table_lem : All (All IsRow) rust_keywords
unfolding rust_keywords
table_lem = ground arith

bucket_lem :
    (kws : List (List Bytes)) (i : ℕ)
    → i < length kws
    → All (All IsRow) kws
    → (bucket : List Bytes) × (get_elem? kws i ≡ some bucket) × All IsRow bucket
bucket_lem [] i h rows = ground arith
bucket_lem (b ∷ kws) zero h (hb, rows) = (b, refl, hb)
bucket_lem (b ∷ kws) (suc i) h (hb, rows) = bucket_lem kws i (omega arith) rows

abbrev Found : List Bytes → Bytes → Type 0
Found kws padded =
    (row : Bytes) × (find_keyword kws padded ≡ some row)
    × IsRow row
    × (padded ≡ drop 2 row)
    × (any_keyword kws padded ≡ true)

abbrev Missing : List Bytes → Bytes → Type 0
Missing kws padded = (find_keyword kws padded ≡ none) × (any_keyword kws padded ≡ false)

find_keyword-cases :
    (kws : List Bytes) (padded : Bytes) → All IsRow kws → Missing kws padded ⊎ Found kws padded
unfolding find_keyword any_keyword
find_keyword-cases [] padded rows = inl (refl, refl)
find_keyword-cases (probe ∷ kws) padded (row, rows) =
    elim (Bool-cases (bytes_eq padded (drop 2 probe))) [
      | inl same ↦ inr (probe, rw same, row, bytes_eq-≡ padded (drop 2 probe) same, rw same)
      | inr other ↦ elim (find_keyword-cases kws padded rows) [
        | inl (missing, none_is) ↦ inl (rw (other, missing), rw (other, none_is))
        | inr (r, found, is_row, tail, is) ↦
            inr (r, rw (other, found), is_row, tail, rw (other, is))
      ]
    ]

take_row :
    (n : ℕ) (row : Bytes)
    → take 2 row ≡ codes "r#"
    → take (n + 2) row ≡ codes "r#" ++ take n (drop 2 row)
take_row n [] h = ground arith
take_row n (a ∷ []) h = ground arith
take_row n (a ∷ b ∷ row) h =
    let more : n + 2 ≡ suc (suc n) = omega arith in rw more (ap (λ r. r ++ take n row) h)

-- The two cases of an identifier that is short enough for the table.
short_lem :
    (ident : Bytes)
    → length ident ≤ 8
    → ((is_rust_keyword_inner rust_keywords (padded_ident ident) (length ident) ≡ some true)
        × (normalize_identifier ident ≡ some (codes "r#" ++ ident))
        × (get_elem? (padded_ident ident) 1 ≢ some b'#'))
      ⊎ ((is_rust_keyword_inner rust_keywords (padded_ident ident) (length ident) ≡ some false)
          × (normalize_identifier ident ≡ some ident))
unfolding normalize_identifier is_rust_keyword_inner
short_lem ident h =
    let fits : ltb 8 (length ident) ≡ false = ground arith in
    let (bucket, at, rows) =
      bucket_lem rust_keywords (length ident) (unfold rust_keywords in omega arith) table_lem in
    elim (find_keyword-cases bucket (padded_ident ident) rows) [
      | inl (missing, none_is) ↦ inr (rw (at, none_is), rw (fits, at, missing))
      | inr (row, found, is_row, tail, is) ↦
          let text : take (length ident) (drop 2 row) ≡ ident =
            ap (take (length ident)) (sym tail)
            ∙ (unfold padded_ident in take-length-append ident _) in
          inl (
            rw (at, is),
            rw (fits, at, found)
                (ap some (take_row (length ident) row (is_row.0) ∙ ap (λ r. codes "r#" ++ r) text)),
            rw tail (is_row.1),
          )
    ]

raw-second : (ident : Bytes) → get_elem? (padded_ident (codes "r#" ++ ident)) 1 ≡ some b'#'
unfolding padded_ident
raw-second ident = refl

-- For every identifier: it is made raw where the first table of the parser holds it, and is left
-- as it is otherwise, also where it is too long for the table; no index is out of range.
pub normalize_identifier-cases :
    (ident : Bytes)
    → ((length ident ≤ 8)
        × (is_rust_keyword_inner rust_keywords (padded_ident ident) (length ident) ≡ some true)
        × (normalize_identifier ident ≡ some (codes "r#" ++ ident)))
      ⊎ ((normalize_identifier ident ≡ some ident)
          × ((8 < length ident)
              ⊎ (is_rust_keyword_inner rust_keywords (padded_ident ident) (length ident)
                  ≡ some false)))
unfolding normalize_identifier
normalize_identifier-cases ident = elim (Bool-cases (ltb 8 (length ident))) [
  | inl long ↦ inr (rw long, inl (ltb→lt 8 (length ident) long))
  | inr short ↦
      let bound : length ident ≤ 8 = ground arith in
      elim (short_lem ident bound) [
        | inl (k, raw, _) ↦ inl (bound, k, raw)
        | inr (k, same) ↦ inr (same, inr k)
      ]
]

raw_lem : (ident : Bytes) → normalize_identifier (codes "r#" ++ ident) ≡ some (codes "r#" ++ ident)
unfolding normalize_identifier
raw_lem ident = elim (Bool-cases (ltb 8 (length (codes "r#" ++ ident)))) [
  | inl long ↦ rw long
  | inr short ↦ elim (short_lem (codes "r#" ++ ident) (ground arith)) [
    | inl (k, raw, second) ↦ absurd (second (raw-second ident))
    | inr (k, same) ↦ same
  ]
]

-- For every identifier: a name that was normalized is not changed by normalizing it again.
pub normalize_identifier-twice :
    (ident : Bytes)
    → (normalize_identifier ident >>= normalize_identifier) ≡ normalize_identifier ident
normalize_identifier-twice ident = elim (normalize_identifier-cases ident) [
  | inl (_, _, raw) ↦ rw raw (raw_lem ident)
  | inr (same, _) ↦ rw same same
]
