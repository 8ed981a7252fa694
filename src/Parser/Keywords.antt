-- ===== src/Parser/Keywords.antt =====
-- rinja_parser/src/lib.rs and rinja_derive/src/generator.rs: the table of the keywords of Rust, in
-- buckets by their length, each keyword with `r#` before it and padded at the end.
pub mod Raw
use rinja.Base.{
  ℕ, zero, suc, ◌+◌, ◌-◌, ◌≤◌, ◌<◌, Bool, true, false, ◌||◌, Option, none, some, List, [], ◌∷◌,
  ◌++◌, ◌≡◌, refl, sym, ap, ◌∙◌, if◌then◌else◌, Bytes, codes, ltb, length, get_elem?, take, drop,
  replicate, bytes_eq, ◌>>=◌, arith, All, Bool-cases, inl, inr, take-append-drop,
  take-length-append, append_assoc, length-append, ◌≢◌, ◌⊎◌, length-drop,
}

abbrev pub max_rust_keyword_len : ℕ
max_rust_keyword_len = 8

unfoldable pub rust_keywords : List (List Bytes)
rust_keywords =
    []
    ∷ []
    ∷ (codes "r#as______"
        ∷ codes "r#do______"
        ∷ codes "r#fn______"
        ∷ codes "r#if______"
        ∷ codes "r#in______"
        ∷ [])
    ∷ (codes "r#box_____"
        ∷ codes "r#dyn_____"
        ∷ codes "r#for_____"
        ∷ codes "r#gen_____"
        ∷ codes "r#let_____"
        ∷ codes "r#mod_____"
        ∷ codes "r#mut_____"
        ∷ codes "r#pub_____"
        ∷ codes "r#ref_____"
        ∷ codes "r#try_____"
        ∷ codes "r#use_____"
        ∷ [])
    ∷ (codes "r#else____"
        ∷ codes "r#enum____"
        ∷ codes "r#impl____"
        ∷ codes "r#move____"
        ∷ codes "r#priv____"
        ∷ codes "r#true____"
        ∷ codes "r#type____"
        ∷ [])
    ∷ (codes "r#async___"
        ∷ codes "r#await___"
        ∷ codes "r#break___"
        ∷ codes "r#const___"
        ∷ codes "r#crate___"
        ∷ codes "r#false___"
        ∷ codes "r#final___"
        ∷ codes "r#macro___"
        ∷ codes "r#match___"
        ∷ codes "r#trait___"
        ∷ codes "r#where___"
        ∷ codes "r#while___"
        ∷ codes "r#yield___"
        ∷ [])
    ∷ (codes "r#become__"
        ∷ codes "r#extern__"
        ∷ codes "r#return__"
        ∷ codes "r#static__"
        ∷ codes "r#struct__"
        ∷ codes "r#typeof__"
        ∷ codes "r#unsafe__"
        ∷ [])
    ∷ (codes "r#unsized_" ∷ codes "r#virtual_" ∷ [])
    ∷ (codes "r#abstract" ∷ codes "r#continue" ∷ codes "r#override" ∷ [])
    ∷ []

unfoldable pub kws_extra : List (List Bytes)
kws_extra =
    []
    ∷ []
    ∷ []
    ∷ []
    ∷ (codes "r#loop____" ∷ codes "r#self____" ∷ codes "r#Self____" ∷ [])
    ∷ (codes "r#super___" ∷ codes "r#union___" ∷ [])
    ∷ []
    ∷ []
    ∷ []
    ∷ []

-- The identifier, padded; for identifiers that are not too long.
unfoldable pub padded_ident : Bytes → Bytes
padded_ident ident = ident ++ replicate (max_rust_keyword_len - length ident) b'_'

-- The `any` of the parser on a bucket, by the part behind `r#`, and the `find` of the generator.
unfoldable pub any_keyword : List Bytes → Bytes → Bool
any_keyword [] padded = false
any_keyword (probe ∷ kws) padded = bytes_eq padded (drop 2 probe) || any_keyword kws padded

unfoldable pub find_keyword : List Bytes → Bytes → Option Bytes
find_keyword [] padded = none
find_keyword (probe ∷ kws) padded =
    let rest = find_keyword kws padded in
    if bytes_eq padded (drop 2 probe) then some probe else rest

unfoldable pub is_rust_keyword_inner : List (List Bytes) → Bytes → ℕ → Option Bool
unfolding any_keyword
is_rust_keyword_inner kws padded ident_len = do
  bucket ← get_elem? kws ident_len
  some (any_keyword bucket padded)

-- `none` is an index out of range; `||` looks at the second table where the first says no.
unfoldable pub is_rust_keyword : Bytes → Option Bool
unfolding is_rust_keyword_inner rust_keywords kws_extra padded_ident
is_rust_keyword ident = if ltb max_rust_keyword_len (length ident) then some false else (do
  in_rust ← is_rust_keyword_inner rust_keywords (padded_ident ident) (length ident)
  extra ← is_rust_keyword_inner kws_extra (padded_ident ident) (length ident)
  some (in_rust || extra))

-- `normalize_identifier`
unfoldable pub normalize_identifier : Bytes → Option Bytes
unfolding find_keyword rust_keywords padded_ident
normalize_identifier ident = if ltb max_rust_keyword_len (length ident) then some ident else (do
  kws ← get_elem? rust_keywords (length ident)
  some (elim (find_keyword kws (padded_ident ident)) [
    | none ↦ ident
    | some replacement ↦ take (length ident + 2) replacement
  ]))
