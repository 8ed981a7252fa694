-- ===== src/Generator/Scopes.antt =====
-- rinja_derive/src/generator.rs: the variables that are in scope, `MapChain`. A `HashMap` is the
-- list of its entries, and the scopes are listed from the innermost outwards, where the vector of
-- the source holds the innermost one at its end. An outer `none` is a panic.
pub mod Laws
use rinja.Base.{
  Bool, true, false, ◌||◌, Option, none, some, List, [], ◌∷◌, ◌++◌, if◌then◌else◌, Bytes, codes,
  bytes_eq, is_empty, ◌>>=◌,
}
use rinja.Parser.Keywords.{normalize_identifier}

pub record LocalMeta : Type 0 where
  pub refs : Option Bytes
  pub initialized : Bool

-- `LocalMeta::default`, `LocalMeta::initialized` and `LocalMeta::with_ref`
unfoldable pub default : LocalMeta
default = record { refs = none; initialized = false }

unfoldable pub initialized : LocalMeta
initialized = record { refs = none; initialized = true }

unfoldable pub with_ref : Bytes → LocalMeta
with_ref refs = record { refs = some refs; initialized = true }

abbrev pub Scope : Type 0
Scope = List (Bytes × LocalMeta)

abbrev pub MapChain : Type 0
MapChain = List Scope

-- `HashMap::get` and `HashMap::insert`
unfoldable pub find : Bytes → Scope → Option LocalMeta
find key [] = none
find key ((k, v) ∷ set) = let rest = find key set in if bytes_eq key k then some v else rest

unfoldable pub put : Bytes → LocalMeta → Scope → Scope
put key val [] = (key, val) ∷ []
put key val ((k, v) ∷ set) =
    let rest = put key val set in if bytes_eq key k then (k, val) ∷ set else (k, v) ∷ rest

unfoldable pub new_empty : MapChain
new_empty = []

unfoldable pub get : Bytes → MapChain → Option LocalMeta
unfolding find
get key [] = none
get key (set ∷ scopes) = elim (find key set) [ none ↦ get key scopes | some meta ↦ some meta ]

unfoldable pub is_current_empty : MapChain → Option Bool
is_current_empty [] = none
is_current_empty (set ∷ scopes) = some (is_empty set)

unfoldable pub insert : Bytes → LocalMeta → MapChain → Option MapChain
unfolding put
insert key val [] = none
insert key val (set ∷ scopes) = some (put key val set ∷ scopes)

unfoldable pub insert_with_default : Bytes → MapChain → Option MapChain
unfolding insert default
insert_with_default key scopes = insert key default scopes

-- The closure of `resolve`, and the one of `resolve_or_self`.
abbrev pub local_name : Bytes → LocalMeta → Bytes
local_name name meta = elim (meta.refs) [ some expr ↦ expr | none ↦ name ]

abbrev pub or_self : Bytes → Option Bytes → Bytes
or_self name none = codes "self." ++ name
or_self name (some expr) = expr

unfoldable pub resolve : Bytes → MapChain → Option (Option Bytes)
unfolding get
resolve name scopes = do
  name ← normalize_identifier name
  some (elim (get name scopes) [ none ↦ none | some meta ↦ some (local_name name meta) ])

unfoldable pub resolve_or_self : Bytes → MapChain → Option Bytes
unfolding resolve
resolve_or_self name scopes = do
  name ← normalize_identifier name
  resolved ← resolve name scopes
  some (or_self name resolved)

-- `push_locals`, around a callback that changes the scopes.
unfoldable pub push_locals : (MapChain → Option MapChain) → MapChain → Option MapChain
push_locals callback scopes = do
  scopes ← callback ([] ∷ scopes)
  elim scopes [ [] ↦ none | _ ∷ scopes ↦ some scopes ]
