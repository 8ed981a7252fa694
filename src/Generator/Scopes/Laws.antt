-- ===== src/Generator/Scopes/Laws.antt =====
-- What `MapChain` of rinja_derive/src/generator.rs promises: the innermost entry of a name counts,
-- a new one hides what was there before, and the end of a scope brings it back.
use rinja.Base.{
  true, false, Option, none, some, List, [], ◌∷◌, ◌++◌, ◌≡◌, refl, sym, ap, ◌∙◌, if◌then◌else◌,
  Bytes, codes, bytes_eq, bytes_eq-≡, ◌>>=◌, Bool-cases, Option-cases, ◌⊎◌, inl, inr, arith,
}
use rinja.Parser.Keywords.{normalize_identifier}
use rinja.Parser.Keywords.Raw.{normalize_identifier-twice}
use rinja.Generator.Scopes.{
  LocalMeta, Scope, MapChain, find, put, get, insert, resolve, resolve_or_self, push_locals,
  local_name,
}

pub bytes_eq_self : (s : Bytes) → bytes_eq s s ≡ true
bytes_eq_self [] = refl
bytes_eq_self (c ∷ s) = ground (arith, bytes_eq_self s)

apart_lem :
    (key k k₀ : Bytes) → bytes_eq key k₀ ≡ false → bytes_eq k k₀ ≡ true → bytes_eq k key ≡ false
apart_lem key k k₀ other here = elim (Bool-cases (bytes_eq k key)) [
  | inl same ↦ cc (bytes_eq-≡ k key same, bytes_eq-≡ k k₀ here, bytes_eq_self k₀, other)
  | inr apart ↦ apart
]

find-put :
    (key k : Bytes) (val : LocalMeta) (set : Scope)
    → find k (put key val set) ≡ (if bytes_eq k key then some val else find k set)
unfolding find put
find-put key k val [] = refl
find-put key k val ((k₀, v) ∷ set) = elim (Bool-cases (bytes_eq key k₀)) [
  | inl same ↦ let at : key ≡ k₀ = bytes_eq-≡ key k₀ same in rw (same, sym at) (ground arith)
  | inr other ↦ elim (Bool-cases (bytes_eq k k₀)) [
    | inl here ↦
        let apart : bytes_eq k key ≡ false = apart_lem key k k₀ other here in
        rw (other, here, apart)
    | inr there ↦ rw (other, there, find-put key k val set)
  ]
]

-- For every chain with a scope: after an insertion, the name that was inserted has its new entry,
-- and every other name the entry that it had, in whatever scope.
pub get-insert :
    (key k : Bytes) (val : LocalMeta) (set : Scope) (scopes : MapChain)
    → (insert key val (set ∷ scopes) >>= λ chain. some (get k chain))
      ≡ some (if bytes_eq k key then some val else get k (set ∷ scopes))
unfolding insert get
get-insert key k val set scopes = elim (Bool-cases (bytes_eq k key)) [
  | inl same ↦ rw (find-put key k val set, get, same)
  | inr other ↦ rw (find-put key k val set, get, other)
]

-- The callback of a scope, as a sequence of insertions.
unfoldable pub insert_all : List (Bytes × LocalMeta) → MapChain → Option MapChain
insert_all [] scopes = some scopes
insert_all ((key, val) ∷ entries) scopes = do
  scopes ← insert key val scopes
  insert_all entries scopes

insert_all-scopes :
    (entries : List (Bytes × LocalMeta)) (set : Scope) (scopes : MapChain)
    → (set' : Scope) × (insert_all entries (set ∷ scopes) ≡ some (set' ∷ scopes))
unfolding insert_all insert
insert_all-scopes [] set scopes = (set, refl)
insert_all-scopes ((key, val) ∷ entries) set scopes =
    insert_all-scopes entries (put key val set) scopes

-- Whatever is inserted inside a scope: its end gives back the scopes from before.
pub push_locals-insert_all :
    (entries : List (Bytes × LocalMeta)) (scopes : MapChain)
    → push_locals (insert_all entries) scopes ≡ some scopes
unfolding push_locals
push_locals-insert_all entries scopes = rw ((insert_all-scopes entries [] scopes).1)

-- For every name and scopes: the name is resolved through its normalized form alone, to the
-- expression of its entry, or to itself, or, where it has no entry, to the field of `self`.
pub resolve_or_self-get :
    (name n : Bytes) (scopes : MapChain)
    → normalize_identifier name ≡ some n
    → ((get n scopes ≡ none) × (resolve_or_self name scopes ≡ some (codes "self." ++ n)))
      ⊎ ((meta : LocalMeta) × (get n scopes ≡ some meta)
          × (resolve_or_self name scopes ≡ some (local_name n meta)))
unfolding resolve_or_self resolve
resolve_or_self-get name n scopes h =
    let again : normalize_identifier n ≡ some n =
      sym (ap (λ (m : Option Bytes). m >>= normalize_identifier) h)
      ∙ normalize_identifier-twice name
      ∙ h in
    elim (Option-cases (get n scopes)) [
      | inl missing ↦ inl (missing, rw (h, again, missing))
      | inr (meta, found) ↦ inr (meta, found, rw (h, again, found))
    ]
