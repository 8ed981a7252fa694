-- ===== src/Base/Maps.antt =====
-- Maps from text as the lists of their entries, and the outcome of a loop that runs on fuel.
use mathlib.Core.Path.{◌≡◌, refl, ◌∙◌}
use mathlib.Core.Bool.{Bool, true, false, ◌||◌}
use mathlib.Core.Option.{Option, none, some}
use mathlib.Core.List.{List, [], ◌∷◌}
use native.Mathlib.Omega.{arith}
use mathlib.Core.Logic.{inl, inr}
use rinja.Base.Tests.{Bool-cases, if◌then◌else◌}
use rinja.Base.Text.{Bytes, bytes_eq, bytes_eq-≡}

module _ {ℓ} {V : Type ℓ} where
  -- `HashMap::get`, `HashMap::contains_key` and `HashMap::insert`
  unfoldable pub map_get : Bytes → List (Bytes × V) → Option V
  map_get key [] = none
  map_get key ((k, v) ∷ entries) =
      let rest = map_get key entries in if bytes_eq key k then some v else rest

  unfoldable pub map_has : Bytes → List (Bytes × V) → Bool
  map_has key [] = false
  map_has key ((k, v) ∷ entries) = bytes_eq key k || map_has key entries

  unfoldable pub map_insert : Bytes → V → List (Bytes × V) → List (Bytes × V)
  map_insert key val [] = (key, val) ∷ []
  map_insert key val ((k, v) ∷ entries) =
      let rest = map_insert key val entries in
      if bytes_eq key k then (k, val) ∷ entries else (k, v) ∷ rest

-- What a fallible function returns; `running` is a loop that has used up its fuel.
pub data Outcome {ℓ κ} (E : Type ℓ) (A : Type κ) : Type (ℓ ⊔ κ) where
  ok : A → Outcome E A
  err : E → Outcome E A
  running : Outcome E A

-- `?` on a result
infixl 5 ◌and_then◌
abbrev pub ◌and_then◌ {ℓ κ ι} :
    {E : Type ℓ} {A : Type κ} {B : Type ι} → Outcome E A → (A → Outcome E B) → Outcome E B
ok a and_then f = f a
err e and_then f = err e
running and_then f = running

pub map_has-map_insert {ℓ} :
    {V : Type ℓ} (key k : Bytes) (v : V) (entries : List (Bytes × V))
    → map_has key (map_insert k v entries) ≡ (bytes_eq key k || map_has key entries)
unfolding map_has map_insert
map_has-map_insert key k v [] = refl
map_has-map_insert key k v ((k', v') ∷ entries) =
    ground (arith, map_has-map_insert key k v entries, bytes_eq-≡ k k')

pub bytes_eq_refl : (s : Bytes) → bytes_eq s s ≡ true
bytes_eq_refl [] = refl
bytes_eq_refl (c ∷ s) = ground (arith, bytes_eq_refl s)

pub map_get-map_insert {ℓ} :
    {V : Type ℓ} (key k : Bytes) (v : V) (entries : List (Bytes × V))
    → map_get key (map_insert k v entries)
      ≡ (if bytes_eq key k then some v else map_get key entries)
unfolding map_get map_insert
map_get-map_insert key k v [] = refl
map_get-map_insert key k v ((k', v') ∷ entries) = elim (Bool-cases (bytes_eq k k')) [
  | inl same ↦ rw same (ground (arith, bytes_eq-≡ k k' same))
  | inr other ↦ rw other (
      ground (
        arith,
        map_get-map_insert key k v entries,
        bytes_eq-≡ key k,
        bytes_eq-≡ key k',
        bytes_eq_refl k,
      ))
]

-- Each key stands once.
abbrev pub Distinct {ℓ} : {V : Type ℓ} → List (Bytes × V) → Type 0
Distinct [] = Unit
Distinct ((k, v) ∷ entries) = (map_has k entries ≡ false) × Distinct entries

pub map_insert-Distinct {ℓ} :
    {V : Type ℓ} (key : Bytes) (val : V) (entries : List (Bytes × V))
    → Distinct entries
    → Distinct (map_insert key val entries)
unfolding map_insert map_has
map_insert-Distinct key val [] distinct = (refl, tt)
map_insert-Distinct key val ((k, v) ∷ entries) (fresh, distinct) =
    elim (Bool-cases (bytes_eq key k)) [
      | inl same ↦ rw same (fresh, distinct)
      | inr other ↦ rw other (
        (map_has-map_insert k key val entries
            ∙ ground (arith, fresh, bytes_eq-≡ k key, bytes_eq_refl key)),
        map_insert-Distinct key val entries distinct,
      )
    ]
