-- ===== src/Loops.antt =====
-- rinja/src/helpers.rs: `TemplateLoop`, the iterator of the `for` loops of templates. The peekable
-- and counting iterator that it holds is the number of items taken and the list of those to come.
use native.Mathlib.Nat.{add-zero, zero-add}
use rinja.Base.{
  ◌∙◌, false, ℕ, zero, suc, ◌+◌, ◌≡◌, refl, Bool, Option, none, some, List, [], ◌∷◌, ◌==◌, is_empty,
  length, get_elem?, arith, ◌>>=◌, ap, ◌<◌,
}

pub record LoopItem : Type 0 where
  pub index : ℕ
  pub first : Bool
  pub last : Bool

pub record TemplateLoop (A : Type 0) : Type 0 where
  pub taken : ℕ
  pub left : List A

module _ {A : Type 0} where
  unfoldable pub new : List A → TemplateLoop A
  new items = record { taken = 0; left = items }

  -- `Iterator::next`
  unfoldable pub advance : TemplateLoop A → Option (A × LoopItem × TemplateLoop A)
  advance l = elim (l.left) [
    | [] ↦ none
    | item ∷ left ↦ some (
      item,
      record { index = l.taken; first = l.taken == 0; last = is_empty left },
      record { taken = l.taken + 1; left = left },
    )
  ]

  -- The `for` loop over it, on fuel: what its body sees in each round, and `none` when it runs out.
  unfoldable pub rounds : ℕ → TemplateLoop A → Option (List (A × LoopItem))
  unfolding advance
  rounds zero l = none
  rounds (suc fuel) l = elim (advance l) [
    | none ↦ some []
    | some (item, info, l) ↦ rounds fuel l >>= λ rest. some ((item, info) ∷ rest)
  ]

  -- The rounds with the items at the places from `k` on.
  described : ℕ → List A → ℕ → Option (A × LoopItem)
  described k items i = get_elem? items i >>= λ item.
      some (item, record { index = k + i; first = (k + i) == 0; last = (i + 1) == length items })

  described_here :
      (k : ℕ) (item : A) (items : List A)
      → some (item, record { index = k; first = k == 0; last = is_empty items })
        ≡ described k (item ∷ items) 0
  unfolding described
  described_here k item [] = rw add-zero refl
  described_here k item (next ∷ items) =
      let others : (1 == suc (suc (length items))) ≡ false = ground arith in
      rw (add-zero, others) refl

  described_behind :
      (k i : ℕ) (item : A) (items : List A)
      → described (k + 1) items i ≡ described k (item ∷ items) (suc i)
  unfolding described
  described_behind k i item items =
      let place : k + 1 + i ≡ k + suc i = omega arith in
      let ends : (i + 1 == length items) ≡ (suc i + 1 == suc (length items)) = ground arith in
      rw (place, ends) refl

  described_start :
      (items : List A) (i : ℕ)
      → described 0 items i ≡ (
          get_elem? items i >>= λ item.
          some (item, record { index = i; first = i == 0; last = (i + 1) == length items }))
  unfolding described
  described_start items i = rw (zero-add i) refl

  rounds-described :
      (fuel k : ℕ) (items : List A)
      → length items < fuel
      → (seen : List (A × LoopItem)) × (rounds fuel record { taken = k; left = items } ≡ some seen)
        × (length seen ≡ length items)
        × ((i : ℕ) → get_elem? seen i ≡ described k items i)
  unfolding rounds described
  rounds-described zero k items bound = ground arith
  rounds-described (suc fuel) k [] bound = ([], refl, refl, λ i. refl)
  rounds-described (suc fuel) k (item ∷ items) bound =
      let (seen, runs, same, all) = rounds-described fuel (k + 1) items (omega arith) in
      (
        (item, record { index = k; first = k == 0; last = is_empty items }) ∷ seen,
        rw runs refl,
        ap suc same,
        elim [
          | zero ↦ described_here k item items
          | suc i ↦ all i ∙ described_behind k i item items
        ],
      )

  -- A `for` loop over any items has one round for each of them, in order, and the round of the item
  -- at a place sees that place as its index, is the first one exactly at place 0, and the last one
  -- exactly where the next place is the number of the items; fuel of one more than the items is
  -- enough.
  pub rounds-get_elem? :
      (items : List A) (fuel : ℕ)
      → length items < fuel
      → (seen : List (A × LoopItem)) × (rounds fuel (new items) ≡ some seen)
        × (length seen ≡ length items)
        × ((i : ℕ)
            → get_elem? seen i ≡ (
                get_elem? items i >>= λ item.
                some (item, record { index = i; first = i == 0; last = (i + 1) == length items })))
  unfolding new
  rounds-get_elem? items fuel bound =
      let (seen, runs, same, all) = rounds-described fuel 0 items bound in
      (seen, runs, same, λ i. all i ∙ described_start items i)
