-- ===== src/Parser/Level/Balance.antt =====
-- `Level` of rinja_parser/src/lib.rs through any sequence of guards that are taken and dropped.
use rinja.Base.{
  Option-cases, ℕ, zero, suc, ◌+◌, none, some, List, [], ◌∷◌, ◌≡◌, refl, sym, ◌∙◌, arith, ◌↔◌, inl,
  inr,
}
use rinja.Parser.Level.{
  Level, max_depth, new, nest, count_up, Step, guarding, nesting, dropping, nesting_guard, step,
  run,
}

-- The levels that the living guards hold.
unfoldable pub held : List ℕ → ℕ
held [] = 0
held (c ∷ guards) = c + held guards

abbrev IsBalanced : Level → Type 0
IsBalanced l = l.level + held l.guards ≡ max_depth

held-count_up :
    (guards : List ℕ) (i : ℕ) (up : List ℕ)
    → count_up guards i ≡ some up
    → held up ≡ suc (held guards)
unfolding held count_up
held-count_up [] i up h = ground arith
held-count_up (c ∷ guards) zero up h = ground arith
held-count_up (c ∷ guards) (suc i) up h = elim (Option-cases (count_up guards i)) [
  | inl missing ↦ ground arith
  | inr (rest, found) ↦ ground (arith, held-count_up guards i rest found)
]

step-IsBalanced : (s : Step) (l l' : Level) → IsBalanced l → step s l ≡ some l' → IsBalanced l'
unfolding step held
step-IsBalanced guarding l l' b h = ground arith
step-IsBalanced nesting l l' b h = ground arith
step-IsBalanced (nesting_guard i) l l' b h = elim (Option-cases (count_up l.guards i)) [
  | inl missing ↦ ground arith
  | inr (up, found) ↦ ground (arith, held-count_up l.guards i up found)
]
step-IsBalanced dropping l l' b h = ground arith

run-IsBalanced :
    (steps : List Step) (l l' : Level) → IsBalanced l → run steps l ≡ some l' → IsBalanced l'
unfolding run
run-IsBalanced [] l l' b h = ground arith
run-IsBalanced (s ∷ steps) l l' b h = elim (Option-cases (step s l)) [
  | inl failed ↦ ground arith
  | inr (l₁, stepped) ↦
      run-IsBalanced steps l₁ l' (step-IsBalanced s l l₁ b stepped) (sym (rw stepped) ∙ h)
]

-- All guards are dropped, the newest one first.
unfoldable pub release_all : List ℕ → ℕ → ℕ
release_all [] level = level
release_all (count ∷ guards) level = release_all guards (level + count)

release_all-held : (guards : List ℕ) (level : ℕ) → release_all guards level ≡ level + held guards
unfolding release_all held
release_all-held [] level = ground arith
release_all-held (c ∷ guards) level = ground (arith, release_all-held guards (level + c))

-- Whatever guards were taken, counted up and dropped since the start of a parse, if no step has
-- failed: the counter and the levels that are held are the maximal depth together, nesting deeper
-- fails exactly where the whole depth is held, and when all guards are dropped the counter has the
-- value from the start.
pub run-new :
    (steps : List Step) (l : Level)
    → run steps new ≡ some l
    → (l.level + held l.guards ≡ max_depth)
      × ((nest l ≡ none) ↔ (held l.guards ≡ max_depth))
      × (release_all l.guards l.level ≡ max_depth)
unfolding new nest held
run-new steps l h =
    let balanced = run-IsBalanced steps new l (unfold new held in refl) h in
    (balanced, ground (arith, balanced), release_all-held l.guards l.level ∙ balanced)
