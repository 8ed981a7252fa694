-- ===== src/Parser/Level.antt =====
-- rinja_parser/src/lib.rs: the bound on the nesting of nodes and expressions, `Level`. The counter
-- is shared by all guards; the state is its value with the counts of the guards that are alive.
pub mod Balance
use rinja.Base.{
  Option-cases, ℕ, zero, suc, ◌+◌, Option, none, some, List, [], ◌∷◌, ◌≡◌, refl, arith, ◌>>=◌, ◌↔◌,
  ◌≤◌, ◌<◌, inl, inr,
}

abbrev pub max_depth : ℕ
max_depth = 128

pub record Level : Type 0 where
  pub level : ℕ
  pub guards : List ℕ

-- The counter at the start of a parse.
unfoldable pub new : Level
new = record { level = max_depth; guards = [] }

-- `Level::guard`
unfoldable pub guard : Level → Level
guard l = record l { guards = 0 ∷ l.guards }

-- `checked_sub(1)`
abbrev pub checked_pred : ℕ → Option ℕ
checked_pred zero = none
checked_pred (suc n) = some n

-- `Level::nest`; `none` is its error, which leaves the counter as it is.
unfoldable pub nest : Level → Option Level
nest l = do
  new_level ← checked_pred l.level
  some (record { level = new_level; guards = 1 ∷ l.guards })

-- `self.count += 1` of the guard at a place.
unfoldable pub count_up : List ℕ → ℕ → Option (List ℕ)
count_up [] i = none
count_up (c ∷ guards) zero = some (suc c ∷ guards)
count_up (c ∷ guards) (suc i) = do guards ← count_up guards i; some (c ∷ guards)

-- `LevelGuard::nest`, on the guard at a place.
unfoldable pub nest_guard : ℕ → Level → Option Level
unfolding count_up
nest_guard i l = do
  new_level ← checked_pred l.level
  guards ← count_up l.guards i
  some (record { level = new_level; guards = guards })

-- `Drop for LevelGuard`; guards are dropped in the reverse order of their creation.
unfoldable pub release : Level → Option Level
release l = elim (l.guards) [
  | [] ↦ none
  | count ∷ guards ↦ some (record { level = l.level + count; guards = guards })
]

pub data Step : Type 0 where
  guarding nesting dropping : Step
  nesting_guard : ℕ → Step

unfoldable pub step : Step → Level → Option Level
unfolding guard nest nest_guard release
step guarding l = some (guard l)
step nesting l = nest l
step (nesting_guard i) l = nest_guard i l
step dropping l = release l

unfoldable pub run : List Step → Level → Option Level
unfolding step
run [] l = some l
run (s ∷ steps) l = do l ← step s l; run steps l
