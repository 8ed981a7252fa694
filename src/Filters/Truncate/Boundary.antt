-- ===== src/Filters/Truncate/Boundary.antt =====
-- The end of the character in which `TruncateWriter` of rinja/src/filters/builtin.rs stands, and
-- the text that it is meant to let through.
use rinja.Base.{
  ℕ, zero, suc, ◌+◌, ◌-◌, ◌≤◌, ◌<◌, true, false, not, some, [], ◌∷◌, ◌++◌, ◌≡◌, refl, ap, ◌∙◌,
  arith, length, get_elem?, Bytes, if◌then◌else◌, append_assoc, append-nil, length-append,
  Bool-cases, inl, inr,
}
use rinja.Filters.Truncate.{is_continuation, is_char_boundary, next_boundary, dots}

-- At least `n` bytes and as many more as complete a character, and dots if anything is behind.
unfoldable pub truncated : ℕ → Bytes → Bytes
truncated n [] = []
truncated zero (c ∷ s) = let rest = truncated zero s in if is_continuation c then c ∷ rest else dots
truncated (suc n) (c ∷ s) = c ∷ truncated n s

-- A text does not start inside a character; so for every Rust `str`.
abbrev pub StartsChar : Bytes → Type 0
StartsChar [] = Unit
StartsChar (c ∷ s) = is_continuation c ≡ false

-- The bytes that complete a character, and what is behind them.
pub continuation : Bytes → Bytes
continuation [] = []
continuation (c ∷ s) = if is_continuation c then c ∷ continuation s else []

pub behind : Bytes → Bytes
behind [] = []
behind (c ∷ s) = if is_continuation c then behind s else c ∷ s

pub continuation-append : (s : Bytes) → continuation s ++ behind s ≡ s
unfolding continuation behind
continuation-append [] = refl
continuation-append (c ∷ s) = ground (arith, continuation-append s)

pub truncated-short :
    (n : ℕ) (s rest : Bytes)
    → length s ≤ n
    → truncated n (s ++ rest) ≡ s ++ truncated (n - length s) rest
unfolding truncated
truncated-short n [] rest h = ground arith
truncated-short (suc n) (c ∷ s) rest h = ground (arith, truncated-short n s rest)
truncated-short zero (c ∷ s) rest h = ground arith

-- Past the number, the character is completed.
pub truncated-open :
    (s rest : Bytes) → behind s ≡ [] → truncated zero (s ++ rest) ≡ s ++ truncated zero rest
unfolding truncated behind
truncated-open [] rest h = refl
truncated-open (c ∷ s) rest h = ground (arith, truncated-open s rest)

pub truncated-closed :
    (s rest : Bytes) (c : ℕ) (t : Bytes)
    → behind s ≡ c ∷ t
    → truncated zero (s ++ rest) ≡ continuation s ++ dots
unfolding truncated behind continuation
truncated-closed [] rest c t h = ground arith
truncated-closed (d ∷ s) rest c t h = ground (arith, truncated-closed s rest c t)

get_elem?-length : (xs : Bytes) (c : ℕ) (ys : Bytes) → get_elem? (xs ++ c ∷ ys) (length xs) ≡ some c
get_elem?-length [] c ys = refl
get_elem?-length (x ∷ xs) c ys = get_elem?-length xs c ys

boundary_lem :
    (before : Bytes) (c : ℕ) (q : Bytes) (i : ℕ)
    → 0 < i
    → i ≡ length before
    → is_char_boundary (before ++ c ∷ q) i ≡ not (is_continuation c)
unfolding is_char_boundary
boundary_lem before c q i h e =
    ground (arith, get_elem?-length before c q, length-append before (c ∷ q))

end_lem : (s : Bytes) → is_char_boundary s (length s) ≡ true
unfolding is_char_boundary
end_lem s = ground arith

-- The loop stops behind the bytes that complete a character, and the fuel is enough.
pub next_boundary-continuation :
    (q before : Bytes) (fuel i : ℕ)
    → 0 < i
    → i ≡ length before
    → length q ≤ fuel
    → next_boundary fuel (before ++ q) i ≡ some (i + length (continuation q))
unfolding next_boundary continuation
next_boundary-continuation [] before zero i h e f =
    rw (append-nil before, e, end_lem before) (ground arith)
next_boundary-continuation [] before (suc fuel) i h e f =
    rw (append-nil before, e, end_lem before) (ground arith)
next_boundary-continuation (c ∷ q) before zero i h e f = ground arith
next_boundary-continuation (c ∷ q) before (suc fuel) i h e f =
    elim (Bool-cases (is_continuation c)) [
      | inl inside ↦
          rw (boundary_lem before c q i h e, inside)
            (simp append_assoc at (
                next_boundary-continuation q (before ++ c ∷ []) fuel (i + 1) (omega arith)
                  (omega (arith, length-append before (c ∷ []))) (omega arith))
              ∙ ap some (omega arith))
      | inr outside ↦ rw (boundary_lem before c q i h e, outside) (ground arith)
    ]

-- A text of more than `n` bytes, with its first `n` bytes taken off.
pub truncated-append : (p t : Bytes) → truncated (length p) (p ++ t) ≡ p ++ truncated zero t
unfolding truncated
truncated-append [] t = refl
truncated-append (c ∷ p) t = rw (truncated-append p t)
