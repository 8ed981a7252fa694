-- ===== src/Filters/Trim.antt =====
-- rinja/src/filters/alloc.rs: the filter `trim`, whose `Collector` drops whitespace at the start
-- while a value is written in pieces. A text is the list of its characters, and `is_whitespace`
-- is `char::is_whitespace`.
use rinja.Base.{
  ℕ, ◌≡◌, refl, sym, ◌∙◌, ap, Bool, List, [], ◌∷◌, ◌++◌, if◌then◌else◌, Bytes, is_empty, arith,
  append_assoc, append-nil,
}

-- The text that the pieces come to.
unfoldable pub written : List Bytes → Bytes
written [] = []
written (s ∷ pieces) = s ++ written pieces

module _ (is_whitespace : ℕ → Bool) where
  -- `str::trim_start` and `str::trim_end`
  unfoldable pub trim_start : Bytes → Bytes
  trim_start [] = []
  trim_start (c ∷ s) = let rest = trim_start s in if is_whitespace c then rest else c ∷ s

  unfoldable pub trim_end : Bytes → Bytes
  trim_end [] = []
  trim_end (c ∷ s) =
      let rest = trim_end s in
      if is_empty rest then if is_whitespace c then [] else c ∷ [] else c ∷ rest

  -- `Collector::write_str`
  unfoldable pub collect_str : Bytes → Bytes → Bytes
  unfolding trim_start
  collect_str s collected = if is_empty collected then trim_start s else collected ++ s

  unfoldable pub collect_all : List Bytes → Bytes → Bytes
  unfolding collect_str
  collect_all [] collected = collected
  collect_all (s ∷ pieces) collected = collect_all pieces (collect_str s collected)

  unfoldable pub trim : List Bytes → Bytes
  unfolding collect_all trim_end
  trim pieces = trim_end (collect_all pieces [])

  trim_start-append :
      (s t : Bytes)
      → trim_start (s ++ t) ≡ (if is_empty (trim_start s) then trim_start t else trim_start s ++ t)
  unfolding trim_start
  trim_start-append [] t = refl
  trim_start-append (c ∷ s) t = ground (arith, trim_start-append s t)

  collect_all-written :
      (pieces : List Bytes) (collected : Bytes)
      → collect_all pieces collected
        ≡ (if is_empty collected then trim_start (written pieces) else collected ++ written pieces)
  unfolding collect_all collect_str written trim_start
  collect_all-written [] [] = refl
  collect_all-written [] (c ∷ s) = sym (append-nil (c ∷ s))
  collect_all-written (p ∷ pieces) [] =
      collect_all-written pieces (trim_start p) ∙ sym (trim_start-append p (written pieces))
  collect_all-written (p ∷ pieces) (c ∷ s) =
      collect_all-written pieces (c ∷ s ++ p) ∙ append_assoc (c ∷ s) p (written pieces)

  -- However a value is cut into the pieces that it writes: the filter gives the whole text without
  -- the whitespace at its start and at its end.
  pub trim-written : (pieces : List Bytes) → trim pieces ≡ trim_end (trim_start (written pieces))
  unfolding trim
  trim-written pieces = ap trim_end (collect_all-written pieces [])
