-- ===== src/Filters/Truncate.antt =====
-- rinja/src/filters/builtin.rs: `TruncateWriter`, which passes a number of bytes on, completes the
-- character that it stands in, and then writes dots in place of what comes behind.
pub mod Boundary
pub mod Cut
use rinja.Base.{
  ℕ, zero, suc, ◌+◌, ◌-◌, Bool, true, false, ◌&&◌, not, Option, none, some, List, [], ◌∷◌,
  if◌then◌else◌, ltb, leb, ◌==◌, length, get_elem?, take, Bytes, codes, ◌>>=◌,
}
use rinja.Fmt.{WriteStr}

-- A byte that continues a character of several bytes.
abbrev pub is_continuation : ℕ → Bool
is_continuation b = leb 128 b && ltb b 192

-- `str::is_char_boundary`
unfoldable pub is_char_boundary : Bytes → ℕ → Bool
is_char_boundary s i =
    if i == 0
    then true
    else if i == length s
    then true
    else elim (get_elem? s i) [ none ↦ false | some b ↦ not (is_continuation b) ]

-- `dest` is kept when the writer is closed, where the source drops its reference to it.
pub record TruncateWriter (W : Type 0) : Type 0 where
  pub dest : W
  pub is_some : Bool
  pub remaining : ℕ

unfoldable pub new : {W : Type 0} → W → ℕ → TruncateWriter W
new dest remaining = record { dest = dest; is_some = true; remaining = remaining }

-- The `while` loop; `none` is too little fuel. A text has a boundary at its end, so its length is
-- enough.
unfoldable pub next_boundary : ℕ → Bytes → ℕ → Option ℕ
unfolding is_char_boundary
next_boundary zero s rem = if is_char_boundary s rem then some rem else none
next_boundary (suc fuel) s rem =
    let rest = next_boundary fuel s (rem + 1) in if is_char_boundary s rem then some rem else rest

abbrev pub dots : Bytes
dots = codes "..."

module _ {W : Type 0} (write_str : WriteStr W) where
  -- `dest.write_str("...")?; self.dest = None`
  unfoldable pub close : TruncateWriter W → Option (TruncateWriter W)
  close t = do dest ← write_str t.dest dots; some (record t { dest = dest; is_some = false })

  -- The branch where the text is longer than what remains.
  unfoldable pub cut : TruncateWriter W → Bytes → Option (TruncateWriter W)
  unfolding close next_boundary
  cut t s =
      if ltb 0 t.remaining
      then (do
        rem ← next_boundary (length s) s t.remaining
        if rem == length s
            then (do dest ← write_str t.dest s; some (record t { dest = dest; remaining = 0 }))
            else (do dest ← write_str t.dest (take rem s); close (record t { dest = dest })))
      else close t

  unfoldable pub truncate_write_str : WriteStr (TruncateWriter W)
  unfolding cut
  truncate_write_str t s =
      if t.is_some
      then if leb (length s) t.remaining
        then (do
          dest ← write_str t.dest s
          some (record t { dest = dest; remaining = t.remaining - length s }))
        else cut t s
      else some t
