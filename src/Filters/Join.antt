-- ===== src/Filters/Join.antt =====
-- rinja/src/filters/builtin.rs: the filter `join`, whose result can be displayed once. An item is
-- the list of the texts that it writes.
use mathlib.Core.Path.{fun_ext}
use rinja.Base.{
  ℕ, ◌+◌, false, Option, none, some, List, [], ◌∷◌, ◌++◌, ◌≡◌, refl, sym, ap, ◌∙◌, Bytes, ◌>>=◌,
  ◌==◌, if◌then◌else◌, bind_assoc, arith,
}
use rinja.Fmt.{WriteStr, IsWriter}
use rinja.Filters.Escape.{display, concat, display-concat}

-- The cell of `JoinFilter`: the items that are left to be taken, with the separator.
abbrev pub JoinFilter : Type 0
JoinFilter = Option (List (List Bytes) × List Bytes)

-- `join`
unfoldable pub join : List (List Bytes) → List Bytes → JoinFilter
join input separator = some (input, separator)

module _ {W : Type 0} (write_str : WriteStr W) where
  -- The loop of `fmt`, with `idx`.
  unfoldable pub join_loop : List Bytes → List (List Bytes) → ℕ → W → Option W
  unfolding display
  join_loop separator [] idx f = some f
  join_loop separator (token ∷ iter) idx f = do
    f ←
        if idx == 0
        then display write_str f token
        else (do f ← display write_str f separator; display write_str f token)
    join_loop separator iter (idx + 1) f

  -- `fmt`, with the cell behind it.
  unfoldable pub join_fmt : JoinFilter → W → Option (W × JoinFilter)
  unfolding join_loop
  join_fmt none f = some (f, none)
  join_fmt (some (iter, separator)) f = do f ← join_loop separator iter 0 f; some (f, none)

-- The items with the separator before each, and between them.
abbrev pub preceded : List Bytes → List (List Bytes) → Bytes
preceded separator [] = []
preceded separator (token ∷ iter) = concat separator ++ (concat token ++ preceded separator iter)

abbrev pub separated : List Bytes → List (List Bytes) → Bytes
separated separator [] = []
separated separator (token ∷ iter) = concat token ++ preceded separator iter

module _ {W : Type 0} {write_str : WriteStr W} (writer : IsWriter write_str) where
  -- One write, and whatever goes on as another one.
  then_lem :
      (w : W) (s t : Bytes) (k : W → Option W)
      → ((v : W) → k v ≡ write_str v t)
      → (write_str w s >>= k) ≡ write_str w (s ++ t)
  then_lem w s t k h =
      ap (λ (f : W → Option W). write_str w s >>= f) (fun_ext h) ∙ sym (writer.write-append w s t)

  join_loop-preceded :
      (separator : List Bytes) (iter : List (List Bytes)) (idx : ℕ) (w : W)
      → join_loop write_str separator iter (idx + 1) w ≡ write_str w (preceded separator iter)
  unfolding join_loop
  join_loop-preceded separator [] idx w = sym (writer.write-nil w)
  join_loop-preceded separator (token ∷ iter) idx w =
      let later : (idx + 1 == 0) ≡ false = ground arith in
      rw later (
        bind_assoc (display write_str w separator) _ _
        ∙ ap
            (λ (m : Option W). m >>= λ v.
              display write_str v token >>= join_loop write_str separator iter (idx + 1 + 1))
            (display-concat writer w separator)
        ∙ then_lem w (concat separator) (concat token ++ preceded separator iter) _ (λ v.
          ap (λ (m : Option W). m >>= join_loop write_str separator iter (idx + 1 + 1))
            (display-concat writer v token)
          ∙ then_lem v (concat token) (preceded separator iter) _
              (join_loop-preceded separator iter (idx + 1))))

  join_loop-separated :
      (separator : List Bytes) (iter : List (List Bytes)) (w : W)
      → join_loop write_str separator iter 0 w ≡ write_str w (separated separator iter)
  unfolding join_loop
  join_loop-separated separator [] w = sym (writer.write-nil w)
  join_loop-separated separator (token ∷ iter) w =
      ap (λ (m : Option W). m >>= join_loop write_str separator iter 1)
        (display-concat writer w token)
      ∙ then_lem w (concat token) (preceded separator iter) _ (join_loop-preceded separator iter 0)

  -- For every destination, items and separator: the first time the result of the filter is
  -- displayed, it writes the items with the separator between them, and empties its cell; every
  -- later time it writes nothing.
  pub join_fmt-separated :
      (w : W) (input : List (List Bytes)) (separator : List Bytes)
      → (join_fmt write_str (join input separator) w
          ≡ (write_str w (separated separator input) >>= λ f. some (f, none)))
        × (join_fmt write_str none w ≡ some (w, none))
  unfolding join_fmt join
  join_fmt-separated w input separator = (
    ap (λ (m : Option W). m >>= λ f. some (f, none)) (join_loop-separated separator input w),
    refl,
  )
