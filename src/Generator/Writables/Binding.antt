-- ===== src/Generator/Writables/Binding.antt =====
-- The arguments and lines of the `match` of `write_buf_writable` (rinja_derive/src/generator/node.rs)
-- as they grow: what was bound stays bound, and a cached index is bound to the code it is cached for.
use mathlib.Core.List.{map}
use rinja.Base.{
  ℕ, ◌+◌, ◌<◌, ◌≡◌, refl, some, List, [], ◌∷◌, ◌++◌, ◌∙◌, Bytes, arith, append_assoc, append-nil,
  bytes_eq-≡, Option-cases, inl, inr,
}
use rinja.Buffer.Ask.{byte, Event, Asked}
use rinja.Generator.Writables.{find_cached}
use rinja.Generator.Writables.Plan.{
  Arg, Line, text, use_of, bound_code, Below, bytes_of, evaluate, ask_texts, push_texts, ask_lines,
}

abbrev pub Known : List Arg → List (Bytes × ℕ) → Type 0
Known args [] = Unit
Known args ((code, i) ∷ cache) = (bound_code i args ≡ some code) × Known args cache

pub bound_code_lt :
    (n i : ℕ) (code : Bytes) (args : List Arg)
    → Below n args
    → bound_code i args ≡ some code
    → i < n
unfolding bound_code
bound_code_lt n i code [] below found = ground arith
bound_code_lt n i code ((j, c, sep) ∷ args) (lt, below) found =
    ground (arith, bound_code_lt j i code args below)

pub bound_code_older :
    (n i : ℕ) (code c sep : Bytes) (args : List Arg)
    → Below n args
    → bound_code i args ≡ some code
    → bound_code i ((n, c, sep) ∷ args) ≡ some code
unfolding bound_code
bound_code_older n i code c sep args below found =
    ground (arith, bound_code_lt n i code args below found)

pub bound_code_new :
    (n : ℕ) (c sep : Bytes) (args : List Arg) → bound_code n ((n, c, sep) ∷ args) ≡ some c
unfolding bound_code
bound_code_new n c sep args = ground arith

pub Below_suc : (n : ℕ) (args : List Arg) → Below n args → Below (n + 1) args
Below_suc n [] below = tt
Below_suc n (arg ∷ args) (lt, below) = (omega arith, below)

pub Known_older :
    (n : ℕ) (c sep : Bytes) (args : List Arg) (cache : List (Bytes × ℕ))
    → Below n args
    → Known args cache
    → Known ((n, c, sep) ∷ args) cache
Known_older n c sep args [] below known = tt
Known_older n c sep args ((code, i) ∷ cache) below (k, known) =
    (bound_code_older n i code c sep args below k, Known_older n c sep args cache below known)

pub find_cached-Known :
    (code : Bytes) (i : ℕ) (args : List Arg) (cache : List (Bytes × ℕ))
    → Known args cache
    → find_cached code cache ≡ some i
    → bound_code i args ≡ some code
unfolding find_cached
find_cached-Known code i args [] known found = ground arith
find_cached-Known code i args ((c, j) ∷ cache) (k, known) found =
    ground (arith, bytes_eq-≡ code c, find_cached-Known code i args cache known)

pub evaluate_older :
    (n : ℕ) (c sep : Bytes) (args : List Arg) (lines : List Line) (es : List Event)
    → Below n args
    → evaluate args lines ≡ some es
    → evaluate ((n, c, sep) ∷ args) lines ≡ some es
unfolding evaluate
evaluate_older n c sep args [] es below h = h
evaluate_older n c sep args (text s ∷ lines) es below h =
    elim (Option-cases (evaluate args lines)) [
      | inl e ↦ ground arith
      | inr (p, e) ↦ ground (arith, evaluate_older n c sep args lines p below e)
    ]
evaluate_older n c sep args (use_of i ∷ lines) es below h =
    elim (Option-cases (evaluate args lines)) [
      | inl e ↦ ground arith
      | inr (p, e) ↦ elim (Option-cases (bound_code i args)) [
        | inl l ↦ ground arith
        | inr (code, l) ↦ ground (
          arith,
          evaluate_older n c sep args lines p below e,
          bound_code_older n i code c sep args below l,
        )
      ]
    ]

pub evaluate-push_texts :
    (args : List Arg) (items : List Bytes) (lines : List Line) (es : List Event)
    → evaluate args lines ≡ some es
    → evaluate args (push_texts items lines) ≡ some (es ++ bytes_of items)
unfolding evaluate push_texts bytes_of
evaluate-push_texts args [] lines es h = rw append-nil h
evaluate-push_texts args (s ∷ items) lines es h =
    evaluate-push_texts args items (text s ∷ lines) (es ++ map byte s) (rw h refl)
    ∙ simp append_assoc

pub ask_lines-push_texts :
    (to_string : ℕ → Bytes) (items : List Bytes) (lines : List Line) (a : Asked)
    → ask_lines to_string (push_texts items lines) a ≡ ask_texts items (ask_lines to_string lines a)
unfolding push_texts ask_lines ask_texts
ask_lines-push_texts to_string [] lines a = refl
ask_lines-push_texts to_string (s ∷ items) lines a =
    ask_lines-push_texts to_string items (text s ∷ lines) a

pub bytes_of-append : (xs ys : List Bytes) → bytes_of (xs ++ ys) ≡ bytes_of xs ++ bytes_of ys
unfolding bytes_of
bytes_of-append [] ys = refl
bytes_of-append (x ∷ xs) ys = rw (bytes_of-append xs ys) (simp append_assoc)
