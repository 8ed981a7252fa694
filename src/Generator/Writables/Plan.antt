-- ===== src/Generator/Writables/Plan.antt =====
-- What the `match` written by `write_buf_writable` (rinja_derive/src/generator/node.rs) says: its
-- arguments, the lines of its arm, and what they come to when they are run in order.
use mathlib.Core.List.{map}
use rinja.Base.{ℕ, ◌<◌, Option, none, some, List, [], ◌∷◌, ◌++◌, if◌then◌else◌, Bytes, ◌==◌, ◌>>=◌}
use rinja.Buffer.Ask.{byte, Event, Asked, ask, write_code, write_text}
use rinja.Generator.Writables.{argument, line, target}

-- An argument of the `match`: its index, its code, and what separates its target from the next.
abbrev pub Arg : Type 0
Arg = ℕ × Bytes × Bytes

-- A line of the arm: a text, or the use of an argument.
pub data Line : Type 0 where
  text : Bytes → Line
  use_of : ℕ → Line

-- Arguments and lines are listed with the last one first.
unfoldable pub bound_code : ℕ → List Arg → Option Bytes
bound_code i [] = none
bound_code i ((j, code, _) ∷ args) =
    let rest = bound_code i args in if i == j then some code else rest

-- All indices are smaller, and they grow: no two arguments share a target.
abbrev pub Below : ℕ → List Arg → Type 0
Below n [] = Unit
Below n ((i, _, _) ∷ args) = (i < n) × Below i args

unfoldable pub bytes_of : List Bytes → List Event
bytes_of [] = []
bytes_of (s ∷ items) = map byte s ++ bytes_of items

-- What the lines write where the arguments are bound.
unfoldable pub evaluate : List Arg → List Line → Option (List Event)
evaluate args [] = some []
evaluate args (text s ∷ lines) = do es ← evaluate args lines; some (es ++ map byte s)
evaluate args (use_of i ∷ lines) = do
  es ← evaluate args lines
  code ← bound_code i args
  some (es ++ Event.code code ∷ [])

unfoldable pub ask_texts : List Bytes → Asked → Asked
ask_texts [] a = a
ask_texts (s ∷ items) a = ask_texts items (ask (write_text s) a)

unfoldable pub ask_args : List Arg → Asked → Asked
ask_args [] a = a
ask_args ((_, code, _) ∷ args) a = ask (write_code (argument code)) (ask_args args a)

unfoldable pub push_texts : List Bytes → List Line → List Line
push_texts [] lines = lines
push_texts (s ∷ items) lines = push_texts items (text s ∷ lines)

module _ (to_string : ℕ → Bytes) where
  unfoldable pub target_list : List Arg → Bytes
  target_list [] = []
  target_list ((i, _, separator) ∷ args) = target_list args ++ (target to_string i ++ separator)

  unfoldable pub ask_lines : List Line → Asked → Asked
  ask_lines [] a = a
  ask_lines (text s ∷ lines) a = ask (write_text s) (ask_lines lines a)
  ask_lines (use_of i ∷ lines) a = ask (write_code (line to_string i)) (ask_lines lines a)
