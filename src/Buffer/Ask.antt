-- ===== src/Buffer/Ask.antt =====
-- What the callers of the buffer of rinja_derive/src/integration.rs ask for: a sequence of pieces
-- of code and of texts to be written.
use mathlib.Core.List.{map}
use rinja.Base.{
  ℕ, Bool, true, Option, some, List, [], ◌∷◌, ◌++◌, ◌≡◌, if◌then◌else◌, Bytes, codes, ◌>>=◌,
}
use rinja.Buffer.{
  Buffer, Memchr3Iter, quote, write, write_separated_path, write_escaped_str, write_writer,
  set_discard, clear, open_call, close_call,
}
use rinja.Buffer.Escape.{escape}

-- A run of the generated code in order: a byte of the output, or a piece of code.
pub data Event : Type 0 where
  byte : ℕ → Event
  code : Bytes → Event

-- The pieces of the buffer, the last one first.
pub data Item : Type 0 where
  text : Bytes → Item
  code : Bytes → Item

unfoldable pub print : List Item → Bytes
print [] = []
print (Item.text t ∷ items) = print items ++ (open_call ++ (escape t ++ close_call))
print (Item.code c ∷ items) = print items ++ c

unfoldable pub events : List Item → List Event
events [] = []
events (Item.text t ∷ items) = events items ++ map byte t
events (Item.code c ∷ items) = events items ++ Event.code c ∷ []

-- The calls that the code generator makes.
pub data Op : Type 0 where
  write_code : Bytes → Op
  write_path : List Bytes → Op
  write_literal : Bytes → Op
  write_text : Bytes → Op
  discard : Bool → Op
  clear_all : Op

-- The items behind the first one.
abbrev pub continued : List Bytes → Bytes
continued [] = []
continued (item ∷ path) = codes "::" ++ (item ++ continued path)

unfoldable pub joined : List Bytes → Bytes
joined [] = []
joined (item ∷ path) = item ++ continued path

-- What was asked for so far, and whether calls are being discarded.
pub record Asked : Type 0 where
  pub discarding : Bool
  pub wanted : List Event

abbrev pub add : List Event → Asked → Asked
add es a = if a.discarding then a else record a { wanted = a.wanted ++ es }

unfoldable pub ask : Op → Asked → Asked
unfolding joined
ask (write_code c) a = add (Event.code c ∷ []) a
ask (write_path path) a = add (Event.code (joined path) ∷ []) a
ask (write_literal s) a = add (Event.code (quote ∷ (escape s ++ quote ∷ [])) ∷ []) a
ask (write_text s) a = add (map byte s) a
ask (discard d) a = record a { discarding = d }
ask clear_all a = record a { wanted = [] }

unfoldable pub ask_all : List Op → Asked → Asked
unfolding ask
ask_all [] a = a
ask_all (op ∷ ops) a = ask_all ops (ask op a)

abbrev pub IsText : List Item → Type 0
IsText [] = ⊥
IsText (Item.text _ ∷ _) = Unit
IsText (Item.code _ ∷ _) = ⊥

-- The buffer is the print of some pieces that mean what was asked for; where it would merge, the
-- last piece is a text.
pub record Means (a : Asked) (b : Buffer) : Type 0 where
  pub items : List Item
  pub discards : b.discard ≡ a.discarding
  pub prints : b.buf ≡ print items
  pub asked : events items ≡ a.wanted
  pub merges : b.last_was_write_str ≡ true → IsText items

module _ (memchr3_iter : Memchr3Iter) where
  unfoldable pub apply : Op → Buffer → Option Buffer
  unfolding write write_separated_path write_escaped_str write_writer set_discard clear
  apply (write_code c) b = some (write c b)
  apply (write_path path) b = some (write_separated_path path b)
  apply (write_literal s) b = write_escaped_str memchr3_iter s b
  apply (write_text s) b = do r ← write_writer memchr3_iter s b; some (r.0)
  apply (discard d) b = some (set_discard d b)
  apply clear_all b = some (clear b)

  unfoldable pub apply_all : List Op → Buffer → Option Buffer
  unfolding apply
  apply_all [] b = some b
  apply_all (op ∷ ops) b = do b ← apply op b; apply_all ops b
