-- ===== src/Buffer.antt =====
-- rinja_derive/src/integration.rs: `Buffer`, the Rust code that is generated, as its bytes.
-- Consecutive `write_str` calls are merged by cutting off the end of the previous one. `none` is a
-- panic: a slice or an index out of range, or a length that would become negative.
-- `memchr3_iter` is the function of the crate memchr: the places of any of three bytes.
pub mod Ask
pub mod Escape
pub mod Literal
pub mod Pieces
pub mod Merge
use rinja.Base.{
  ℕ, ◌+◌, ◌-◌, Bool, true, false, ◌||◌, Option, none, some, List, [], ◌∷◌, ◌++◌, if◌then◌else◌,
  Bytes, codes, ltb, ◌==◌, is_empty, take, drop, slice, length, get_elem?, ◌>>=◌,
}

abbrev pub Memchr3Iter : Type 0
Memchr3Iter = ℕ → ℕ → ℕ → Bytes → List ℕ

abbrev pub quote : ℕ
quote = b'"'

abbrev pub backslash : ℕ
backslash = b'\\'

abbrev pub carriage_return : ℕ
carriage_return = 13

-- The `match src[x]`.
unfoldable pub escaped : ℕ → Bytes
escaped c =
    if c == backslash
    then backslash ∷ backslash ∷ []
    else if c == quote
    then backslash ∷ quote ∷ []
    else backslash ∷ b'r' ∷ []

-- The loop of `string_escape` over the places found, with `last`.
unfoldable pub escape_at : Bytes → List ℕ → Bytes → ℕ → Option Bytes
unfolding escaped
escape_at src [] dest last = if ltb (length src) last then none else some (dest ++ drop last src)
escape_at src (x ∷ places) dest last = do
  c ← get_elem? src x
  dest ← if ltb x last then none else some (dest ++ (slice src last x ++ escaped c))
  escape_at src places dest (x + 1)

unfoldable pub string_escape : Memchr3Iter → Bytes → Bytes → Option Bytes
unfolding escape_at
string_escape memchr3_iter dest src =
    escape_at src (memchr3_iter backslash quote carriage_return src) dest 0

pub record Buffer : Type 0 where
  pub buf : Bytes
  pub discard : Bool
  pub last_was_write_str : Bool

unfoldable pub new : Buffer
new = record { buf = []; discard = false; last_was_write_str = false }

unfoldable pub set_discard : Bool → Buffer → Buffer
set_discard discard b = record b { discard = discard; last_was_write_str = false }

unfoldable pub clear : Buffer → Buffer
clear b = record b { buf = []; last_was_write_str = false }

-- `BufferFmt::append_to` is a `push_str` for each of its implementations.
unfoldable pub write : Bytes → Buffer → Buffer
write src b = if b.discard then b else record b { buf = b.buf ++ src; last_was_write_str = false }

-- The loop of `write_separated_path`, with `idx`.
unfoldable pub push_path : List Bytes → ℕ → Bytes → Bytes
push_path [] idx buf = buf
push_path (item ∷ path) idx buf =
    push_path path (idx + 1) ((if ltb 0 idx then buf ++ codes "::" else buf) ++ item)

unfoldable pub write_separated_path : List Bytes → Buffer → Buffer
unfolding push_path
write_separated_path path b =
    if b.discard then b else record b { buf = push_path path 0 b.buf; last_was_write_str = false }

abbrev pub open_call : Bytes
open_call = codes "__rinja_writer.write_str(\""

abbrev pub close_call : Bytes
close_call = codes "\")?;"

-- What `write_writer` escapes onto: a call that was opened, or the last one without its end.
unfoldable pub open_write_str : Buffer → Option Bytes
open_write_str b =
    if b.last_was_write_str
    then if ltb (length b.buf) (length close_call)
      then none
      else some (take (length b.buf - length close_call) b.buf)
    else some (b.buf ++ open_call)

module _ (memchr3_iter : Memchr3Iter) where
  unfoldable pub write_escaped_str : Bytes → Buffer → Option Buffer
  unfolding string_escape
  write_escaped_str s b = if b.discard then some b else (do
    buf ← string_escape memchr3_iter (b.buf ++ quote ∷ []) s
    some (record b { buf = buf ++ quote ∷ []; last_was_write_str = false }))

  unfoldable pub write_writer : Bytes → Buffer → Option (Buffer × ℕ)
  unfolding string_escape open_write_str
  write_writer s b = if is_empty s || b.discard then some (b, length s) else (do
    buf ← open_write_str b
    buf ← string_escape memchr3_iter buf s
    some (record b { buf = buf ++ close_call; last_was_write_str = true }, length s))
