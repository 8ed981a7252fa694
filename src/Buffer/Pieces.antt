-- ===== src/Buffer/Pieces.antt =====
-- One piece put behind the buffer of rinja_derive/src/integration.rs: code, a path, or a text onto
-- the text that is last.
use mathlib.Core.List.{map}
use rinja.Base.{
  ℕ, ◌+◌, ◌-◌, true, false, List, [], ◌∷◌, ◌++◌, ◌≡◌, refl, ◌∙◌, arith, if◌then◌else◌, Bytes, codes,
  length, append_assoc, append-nil, ltb, take, take-length-append, length-append,
}
use rinja.Buffer.{Buffer, write, push_path, open_call, close_call}
use rinja.Buffer.Escape.{escape}
use rinja.Buffer.Ask.{
  byte, Event, Item, print, events, write_code, continued, joined, Asked, add, ask, IsText, Means,
}

push_path-continued :
    (path : List Bytes) (idx : ℕ) (buf : Bytes)
    → push_path path (idx + 1) buf ≡ buf ++ continued path
unfolding push_path
push_path-continued [] idx buf = rw append-nil
push_path-continued (item ∷ path) idx buf =
    let after : ltb 0 (idx + 1) ≡ true = ground arith in
    rw after (push_path-continued path (idx + 1) ((buf ++ codes "::") ++ item) ∙ simp append_assoc)

pub push_path-joined : (path : List Bytes) (buf : Bytes) → push_path path 0 buf ≡ buf ++ joined path
unfolding push_path joined
push_path-joined [] buf = rw append-nil
push_path-joined (item ∷ path) buf = simp append_assoc at (push_path-continued path 0 (buf ++ item))

-- A piece of code put behind the buffer, or nothing where output is discarded.
abbrev pub append_code : Bytes → Buffer → Buffer
append_code c b = if b.discard then b else record b { buf = b.buf ++ c; last_was_write_str = false }

pub append_code-Means :
    (c : Bytes) (a : Asked) (b : Buffer)
    → Means a b
    → Means (add (Event.code c ∷ []) a) (append_code c b)
unfolding print events
append_code-Means c a b m = record {
  items = if b.discard then m.items else Item.code c ∷ m.items;
  discards = ground arith;
  prints = ground arith;
  asked = ground arith;
  merges = ground arith;
}

pub escape-append : (s t : Bytes) → escape (s ++ t) ≡ escape s ++ escape t
unfolding escape
escape-append [] t = refl
escape-append (c ∷ s) t = rw (escape-append s t) (simp append_assoc)

cut-append : (xs ys : Bytes) → take (length (xs ++ ys) - length ys) (xs ++ ys) ≡ xs
cut-append xs ys =
    let count : length (xs ++ ys) - length ys ≡ length xs = omega (arith, length-append xs ys) in
    rw count (take-length-append xs ys)

-- The last piece without its end, where it is a text.
pub begun :
    (buf : Bytes) (items : List Item)
    → IsText items
    → buf ≡ print items
    → (rest : List Item) × (t : Bytes) × (ltb (length buf) (length close_call) ≡ false)
      × (take (length buf - length close_call) buf ≡ print rest ++ (open_call ++ escape t))
      × (events items ≡ events rest ++ map byte t)
unfolding print events
begun buf [] is_text prints = elim is_text [ ]
begun buf (Item.code _ ∷ rest) is_text prints = elim is_text [ ]
begun buf (Item.text t ∷ rest) is_text prints =
    let whole = print rest ++ (open_call ++ escape t) in
    let same : buf ≡ whole ++ close_call = prints ∙ simp append_assoc in
    (
      rest,
      t,
      rw same (ground (arith, length-append whole close_call)),
      rw same (cut-append whole close_call),
      refl,
    )

pub write-Means :
    (c : Bytes) (a : Asked) (b : Buffer) → Means a b → Means (ask (write_code c) a) (write c b)
unfolding ask write
write-Means c a b m = append_code-Means c a b m
