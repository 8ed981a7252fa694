-- ===== src/Buffer/Merge.antt =====
-- The buffer of rinja_derive/src/integration.rs against what its callers ask for. Merging the
-- `write_str` calls keeps the sequence of the pieces.
use mathlib.Core.List.{map-append, map}
use rinja.Base.{
  Bool-cases, inl, inr, true, false, some, List, [], ◌∷◌, ◌++◌, ◌≡◌, refl, sym, ◌∙◌, arith, Bytes,
  append_assoc, append-nil,
}
use rinja.Buffer.{
  Buffer, Memchr3Iter, quote, write, write_separated_path, write_escaped_str, write_writer,
  set_discard, clear, open_write_str, open_call, new,
}
use rinja.Buffer.Escape.{IsMemchr3, escape, string_escape-escape}
use rinja.Buffer.Ask.{
  byte, Item, print, events, Op, write_code, write_path, write_literal, write_text, discard,
  clear_all, joined, Asked, ask, ask_all, Means, apply, apply_all,
}
use rinja.Buffer.Pieces.{
  push_path-joined, append_code, append_code-Means, write-Means, escape-append, begun,
}

module _ {memchr3_iter : Memchr3Iter} (memchr : IsMemchr3 memchr3_iter) where
  literal_lem :
      (s : Bytes) (b : Buffer)
      → write_escaped_str memchr3_iter s b ≡ some (append_code (quote ∷ (escape s ++ quote ∷ [])) b)
  unfolding write_escaped_str
  literal_lem s b = elim (Bool-cases b.discard) [
    | inl discards ↦ rw discards
    | inr keeps ↦
        rw (keeps, string_escape-escape memchr (b.buf ++ quote ∷ []) s) (simp append_assoc)
  ]

  -- What is escaped onto when text comes: a text that was begun, or an empty one.
  opened :
      (a : Asked) (b : Buffer) (m : Means a b)
      → (items : List Item) × (t : Bytes) × (open_write_str b
          ≡ some (print items ++ (open_call ++ escape t)))
        × (events items ++ map byte t ≡ a.wanted)
  unfolding open_write_str print events escape
  opened a b m = elim (Bool-cases b.last_was_write_str) [
    | inl merges ↦
        let (items, t, long, cut, same) = begun b.buf m.items (m.merges merges) m.prints in
        (items, t, rw (merges, long, cut), sym same ∙ m.asked)
    | inr apart ↦ (m.items, [], rw (apart, m.prints), rw append-nil m.asked)
  ]

  pub write_text-Means :
      (s : Bytes) (a : Asked) (b : Buffer)
      → Means a b
      → (b' : Buffer) × (apply memchr3_iter (write_text s) b ≡ some b')
        × Means (ask (write_text s) a) b'
  unfolding apply ask write_writer print events
  write_text-Means [] a b m = (
    b,
    refl,
    record {
      items = m.items;
      discards = ground arith;
      prints = m.prints;
      asked = ground (arith, append-nil a.wanted);
      merges = m.merges;
    },
  )
  write_text-Means (c ∷ s) a b m = elim (Bool-cases b.discard) [
    | inl discards ↦ (
      b,
      rw discards,
      record {
        items = m.items;
        discards = ground arith;
        prints = m.prints;
        asked = ground arith;
        merges = m.merges;
      },
    )
    | inr keeps ↦
        let (items, t, onto, same) = opened a b m in
        (
          record b { buf = print (Item.text (t ++ c ∷ s) ∷ items); last_was_write_str = true },
          rw
              (
                keeps,
                onto,
                string_escape-escape memchr (print items ++ (open_call ++ escape t)) (c ∷ s),
                escape-append t (c ∷ s),
              )
              (simp append_assoc),
          record {
            items = Item.text (t ++ c ∷ s) ∷ items;
            discards = ground arith;
            prints = refl;
            asked = ground (
              arith,
              map-append byte t (c ∷ s),
              append_assoc (events items) (map byte t) (map byte (c ∷ s)),
            );
            merges = λ h. tt;
          },
        )
  ]

  apply-Means :
      (op : Op) (a : Asked) (b : Buffer)
      → Means a b
      → (b' : Buffer) × (apply memchr3_iter op b ≡ some b') × Means (ask op a) b'
  unfolding apply ask write write_separated_path write_escaped_str set_discard clear print events
  apply-Means (write_code c) a b m = (write c b, refl, write-Means c a b m)
  apply-Means (write_path path) a b m = (
    write_separated_path path b,
    refl,
    rw (push_path-joined path b.buf) (append_code-Means (joined path) a b m),
  )
  apply-Means (write_literal s) a b m =
      (append_code (quote ∷ (escape s ++ quote ∷ [])) b, literal_lem s b, append_code-Means _ a b m)
  apply-Means (write_text s) a b m = write_text-Means s a b m
  apply-Means (discard d) a b m = (
    set_discard d b,
    refl,
    record {
      items = m.items;
      discards = refl;
      prints = m.prints;
      asked = m.asked;
      merges = λ h. ground arith;
    },
  )
  apply-Means clear_all a b m = (
    clear b,
    refl,
    record {
      items = [];
      discards = m.discards;
      prints = refl;
      asked = refl;
      merges = λ h. ground arith;
    },
  )

  apply_all-Means :
      (ops : List Op) (a : Asked) (b : Buffer)
      → Means a b
      → (b' : Buffer) × (apply_all memchr3_iter ops b ≡ some b') × Means (ask_all ops a) b'
  unfolding apply_all ask_all
  apply_all-Means [] a b m = (b, refl, m)
  apply_all-Means (op ∷ ops) a b m =
      let (b₁, applied, m₁) = apply-Means op a b m in
      let (b₂, rest, m₂) = apply_all-Means ops (ask op a) b₁ m₁ in (b₂, rw applied rest, m₂)

  -- Whatever the calls, on a new buffer: none of them panics, and the text of the buffer is the
  -- print of pieces that mean, byte for byte of the output and code for code, what the calls asked
  -- for in order, though `write_str` calls were merged.
  pub apply_all-ask_all :
      (ops : List Op)
      → (b : Buffer) × (apply_all memchr3_iter ops new ≡ some b)
        × Means (ask_all ops record { discarding = false; wanted = [] }) b
  unfolding new print events
  apply_all-ask_all ops = apply_all-Means ops _ new record {
    items = [];
    discards = refl;
    prints = refl;
    asked = refl;
    merges = λ h. ground arith;
  }
