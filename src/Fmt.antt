-- ===== src/Fmt.antt =====
-- `core::fmt::Write`, the destination of every piece of output. A writer is a state `W` with a
-- `write_str` that returns the next state, or nothing where it fails; `?` is `>>=`.
use rinja.Base.{
  ℕ, ◌+◌, ◌/◌, ◌%◌, ◌≡◌, Option, some, [], ◌∷◌, ◌++◌, append_assoc, append-nil, ltb, if◌then◌else◌,
  ◌>>=◌, Bytes,
}

abbrev pub WriteStr : Type 0 → Type 0
WriteStr W = W → Bytes → Option W

-- A destination that does not see how its input is cut into calls, such as a `String`, a file or
-- a socket: an empty write does nothing, and two writes are one write of both texts.
pub record IsWriter {W : Type 0} (write_str : WriteStr W) : Type 0 where
  pub write-nil : (w : W) → write_str w [] ≡ some w
  pub write-append :
      (w : W) (a b : Bytes) → write_str w (a ++ b) ≡ (write_str w a >>= λ w'. write_str w' b)

-- `impl Write for String`
abbrev pub push_str : WriteStr Bytes
push_str w s = some (w ++ s)

pub push_str-IsWriter : IsWriter push_str
push_str-IsWriter = record {
  write-nil = λ w. rw append-nil;
  write-append = λ w a b. rw append_assoc;
}

-- `char::encode_utf8`
unfoldable pub encode_utf8 : ℕ → Bytes
encode_utf8 c =
    if ltb c 0x80
    then c ∷ []
    else if ltb c 0x800
    then (0xc0 + c / 64) ∷ (0x80 + c % 64) ∷ []
    else if ltb c 0x10000
    then (0xe0 + c / 4096) ∷ (0x80 + c / 64 % 64) ∷ (0x80 + c % 64) ∷ []
    else (0xf0 + c / 262144) ∷ (0x80 + c / 4096 % 64) ∷ (0x80 + c / 64 % 64) ∷ (0x80 + c % 64) ∷ []
