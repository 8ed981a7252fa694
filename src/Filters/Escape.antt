-- ===== src/Filters/Escape.antt =====
-- rinja/src/filters/escape.rs: the escapers, the writer that escapes everything that is written
-- through it, and what `rinja_auto_escape` chooses. A value that is displayed is the list of the
-- texts that it writes one after the other.
use mathlib.Core.Path.{fun_ext}
use rinja.Base.{Option, some, List, [], ◌∷◌, ◌++◌, ◌≡◌, refl, sym, ap, ◌∙◌, Bytes, ◌>>=◌}
use rinja.Fmt.{WriteStr, IsWriter}
use rinja.Html.{write_escaped_str}
use rinja.Html.Escape.{escape, write_escaped_str-escape}
use rinja.Html.Safety.{escape-append}

-- The implementations of `Escaper`.
pub data Escaper : Type 0 where
  html text : Escaper

-- `Display::fmt` and `FastWritable::write_into` of a value
unfoldable pub display : {W : Type 0} → WriteStr W → W → List Bytes → Option W
display write_str w [] = some w
display write_str w (s ∷ value) = do w ← write_str w s; display write_str w value

module _ {W : Type 0} (write_str : WriteStr W) where
  -- `EscapeWriter::write_str`
  unfoldable pub escape_writer : Escaper → WriteStr W
  escape_writer html w s = write_escaped_str write_str w s
  escape_writer text w s = write_str w s

  -- `EscapeDisplay`
  unfoldable pub escape_display : Escaper → W → List Bytes → Option W
  unfolding display escape_writer
  escape_display escaper w value = display (escape_writer escaper) w value

-- `MaybeSafe`, with `Safe` as its first constructor.
pub data MaybeSafe : Type 0 where
  safe needs_escaping : List Bytes → MaybeSafe

-- `Wrapped`
pub data Wrapped : Type 0 where
  safe : List Bytes → Wrapped
  needs_escaping : List Bytes → Escaper → Wrapped

unfoldable pub rinja_auto_escape : MaybeSafe → Escaper → Wrapped
rinja_auto_escape (MaybeSafe.safe t) escaper = Wrapped.safe t
rinja_auto_escape (MaybeSafe.needs_escaping t) escaper = Wrapped.needs_escaping t escaper

unfoldable pub write_wrapped : {W : Type 0} → WriteStr W → W → Wrapped → Option W
unfolding display escape_display
write_wrapped write_str w (Wrapped.safe t) = display write_str w t
write_wrapped write_str w (Wrapped.needs_escaping t e) = escape_display write_str e w t

abbrev pub concat : List Bytes → Bytes
concat [] = []
concat (s ∷ value) = s ++ concat value

-- What an escaper makes of a text.
abbrev pub escape_by : Escaper → Bytes → Bytes
escape_by html s = escape s
escape_by text s = s

escape_by-nil : (e : Escaper) → escape_by e [] ≡ []
unfolding escape
escape_by-nil html = refl
escape_by-nil text = refl

escape_by-append :
    (e : Escaper) (a b : Bytes) → escape_by e (a ++ b) ≡ escape_by e a ++ escape_by e b
escape_by-append html a b = escape-append a b
escape_by-append text a b = refl

module _ {W : Type 0} {write_str : WriteStr W} (writer : IsWriter write_str) where
  escape_writer-escape_by :
      (e : Escaper) (w : W) (s : Bytes)
      → escape_writer write_str e w s ≡ write_str w (escape_by e s)
  unfolding escape_writer
  escape_writer-escape_by html w s = write_escaped_str-escape writer w s
  escape_writer-escape_by text w s = refl

  -- An escaper behind a destination keeps the contract of a destination: an empty text writes
  -- nothing, and a text may be cut in two anywhere and both halves be escaped on their own.
  pub escape_writer-IsWriter : (e : Escaper) → IsWriter (escape_writer write_str e)
  escape_writer-IsWriter e =
      let out = escape_writer-escape_by e in
      record {
        write-nil = λ w. out w [] ∙ ap (write_str w) (escape_by-nil e) ∙ writer.write-nil w;
        write-append = λ w a b.
            out w (a ++ b)
            ∙ ap (write_str w) (escape_by-append e a b)
            ∙ writer.write-append w (escape_by e a) (escape_by e b)
            ∙ ap (λ (f : W → Option W). write_str w (escape_by e a) >>= f)
                (fun_ext λ w₁. sym (out w₁ b))
            ∙ ap (λ (m : Option W). m >>= λ w₁. escape_writer write_str e w₁ b) (sym (out w a));
      }

pub display-concat :
    {W : Type 0} {write_str : WriteStr W} (writer : IsWriter write_str) (w : W) (value : List Bytes)
    → display write_str w value ≡ write_str w (concat value)
unfolding display
display-concat writer w [] = sym (writer.write-nil w)
display-concat {write_str = write_str} writer w (s ∷ value) =
    ap (λ (f : _ → Option _). write_str w s >>= f) (fun_ext λ w₁. display-concat writer w₁ value)
    ∙ sym (writer.write-append w s (concat value))

-- For every destination, escaper and value: a value that is marked safe is written as it is, any
-- other value as the escape of all that it displays, however it cuts its text into writes.
pub write_wrapped-escape_by :
    {W : Type 0} {write_str : WriteStr W} (writer : IsWriter write_str) (w : W) (e : Escaper)
    (value : List Bytes)
    → (write_wrapped write_str w (rinja_auto_escape (MaybeSafe.safe value) e)
        ≡ write_str w (concat value))
      × (write_wrapped write_str w (rinja_auto_escape (MaybeSafe.needs_escaping value) e)
          ≡ write_str w (escape_by e (concat value)))
unfolding write_wrapped rinja_auto_escape
write_wrapped-escape_by writer w e value = (
  display-concat writer w value,
  display-concat (escape_writer-IsWriter writer e) w value
      ∙ escape_writer-escape_by writer e w (concat value),
)
