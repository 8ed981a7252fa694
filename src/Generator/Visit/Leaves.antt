-- ===== src/Generator/Visit/Leaves.antt =====
-- rinja_derive/src/generator/expr.rs: the visitors of what has no expression inside.
use rinja.Base.{
  ℕ, ◌+◌, Bool, true, false, ◌||◌, Option, none, some, List, [], ◌∷◌, ◌++◌, if◌then◌else◌, Bytes,
  codes, bytes_eq, ltb,
}
use rinja.Parser.Expr.{StrPrefix, StrLit, CharPrefix, CharLit, c_like}
use rinja.Parser.Keywords.{normalize_identifier}
use rinja.Generator.Scopes as Scopes
use rinja.Generator.Scopes.{MapChain, get, resolve_or_self}
use rinja.Generator.Writables.{DisplayWrap, wrapped, unwrapped}
use rinja.Generator.Visit.{Visit, Input, ◌>>=◌, ◌>>◌, pure, expect, write}

-- `FILTER_SOURCE`
abbrev pub filter_source_name : Bytes
filter_source_name = codes "__rinja_filter_block"

-- `self.locals.resolve` and `self.locals.resolve_or_self`
unfoldable pub resolve : Bytes → Visit (Option Bytes)
unfolding expect
resolve name s = expect (Scopes.resolve name s.locals) s

unfoldable pub or_self_name : Bytes → Visit Bytes
unfolding expect
or_self_name name s = expect (resolve_or_self name s.locals) s

-- The loop of `visit_path`, with its index.
unfoldable pub write_path : ℕ → List Bytes → Visit (Unit {0})
unfolding write
write_path i [] = pure tt
write_path i (part ∷ parts) = do
  if ltb 0 i then write (codes "::") else pure tt
  write part
  write_path (i + 1) parts

unfoldable pub visit_path : List Bytes → Visit DisplayWrap
unfolding write_path
visit_path p = do write_path 0 p; pure unwrapped

unfoldable pub visit_var : Bytes → Visit DisplayWrap
unfolding write expect or_self_name
visit_var s = if bytes_eq s (codes "self") then (do write s; pure unwrapped) else (do
  name ← or_self_name s
  name ← expect (normalize_identifier name)
  write name
  pure unwrapped)

unfoldable pub visit_filter_source : Visit DisplayWrap
unfolding write
visit_filter_source = do
  write (codes "rinja::filters::Safe(&" ++ (filter_source_name ++ codes ")"))
  pure wrapped

unfoldable pub visit_bool_lit : Bool → Visit DisplayWrap
unfolding write
visit_bool_lit s = do write (if s then codes "true" else codes "false"); pure unwrapped

-- `StrPrefix::to_char`
unfoldable pub to_char : StrPrefix → Bytes
to_char StrPrefix.binary = codes "b"
to_char c_like = codes "c"

unfoldable pub write_prefix : Option StrPrefix → Visit (Unit {0})
unfolding write to_char
write_prefix none = pure tt
write_prefix (some prefix) = write (to_char prefix)

unfoldable pub visit_str_lit : StrLit → Visit DisplayWrap
unfolding write write_prefix
visit_str_lit s = do
  write_prefix s.prefix
  write (codes "\"" ++ (codes s.content ++ codes "\""))
  pure unwrapped

unfoldable pub write_char_prefix : Option CharPrefix → Visit (Unit {0})
unfolding write
write_char_prefix none = pure tt
write_char_prefix (some CharPrefix.binary) = write (codes "b")

unfoldable pub visit_char_lit : CharLit → Visit DisplayWrap
unfolding write write_char_prefix
visit_char_lit c = do
  write_char_prefix c.prefix
  write (codes "'" ++ (codes c.content ++ codes "'"))
  pure unwrapped

unfoldable pub visit_num_lit : Bytes → Visit DisplayWrap
unfolding write
visit_num_lit s = do write s; pure unwrapped

unfoldable pub visit_rust_macro : List Bytes → Bytes → Visit DisplayWrap
unfolding write visit_path
visit_rust_macro p args = do
  visit_path p
  write (codes "!(")
  write args
  write (codes ")")
  pure unwrapped

-- `any` on the names of the fields
unfoldable pub has_field : Bytes → List Bytes → Bool
has_field name [] = false
has_field name (f ∷ fields) = bytes_eq f name || has_field name fields

unfoldable pub is_var_defined : List Bytes → MapChain → Bytes → Bool
unfolding get has_field
is_var_defined fields locals var_name = elim (get var_name locals) [
  | some _ ↦ true
  | none ↦ has_field var_name fields
]

unfoldable pub same_flag : Bool → Bool → Bool
same_flag true b = b
same_flag false b = if b then false else true

unfoldable pub visit_is_defined : Input → Bool → Bytes → Visit DisplayWrap
unfolding write is_var_defined same_flag
visit_is_defined input is_defined left s =
    (do
      write (
          if same_flag is_defined (is_var_defined input.fields s.locals left)
          then codes "true"
          else codes "false")
      pure unwrapped)
      s
