-- ===== src/Config/Valid.antt =====
-- What `Config::new_uncached` of rinja_derive/src/config.rs promises of a configuration.
use rinja.Base.{
  true, ◌≡◌, refl, inl, inr, Option, none, some, List, [], ◌∷◌, ◌++◌, Bytes, if◌then◌else◌, Outcome,
  ok, err, running, ◌and_then◌, map_has, map_insert, Distinct, map_insert-Distinct, All, Bool-cases,
  arith, bytes_eq,
}
use rinja.Fmt.{encode_utf8}
use rinja.Parser.Whitespace.{Whitespace}
use rinja.Parser.Syntax.{InnerSyntax, SyntaxBuilder, to_syntax, fill, default}
use rinja.Parser.Syntax.Valid.{IsSyntax, to_syntax-IsSyntax}
use rinja.Config.{
  default_not_found, ConfigError, Config, RawConfig, Syntaxes, Escapers, add_syntaxes, read,
  new_uncached, configured, or_empty, default_escapers, default_syntax_name, default_syntax_of,
  find_escaper,
}

abbrev pub IsEntry : Bytes × InnerSyntax → Type 0
IsEntry entry = IsSyntax (entry.1)

map_insert-All :
    (key : Bytes) (syntax : InnerSyntax) (entries : Syntaxes)
    → IsSyntax syntax
    → All IsEntry entries
    → All IsEntry (map_insert key syntax entries)
unfolding map_insert
map_insert-All key syntax [] new valid = (new, tt)
map_insert-All key syntax ((k, v) ∷ entries) new (old, valid) = elim (Bool-cases (bytes_eq key k)) [
  | inl same ↦ rw same (new, valid)
  | inr other ↦ rw other (old, map_insert-All key syntax entries new valid)
]

abbrev pub AreValid : Outcome ConfigError Syntaxes → Type 0
AreValid (ok syntaxes) = All IsEntry syntaxes × Distinct syntaxes
AreValid (err e) = Unit
AreValid running = ⊥

add_syntaxes-AreValid :
    (raws : List SyntaxBuilder) (syntaxes : Syntaxes)
    → All IsEntry syntaxes
    → Distinct syntaxes
    → AreValid (add_syntaxes raws syntaxes)
unfolding add_syntaxes
add_syntaxes-AreValid [] syntaxes valid distinct = (valid, distinct)
add_syntaxes-AreValid (raw ∷ raws) syntaxes valid distinct =
    elim (Bool-cases (map_has raw.name syntaxes)) [
      | inl twice ↦ rw twice tt
      | inr fresh ↦ elim ((to_syntax-IsSyntax raw).1) [
        | inl (is, v) ↦
            rw (fresh, is)
              (add_syntaxes-AreValid raws (map_insert raw.name (fill raw) syntaxes)
                (map_insert-All raw.name (fill raw) syntaxes v valid)
                (map_insert-Distinct raw.name (fill raw) syntaxes distinct))
        | inr (e, is, v) ↦ rw (fresh, is) tt
      ]
    ]

-- The first choice, or else the second.
abbrev pub or_else : Option Bytes → Option Bytes → Option Bytes
or_else none other = other
or_else (some path) other = some path

find_escaper-append :
    (ext : Bytes) (xs ys : Escapers)
    → find_escaper ext (xs ++ ys) ≡ or_else (find_escaper ext xs) (find_escaper ext ys)
unfolding find_escaper
find_escaper-append ext [] ys = refl
find_escaper-append ext ((exts, path) ∷ xs) ys = ground (arith, find_escaper-append ext xs ys)

abbrev no_settings : SyntaxBuilder
no_settings = record {
  name = [];
  block_start = none;
  block_end = none;
  expr_start = none;
  expr_end = none;
  comment_start = none;
  comment_end = none;
}

default-IsSyntax : IsSyntax default
unfolding to_syntax encode_utf8
default-IsSyntax = elim ((to_syntax-IsSyntax no_settings).1) [
  | inl (is, v) ↦ v
  | inr (e, is, v) ↦ cc
]

module _ (from_toml_str : Bytes → Option RawConfig) (join : Bytes → Bytes) where
  -- What a configuration that was read from `raw` is good for.
  pub record IsConfig (raw : RawConfig) (c : Config) : Type 0 where
    pub default_there : map_has c.default_syntax c.syntaxes ≡ true
    pub valid : All IsEntry c.syntaxes
    pub distinct : Distinct c.syntaxes
    pub escaper :
        (ext : Bytes)
        → find_escaper ext c.escapers
          ≡ or_else
              (find_escaper ext (configured (or_empty raw.escaper)))
              (find_escaper ext default_escapers)

  abbrev pub Configures : RawConfig → Outcome ConfigError Config → Type 0
  Configures raw (ok c) = IsConfig raw c
  Configures raw (err e) = Unit
  Configures raw running = ⊥

  finish_lem :
      (raw : RawConfig) (w : Whitespace) (dirs : List Bytes) (r : Outcome ConfigError Syntaxes)
      → AreValid r
      → Configures raw (
          r and_then λ syntaxes.
          if map_has (default_syntax_of raw.general) syntaxes
          then ok record {
            dirs = dirs;
            syntaxes = syntaxes;
            default_syntax = default_syntax_of raw.general;
            escapers = configured (or_empty raw.escaper) ++ default_escapers;
            whitespace = w;
          }
          else err (default_not_found (default_syntax_of raw.general)))
  finish_lem raw w dirs (ok syntaxes) (valid, distinct) =
      elim (Bool-cases (map_has (default_syntax_of raw.general) syntaxes)) [
        | inl there ↦ rw there record {
          default_there = there;
          valid = valid;
          distinct = distinct;
          escaper =
              λ ext. find_escaper-append ext (configured (or_empty raw.escaper)) default_escapers;
        }
        | inr missing ↦ rw missing tt
      ]
  finish_lem raw w dirs (err e) valid = tt
  finish_lem raw w dirs running valid = valid

  -- Whatever the text of the configuration, where it can be read: a configuration that is returned
  -- has a syntax under the name of its default syntax, every syntax of it is valid, no name stands
  -- twice, and the escaper of an extension is that of the first configured entry which names the
  -- extension, else that of the first default entry which does.
  pub new_uncached-IsConfig :
      (s : Bytes) (template_whitespace : Option Whitespace) (raw : RawConfig)
      → read from_toml_str join s ≡ ok raw
      → Configures raw (new_uncached from_toml_str join s template_whitespace)
  unfolding new_uncached map_has
  new_uncached-IsConfig s template_whitespace raw reads = rw reads (
      finish_lem raw _ _ (add_syntaxes (or_empty raw.syntax) ((default_syntax_name, default) ∷ []))
        (add_syntaxes-AreValid (or_empty raw.syntax) ((default_syntax_name, default) ∷ [])
          (default-IsSyntax, tt) (refl, tt)))
