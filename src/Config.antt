-- ===== src/Config.antt =====
-- rinja_derive/src/config.rs: `Config::new_uncached`, the configuration from the text of its file,
-- and the choice of an escaper in rinja_derive/src/input.rs. `from_toml_str` is the crate
-- basic_toml, and `join` the standard library's `root.join` at the root of the package.
pub mod Valid
use rinja.Base.{
  Bool, true, false, ◌||◌, ◌⊎◌, inl, inr, Option, none, some, List, [], ◌∷◌, ◌++◌, map,
  if◌then◌else◌, Bytes, codes, bytes_eq, is_empty, Outcome, ok, err, running, ◌and_then◌, map_has,
  map_insert,
}
use rinja.Parser.Whitespace.{Whitespace, preserve}
use rinja.Parser.Syntax.{InnerSyntax, SyntaxBuilder, SyntaxError, to_syntax, default}

pub data ConfigError : Type 0 where
  invalid_toml : ConfigError
  invalid_syntax : SyntaxError → ConfigError
  already_defined : Bytes → ConfigError
  default_not_found : Bytes → ConfigError

pub record General : Type 0 where
  pub dirs : Option (List Bytes)
  pub default_syntax : Option Bytes
  pub whitespace : Whitespace

pub record RawEscaper : Type 0 where
  pub path : Bytes
  pub extensions : List Bytes

pub record RawConfig : Type 0 where
  pub general : Option General
  pub syntax : Option (List SyntaxBuilder)
  pub escaper : Option (List RawEscaper)

abbrev pub Syntaxes : Type 0
Syntaxes = List (Bytes × InnerSyntax)

abbrev pub Escapers : Type 0
Escapers = List (List Bytes × Bytes)

pub record Config : Type 0 where
  pub dirs : List Bytes
  pub syntaxes : Syntaxes
  pub default_syntax : Bytes
  pub escapers : Escapers
  pub whitespace : Whitespace

unfoldable pub default_syntax_name : Bytes
default_syntax_name = codes "default"

unfoldable pub default_escapers : Escapers
default_escapers =
    (
      codes "html"
          ∷ codes "htm"
          ∷ codes "j2"
          ∷ codes "jinja"
          ∷ codes "jinja2"
          ∷ codes "rinja"
          ∷ codes "svg"
          ∷ codes "xml"
          ∷ [],
      codes "rinja::filters::Html",
    )
    ∷ (
      codes "md" ∷ codes "none" ∷ codes "txt" ∷ codes "yml" ∷ [] ∷ [],
      codes "rinja::filters::Text",
    )
    ∷ []

-- The loop over the configured syntaxes.
unfoldable pub add_syntaxes : List SyntaxBuilder → Syntaxes → Outcome ConfigError Syntaxes
add_syntaxes [] syntaxes = ok syntaxes
add_syntaxes (raw ∷ rest) syntaxes =
    if map_has raw.name syntaxes then err (already_defined raw.name) else elim (to_syntax raw) [
      | inl e ↦ err (invalid_syntax e)
      | inr s ↦ add_syntaxes rest (map_insert raw.name s syntaxes)
    ]

-- `if let Some(...)` on an optional list
abbrev pub or_empty {ℓ} : {A : Type ℓ} → Option (List A) → List A
or_empty none = []
or_empty (some xs) = xs

-- The loop over the configured escapers.
unfoldable pub configured : List RawEscaper → Escapers
configured [] = []
configured (e ∷ rest) = (e.extensions, e.path) ∷ configured rest

unfoldable pub default_syntax_of : Option General → Bytes
unfolding default_syntax_name
default_syntax_of none = default_syntax_name
default_syntax_of (some g) = elim (g.default_syntax) [
  | none ↦ default_syntax_name
  | some name ↦ name
]

unfoldable pub whitespace_of : Option Whitespace → Option General → Whitespace
whitespace_of (some template_whitespace) g = template_whitespace
whitespace_of none none = preserve
whitespace_of none (some g) = g.whitespace

module _ (from_toml_str : Bytes → Option RawConfig) (join : Bytes → Bytes) where
  abbrev pub read : Bytes → Outcome ConfigError RawConfig
  read s =
      if is_empty s
      then ok (record { general = none; syntax = none; escaper = none })
      else elim (from_toml_str s) [ none ↦ err invalid_toml | some raw ↦ ok raw ]

  unfoldable pub dirs_of : Option General → List Bytes
  dirs_of none = join (codes "templates") ∷ []
  dirs_of (some g) = elim (g.dirs) [
    | none ↦ join (codes "templates") ∷ []
    | some dirs ↦ map join dirs
  ]

  unfoldable pub new_uncached : Bytes → Option Whitespace → Outcome ConfigError Config
  unfolding add_syntaxes dirs_of default_syntax_of whitespace_of configured
  new_uncached s template_whitespace = read s and_then λ raw.
      add_syntaxes (or_empty raw.syntax) ((default_syntax_name, default) ∷ []) and_then λ syntaxes.
      if map_has (default_syntax_of raw.general) syntaxes
      then ok record {
        dirs = dirs_of raw.general;
        syntaxes = syntaxes;
        default_syntax = default_syntax_of raw.general;
        escapers = configured (or_empty raw.escaper) ++ default_escapers;
        whitespace = whitespace_of template_whitespace raw.general;
      }
      else err (default_not_found (default_syntax_of raw.general))

-- `contains` of a list of extensions
unfoldable pub contains : Bytes → List Bytes → Bool
contains ext [] = false
contains ext (e ∷ exts) = bytes_eq ext e || contains ext exts

-- `find_map` over the escapers in `TemplateInput::new`
unfoldable pub find_escaper : Bytes → Escapers → Option Bytes
unfolding contains
find_escaper ext [] = none
find_escaper ext ((extensions, path) ∷ escapers) =
    let rest = find_escaper ext escapers in if contains ext extensions then some path else rest
