-- ===== src/Tests/Configuring.antt =====
-- rinja_derive/src/config.rs on a small configuration.
use rinja.Base.{◌≡◌, refl, none, some, Option, [], ◌∷◌, ◌++◌, Bytes, codes}
use rinja.Parser.Whitespace.{minimize}
use rinja.Parser.Syntax.{SyntaxBuilder}
use rinja.Config.{RawConfig, new_uncached, find_escaper, default_escapers}
use rinja.Config.Valid.{Configures, new_uncached-IsConfig}

abbrev custom : SyntaxBuilder
custom = record {
  name = codes "custom";
  block_start = some (codes "<%");
  block_end = none;
  expr_start = none;
  expr_end = none;
  comment_start = none;
  comment_end = none;
}

abbrev raw : RawConfig
raw = record {
  general =
      some record { dirs = none; default_syntax = some (codes "custom"); whitespace = minimize };
  syntax = some (custom ∷ []);
  escaper = some (record { path = codes "Tex"; extensions = codes "tex" ∷ codes "html" ∷ [] } ∷ []);
}

abbrev from_toml_str : Bytes → Option RawConfig
from_toml_str s = some raw

abbrev join : Bytes → Bytes
join dir = codes "/" ++ dir

new_uncached-IsConfig_example :
    Configures from_toml_str join raw (new_uncached from_toml_str join (codes "toml") none)
new_uncached-IsConfig_example =
    new_uncached-IsConfig from_toml_str join (codes "toml") none raw refl

default_of_none : find_escaper [] default_escapers ≡ some (codes "rinja::filters::Text")
unfolding find_escaper default_escapers
default_of_none = refl
