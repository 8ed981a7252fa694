-- ===== src/Parser/Whitespace.antt =====
-- rinja_parser/src/node.rs: the whitespace control of a tag, `Whitespace` and `Ws`.
use rinja.Base.{ℕ, Option, none, some, if◌then◌else◌, ◌==◌, ◌||◌, Bytes, codes, bytes_eq}

pub data Whitespace : Type 0 where
  preserve suppress minimize : Whitespace

-- `Ws`: the control before a tag and the one behind it, where the tag has them.
pub record Ws : Type 0 where
  pub before : Option Whitespace
  pub after : Option Whitespace

unfoldable pub parse_char : ℕ → Option Whitespace
parse_char c =
    if c == b'+'
    then some preserve
    else if c == b'-'
    then some suppress
    else if c == b'~'
    then some minimize
    else none

-- `FromStr`; `none` is the error
unfoldable pub from_str : Bytes → Option Whitespace
from_str s =
    if bytes_eq s (codes "+") || bytes_eq s (codes "preserve")
    then some preserve
    else if bytes_eq s (codes "-") || bytes_eq s (codes "suppress")
    then some suppress
    else if bytes_eq s (codes "~") || bytes_eq s (codes "minimize")
    then some minimize
    else none
