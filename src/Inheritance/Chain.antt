-- ===== src/Inheritance/Chain.antt =====
-- rinja_derive/src/heritage.rs: `Heritage::new`, which follows `extends` and collects every
-- definition of every block. `contexts` is the map of the contexts by their paths.
pub mod Known
pub mod Ancestors
use rinja.Base.{
  ℕ, zero, suc, Option, none, some, List, [], ◌∷◌, ◌++◌, Bytes, Outcome, ok, err, running, map_get,
  map_insert,
}
use rinja.Inheritance.Context.{Context, BlockDef}

abbrev pub Definitions : Type 0
Definitions = List (Context × BlockDef)

abbrev pub BlockAncestry : Type 0
BlockAncestry = List (Bytes × Definitions)

pub record Heritage : Type 0 where
  pub root : Context
  pub blocks : BlockAncestry

-- `contexts[path]` panics where the map has no such key.
pub data Panic : Type 0 where
  no_such_key : Bytes → Panic

-- `or_default`
abbrev pub or_default : Option Definitions → Definitions
or_default none = []
or_default (some defs) = defs

-- The `for` loop over the blocks of a parent.
unfoldable pub push_blocks : Context → List (Bytes × BlockDef) → BlockAncestry → BlockAncestry
push_blocks root [] blocks = blocks
push_blocks root ((name, def) ∷ defs) blocks =
    push_blocks root defs
      (map_insert name (or_default (map_get name blocks) ++ (root, def) ∷ []) blocks)

-- The `map` and `collect` on the blocks of the template.
unfoldable pub own_blocks : Context → List (Bytes × BlockDef) → BlockAncestry → BlockAncestry
own_blocks root [] blocks = blocks
own_blocks root ((name, def) ∷ defs) blocks =
    own_blocks root defs (map_insert name ((root, def) ∷ []) blocks)

module _ (contexts : Bytes → Option Context) where
  -- The `while let`, on fuel.
  unfoldable pub follow : ℕ → Context → BlockAncestry → Outcome Panic Heritage
  unfolding push_blocks
  follow zero root blocks = running
  follow (suc fuel) root blocks = elim (root.extended) [
    | none ↦ ok record { root = root; blocks = blocks }
    | some path ↦ elim (contexts path) [
      | none ↦ err (no_such_key path)
      | some parent ↦ follow fuel parent (push_blocks parent parent.blocks blocks)
    ]
  ]

  unfoldable pub new : ℕ → Context → Outcome Panic Heritage
  unfolding follow own_blocks
  new fuel root = follow fuel root (own_blocks root root.blocks [])
