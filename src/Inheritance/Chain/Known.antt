-- ===== src/Inheritance/Chain/Known.antt =====
-- The definitions of a block that `Heritage::new` of rinja_derive/src/heritage.rs knows, after it
-- added those of one context.
use rinja.Base.{
  Distinct, ◌≡◌, refl, sym, ◌∙◌, ap, false, Option, none, some, List, [], ◌∷◌, ◌++◌, Bytes, map_get,
  bytes_eq, bytes_eq-≡, map_insert, map_has, arith, append-nil, Bool-cases, inl, inr,
  map_get-map_insert,
}
use rinja.Inheritance.Context.{Context, BlockDef}
use rinja.Inheritance.Chain.{Definitions, BlockAncestry, or_default, push_blocks, own_blocks}

abbrev pub defined : Context → Option BlockDef → Definitions
defined c none = []
defined c (some def) = (c, def) ∷ []

-- The definitions of a block, that of the template itself first.
unfoldable pub definitions : Bytes → List Context → Definitions
definitions key [] = []
definitions key (c ∷ cs) = defined c (map_get key c.blocks) ++ definitions key cs

-- The definitions that an ancestry knows.
abbrev pub known : Bytes → BlockAncestry → Definitions
known key blocks = or_default (map_get key blocks)

absent :
    (key : Bytes) (defs : List (Bytes × BlockDef))
    → map_has key defs ≡ false
    → map_get key defs ≡ none
unfolding map_has map_get
absent key [] h = refl
absent key ((name, def) ∷ defs) h = ground (arith, absent key defs)

pub known-push_blocks :
    (key : Bytes) (root : Context) (defs : List (Bytes × BlockDef)) (blocks : BlockAncestry)
    → Distinct defs
    → known key (push_blocks root defs blocks) ≡ known key blocks ++ defined root (map_get key defs)
unfolding push_blocks map_get
known-push_blocks key root [] blocks distinct = sym (append-nil (known key blocks))
known-push_blocks key root ((name, def) ∷ defs) blocks (fresh, distinct) =
    let pushed = or_default (map_get name blocks) ++ (root, def) ∷ [] in
    known-push_blocks key root defs (map_insert name pushed blocks) distinct
    ∙ elim (Bool-cases (bytes_eq key name)) [
      | inl same ↦
          let none_left : map_get key defs ≡ none =
            absent key defs (rw (bytes_eq-≡ key name same) fresh) in
          rw (map_get-map_insert key name pushed blocks, same, none_left)
            (append-nil pushed
              ∙ ap (λ k. known k blocks ++ (root, def) ∷ []) (sym (bytes_eq-≡ key name same)))
      | inr other ↦ rw (map_get-map_insert key name pushed blocks, other) refl
    ]

abbrev pub override : Context → Option BlockDef → Definitions → Definitions
override c none defs = defs
override c (some def) defs = (c, def) ∷ []

pub known-own_blocks :
    (key : Bytes) (root : Context) (defs : List (Bytes × BlockDef)) (blocks : BlockAncestry)
    → Distinct defs
    → known key (own_blocks root defs blocks) ≡ override root (map_get key defs) (known key blocks)
unfolding own_blocks map_get
known-own_blocks key root [] blocks distinct = refl
known-own_blocks key root ((name, def) ∷ defs) blocks (fresh, distinct) =
    known-own_blocks key root defs (map_insert name ((root, def) ∷ []) blocks) distinct
    ∙ elim (Bool-cases (bytes_eq key name)) [
      | inl same ↦
          let none_left : map_get key defs ≡ none =
            absent key defs (rw (bytes_eq-≡ key name same) fresh) in
          rw (map_get-map_insert key name ((root, def) ∷ []) blocks, same, none_left) refl
      | inr other ↦ rw (map_get-map_insert key name ((root, def) ∷ []) blocks, other) refl
    ]

pub override_nil : (c : Context) (o : Option BlockDef) → override c o [] ≡ defined c o
override_nil c none = refl
override_nil c (some def) = refl
