-- ===== src/Inheritance/Chain/Ancestors.antt =====
-- `Heritage::new` of rinja_derive/src/heritage.rs on a chain of templates, and on a circle of them.
use mathlib.Core.Path.{subst}
use rinja.Base.{
  Distinct, ℕ, zero, suc, ◌<◌, ◌≡◌, refl, sym, ◌∙◌, ap, Option, none, some, List, [], ◌∷◌, ◌++◌,
  Bytes, ok, running, map_get, All, length, arith, append-nil, append_assoc,
}
use rinja.Parser.Node.{Nodes}
use rinja.Inheritance.Context.{Context, new as new_context}
use rinja.Inheritance.Context.Measure.{deep, nested_in}
use rinja.Inheritance.Context.Effects.{any, all, defines, is_plain}
use rinja.Inheritance.Context.Rounds.{list_count}
use rinja.Inheritance.Context.Complete.{Collects, new-Collects}
use rinja.Inheritance.Chain.{BlockAncestry, Heritage, push_blocks, own_blocks, follow, new}
use rinja.Inheritance.Chain.Known.{
  defined, definitions, known, known-push_blocks, known-own_blocks, override_nil,
}

-- A context that `Context::new` returns for some template.
pub record IsBuilt (c : Context) : Type 0 where
  pub find_template : Bytes → Option Bytes
  pub nodes : Nodes
  pub fuel : ℕ
  pub enough : list_count nodes < fuel
  pub returned : new_context find_template fuel nodes ≡ ok c

IsBuilt-Distinct : (c : Context) → IsBuilt c → Distinct c.blocks
IsBuilt-Distinct c b =
    let collects : Collects b.find_template (λ key. deep any (defines key) b.nodes)
        (nested_in all is_plain b.nodes) (ok c) =
      subst
        (Collects b.find_template (λ key. deep any (defines key) b.nodes)
          (nested_in all is_plain b.nodes))
        b.returned (new-Collects b.find_template b.fuel b.nodes b.enough) in
    collects.2

All-Distinct : (cs : List Context) → All IsBuilt cs → All (λ d. Distinct d.blocks) cs
All-Distinct [] built = tt
All-Distinct (c ∷ cs) (b, built) = (IsBuilt-Distinct c b, All-Distinct cs built)

-- The contexts that a template inherits from, its parent first, up to one that extends nothing.
pub data IsChain (contexts : Bytes → Option Context) : Context → List Context → Type 0 where
  last : (c : Context) → c.extended ≡ none → IsChain contexts c []
  next :
      (c parent : Context) (path : Bytes) (cs : List Context)
      → c.extended ≡ some path
      → contexts path ≡ some parent
      → IsChain contexts parent cs
      → IsChain contexts c (parent ∷ cs)

-- The last context of a chain.
unfoldable pub root_of : Context → List Context → Context
root_of c [] = c
root_of c (d ∷ cs) = root_of d cs

module _ (contexts : Bytes → Option Context) where
  follow_next :
      (fuel : ℕ) (c : Context) (path : Bytes) (parent : Context) (blocks : BlockAncestry)
      → c.extended ≡ some path
      → contexts path ≡ some parent
      → follow contexts (suc fuel) c blocks
        ≡ follow contexts fuel parent (push_blocks parent parent.blocks blocks)
  unfolding follow
  follow_next fuel c path parent blocks above is_parent = ground arith

  follow-IsChain :
      (c : Context) (cs : List Context)
      → IsChain contexts c cs
      → All (λ d. Distinct d.blocks) cs
      → (fuel : ℕ) (blocks : BlockAncestry) → length cs < fuel
      → (h : Heritage) × (follow contexts fuel c blocks ≡ ok h)
        × (h.root ≡ root_of c cs)
        × ((key : Bytes) → known key h.blocks ≡ known key blocks ++ definitions key cs)
  unfolding follow definitions root_of
  follow-IsChain c cs chain distinct zero blocks bound = ground arith
  follow-IsChain c [] (last _ none_above) distinct (suc fuel) blocks bound = (
    record { root = c; blocks = blocks },
    rw none_above refl,
    refl,
    λ key. sym (append-nil (known key blocks)),
  )
  follow-IsChain c (parent ∷ cs) (next _ _ path _ above is_parent chain) distinct (suc fuel) blocks
        bound =
      let (h, runs, root, knows) =
        follow-IsChain parent cs chain (distinct.1) fuel (push_blocks parent parent.blocks blocks)
          (omega arith) in
      (
        h,
        follow_next fuel c path parent blocks above is_parent ∙ runs,
        root,
        λ key.
            knows key
            ∙ (ap (λ defs. defs ++ definitions key cs)
                  (known-push_blocks key parent parent.blocks blocks (distinct.0))
                ∙ append_assoc (known key blocks) (defined parent (map_get key parent.blocks))
                    (definitions key cs)),
      )

  -- Where a template has a chain of ancestors, the fuel is more than their number, and
  -- `Context::new` returned the contexts of all of them: `Heritage::new` ends, its root is the last ancestor, and for every
  -- name it holds exactly the definitions of that block in the template and its ancestors, that of
  -- the template first and each parent's behind it.
  pub new-definitions :
      (c : Context) (cs : List Context)
      → IsChain contexts c cs
      → All IsBuilt (c ∷ cs)
      → (fuel : ℕ) → length cs < fuel
      → (h : Heritage) × (new contexts fuel c ≡ ok h)
        × (h.root ≡ root_of c cs)
        × ((key : Bytes) → known key h.blocks ≡ definitions key (c ∷ cs))
  unfolding new definitions map_get
  new-definitions c cs chain built fuel bound =
      let (h, runs, root, knows) =
        follow-IsChain c cs chain (All-Distinct cs (built.1)) fuel (own_blocks c c.blocks [])
          bound in
      (
        h,
        runs,
        root,
        λ key.
            knows key
            ∙ ap (λ defs. defs ++ definitions key cs)
                (known-own_blocks key c c.blocks [] (IsBuilt-Distinct c (built.0))
                  ∙ override_nil c (map_get key c.blocks)),
      )

  follow_running :
      (Circle : Context → Type 0)
      → ((c : Context)
          → Circle c
          → (path : Bytes) × (parent : Context) × (c.extended ≡ some path)
            × (contexts path ≡ some parent)
            × Circle parent)
      → (fuel : ℕ) (c : Context) → Circle c
      → (blocks : BlockAncestry) → follow contexts fuel c blocks ≡ running
  unfolding follow
  follow_running Circle extends zero c on blocks = refl
  follow_running Circle extends (suc fuel) c on blocks =
      let (path, parent, above, is_parent, up) = extends c on in
      follow_next fuel c path parent blocks above is_parent
      ∙ follow_running Circle extends fuel parent up (push_blocks parent parent.blocks blocks)

  -- Where every template of some set extends a template of that set, as two do that extend each
  -- other: from none of them does `Heritage::new` end, on any fuel.
  pub new-running :
      (Circle : Context → Type 0)
      → ((c : Context)
          → Circle c
          → (path : Bytes) × (parent : Context) × (c.extended ≡ some path)
            × (contexts path ≡ some parent)
            × Circle parent)
      → (c : Context) → Circle c
      → (fuel : ℕ) → new contexts fuel c ≡ running
  unfolding new
  new-running Circle extends c on fuel =
      follow_running Circle extends fuel c on (own_blocks c c.blocks [])
