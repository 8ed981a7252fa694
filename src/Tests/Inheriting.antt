-- ===== src/Tests/Inheriting.antt =====
-- rinja_derive/src/heritage.rs on small templates.
use rinja.Inheritance.Used.{find_used_templates, cyclic}
use rinja.Base.{
  err, map_has, map_insert, ◌≡◌, refl, none, some, Option, [], ◌∷◌, Bytes, codes, ok, ◌<◌, ◌⊎◌, inl,
  inr, ap, running, arith, if◌then◌else◌, bytes_eq,
}
use rinja.Parser.Whitespace.{Ws}
use rinja.Parser.Node.{Nodes, extends, block_def, if_chain, nil, cons, branch, no_branch}
use rinja.Inheritance.Context.{Context, BlockDef, new as new_context}
use rinja.Inheritance.Context.Measure.{deep, nested_in}
use rinja.Inheritance.Context.Effects.{any, all, defines, is_plain}
use rinja.Inheritance.Context.Rounds.{list_count, pushes}
use rinja.Inheritance.Context.Complete.{Collects, new-Collects}
use rinja.Inheritance.Chain.{Heritage, new}
use rinja.Inheritance.Chain.Known.{known, definitions}
use rinja.Inheritance.Chain.Ancestors.{IsBuilt, last, next, root_of, new-definitions, new-running}

abbrev no_ws : Ws
no_ws = record { before = none; after = none }

-- `{% extends "base" %}{% if … %}{% block a %}{% block b %}{% endblock %}{% endblock %}{% endif %}`
abbrev template : Nodes
template = cons (extends (codes "base")) (
    cons
      (if_chain no_ws (
        branch no_ws none
          (cons
            (block_def no_ws (codes "a") (cons (block_def no_ws (codes "b") nil no_ws) nil) no_ws)
            nil)
          no_branch))
      nil)

abbrev misplaced : Nodes
misplaced = cons (block_def no_ws (codes "a") (cons (extends (codes "base")) nil) no_ws) nil

count_of_template : list_count template < 5
unfolding list_count deep pushes
count_of_template = omega arith

new-Collects_example :
    Collects some
      (λ key. deep any (defines key) template)
      (nested_in all is_plain template)
      (new_context some 5 template)
new-Collects_example = new-Collects some 5 template count_of_template

abbrev block : BlockDef
block = record { ws1 = no_ws; nodes = nil; ws2 = no_ws }

-- Two templates, of which the second extends the first.
abbrev base_nodes : Nodes
base_nodes =
    cons (block_def no_ws (codes "a") nil no_ws) (cons (block_def no_ws (codes "b") nil no_ws) nil)

abbrev child_nodes : Nodes
child_nodes = cons (extends (codes "base")) (cons (block_def no_ws (codes "a") nil no_ws) nil)

abbrev base : Context
base = record {
  extended = none;
  blocks = (codes "a", block) ∷ (codes "b", block) ∷ [];
  macros = [];
  imports = [];
}

abbrev child : Context
child = record {
  extended = some (codes "base");
  blocks = (codes "a", block) ∷ [];
  macros = [];
  imports = [];
}

abbrev contexts : Bytes → Option Context
contexts path = if bytes_eq path (codes "base") then some base else some child

base-IsBuilt : IsBuilt base
unfolding new_context list_count deep pushes map_insert
base-IsBuilt = record {
  find_template = some;
  nodes = base_nodes;
  fuel = 4;
  enough = omega arith;
  returned = refl;
}

child-IsBuilt : IsBuilt child
unfolding new_context list_count deep pushes map_insert
child-IsBuilt = record {
  find_template = some;
  nodes = child_nodes;
  fuel = 3;
  enough = omega arith;
  returned = refl;
}

new-definitions_example :
    (h : Heritage) × (new contexts 3 child ≡ ok h)
    × (h.root ≡ root_of child (base ∷ []))
    × ((key : Bytes) → known key h.blocks ≡ definitions key (child ∷ base ∷ []))
new-definitions_example =
    new-definitions contexts child (base ∷ [])
      (next child base (codes "base") [] refl refl (last base refl))
      (child-IsBuilt, (base-IsBuilt, tt)) 3 (omega arith)

-- A template that extends one that extends it.
abbrev back : Context
back = record base { extended = some (codes "child") }

abbrev circle : Bytes → Option Context
circle path = if bytes_eq path (codes "base") then some back else some child

abbrev IsOnCircle : Context → Type 0
IsOnCircle c = (c ≡ back) ⊎ (c ≡ child)

stays :
    (c : Context)
    → IsOnCircle c
    → (path : Bytes) × (parent : Context) × (c.extended ≡ some path)
      × (circle path ≡ some parent)
      × IsOnCircle parent
stays c (inl e) = (codes "child", child, ap (λ d. d.extended) e, refl, inr refl)
stays c (inr e) = (codes "base", back, ap (λ d. d.extended) e, refl, inl refl)

new-running_example : new circle 100 child ≡ running
new-running_example = new-running circle IsOnCircle stays child (inr refl) 100

-- Two templates that extend each other, read by `find_used_templates`: no error.
abbrev path_of : Bytes → Bytes → Option Bytes
path_of name at = some name

abbrev extending : Bytes → Option Nodes
extending source = some (cons (extends source) nil)

-- The source of each is the name of the other.
abbrev other_name : Bytes → Option Bytes
other_name path = if bytes_eq path (codes "a") then some (codes "b") else some (codes "a")

accepts_circle :
    find_used_templates path_of other_name extending 3 2 (codes "a")
    ≡ ok (
        (codes "b", cons (extends (codes "a")) nil)
        ∷ (codes "a", cons (extends (codes "b")) nil)
        ∷ [])
unfolding find_used_templates map_has map_insert
accepts_circle = refl

-- One that extends itself is refused.
refuses_itself :
    find_used_templates path_of (λ path. some path) extending 3 2 (codes "a")
    ≡ err (cyclic ((codes "a", codes "a") ∷ []))
unfolding find_used_templates map_has map_insert
refuses_itself = refl
