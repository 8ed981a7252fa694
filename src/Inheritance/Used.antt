-- ===== src/Inheritance/Used.antt =====
-- rinja_derive/src/input.rs: `find_used_templates`, which reads every template that is extended,
-- imported or included, with a work list of templates and one of nested nodes. `find_template` is
-- that of the configuration, at a path and the path of the template that names it; `load` is
-- `get_template_source`, which reads a file, and `parse` the parser. An error is what its message
-- says, and a template is its source.
use rinja.Base.{
  ℕ, zero, suc, Bool, true, false, ◌||◌, ◌&&◌, Option, none, some, List, [], ◌∷◌, ◌++◌, Bytes,
  bytes_eq, if◌then◌else◌, Outcome, ok, err, running, ◌and_then◌, map_has, map_insert,
}
use rinja.Parser.Node.{
  Node, Nodes, extends, macro, import, filter_block, include, block_def, if_chain, match_on, nil,
  cons,
}
use rinja.Inheritance.Context.{push_branches, push_arms}

pub data UsedError : Type 0 where
  not_parsed : Bytes → UsedError
  not_loaded : Bytes → UsedError
  not_found : Bytes → UsedError
  cyclic : List (Bytes × Bytes) → UsedError

-- The local variables, with the ends of the two vectors `check` and `nested` listed first; an
-- entry of `parsed_templates`, which is `map`, is empty until its template is parsed.
pub record Search : Type 0 where
  pub parsed_templates : List (Bytes × Nodes)
  pub dependency_graph : List (Bytes × Bytes)
  pub unchecked : List (Bytes × Bytes)
  pub nested : List Nodes

unfoldable pub contains_edge : Bytes × Bytes → List (Bytes × Bytes) → Bool
contains_edge edge [] = false
contains_edge (a, b) ((c, d) ∷ graph) = (bytes_eq a c && bytes_eq b d) || contains_edge (a, b) graph

module _ (find_template : Bytes → Bytes → Option Bytes) (load : Bytes → Option Bytes)
    (parse : Bytes → Option Nodes) where
  abbrev pub found_at : Bytes → Bytes → Outcome UsedError Bytes
  found_at path at = elim (find_template path at) [ none ↦ err (not_found path) | some p ↦ ok p ]

  -- The closure `add_to_check`.
  unfoldable pub add_to_check : Bytes → Search → Outcome UsedError Search
  add_to_check new_path s =
      if map_has new_path s.parsed_templates then ok s else elim (load new_path) [
        | none ↦ err (not_loaded new_path)
        | some source ↦ ok (record s {
          parsed_templates = map_insert new_path nil s.parsed_templates;
          unchecked = (new_path, source) ∷ s.unchecked;
        })
      ]

  -- The `match` on a node of the template at `path`.
  unfoldable pub search_node : Bytes → Bool → Node → Search → Outcome UsedError Search
  unfolding contains_edge add_to_check
  search_node path true (extends name) s = found_at name path and_then λ parent.
      let graph = s.dependency_graph ++ (path, parent) ∷ [] in
      if bytes_eq path parent
      then err (cyclic graph)
      else if contains_edge (path, parent) s.dependency_graph
      then err (cyclic s.dependency_graph)
      else add_to_check parent (record s { dependency_graph = graph })
  search_node path true (macro ws1 name args nodes ws2) s =
      ok (record s { nested = nodes ∷ s.nested })
  search_node path true (import ws name scope) s =
      found_at name path and_then λ imported. add_to_check imported s
  search_node path top (filter_block ws1 name args nodes ws2) s =
      ok (record s { nested = nodes ∷ s.nested })
  search_node path top (include ws name) s =
      found_at name path and_then λ included. add_to_check included s
  search_node path top (block_def ws1 name nodes ws2) s =
      ok (record s { nested = nodes ∷ s.nested })
  search_node path top (if_chain ws branches) s =
      ok (record s { nested = push_branches branches s.nested })
  search_node path top (Node.loop ws1 target iter cond body ws2 else_nodes ws3) s =
      ok (record s { nested = else_nodes ∷ body ∷ s.nested })
  search_node path top (match_on ws1 e arms ws2) s =
      ok (record s { nested = push_arms arms s.nested })
  search_node path top _ s = ok s

  unfoldable pub search_nodes : Bytes → Bool → Nodes → Search → Outcome UsedError Search
  unfolding search_node
  search_nodes path top nil s = ok s
  search_nodes path top (cons n nodes) s =
      search_node path top n s and_then λ s. search_nodes path top nodes s

  -- The inner `while let`, on fuel.
  unfoldable pub search_template : ℕ → Bytes → Bool → Search → Outcome UsedError Search
  unfolding search_nodes
  search_template zero path top s = running
  search_template (suc fuel) path top s = elim (s.nested) [
    | [] ↦ ok s
    | nodes ∷ nested ↦ search_nodes path top nodes (record s { nested = nested }) and_then λ s.
        search_template fuel path false s
  ]

  -- The outer `while let`, with fuel for itself and for each template.
  unfoldable pub search_all : ℕ → ℕ → Search → Outcome UsedError Search
  unfolding search_template
  search_all zero inner s = running
  search_all (suc fuel) inner s = elim (s.unchecked) [
    | [] ↦ ok s
    | (path, source) ∷ unchecked ↦ elim (parse source) [
      | none ↦ err (not_parsed path)
      | some nodes ↦
          search_template inner path true (record s { unchecked = unchecked; nested = nodes ∷ [] })
          and_then λ s.
              search_all fuel inner
                (record s { parsed_templates = map_insert path nodes s.parsed_templates })
    ]
  ]

  -- For a template of a file, of which nothing is known yet.
  unfoldable pub find_used_templates : ℕ → ℕ → Bytes → Outcome UsedError (List (Bytes × Nodes))
  unfolding search_all
  find_used_templates fuel inner path = elim (load path) [
    | none ↦ err (not_loaded path)
    | some source ↦
        search_all fuel inner record {
          parsed_templates = [];
          dependency_graph = [];
          unchecked = (path, source) ∷ [];
          nested = [];
        }
        and_then λ s. ok s.parsed_templates
  ]
