-- ===== src/Examples/Reads.antt =====
-- internal/db/memory.go, suggest.go and graph.go: reads of a small file.
use rekam.Prelude.{
  ℕ, ◌≤◌, Text, codes, Bool, false, ◌&&◌, ◌||◌, not, List, [], ◌∷◌, map, Option, none, some, ◌≢◌,
  ◌↔◌, refl, arith, ◌==◌, text_eq, count, select, is_empty, In, All,
}
use rekam.Scope.{Scope, satisfies, title_clause}
use rekam.Store.{Edge, Store, row_of, string}
use rekam.Store.Read.{Index}
use rekam.Graph.{GraphNode, Graph, graph, included_nodes, bounded_depth, max_graph_depth}
use rekam.Graph.Reach.{included_nodes_exact, Walk}
use rekam.Graph.Visible.{graph-allowed, IsAllowed}
use rekam.Examples.Data.{go_id, style_id, two_memories, style_edge}

abbrev home_only : Scope
home_only = record { everything = false; read = codes "home" ∷ []; write = []; titles_visible = [] }

-- an index by which every row matches alike
abbrev every_row : Index
every_row = λ table match r. some 1

abbrev node : Text → Text → Text → ℕ → GraphNode
node id title taxonomy authority = record {
  id = id;
  title = title;
  taxonomy = taxonomy;
  authority = authority;
  superseded = false;
  dangling = false;
  deleted = false;
  deleted_at = none;
  deleted_by = [];
  hidden_content = false;
}

abbrev nodes : List GraphNode
nodes =
    node go_id (codes "Go") (codes "work.go") 0
    ∷ node style_id (codes "Style") (codes "home") 1
    ∷ []

abbrev home_graph : Graph
home_graph = record {
  center = style_id;
  nodes = node style_id (codes "Style") (codes "home") 1 ∷ [];
  edges = [];
}

included_nodes_exact_example :
    (In style_id (included_nodes (b'g' ∷ []) 1 [] nodes (style_edge (some style_id) ∷ [])) ↔ (
      (l : ℕ) × (l ≤ bounded_depth 1)
      × Walk nodes (style_edge (some style_id) ∷ []) l (b'g' ∷ []) style_id))
    × (bounded_depth 1 ≤ max_graph_depth)
included_nodes_exact_example =
    included_nodes_exact nodes (style_edge (some style_id) ∷ []) b'g' [] 1 [] style_id

graph-allowed_example : All (IsAllowed home_only) home_graph.nodes
unfolding graph rekam.Scope.unrestricted
graph-allowed_example = graph-allowed two_memories home_only style_id 2 [] home_graph refl
