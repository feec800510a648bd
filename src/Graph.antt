-- ===== src/Graph.antt =====
-- internal/db/graph.go: the slice of the link graph that a caller may see, as `Graph` builds it. A
-- Go map from ids to nodes is the list of its nodes: the rows of `memories`, whose key is the id.
pub mod Reach
pub mod Visible
use rekam.Prelude.{
  ℕ, zero, suc, ◌+◌, ◌-◌, Text, codes, Bool, true, false, ◌&&◌, ◌||◌, not, List, [], ◌∷◌, ◌++◌, map,
  Option, none, some, ◌==◌, text_eq, text_beq, nat_eq, starts_with, find, any, select, count,
  if◌then◌else◌, leb, ltb, is_empty,
}
use rekam.Scope.{
  Scope, unrestricted, can_read, title_visible, dotted, satisfies, title_clause, in_branch,
}
use rekam.Links.{relates, depends_on, supersedes}
use rekam.Store.{
  Row, Edge, Tombstone, TombstoneRow, Store, string, scan_tombstone, Error, not_found, Result, ok,
  err,
}
use rekam.Store.Edges.{is_null}

pub record GraphNode : Type 0 where
  pub id : Text
  pub title : Text
  pub taxonomy : Text
  pub authority : ℕ
  pub superseded : Bool
  pub dangling : Bool
  pub deleted : Bool
  pub deleted_at : Option ℕ
  pub deleted_by : Text
  pub hidden_content : Bool

pub record GraphEdge : Type 0 where
  pub src : Text
  pub dst : Text
  pub rel : Text

pub record Graph : Type 0 where
  pub center : Text
  pub nodes : List GraphNode
  pub edges : List GraphEdge

abbrev pub dangling_prefix : Text
dangling_prefix = codes "dangling:"

abbrev pub max_graph_depth : ℕ
max_graph_depth = 4

abbrev pub points_at : Text → Edge → Bool
points_at id e = elim e.dst [ none ↦ false | some d ↦ d == id ]

-- authorityExpr
unfoldable pub authority_of : List Edge → Text → ℕ
unfolding count text_beq
authority_of edges id =
    count (λ e. points_at id e && (not (e.src == id) && (e.rel == relates || e.rel == depends_on)))
      edges

-- supersededExpr
unfoldable pub superseded_in : List Edge → Text → Bool
unfolding any text_beq
superseded_in edges id =
    any (λ e. points_at id e && (not (e.src == id) && e.rel == supersedes)) edges

unfoldable pub meta_node : List Edge → Row → GraphNode
unfolding authority_of superseded_in
meta_node edges r = record {
  id = r.id;
  title = r.title;
  taxonomy = string r.taxonomy;
  authority = authority_of edges r.id;
  superseded = superseded_in edges r.id;
  dangling = false;
  deleted = false;
  deleted_at = none;
  deleted_by = [];
  hidden_content = false;
}

-- a leaf for a title that the caller may see and content that it may not
unfoldable pub title_leaf : GraphNode → GraphNode
title_leaf n = record {
  id = n.id;
  title = n.title;
  taxonomy = n.taxonomy;
  authority = 0;
  superseded = false;
  dangling = false;
  deleted = false;
  deleted_at = none;
  deleted_by = [];
  hidden_content = true;
}

unfoldable pub tombstone_leaf : Tombstone → GraphNode
tombstone_leaf t = record {
  id = t.memory_id;
  title = t.title;
  taxonomy = t.taxonomy;
  authority = 0;
  superseded = false;
  dangling = false;
  deleted = true;
  deleted_at = some t.deleted_at;
  deleted_by = t.deleted_by;
  hidden_content = false;
}

unfoldable pub ghost_node : Text → Text → GraphNode
ghost_node gid raw = record {
  id = gid;
  title = raw;
  taxonomy = [];
  authority = 0;
  superseded = false;
  dangling = true;
  deleted = false;
  deleted_at = none;
  deleted_by = [];
  hidden_content = false;
}

unfoldable pub node_of : List GraphNode → Text → Option GraphNode
unfolding find text_beq
node_of nodes id = find (λ n. n.id == id) nodes

unfoldable pub has_node : List GraphNode → Text → Bool
unfolding any text_beq
has_node nodes id = any (λ n. n.id == id) nodes

abbrev pub member : Text → List Text → Bool
member id ids = any (λ i. i == id) ids

unfoldable pub tombstone_nodes : Scope → List TombstoneRow → List GraphNode
unfolding select satisfies title_clause tombstone_leaf scan_tombstone
tombstone_nodes scope rows =
    map (λ t. tombstone_leaf (scan_tombstone t))
      (select (λ t. satisfies (title_clause scope) t.taxonomy) rows)

-- the nodes that take part in the traversal
unfoldable pub participants : Scope → List GraphNode → List GraphNode
unfolding select can_read
participants scope nodes =
    if unrestricted scope then nodes else select (λ n. can_read scope n.taxonomy) nodes

-- The title-only leaves stand in front: an assignment to the map replaces a tombstone of that id.
unfoldable pub leaf_nodes : Scope → List GraphNode → List TombstoneRow → List GraphNode
unfolding tombstone_nodes select can_read title_visible
leaf_nodes scope nodes tombstones =
    let dead = tombstone_nodes scope tombstones in
    if unrestricted scope
    then dead
    else map title_leaf
        (select (λ n. not (can_read scope n.taxonomy) && title_visible scope n.taxonomy) nodes)
      ++ dead

-- the neighbours of a node over edges between two participants, in both directions
unfoldable pub adjacent : List GraphNode → Text → List Edge → List Text
unfolding has_node text_beq
adjacent nodes id [] = []
adjacent nodes id (e ∷ es) =
    let rest = adjacent nodes id es in
    elim e.dst [
      | none ↦ rest
      | some d ↦
          if has_node nodes e.src && has_node nodes d
          then (if e.src == id then d ∷ [] else [])
            ++ ((if d == id then e.src ∷ [] else []) ++ rest)
          else rest
    ]

-- the inner loop: neighbours that are not visited yet join the visited ones and the next frontier
unfoldable pub visit_all : List Text → List Text × List Text → List Text × List Text
unfolding any text_beq
visit_all [] (visited, next) = (visited, next)
visit_all (nb ∷ nbs) (visited, next) =
    visit_all nbs (if member nb visited then (visited, next) else (nb ∷ visited, next ++ nb ∷ []))

-- the loop over the frontier
unfoldable pub expand :
    List GraphNode → List Edge → List Text → List Text × List Text → List Text × List Text
unfolding visit_all adjacent
expand nodes edges [] state = state
expand nodes edges (id ∷ frontier) state =
    expand nodes edges frontier (visit_all (adjacent nodes id edges) state)

-- The loop over the depth. An empty frontier ends it: then a round changes nothing.
unfoldable pub search : List GraphNode → List Edge → ℕ → List Text × List Text → List Text
unfolding expand
search nodes edges zero (visited, frontier) = visited
search nodes edges (suc depth) (visited, frontier) =
    search nodes edges depth (expand nodes edges frontier (visited, []))

-- a depth that is not positive is 0 here
unfoldable pub bounded_depth : ℕ → ℕ
bounded_depth depth =
    let d = if depth == 0 then 2 else depth in if ltb max_graph_depth d then max_graph_depth else d

unfoldable pub included_nodes : Text → ℕ → Text → List GraphNode → List Edge → List Text
unfolding select search bounded_depth starts_with text_beq
included_nodes center depth taxonomy nodes edges =
    if is_empty center
    then map (λ n. n.id) (select (λ n. is_empty taxonomy || in_branch n.taxonomy taxonomy) nodes)
    else search nodes edges (bounded_depth depth) (center ∷ [], center ∷ [])

-- One round of the loop over the edges: the nodes that it adds, their ids, and the edges drawn.
pub record Drawn : Type 0 where
  pub ghosts : List Text
  pub nodes : List GraphNode
  pub edges : List GraphEdge

unfoldable pub attach : Drawn → GraphNode → GraphEdge → Drawn
unfolding any text_beq
attach d n e =
    if member e.dst d.ghosts
    then record d { edges = d.edges ++ e ∷ [] }
    else record { ghosts = e.dst ∷ d.ghosts; nodes = d.nodes ++ n ∷ []; edges = d.edges ++ e ∷ [] }

-- an edge to an existing id: a leaf is attached, an included node is linked, others are skipped
unfoldable pub draw_to : List Text → Drawn → Option GraphNode → GraphEdge → Drawn
unfolding attach
draw_to included d (some leaf) e = attach d leaf e
draw_to included d none e =
    if member e.dst included then record d { edges = d.edges ++ e ∷ [] } else d

unfoldable pub draw_target : List Text → List GraphNode → Drawn → Edge → Option Text → Drawn
unfolding attach node_of ghost_node draw_to
draw_target included leaves d e none =
    let gid = dangling_prefix ++ e.raw in
    attach d (ghost_node gid e.raw) (record { src = e.src; dst = gid; rel = e.rel })
draw_target included leaves d e (some dst) =
    draw_to included d (node_of leaves dst) (record { src = e.src; dst = dst; rel = e.rel })

unfoldable pub draw_edge : List Text → List GraphNode → Drawn → Edge → Drawn
unfolding draw_target
draw_edge included leaves d e =
    if not (member e.src included) then d else draw_target included leaves d e e.dst

unfoldable pub draw : List Text → List GraphNode → Drawn → List Edge → Drawn
unfolding draw_edge
draw included leaves d [] = d
draw included leaves d (e ∷ es) = draw included leaves (draw_edge included leaves d e) es

abbrev pub keep_node : Option GraphNode → List GraphNode → List GraphNode
keep_node none ns = ns
keep_node (some n) ns = n ∷ ns

unfoldable pub nodes_of : List GraphNode → List Text → List GraphNode
unfolding node_of
nodes_of nodes [] = []
nodes_of nodes (id ∷ ids) = keep_node (node_of nodes id) (nodes_of nodes ids)

-- the nodes and the edges once the centre is known to be there
unfoldable pub view : Store → Scope → Text → ℕ → Text → Graph
unfolding meta_node participants leaf_nodes included_nodes draw nodes_of
view s scope center depth taxonomy =
    let rows = map (meta_node s.edges) s.memories in
    let leaves = leaf_nodes scope rows s.tombstones in
    let nodes = participants scope rows in
    let included = included_nodes center depth taxonomy nodes s.edges in
    let start : Drawn = record { ghosts = []; nodes = nodes_of nodes included; edges = [] } in
    let drawn = draw included leaves start s.edges in
    record { center = center; nodes = drawn.nodes; edges = drawn.edges }

unfoldable pub graph : Store → Scope → Text → ℕ → Text → Result Graph
unfolding view meta_node participants has_node
graph s scope center depth taxonomy =
    if not (is_empty center)
      && not (has_node (participants scope (map (meta_node s.edges) s.memories)) center)
    then err (not_found center)
    else ok (view s scope center depth taxonomy)
