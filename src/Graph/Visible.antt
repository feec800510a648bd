-- ===== src/Graph/Visible.antt =====
-- What the graph of internal/db/graph.go discloses.
use rekam.Prelude.{
  ℕ, Text, text_eq, text_beq_iff, Bool, true, false, ◌&&◌, not, List, [], ◌∷◌, ◌++◌, map, Option,
  none, some, ◌≡◌, refl, subst, inl, inr, arith, ◌==◌, select, In, In-select, Bool-cases, is_empty,
  All, All-at, All-of-In, All-append, find-some,
}
use rekam.Scope.{Scope, unrestricted, can_read, title_visible, title_clause, satisfies}
use rekam.Store.{string, Row, Edge, TombstoneRow, Store, not_found, scan_tombstone, Result, ok, err}
use rekam.Graph.{
  GraphNode, GraphEdge, Graph, meta_node, title_leaf, tombstone_leaf, ghost_node, node_of, has_node,
  member, tombstone_nodes, participants, leaf_nodes, included_nodes, Drawn, attach, draw_edge, draw,
  nodes_of, graph, dangling_prefix, keep_node, draw_to, draw_target, view,
}

-- A node stands for a target that is not written yet, for one that is deleted, for a title without
-- content and without its count of links, or for a memory that the scope may read.
pub data IsAllowed (scope : Scope) (n : GraphNode) : Type 0 where
  ghost : n.dangling ≡ true → IsAllowed scope n
  dead : n.deleted ≡ true → IsAllowed scope n
  titled :
      n.hidden_content ≡ true
      → title_visible scope n.taxonomy ≡ true
      → n.authority ≡ 0
      → IsAllowed scope n
  readable : can_read scope n.taxonomy ≡ true → IsAllowed scope n

module _ (P : GraphNode → Type 0) where
  node_of-All :
      (nodes : List GraphNode) (id : Text) (n : GraphNode)
      → All P nodes
      → node_of nodes id ≡ some n
      → P n
  unfolding node_of
  node_of-All nodes id n h e = All-at P n nodes h (find-some (λ x. x.id == id) nodes n e).0

  keep_node-All :
      (o : Option GraphNode) (ns : List GraphNode)
      → ((n : GraphNode) → o ≡ some n → P n)
      → All P ns
      → All P (keep_node o ns)
  keep_node-All none ns f h = h
  keep_node-All (some n) ns f h = (f n refl, h)

  nodes_of-All :
      (nodes : List GraphNode) (ids : List Text) → All P nodes → All P (nodes_of nodes ids)
  unfolding nodes_of
  nodes_of-All nodes [] h = tt
  nodes_of-All nodes (id ∷ ids) h =
      keep_node-All (node_of nodes id) (nodes_of nodes ids) (λ n e. node_of-All nodes id n h e)
        (nodes_of-All nodes ids h)

  attach-All :
      (d : Drawn) (n : GraphNode) (e : GraphEdge) → P n → All P d.nodes → All P (attach d n e).nodes
  unfolding attach
  attach-All d n e p h = elim (Bool-cases (member e.dst d.ghosts)) [
    | inl y ↦ rw y h
    | inr m ↦ rw m ((All-append P d.nodes (n ∷ [])).1 (h, (p, tt)))
  ]

  draw_to-All :
      (included : List Text) (d : Drawn) (o : Option GraphNode) (e : GraphEdge)
      → ((n : GraphNode) → o ≡ some n → P n)
      → All P d.nodes
      → All P (draw_to included d o e).nodes
  unfolding draw_to
  draw_to-All included d (some n) e f h = attach-All d n e (f n refl) h
  draw_to-All included d none e f h = elim (Bool-cases (member e.dst included)) [
    | inl y ↦ rw y h
    | inr m ↦ rw m h
  ]

  module _ (included : List Text) (leaves : List GraphNode) (hl : All P leaves)
      (hg : (gid raw : Text) → P (ghost_node gid raw)) where
    draw_target-All :
        (d : Drawn) (e : Edge) (o : Option Text)
        → All P d.nodes
        → All P (draw_target included leaves d e o).nodes
    unfolding draw_target
    draw_target-All d e none h =
        attach-All d (ghost_node (dangling_prefix ++ e.raw) e.raw)
          (record { src = e.src; dst = dangling_prefix ++ e.raw; rel = e.rel })
          (hg (dangling_prefix ++ e.raw) e.raw) h
    draw_target-All d e (some dst) h =
        draw_to-All included d (node_of leaves dst) (record { src = e.src; dst = dst; rel = e.rel })
          (λ n q. node_of-All leaves dst n hl q) h

    draw_edge-All :
        (d : Drawn) (e : Edge) → All P d.nodes → All P (draw_edge included leaves d e).nodes
    unfolding draw_edge
    draw_edge-All d e h = elim (Bool-cases (member e.src included)) [
      | inl y ↦ rw y (draw_target-All d e e.dst h)
      | inr m ↦ rw m h
    ]

    draw-All :
        (d : Drawn) (es : List Edge) → All P d.nodes → All P (draw included leaves d es).nodes
    unfolding draw
    draw-All d [] h = h
    draw-All d (e ∷ es) h = draw-All (draw_edge included leaves d e) es (draw_edge-All d e h)

All-select_keeps :
    (P : GraphNode → Type 0) (f : GraphNode → Bool) (ns : List GraphNode)
    → ((n : GraphNode) → f n ≡ true → P n)
    → All P (select f ns)
All-select_keeps P f ns h = All-of-In {P = P} (select f ns) (λ n i. h n ((In-select f n ns).0 i).1)

All-map :
    {A : Type 0} (P : GraphNode → Type 0) (f : A → GraphNode) (xs : List A)
    → ((x : A) → In x xs → P (f x))
    → All P (map f xs)
All-map P f [] h = tt
All-map P f (x ∷ xs) h = (h x (inl refl), All-map P f xs (λ y i. h y (inr i)))

tombstone_nodes-All :
    (scope : Scope) (rows : List TombstoneRow) → All (IsAllowed scope) (tombstone_nodes scope rows)
unfolding tombstone_nodes tombstone_leaf
tombstone_nodes-All scope rows =
    All-map (IsAllowed scope) (λ t. tombstone_leaf (scan_tombstone t))
      (select (λ t. satisfies (title_clause scope) t.taxonomy) rows) (λ t i. dead refl)

unrestricted-can_read :
    (scope : Scope) (t : Text) → unrestricted scope ≡ true → can_read scope t ≡ true
unfolding can_read unrestricted
unrestricted-can_read scope t h = ground arith

participants-All :
    (scope : Scope) (nodes : List GraphNode) → All (IsAllowed scope) (participants scope nodes)
unfolding participants
participants-All scope nodes = elim (Bool-cases (unrestricted scope)) [
  | inl y ↦ rw y (
      All-of-In {P = IsAllowed scope} nodes
        (λ n i. readable (unrestricted-can_read scope n.taxonomy y)))
  | inr m ↦ rw m (
      All-select_keeps (IsAllowed scope) (λ n. can_read scope n.taxonomy) nodes (λ n q. readable q))
]

leaf_nodes-All :
    (scope : Scope) (nodes : List GraphNode) (rows : List TombstoneRow)
    → All (IsAllowed scope) (leaf_nodes scope nodes rows)
unfolding leaf_nodes title_leaf
leaf_nodes-All scope nodes rows = elim (Bool-cases (unrestricted scope)) [
  | inl y ↦ rw y (tombstone_nodes-All scope rows)
  | inr m ↦ rw m (
      (All-append (IsAllowed scope)
          (map title_leaf
            (select (λ n. not (can_read scope n.taxonomy) && title_visible scope n.taxonomy) nodes))
          (tombstone_nodes scope rows)).1
        (
          All-map (IsAllowed scope) title_leaf
              (select (λ n. not (can_read scope n.taxonomy) && title_visible scope n.taxonomy)
                nodes)
              (λ n i.
                titled refl
                  (ground (
                    arith,
                    (In-select
                          (λ n. not (can_read scope n.taxonomy) && title_visible scope n.taxonomy) n
                          nodes).0
                        i,
                  ))
                  refl),
          tombstone_nodes-All scope rows,
        ))
]

view-allowed :
    (s : Store) (scope : Scope) (center : Text) (depth : ℕ) (taxonomy : Text)
    → All (IsAllowed scope) (view s scope center depth taxonomy).nodes
unfolding view ghost_node
view-allowed s scope center depth taxonomy =
    let rows = map (meta_node s.edges) s.memories in
    let nodes = participants scope rows in
    let included = included_nodes center depth taxonomy nodes s.edges in
    let start : Drawn = record { ghosts = []; nodes = nodes_of nodes included; edges = [] } in
    draw-All (IsAllowed scope) included (leaf_nodes scope rows s.tombstones)
      (leaf_nodes-All scope rows s.tombstones) (λ gid raw. ghost refl) start s.edges
      (nodes_of-All (IsAllowed scope) nodes included (participants-All scope rows))

graph_or : Graph → Result Graph → Graph
graph_or d (ok g) = g
graph_or d (err x) = d

-- Every node of a graph is a placeholder for a target that is not written yet, a deleted memory, a
-- title that the scope may see without its content and with no count of its links, or a memory
-- that the scope may read.
pub graph-allowed :
    (s : Store) (scope : Scope) (center : Text) (depth : ℕ) (taxonomy : Text) (g : Graph)
    → graph s scope center depth taxonomy ≡ ok g
    → All (IsAllowed scope) g.nodes
unfolding graph graph_or
graph-allowed s scope center depth taxonomy g e =
    elim (Bool-cases (
      not (is_empty center)
      && not (has_node (participants scope (map (meta_node s.edges) s.memories)) center))) [
        | inl y ↦ ground (arith, y)
        | inr m ↦
            subst
              (λ x. All (IsAllowed scope) (graph_or (view s scope center depth taxonomy) x).nodes)
              (let q : ok (view s scope center depth taxonomy) ≡ ok g = ground (arith, m) in q)
              (view-allowed s scope center depth taxonomy)
      ]

module _ (edges : List Edge) (scope : Scope) (center : Text) where
  Hides : Row → Type 0
  Hides r = r.id ≡ center → can_read scope (string r.taxonomy) ≡ false

  differs_if :
      (r : Row) → Hides r → can_read scope (string r.taxonomy) ≡ true → (r.id == center) ≡ false
  unfolding Hides
  differs_if r h y = ground (arith, h, y, text_beq_iff r.id center)

  has_node-select_hidden :
      (rows : List Row)
      → All Hides rows
      → has_node (select (λ n. can_read scope n.taxonomy) (map (meta_node edges) rows)) center
        ≡ false
  unfolding has_node meta_node select
  has_node-select_hidden [] h = refl
  has_node-select_hidden (r ∷ rows) (h, hs) =
      elim (Bool-cases (can_read scope (string r.taxonomy))) [
        | inl y ↦ rw (y, differs_if r h y) (has_node-select_hidden rows hs)
        | inr n ↦ rw n (has_node-select_hidden rows hs)
      ]

  has_node-hidden :
      unrestricted scope ≡ true
      → (rows : List Row) → All Hides rows
      → has_node (map (meta_node edges) rows) center ≡ false
  unfolding has_node meta_node
  has_node-hidden u [] h = refl
  has_node-hidden u (r ∷ rows) (h, hs) =
      rw (differs_if r h (unrestricted-can_read scope (string r.taxonomy) u))
        (has_node-hidden u rows hs)

  has_node-participants :
      (rows : List Row)
      → All Hides rows
      → has_node (participants scope (map (meta_node edges) rows)) center ≡ false
  unfolding participants
  has_node-participants rows h = elim (Bool-cases (unrestricted scope)) [
    | inl y ↦ rw y (has_node-hidden y rows h)
    | inr n ↦ rw n (has_node-select_hidden rows h)
  ]

-- Asking for a memory that the scope may not read gets the answer that a missing one gets.
pub hidden_center :
    (s : Store) (scope : Scope) (center : Text) (depth : ℕ) (taxonomy : Text)
    → is_empty center ≡ false
    → All (λ r. r.id ≡ center → can_read scope (string r.taxonomy) ≡ false) s.memories
    → graph s scope center depth taxonomy ≡ err (not_found center)
unfolding graph Hides
hidden_center s scope center depth taxonomy c h =
    rw (c, has_node-participants s.edges scope center s.memories h) refl
