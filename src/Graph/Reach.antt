-- ===== src/Graph/Reach.antt =====
-- The breadth-first search of `includedNodes` in internal/db/graph.go, against walks.
use rekam.Prelude.{
  ℕ, zero, suc, ◌+◌, ◌≤◌, Text, text_eq, text_beq_iff, true, List, [], ◌∷◌, ◌++◌, ◌≡◌, refl, sym,
  subst, ◌⊎◌, inl, inr, ◌↔◌, arith, any, In, In-append, Bool-cases,
}
use rekam.Store.{Edge}
use rekam.Graph.{
  GraphNode, member, adjacent, visit_all, expand, search, bounded_depth, included_nodes,
  max_graph_depth,
}

pub member_iff : (id : Text) (ids : List Text) → (member id ids ≡ true) ↔ In id ids
unfolding any
member_iff id [] = (λ h. absurd (cc), λ i. absurd i)
member_iff id (x ∷ ids) = ground (arith, member_iff id ids, text_beq_iff x id)

-- what a run over some neighbours does to the visited ones and to the next frontier
record Grows (nbs : List Text) (before after : List Text × List Text) : Type 0 where
  sound : (v : Text) → In v after.0 → In v before.0 ⊎ In v nbs
  keeps : (v : Text) → In v before.0 → In v after.0
  takes : (v : Text) → In v nbs → In v after.0
  fresh : (v : Text) → In v after.0 → In v before.0 ⊎ In v after.1
  queued : (v : Text) → In v before.1 → In v after.1
  marked : (v : Text) → In v after.1 → In v before.1 ⊎ In v after.0

module _ (nodes : List GraphNode) (edges : List Edge) where
  -- a walk of `n` steps
  pub data Walk : ℕ → Text → Text → Type 0 where
    stop : {u : Text} → Walk zero u u
    go : {n : ℕ} {u v w : Text} → In v (adjacent nodes u edges) → Walk n v w → Walk (suc n) u w

visit_all-Grows :
    (nbs visited next : List Text) → Grows nbs (visited, next) (visit_all nbs (visited, next))
unfolding visit_all
visit_all-Grows [] visited next = record {
  sound = λ v i. inl i;
  keeps = λ v i. i;
  takes = λ v i. absurd i;
  fresh = λ v i. inl i;
  queued = λ v i. i;
  marked = λ v i. inl i;
}
visit_all-Grows (nb ∷ nbs) visited next = elim (Bool-cases (member nb visited)) [
  | inl y ↦
      let ih = visit_all-Grows nbs visited next in
      let there = (member_iff nb visited).0 y in
      rw y (record {
        sound = λ v i. ground (arith, ih.sound v);
        keeps = ih.keeps;
        takes = λ v i. elim i [ inl e ↦ ih.keeps v (rw e there) | inr j ↦ ih.takes v j ];
        fresh = ih.fresh;
        queued = ih.queued;
        marked = ih.marked;
      })
  | inr n ↦
      let ih = visit_all-Grows nbs (nb ∷ visited) (next ++ nb ∷ []) in
      rw n (record {
        sound = λ v i. ground (arith, ih.sound v);
        keeps = λ v i. ih.keeps v (inr i);
        takes = λ v i. elim i [ inl e ↦ ih.keeps v (inl e) | inr j ↦ ih.takes v j ];
        fresh = λ v i. ground (arith, ih.fresh v, ih.queued v, In-append v next (nb ∷ []));
        queued = λ v i. ih.queued v ((In-append v next (nb ∷ [])).1 (inl i));
        marked = λ v i. ground (arith, ih.marked v, ih.keeps v, In-append v next (nb ∷ []));
      })
]

module _ (nodes : List GraphNode) (edges : List Edge) where
  abbrev nbs_of : Text → List Text
  nbs_of u = adjacent nodes u edges

  record Expands (frontier : List Text) (before after : List Text × List Text) : Type 0 where
    sound :
        (v : Text) → In v after.0 → In v before.0 ⊎ ((u : Text) × In u frontier × In v (nbs_of u))
    keeps : (v : Text) → In v before.0 → In v after.0
    takes : (u v : Text) → In u frontier → In v (nbs_of u) → In v after.0
    fresh : (v : Text) → In v after.0 → In v before.0 ⊎ In v after.1
    queued : (v : Text) → In v before.1 → In v after.1
    marked : (v : Text) → In v after.1 → In v before.1 ⊎ In v after.0

  expand-Expands :
      (frontier : List Text) (state : List Text × List Text)
      → Expands frontier state (expand nodes edges frontier state)
  unfolding expand
  expand-Expands [] state = record {
    sound = λ v i. inl i;
    keeps = λ v i. i;
    takes = λ u v i j. absurd i;
    fresh = λ v i. inl i;
    queued = λ v i. i;
    marked = λ v i. inl i;
  }
  expand-Expands (id ∷ frontier) state =
      let one = visit_all-Grows (nbs_of id) state.0 state.1 in
      let rest = expand-Expands frontier (visit_all (nbs_of id) state) in
      record {
        sound = λ v i. elim (rest.sound v i) [
          | inr (u, iu, iv) ↦ inr (u, inr iu, iv)
          | inl j ↦ elim (one.sound v j) [ inl k ↦ inl k | inr k ↦ inr (id, inl refl, k) ]
        ];
        keeps = λ v i. rest.keeps v (one.keeps v i);
        takes = λ u v i j. elim i [
          | inl e ↦ rest.keeps v (one.takes v (subst (λ x. In v (nbs_of x)) e j))
          | inr k ↦ rest.takes u v k j
        ];
        fresh = λ v i. elim (rest.fresh v i) [
          | inr k ↦ inr k
          | inl j ↦ elim (one.fresh v j) [ inl k ↦ inl k | inr k ↦ inr (rest.queued v k) ]
        ];
        queued = λ v i. rest.queued v (one.queued v i);
        marked = λ v i. elim (rest.marked v i) [
          | inr k ↦ inr k
          | inl j ↦ elim (one.marked v j) [ inl k ↦ inl k | inr k ↦ inr (rest.keeps v k) ]
        ];
      }

  search-keeps :
      (n : ℕ) (state : List Text × List Text) (v : Text)
      → In v state.0
      → In v (search nodes edges n state)
  unfolding search
  search-keeps zero (visited, frontier) v i = i
  search-keeps (suc n) (visited, frontier) v i =
      let x = expand-Expands frontier (visited, []) in
      search-keeps n (expand nodes edges frontier (visited, [])) v (x.keeps v i)

  -- what is visited and no longer on the frontier has only visited neighbours
  abbrev Closed : List Text × List Text → Type 0
  Closed state = (u v : Text) → In u state.0 → In v (nbs_of u) → In u state.1 ⊎ In v state.0

  expand-Closed :
      (visited frontier : List Text)
      → Closed (visited, frontier)
      → Closed (expand nodes edges frontier (visited, []))
  expand-Closed visited frontier closed u v i j =
      let x = expand-Expands frontier (visited, []) in
      elim (x.fresh u i) [
        | inr k ↦ inl k
        | inl k ↦ elim (closed u v k j) [
          | inl l ↦ inr (x.takes u v l j)
          | inr l ↦ inr (x.keeps v l)
        ]
      ]

  search_complete :
      (n m : ℕ) (state : List Text × List Text) (u w : Text)
      → Closed state
      → In u state.0
      → m ≤ n
      → Walk nodes edges m u w
      → In w (search nodes edges n state)
  unfolding search
  search_complete n m (visited, frontier) u w closed i le stop =
      search-keeps n (visited, frontier) u i
  search_complete zero m (visited, frontier) u w closed i le (go j rest) = absurd (omega arith)
  search_complete (suc n) m (visited, frontier) u w closed i le (go {n = k} {v = v} j rest) =
      elim (closed u v i j) [
        | inr l ↦ search_complete (suc n) k (visited, frontier) v w closed l (omega arith) rest
        | inl l ↦
            let x = expand-Expands frontier (visited, []) in
            search_complete n k (expand nodes edges frontier (visited, [])) v w
              (expand-Closed visited frontier closed) (x.takes u v l j) (omega arith) rest
      ]

  Walk-snoc :
      {l : ℕ} {c u v : Text}
      → Walk nodes edges l c u
      → In v (nbs_of u)
      → Walk nodes edges (suc l) c v
  Walk-snoc stop j = go j stop
  Walk-snoc (go i walk) j = go i (Walk-snoc walk j)

  -- every visited node is at the end of a walk from the start
  search_sound :
      (n k : ℕ) (state : List Text × List Text) (c w : Text)
      → ((v : Text) → In v state.0 → (l : ℕ) × (l ≤ k) × Walk nodes edges l c v)
      → ((v : Text) → In v state.1 → In v state.0)
      → In w (search nodes edges n state)
      → (l : ℕ) × (l ≤ n + k) × Walk nodes edges l c w
  unfolding search
  search_sound zero k (visited, frontier) c w walks front i =
      let (l, le, walk) = walks w i in (l, omega arith, walk)
  search_sound (suc n) k (visited, frontier) c w walks front i =
      let x = expand-Expands frontier (visited, []) in
      let after = expand nodes edges frontier (visited, []) in
      let (l, le, walk) =
        search_sound n (suc k) after c w
          (λ v j. elim (x.sound v j) [
            | inl o ↦ let (l, le, walk) = walks v o in (l, omega arith, walk)
            | inr (u, iu, iv) ↦
                let (l, le, walk) = walks u (front u iu) in (suc l, omega arith, Walk-snoc walk iv)
          ])
          (λ v j. elim (x.marked v j) [ inl o ↦ absurd o | inr o ↦ o ]) i in
      (l, omega arith, walk)

-- From a center the graph holds exactly the nodes at the end of a walk from it, over edges between two
-- nodes that take part and in either direction, of at most the bounded depth, which is 4 at most.
pub included_nodes_exact :
    (nodes : List GraphNode) (edges : List Edge) (c : ℕ) (cs : Text) (depth : ℕ) (taxonomy w : Text)
    → (In w (included_nodes (c ∷ cs) depth taxonomy nodes edges)
        ↔ ((l : ℕ) × (l ≤ bounded_depth depth) × Walk nodes edges l (c ∷ cs) w))
      × (bounded_depth depth ≤ max_graph_depth)
unfolding included_nodes bounded_depth
included_nodes_exact nodes edges c cs depth taxonomy w =
    let center = c ∷ cs in
    let start : List Text × List Text = (center ∷ [], center ∷ []) in
    (
      (
        λ i.
            let (l, le, walk) =
              search_sound nodes edges (bounded_depth depth) 0 start center w
                (λ v j. elim j [
                  | inl e ↦ (0, omega arith, subst (λ x. Walk nodes edges 0 center x) (sym e) stop)
                  | inr o ↦ absurd o
                ])
                (λ v j. j) i in
            (l, omega arith, walk),
        λ (l, le, walk).
            search_complete nodes edges (bounded_depth depth) l start center w (λ u v i j. inl i)
              (inl refl) le walk,
      ),
      ground arith,
    )
