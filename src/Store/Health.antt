-- ===== src/Store/Health.antt =====
-- internal/db/memory.go: the links into a memory and the state of the link graph, `InboundLinkCount`,
-- `Backlinks` and `EdgeHealth`. The counts by relation are a function, 0 for an absent key.
pub mod Sums
use rekam.Prelude.{
  ℕ, ◌+◌, Text, Bool, true, false, ◌&&◌, ◌||◌, not, List, [], ◌∷◌, ◌++◌, map, Option, none, some,
  ◌==◌, text_eq, text_beq, nat_eq, ltb, select, count, any, if◌then◌else◌, take, length,
}
use rekam.Scope.{Scope, satisfies, title_clause}
use rekam.Store.{Row, Edge, Store, row_of}
use rekam.Store.Edges.{is_null}
use rekam.Store.Read.{ScopedMemory, scoped, sort_desc, text_ltb}
use rekam.Graph.{points_at}

unfoldable pub inbound_link_count : Store → Text → ℕ
unfolding count text_beq
inbound_link_count s id = count (λ e. points_at id e && not (e.src == id)) s.edges

abbrev pub add_joined : Edge → Option Row → List (Edge × Row) → List (Edge × Row)
add_joined e none rest = rest
add_joined e (some r) rest = (e, r) ∷ rest

-- `edges e JOIN memories s ON s.id = e.src_id`
unfoldable pub with_source : List Row → List Edge → List (Edge × Row)
unfolding row_of
with_source rows [] = []
with_source rows (e ∷ es) = add_joined e (row_of rows e.src) (with_source rows es)

unfoldable pub backlinks : Store → Scope → Text → List ScopedMemory
unfolding select satisfies title_clause with_source sort_desc scoped text_beq
backlinks s scope id =
    let joined =
      with_source s.memories (select (λ e. points_at id e && not (e.src == id)) s.edges) in
    map (λ x. scoped x.1 x.0.rel)
      (sort_desc (λ x. x.1.updated_at)
        (select (λ x. satisfies (title_clause scope) x.1.taxonomy) joined))

pub record DanglingRef : Type 0 where
  pub target : Text
  pub rel : Text
  pub count : ℕ
  pub sources : List ScopedMemory

pub record EdgeHealth : Type 0 where
  pub total_edges : ℕ
  pub resolved : ℕ
  pub dangling : ℕ
  pub dangling_targets : ℕ
  pub dangling_by_rel : Text → ℕ
  pub top_dangling : List DanglingRef

-- a sort that keeps the order of rows that neither precedes
unfoldable pub insert_by : {A : Type 0} → (A → A → Bool) → A → List A → List A
insert_by lt x [] = x ∷ []
insert_by lt x (y ∷ ys) = let rest = insert_by lt x ys in if lt y x then y ∷ rest else x ∷ y ∷ ys

unfoldable pub sort_by : {A : Type 0} → (A → A → Bool) → List A → List A
unfolding insert_by
sort_by lt [] = []
sort_by lt (x ∷ xs) = insert_by lt x (sort_by lt xs)

-- ORDER BY e.raw, e.rel
unfoldable pub ref_ltb : Edge × Row → Edge × Row → Bool
unfolding text_ltb text_beq
ref_ltb (d, r) (e, q) = text_ltb d.raw e.raw || (d.raw == e.raw && text_ltb d.rel e.rel)

-- COUNT(DISTINCT …)
unfoldable pub distinct : List Text → List Text
unfolding any text_beq
distinct [] = []
distinct (t ∷ ts) = let rest = distinct ts in if any (λ u. u == t) ts then rest else t ∷ rest

-- one turn of the loop: a row joins the reference with its target and relation, or starts one
unfoldable pub add_ref : Edge → ScopedMemory → List DanglingRef → List DanglingRef
unfolding text_beq
add_ref e m [] = record { target = e.raw; rel = e.rel; count = 1; sources = m ∷ [] } ∷ []
add_ref e m (d ∷ ds) =
    let rest = add_ref e m ds in
    if d.target == e.raw && d.rel == e.rel
    then record d { count = d.count + 1; sources = d.sources ++ m ∷ [] } ∷ ds
    else d ∷ rest

unfoldable pub add_refs : List DanglingRef → List (Edge × Row) → List DanglingRef
unfolding add_ref scoped
add_refs ds [] = ds
add_refs ds ((e, r) ∷ rows) = add_refs (add_ref e (scoped r []) ds) rows

-- the order of sort.Slice
unfoldable pub top_ltb : DanglingRef → DanglingRef → Bool
unfolding text_ltb
top_ltb c d = ltb d.count c.count || (d.count == c.count && text_ltb c.target d.target)

unfoldable pub edge_health : Store → Scope → EdgeHealth
unfolding with_source select satisfies title_clause count distinct sort_by sort_desc add_refs
    ref_ltb top_ltb text_beq
edge_health s scope =
    let joined =
      select (λ x. satisfies (title_clause scope) x.1.taxonomy) (with_source s.memories s.edges) in
    let loose = select (λ x. is_null x.0.dst) joined in
    record {
      total_edges = length joined;
      resolved = count (λ x. not (is_null x.0.dst)) joined;
      dangling = count (λ x. is_null x.0.dst) joined;
      dangling_targets = length (distinct (map (λ x. x.0.raw) loose));
      dangling_by_rel = λ rel. count (λ x. x.0.rel == rel) loose;
      top_dangling =
          take 15 (
            sort_by top_ltb
              (add_refs [] (sort_by ref_ltb (sort_desc (λ x. x.1.updated_at) loose))));
    }
