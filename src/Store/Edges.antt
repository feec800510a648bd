-- ===== src/Store/Edges.antt =====
-- internal/db/memory.go: `deletedTargets` and `syncEdges`, the outgoing edges of a memory.
pub mod Sync
pub mod Sticky
use rekam.Prelude.{
  ℕ, Text, Bool, true, false, ◌&&◌, ◌||◌, not, List, [], ◌∷◌, ◌++◌, map, Option, none, some, ◌==◌,
  text_eq, text_beq, trim, find, any, select, update_where, if◌then◌else◌,
}
use rekam.Links.{ParsedLink, parse_links, normalize_link}
use rekam.Store.{
  Row, Edge, LinkStatus, TombstoneRow, Store, Result, ok, err, ◌>>=◌, ◌>>◌, reject_if, title_key,
}

abbrev pub is_null : Option Text → Bool
is_null none = true
is_null (some t) = false

-- a Go map, the last entry of a key counts
unfoldable pub lookup_last : Text → List (Text × Text) → Option Text
unfolding text_beq
lookup_last k [] = none
lookup_last k ((j, v) ∷ m) = elim (lookup_last k m) [
  | some w ↦ some w
  | none ↦ if j == k then some v else none
]

abbrev pub target_key : Text → Text → Text
target_key raw rel = raw ++ (0 ∷ rel)

-- the row of `edges JOIN tombstones`, keyed by target and relation
unfoldable pub deleted_row : List TombstoneRow → Edge → List (Text × Text)
unfolding any text_beq
deleted_row tombstones e = elim e.dst [
  | none ↦ []
  | some d ↦ if any (λ t. t.memory_id == d) tombstones then (target_key e.raw e.rel, d) ∷ [] else []
]

unfoldable pub deleted_targets : List TombstoneRow → List Edge → Text → List (Text × Text)
unfolding deleted_row text_beq
deleted_targets tombstones [] src_id = []
deleted_targets tombstones (e ∷ es) src_id =
    let rest = deleted_targets tombstones es src_id in
    if e.src == src_id then deleted_row tombstones e ++ rest else rest

-- the id of the memory whose title is the target of a link
unfoldable pub resolve : List Row → Text → Text → Option Text
unfolding find text_beq trim
resolve rows raw src_id = elim (find (λ r. title_key r.title == raw && not (r.id == src_id)) rows) [
  | none ↦ none
  | some r ↦ some r.id
]

-- the primary key (src_id, raw, rel)
abbrev pub same_edge : Edge → Edge → Bool
same_edge a b = a.src == b.src && (a.raw == b.raw && a.rel == b.rel)

-- INSERT INTO edges, with the primary key and the foreign key on `memories`
unfoldable pub insert_edge : List Row → Edge → List Edge → Result (List Edge)
unfolding any text_beq
insert_edge rows e edges = do
  reject_if (any (same_edge e) edges)
  reject_if (not (any (λ r. r.id == e.src) rows))
  ok (edges ++ e ∷ [])

-- The edge and the status that one link gets: the two branches of the loop.
unfoldable pub bind_link : List Row → List (Text × Text) → Text → ParsedLink → Edge × LinkStatus
unfolding lookup_last resolve
bind_link rows deleted src_id link = elim (lookup_last (target_key link.raw link.rel) deleted) [
  | some dst ↦ (
    record { src = src_id; dst = some dst; raw = link.raw; rel = link.rel },
    record { target = link.raw; rel = link.rel; resolved = false; deleted = true },
  )
  | none ↦
      let dst = resolve rows link.raw src_id in
      (
        record { src = src_id; dst = dst; raw = link.raw; rel = link.rel },
        record { target = link.raw; rel = link.rel; resolved = not (is_null dst); deleted = false },
      )
]

-- the loop over the links of the content
unfoldable pub add_links :
    List Row
    → List (Text × Text)
    → Text
    → List ParsedLink
    → List Edge
    → Result (List LinkStatus × List Edge)
unfolding bind_link insert_edge
add_links rows deleted src_id [] edges = ok ([], edges)
add_links rows deleted src_id (link ∷ links) edges = do
  let (edge, status) = bind_link rows deleted src_id link
  edges' ← insert_edge rows edge edges
  (statuses, edges'') ← add_links rows deleted src_id links edges'
  ok (status ∷ statuses, edges'')

-- UPDATE edges SET dst_id = ? WHERE dst_id IS NULL AND raw = ? AND src_id != ?
unfoldable pub heal : Text → Text → List Edge → List Edge
unfolding update_where text_beq normalize_link
heal src_id title edges =
    update_where (λ e. is_null e.dst && (e.raw == normalize_link title && not (e.src == src_id)))
      (λ e. record e { dst = some src_id }) edges

unfoldable pub sync_edges : Store → Text → Text → Text → Result (List LinkStatus × List Edge)
unfolding deleted_targets select text_beq parse_links add_links heal
sync_edges s src_id title content = do
  let deleted = deleted_targets s.tombstones s.edges src_id
  let others = select (λ e. not (e.src == src_id)) s.edges
  (statuses, edges) ← add_links s.memories deleted src_id (parse_links content) others
  ok (statuses, heal src_id title edges)
