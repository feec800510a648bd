-- ===== src/Store/Edges/Sync.antt =====
-- What `syncEdges` of internal/db/memory.go does, in one equation.
use rekam.Prelude.{
  Text, true, false, not, List, [], ◌∷◌, ◌++◌, ◌==◌, ◌≡◌, arith, text_eq, text_beq_iff, any, select,
  All, any-append, any-select_none, append_assoc, append_nil,
}
use rekam.Links.{ParsedLink, parse_links}
use rekam.Links.Parsed.{Differs, AllDiffer, parse_links_sound}
use rekam.Store.{Row, Edge, LinkStatus, Store, ok}
use rekam.Store.Edges.{
  deleted_targets, same_edge, insert_edge, bind_link, add_links, heal, sync_edges,
}

pub bind_link-key :
    (rows : List Row) (deleted : List (Text × Text)) (src : Text) (l : ParsedLink)
    → let e = (bind_link rows deleted src l).0 in (e.src ≡ src) × (e.raw ≡ l.raw) × (e.rel ≡ l.rel)
unfolding bind_link
bind_link-key rows deleted src l = ground arith

insert_edge-ok :
    (rows : List Row) (e : Edge) (es : List Edge)
    → any (same_edge e) es ≡ false
    → any (λ r. r.id == e.src) rows ≡ true
    → insert_edge rows e es ≡ ok (es ++ e ∷ [])
unfolding insert_edge
insert_edge-ok rows e es free live = ground arith

-- the edges and the statuses of a list of links
abbrev pub bound_edges : List Row → List (Text × Text) → Text → List ParsedLink → List Edge
bound_edges rows deleted src [] = []
bound_edges rows deleted src (l ∷ ls) =
    (bind_link rows deleted src l).0 ∷ bound_edges rows deleted src ls

abbrev pub statuses : List Row → List (Text × Text) → Text → List ParsedLink → List LinkStatus
statuses rows deleted src [] = []
statuses rows deleted src (l ∷ ls) = (bind_link rows deleted src l).1 ∷ statuses rows deleted src ls

module _ (rows : List Row) (deleted : List (Text × Text)) (src : Text) where
  abbrev edge_of : ParsedLink → Edge
  edge_of l = (bind_link rows deleted src l).0

  -- no edge of the list has the key of the link's edge
  abbrev Free : List Edge → ParsedLink → Type 0
  Free es l = any (same_edge (edge_of l)) es ≡ false

  Free-snoc :
      (es : List Edge) (l m : ParsedLink) → Free es m → Differs l m → Free (es ++ edge_of l ∷ []) m
  unfolding any
  Free-snoc es l m f d = ground (
    arith,
    any-append (same_edge (edge_of m)) es (edge_of l ∷ []),
    bind_link-key rows deleted src l,
    bind_link-key rows deleted src m,
    text_beq_iff (edge_of m).raw (edge_of l).raw,
    text_beq_iff (edge_of m).rel (edge_of l).rel,
  )

  All-Free-snoc :
      (es : List Edge) (l : ParsedLink) (ms : List ParsedLink)
      → All (Free es) ms
      → All (Differs l) ms
      → All (Free (es ++ edge_of l ∷ [])) ms
  All-Free-snoc es l [] f d = tt
  All-Free-snoc es l (m ∷ ms) f d = (Free-snoc es l m f.0 d.0, All-Free-snoc es l ms f.1 d.1)

  add_links-ok :
      (ls : List ParsedLink) (es : List Edge)
      → any (λ r. r.id == src) rows ≡ true
      → All (Free es) ls
      → AllDiffer ls
      → add_links rows deleted src ls es
        ≡ ok (statuses rows deleted src ls, es ++ bound_edges rows deleted src ls)
  unfolding add_links
  add_links-ok [] es live f d = rw append_nil
  add_links-ok (l ∷ ls) es live f d =
      let e = edge_of l in
      let there : any (λ r. r.id == e.src) rows ≡ true =
        rw (bind_link-key rows deleted src l).0 live in
      let later = add_links-ok ls (es ++ e ∷ []) live (All-Free-snoc es l ls f.1 d.0) d.1 in
      rw (
        insert_edge-ok rows e es f.0 there,
        later,
        append_assoc es (e ∷ []) (bound_edges rows deleted src ls),
      )

  -- the edges of other memories take no key of this one's
  others-Free :
      (es : List Edge) (ls : List ParsedLink) → All (Free (select (λ e. not (e.src == src)) es)) ls
  others-Free es [] = tt
  others-Free es (l ∷ ls) = (
    any-select_none (same_edge (edge_of l)) (λ e. not (e.src == src)) es
        (λ e h. ground (
          arith,
          bind_link-key rows deleted src l,
          text_beq_iff (edge_of l).src e.src,
          text_beq_iff e.src src,
        )),
    others-Free es ls,
  )

module _ (s : Store) (src title content : Text) where
  abbrev pub was_deleted : List (Text × Text)
  was_deleted = deleted_targets s.tombstones s.edges src

  abbrev pub other_edges : List Edge
  other_edges = select (λ e. not (e.src == src)) s.edges

  abbrev pub own_edges : List Edge
  own_edges = bound_edges s.memories was_deleted src (parse_links content)

  abbrev pub synced_edges : List Edge
  synced_edges = heal src title (other_edges ++ own_edges)

  abbrev pub link_statuses : List LinkStatus
  link_statuses = statuses s.memories was_deleted src (parse_links content)

-- For a memory that is in the table the synchronisation never fails: it keeps the edges of the other
-- memories, puts one edge for each link of the content behind them, in order, and then binds the
-- dangling edges of others that name the title.
pub sync_edges-ok :
    (s : Store) (src title content : Text)
    → any (λ r. r.id == src) s.memories ≡ true
    → sync_edges s src title content
      ≡ ok (link_statuses s src title content, synced_edges s src title content)
unfolding sync_edges
sync_edges-ok s src title content live =
    let links = parse_links content in
    let deleted = deleted_targets s.tombstones s.edges src in
    let done =
      add_links-ok s.memories deleted src links (select (λ e. not (e.src == src)) s.edges) live
        (others-Free s.memories deleted src s.edges links) (parse_links_sound content).1 in
    rw done
