-- ===== src/Store/Edges/Sticky.antt =====
-- A reference to a deleted memory under `syncEdges` of internal/db/memory.go.
use rekam.Prelude.{
  Text, Bool, true, false, List, [], ◌∷◌, ◌++◌, none, some, ◌==◌, ◌≡◌, refl, sym, ap, subst, ◌∙◌,
  ◌⊎◌, inl, inr, arith, text_eq, text_beq_iff, any, update_where, Bool-cases, In, In-append,
}
use rekam.Links.{ParsedLink, parse_links}
use rekam.Store.{Row, Edge, LinkStatus, TombstoneRow, Store, ok}
use rekam.Store.Edges.{
  is_null, lookup_last, target_key, deleted_row, deleted_targets, bind_link, heal, sync_edges,
}
use rekam.Store.Edges.Sync.{
  bound_edges, statuses, synced_edges, link_statuses, other_edges, sync_edges-ok,
}

abbrev pub is_burned : List TombstoneRow → Text → Bool
is_burned tombstones d = any (λ t. t.memory_id == d) tombstones

module _ (tombstones : List TombstoneRow) (src key d : Text) where
  -- the edges of the memory with this key point at `d`
  abbrev pub Agrees : Edge → Type 0
  Agrees e = e.src ≡ src → target_key e.raw e.rel ≡ key → e.dst ≡ some d

  lookup_last-cases :
      (e : Edge) (m : List (Text × Text))
      → Agrees e
      → e.src ≡ src
      → ((lookup_last key m ≡ none) ⊎ (lookup_last key m ≡ some d))
      → (lookup_last key (deleted_row tombstones e ++ m) ≡ none)
        ⊎ (lookup_last key (deleted_row tombstones e ++ m) ≡ some d)
  unfolding deleted_row lookup_last
  lookup_last-cases e m agrees own h = ground (arith, text_beq_iff (target_key e.raw e.rel) key)

  deleted_targets-cases :
      (es : List Edge)
      → ((e : Edge) → In e es → Agrees e)
      → (lookup_last key (deleted_targets tombstones es src) ≡ none)
        ⊎ (lookup_last key (deleted_targets tombstones es src) ≡ some d)
  unfolding deleted_targets
  deleted_targets-cases [] agree = inl (unfold lookup_last in refl)
  deleted_targets-cases (e ∷ es) agree =
      let ih = deleted_targets-cases es (λ x i. agree x (inr i)) in
      elim (Bool-cases (e.src == src)) [
        | inl y ↦ rw y (
            lookup_last-cases e (deleted_targets tombstones es src) (agree e (inl refl))
              ((text_beq_iff e.src src).0 y) ih)
        | inr n ↦ rw n ih
      ]

  lookup_last-later :
      (e : Edge) (m : List (Text × Text))
      → lookup_last key m ≡ some d
      → lookup_last key (deleted_row tombstones e ++ m) ≡ some d
  unfolding deleted_row lookup_last
  lookup_last-later e m h = ground arith

  lookup_last-here :
      (e : Edge) (m : List (Text × Text))
      → e.dst ≡ some d
      → target_key e.raw e.rel ≡ key
      → is_burned tombstones d ≡ true
      → ((lookup_last key m ≡ none) ⊎ (lookup_last key m ≡ some d))
      → lookup_last key (deleted_row tombstones e ++ m) ≡ some d
  unfolding deleted_row lookup_last
  lookup_last-here e m to same burned h = ground (arith, text_beq_iff (target_key e.raw e.rel) key)

  deleted_targets-some :
      (es : List Edge) (e : Edge)
      → ((x : Edge) → In x es → Agrees x)
      → In e es
      → e.src ≡ src
      → target_key e.raw e.rel ≡ key
      → is_burned tombstones d ≡ true
      → lookup_last key (deleted_targets tombstones es src) ≡ some d
  unfolding deleted_targets
  deleted_targets-some [] e agree i own same burned = absurd i
  deleted_targets-some (x ∷ es) e agree (inl ex) own same burned =
      let rest = deleted_targets-cases es (λ y i. agree y (inr i)) in
      let own' : x.src ≡ src = ap (λ (y : Edge). y.src) (sym ex) ∙ own in
      let same' : target_key x.raw x.rel ≡ key =
        ap (λ (y : Edge). target_key y.raw y.rel) (sym ex) ∙ same in
      rw ((text_beq_iff x.src src).1 own') (
        lookup_last-here x (deleted_targets tombstones es src) (agree x (inl refl) own' same') same'
          burned rest)
  deleted_targets-some (x ∷ es) e agree (inr i) own same burned =
      let ih = deleted_targets-some es e (λ y k. agree y (inr k)) i own same burned in
      elim (Bool-cases (x.src == src)) [
        | inl y ↦ rw y (lookup_last-later x (deleted_targets tombstones es src) ih)
        | inr n ↦ rw n ih
      ]

In-bound_edges :
    (rows : List Row) (deleted : List (Text × Text)) (src : Text) (l : ParsedLink)
    (ls : List ParsedLink)
    → In l ls
    → In (bind_link rows deleted src l).0 (bound_edges rows deleted src ls)
In-bound_edges rows deleted src l [] i = absurd i
In-bound_edges rows deleted src l (m ∷ ls) (inl e) =
    inl (ap (λ (x : ParsedLink). (bind_link rows deleted src x).0) e)
In-bound_edges rows deleted src l (m ∷ ls) (inr i) = inr (In-bound_edges rows deleted src l ls i)

In-statuses :
    (rows : List Row) (deleted : List (Text × Text)) (src : Text) (l : ParsedLink)
    (ls : List ParsedLink)
    → In l ls
    → In (bind_link rows deleted src l).1 (statuses rows deleted src ls)
In-statuses rows deleted src l [] i = absurd i
In-statuses rows deleted src l (m ∷ ls) (inl e) =
    inl (ap (λ (x : ParsedLink). (bind_link rows deleted src x).1) e)
In-statuses rows deleted src l (m ∷ ls) (inr i) = inr (In-statuses rows deleted src l ls i)

-- healing touches no edge that has a target
In-heal :
    (src title : Text) (e : Edge) (es : List Edge)
    → is_null e.dst ≡ false
    → In e es
    → In e (heal src title es)
unfolding heal update_where
In-heal src title e [] bound i = absurd i
In-heal src title e (x ∷ es) bound (inl ex) =
    let kept : is_null x.dst ≡ false = ap (λ (y : Edge). is_null y.dst) (sym ex) ∙ bound in
    rw kept (inl ex)
In-heal src title e (x ∷ es) bound (inr i) = inr (In-heal src title e es bound i)

-- When a live memory is written again, a link of its content that was bound to a deleted memory stays
-- bound to it and is reported as deleted, whatever titles the live memories have. The edges of the
-- memory with that target and relation are taken to agree, as the primary key has it.
pub sync_edges-sticky :
    (s : Store) (title content : Text) (e : Edge) (l : ParsedLink) (d : Text)
    → any (λ r. r.id == e.src) s.memories ≡ true
    → In e s.edges
    → e.dst ≡ some d
    → is_burned s.tombstones d ≡ true
    → ((x : Edge)
        → In x s.edges
        → x.src ≡ e.src
        → target_key x.raw x.rel ≡ target_key e.raw e.rel
        → x.dst ≡ some d)
    → In l (parse_links content)
    → l.raw ≡ e.raw
    → l.rel ≡ e.rel
    → (links : List LinkStatus) × (edges : List Edge) × (sync_edges s e.src title content
        ≡ ok (links, edges))
      × In (record { src = e.src; dst = some d; raw = l.raw; rel = l.rel }) edges
      × In (record { target = l.raw; rel = l.rel; resolved = false; deleted = true }) links
unfolding bind_link
sync_edges-sticky s title content e l d live i to burned agree il eraw erel =
    let key = target_key e.raw e.rel in
    let deleted = deleted_targets s.tombstones s.edges e.src in
    let found : lookup_last key deleted ≡ some d =
      deleted_targets-some s.tombstones e.src key d s.edges e agree i refl refl burned in
    let found' : lookup_last (target_key l.raw l.rel) deleted ≡ some d =
      ap (λ (k : Text). lookup_last k deleted) (cc) ∙ found in
    let edge : Edge = record { src = e.src; dst = some d; raw = l.raw; rel = l.rel } in
    let status : LinkStatus = record {
      target = l.raw;
      rel = l.rel;
      resolved = false;
      deleted = true;
    } in
    let bound : bind_link s.memories deleted e.src l ≡ (edge, status) = rw (found', bind_link) in
    let own = bound_edges s.memories deleted e.src (parse_links content) in
    (
      link_statuses s e.src title content,
      synced_edges s e.src title content,
      sync_edges-ok s e.src title content live,
      In-heal e.src title edge (other_edges s e.src title content ++ own) refl (
          (In-append edge (other_edges s e.src title content) own).1 (
            inr (
              subst (λ b. In b.0 own) bound
                (In-bound_edges s.memories deleted e.src l (parse_links content) il)))),
      subst (λ b. In b.1 (link_statuses s e.src title content)) bound
          (In-statuses s.memories deleted e.src l (parse_links content) il),
    )
