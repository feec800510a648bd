-- ===== src/Store/Write/Rebuild.antt =====
-- `RebuildEdges` of internal/db/memory.go, and what it does to references to deleted memories.
use rekam.Prelude.{
  Text, Bool, true, false, ◌&&◌, not, List, [], ◌∷◌, none, some, ◌==◌, ◌≡◌, ◌≢◌, refl, ap, ◌⊎◌, inl,
  inr, arith, text_eq, text_beq_iff, any, find, select, update_where, Bool-cases, Option-cases, All,
  All-append, All-of-In, All-at, In, any-of-find-some, any-of-find-none, find-some, find-none,
}
use rekam.Links.{ParsedLink, parse_links, normalize_link}
use rekam.Store.{
  Row, Edge, TombstoneRow, Tombstone, Store, ok, row_of, title_key, tombstone_of, tombstone, string,
}
use rekam.Store.Edges.{is_null, lookup_last, deleted_row, deleted_targets, resolve, bind_link, heal}
use rekam.Store.Edges.Sync.{bound_edges, synced_edges, sync_edges-ok}
use rekam.Store.Write.{sync_all, rebuild_edges}
use rekam.Store.Write.Sound.{IsSound, IsLive}

-- an edge is dangling or points at a live memory
abbrev pub TargetIsLive : Store → Edge → Type 0
TargetIsLive s e = (e.dst ≡ none) ⊎ ((d : Text) × (e.dst ≡ some d) × IsLive s.memories d)

In-IsLive : (rows : List Row) (r : Row) → In r rows → IsLive rows r.id
unfolding row_of
In-IsLive rows r i = elim (Option-cases (find (λ x. x.id == r.id) rows)) [
  | inr (q, e) ↦ (q, e)
  | inl e ↦
      let no =
        All-at (λ x. (x.id == r.id) ≡ false) r rows (find-none (λ x. x.id == r.id) rows e) i in
      absurd (ground (arith, text_beq_iff r.id r.id))
]

All-IsLive : (rows : List Row) → All (λ r. IsLive rows r.id) rows
All-IsLive rows = All-of-In rows (In-IsLive rows)

module _ (s : Store) (sound : IsSound s) where
  not_burned : (d : Text) → IsLive s.memories d → any (λ t. t.memory_id == d) s.tombstones ≡ false
  unfolding tombstone_of
  not_burned d (r, h) =
      any-of-find-none (λ (t : TombstoneRow). t.memory_id == d) s.tombstones
        (ground (arith, sound.burned d r h))

  deleted_row-nil : (e : Edge) → TargetIsLive s e → deleted_row s.tombstones e ≡ []
  unfolding deleted_row
  deleted_row-nil e (inl n) = ground arith
  deleted_row-nil e (inr (d, to, live)) = ground (arith, not_burned d live)

  deleted_targets-nil :
      (es : List Edge) (src : Text)
      → All (TargetIsLive s) es
      → deleted_targets s.tombstones es src ≡ []
  unfolding deleted_targets
  deleted_targets-nil [] src h = refl
  deleted_targets-nil (e ∷ es) src h =
      ground (arith, deleted_row-nil e h.0, deleted_targets-nil es src h.1)

  resolve-IsLive :
      (raw src : Text)
      → (resolve s.memories raw src ≡ none)
        ⊎ ((d : Text) × (resolve s.memories raw src ≡ some d) × IsLive s.memories d)
  unfolding resolve
  resolve-IsLive raw src =
      let p = λ (r : Row). title_key r.title == raw && not (r.id == src) in
      elim (Option-cases (find p s.memories)) [
        | inl e ↦ inl (rw (e, resolve))
        | inr (r, e) ↦
            inr (r.id, rw (e, resolve), In-IsLive s.memories r (find-some p s.memories r e).0)
      ]

  bind_link-live : (src : Text) (l : ParsedLink) → TargetIsLive s (bind_link s.memories [] src l).0
  unfolding bind_link lookup_last
  bind_link-live src l = resolve-IsLive l.raw src

  bound_edges-live :
      (src : Text) (ls : List ParsedLink) → All (TargetIsLive s) (bound_edges s.memories [] src ls)
  bound_edges-live src [] = tt
  bound_edges-live src (l ∷ ls) = (bind_link-live src l, bound_edges-live src ls)

  heal-live :
      (src title : Text) (es : List Edge)
      → IsLive s.memories src
      → All (TargetIsLive s) es
      → All (TargetIsLive s) (heal src title es)
  unfolding heal update_where
  heal-live src title [] live h = tt
  heal-live src title (e ∷ es) live h =
      elim (Bool-cases (is_null e.dst && (e.raw == normalize_link title && not (e.src == src)))) [
        | inl y ↦ rw y (inr (src, refl, live), heal-live src title es live h.1)
        | inr n ↦ rw n (h.0, heal-live src title es live h.1)
      ]

  select-live :
      (p : Edge → Bool) (es : List Edge)
      → All (TargetIsLive s) es
      → All (TargetIsLive s) (select p es)
  unfolding select
  select-live p [] h = tt
  select-live p (e ∷ es) h = elim (Bool-cases (p e)) [
    | inl y ↦ rw y (h.0, select-live p es h.1)
    | inr n ↦ rw n (select-live p es h.1)
  ]

  synced-live :
      (es : List Edge) (src title content : Text)
      → IsLive s.memories src
      → All (TargetIsLive s) es
      → All (TargetIsLive s) (synced_edges (record s { edges = es }) src title content)
  synced-live es src title content live h =
      let own = bound_edges-live src (parse_links content) in
      heal-live src title _ live (
        (All-append (TargetIsLive s) (select (λ e. not (e.src == src)) es) _).1
          (select-live (λ e. not (e.src == src)) es h, rw (deleted_targets-nil es src h) own))

  sync_all-live :
      (rows : List Row) (es : List Edge)
      → All (λ r. IsLive s.memories r.id) rows
      → All (TargetIsLive s) es
      → (es' : List Edge) × (sync_all rows (record s { edges = es })
          ≡ ok (record s { edges = es' }))
        × All (TargetIsLive s) es'
  unfolding sync_all
  sync_all-live [] es live h = (es, refl, h)
  sync_all-live (r ∷ rows) es live h =
      let there : any (λ (x : Row). x.id == r.id) s.memories ≡ true =
        unfold row_of in
        any-of-find-some (λ (x : Row). x.id == r.id) s.memories live.0.0 live.0.1 in
      let done = sync_edges-ok (record s { edges = es }) r.id r.title (string r.content) there in
      let es' = synced_edges (record s { edges = es }) r.id r.title (string r.content) in
      let (out, e, k) =
        sync_all-live rows es' live.1 (synced-live es r.id r.title (string r.content) live.0 h) in
      (out, rw done e, k)

-- Rebuilding the edges of a sound file succeeds, changes no other table, and leaves no edge that
-- points at a deleted memory: a reference that deletion and later edits keep is lost here.
pub rebuild_edges_lem :
    (s : Store)
    → IsSound s
    → (edges : List Edge) × (rebuild_edges s ≡ ok (record s { edges = edges }))
      × ((d : Text) (ts : Tombstone) → tombstone s d ≡ some ts → All (λ e. e.dst ≢ some d) edges)
unfolding rebuild_edges tombstone
rebuild_edges_lem s sound =
    let (es, done, live) = sync_all-live s sound s.memories [] (All-IsLive s.memories) tt in
    (
      es,
      done,
      λ d ts burned. All-of-In es (λ e i to. elim (All-at (TargetIsLive s) e es live i) [
        | inl n ↦ cc
        | inr (d', to', (r, l)) ↦
            let same : d' ≡ d = cc in cc (sound.burned d' r l, ap (tombstone_of s.tombstones) same)
      ]),
    )
