-- ===== src/Store/Write/Removed.antt =====
-- The file behind `Delete` of internal/db/memory.go.
use rekam.Prelude.{
  ℕ, Text, not, List, [], ◌∷◌, ◌++◌, none, some, ◌==◌, ◌≡◌, inl, inr, arith, text_eq, text_beq_iff,
  nat_eq, select, if◌then◌else◌, Bool-cases, All, find-snoc,
}
use rekam.Store.{Row, Edge, TombstoneRow, Store, row_of, tombstone_of}
use rekam.Store.Write.{revision_at, tombstone_row, delete_rows}
use rekam.Store.Write.Rows.{row_of-delete, row_of_id, revision-delete}
use rekam.Store.Write.Sound.{IsLive, IsSound}

abbrev pub delete_state : ℕ → Store → Text → Text → Row → Store
delete_state now s id deleted_by row =
    delete_rows id (record s { tombstones = s.tombstones ++ tombstone_row row deleted_by now ∷ [] })

module _ (now : ℕ) (s : Store) (id deleted_by : Text) (row : Row) (sound : IsSound s)
    (live : row_of s.memories id ≡ some row) where
  abbrev removed : Store
  removed = delete_state now s id deleted_by row

  pub row_of-removed :
      (j : Text)
      → row_of (delete_state now s id deleted_by row).memories j
        ≡ (if id == j then none else row_of s.memories j)
  unfolding delete_rows
  row_of-removed j = row_of-delete s.memories id j

  pub revision-removed :
      (j : Text) (v : ℕ)
      → revision_at (delete_state now s id deleted_by row) j v
        ≡ (if id == j then none else revision_at s j v)
  unfolding delete_rows revision_at
  revision-removed j v = revision-delete s.revisions id j v

  burned-removed :
      (j : Text) (r : Row)
      → row_of removed.memories j ≡ some r
      → tombstone_of removed.tombstones j ≡ none
  unfolding delete_rows tombstone_of tombstone_row
  burned-removed j r h = ground (
    arith,
    row_of-removed j,
    row_of_id s.memories id row live,
    text_beq_iff row.id j,
    text_beq_iff id j,
    sound.burned j r,
    find-snoc (λ (t : TombstoneRow). t.memory_id == j) s.tombstones
        (tombstone_row row deleted_by now),
  )

  sources-of :
      (es : List Edge)
      → All (λ e. IsLive s.memories e.src) es
      → All (λ e. IsLive removed.memories e.src) (select (λ e. not (e.src == id)) es)
  unfolding select
  sources-of [] h = tt
  sources-of (e ∷ es) h = elim (Bool-cases (e.src == id)) [
    | inl y ↦ rw y (sources-of es h.1)
    | inr n ↦
        let (r, q) = h.0 in
        rw n (
          (r, ground (arith, row_of-removed e.src, text_beq_iff e.src id, text_beq_iff id e.src)),
          sources-of es h.1,
        )
  ]

  pub removed-IsSound : IsSound (delete_state now s id deleted_by row)
  unfolding delete_rows
  removed-IsSound = record {
    history =
        λ j v r h. rw revision-removed (ground (arith, row_of-removed j, sound.history j v r));
    orphan = λ j v h. rw revision-removed (ground (arith, row_of-removed j, sound.orphan j v));
    current = λ j r h.
        let (rev, at, snap) = sound.current j r (ground (arith, row_of-removed j)) in
        (rev, ground (arith, row_of-removed j, revision-removed j r.version), snap);
    burned = burned-removed;
    sources = sources-of s.edges sound.sources;
  }
