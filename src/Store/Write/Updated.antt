-- ===== src/Store/Write/Updated.antt =====
-- The file behind `Update` of internal/db/memory.go.
use rekam.Prelude.{
  ℕ, ◌+◌, Text, ◌&&◌, none, some, ◌==◌, ◌≡◌, refl, ap, ◌∙◌, subst, inl, inr, arith, leb, text_eq,
  text_beq_iff, nat_eq, update_where, if◌then◌else◌, Bool-cases, Option-cases, All,
}
use rekam.Store.{Row, RevisionRow, Store, row_of, tombstone_of, string, scan_memory}
use rekam.Store.Write.{Updates, revision_row, revision_at, apply_updates}
use rekam.Store.Write.Rows.{row_of-update, row_of_id, revision-snoc}
use rekam.Store.Write.Outcome.{versioned}
use rekam.Store.Write.Sound.{
  is_some, IsSnapshot, IsLive, IsSound, string-null_str, All-synced_edges, weaken-sources,
}

abbrev pub update_state : ℕ → Store → Text → Updates → Text → Text → Row → Store
update_state now s id u author_id agent row =
    versioned
      (record s { memories = update_where (λ r. r.id == id) (apply_updates u now) s.memories })
      (scan_memory (apply_updates u now row)) author_id agent now

module _ (now : ℕ) (s : Store) (id : Text) (u : Updates) (author_id agent : Text) (row : Row)
    (sound : IsSound s) (live : row_of s.memories id ≡ some row) where
  abbrev new_row : Row
  new_row = apply_updates u now row

  abbrev changed : Store
  changed = record s { memories = update_where (λ r. r.id == id) (apply_updates u now) s.memories }

  abbrev updated : Store
  updated = update_state now s id u author_id agent row

  pub row_of-updated :
      (j : Text)
      → row_of (update_state now s id u author_id agent row).memories j
        ≡ (elim (row_of s.memories j) [
          | none ↦ none
          | some r ↦ if id == j then some (apply_updates u now r) else some r
        ])
  unfolding apply_updates
  row_of-updated j = row_of-update s.memories id j (apply_updates u now) (λ r. refl)

  pub revision-updated :
      (j : Text) (v : ℕ)
      → revision_at (update_state now s id u author_id agent row) j v ≡ (elim (revision_at s j v) [
        | some a ↦ some a
        | none ↦
            if row.id == j && (row.version + 1) == v
            then some (revision_row (scan_memory (apply_updates u now row)) author_id agent now)
            else none
      ])
  unfolding revision_at revision_row scan_memory apply_updates
  revision-updated j v =
      revision-snoc s.revisions (revision_row (scan_memory new_row) author_id agent now) j v

  history-updated :
      (j : Text) (v : ℕ) (r : Row)
      → row_of updated.memories j ≡ some r
      → is_some (revision_at updated j v) ≡ (leb 1 v && leb v r.version)
  unfolding apply_updates
  history-updated j v r h = rw revision-updated (
      ground (
        arith,
        row_of-updated j,
        row_of_id s.memories id row live,
        sound.history j v r,
        sound.history id v row live,
        live,
        text_beq_iff id j,
        text_beq_iff row.id j,
      ))

  orphan-updated :
      (j : Text) (v : ℕ) → row_of updated.memories j ≡ none → revision_at updated j v ≡ none
  orphan-updated j v h = rw revision-updated (
      ground (
        arith,
        row_of-updated j,
        row_of_id s.memories id row live,
        live,
        sound.orphan j v,
        text_beq_iff id j,
        text_beq_iff row.id j,
      ))

  burned-updated :
      (j : Text) (r : Row)
      → row_of updated.memories j ≡ some r
      → tombstone_of updated.tombstones j ≡ none
  burned-updated j r h = elim (Option-cases (row_of s.memories j)) [
    | inl e ↦ absurd (ground (arith, row_of-updated j))
    | inr (r', e) ↦ sound.burned j r' e
  ]

  IsLive-updated : (j : Text) → IsLive s.memories j → IsLive updated.memories j
  IsLive-updated j (r, h) = elim (Bool-cases (id == j)) [
    | inl same ↦ (apply_updates u now r, ground (arith, row_of-updated j))
    | inr other ↦ (r, ground (arith, row_of-updated j))
  ]

  sources-updated : All (λ e. IsLive updated.memories e.src) updated.edges
  unfolding scan_memory apply_updates
  sources-updated =
      All-synced_edges (IsLive updated.memories) changed (scan_memory new_row).id
        (scan_memory new_row).title (scan_memory new_row).content
        (IsLive-updated row.id
          (row, ap (row_of s.memories) (row_of_id s.memories id row live) ∙ live))
        (weaken-sources s.memories updated.memories s.edges IsLive-updated sound.sources)

  IsSnapshot-updated : IsSnapshot (revision_row (scan_memory new_row) author_id agent now) new_row
  unfolding revision_row scan_memory
  IsSnapshot-updated = record {
    title = refl;
    content = string-null_str (string new_row.content);
    taxonomy = string-null_str (string new_row.taxonomy);
    format = refl;
  }

  revision-new :
      (j : Text)
      → id ≡ j
      → revision_at s j (row.version + 1) ≡ none
      → revision_at updated j new_row.version
        ≡ some (revision_row (scan_memory new_row) author_id agent now)
  unfolding apply_updates
  revision-new j same e =
      rw revision-updated (ground (arith, row_of_id s.memories id row live, text_beq_iff row.id j))

  current-updated :
      (j : Text) (r : Row)
      → row_of updated.memories j ≡ some r
      → (rev : RevisionRow) × (revision_at updated j r.version ≡ some rev) × IsSnapshot rev r
  current-updated j r h = elim (Bool-cases (id == j)) [
    | inl same ↦
        let e : new_row ≡ r = ground (arith, row_of-updated j, live, text_beq_iff id j) in
        let none_yet : revision_at s j (row.version + 1) ≡ none =
          ground (arith, sound.history id (row.version + 1) row live, text_beq_iff id j) in
        subst
          (λ x.
            (rev : RevisionRow) × (revision_at updated j x.version ≡ some rev) × IsSnapshot rev x)
          e
          (
            revision_row (scan_memory new_row) author_id agent now,
            revision-new j ((text_beq_iff id j).0 same) none_yet,
            IsSnapshot-updated,
          )
    | inr other ↦
        let (rev, at, snap) = sound.current j r (ground (arith, row_of-updated j)) in
        (rev, rw revision-updated (rw at), snap)
  ]

  pub updated-IsSound : IsSound (update_state now s id u author_id agent row)
  updated-IsSound = record {
    history = history-updated;
    orphan = orphan-updated;
    current = current-updated;
    burned = burned-updated;
    sources = sources-updated;
  }
