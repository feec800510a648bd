-- ===== src/Store/Write/Inserted.antt =====
-- The file behind `Insert` of internal/db/memory.go.
use rekam.Prelude.{
  ℕ, Text, ◌&&◌, none, some, ◌==◌, ◌≡◌, refl, sym, subst, inl, inr, arith, leb, text_eq,
  text_beq_iff, nat_eq, if◌then◌else◌, Bool-cases, All,
}
use rekam.Store.{Row, Memory, RevisionRow, Store, row_of, tombstone_of}
use rekam.Store.Write.{Input, revision_row, revision_at, new_memory, memory_row}
use rekam.Store.Write.Rows.{row_of-snoc, revision-snoc}
use rekam.Store.Write.Outcome.{versioned, with_row}
use rekam.Store.Write.Sound.{
  is_some, IsSnapshot, IsLive, IsSound, format_or_default_idem, All-synced_edges, weaken-sources,
}

abbrev pub insert_state : Text → ℕ → Store → Input → Text → Text → Store
insert_state uuid now s input author_id agent =
    let mem = new_memory uuid now input in
    versioned (with_row s (memory_row mem)) mem author_id agent now

module _ (uuid : Text) (now : ℕ) (s : Store) (input : Input) (author_id agent : Text)
    (sound : IsSound s) (new : row_of s.memories uuid ≡ none)
    (unburned : tombstone_of s.tombstones uuid ≡ none) where
  abbrev mem : Memory
  mem = new_memory uuid now input

  abbrev inserted : Store
  inserted = insert_state uuid now s input author_id agent

  pub row_of-inserted :
      (j : Text)
      → row_of (insert_state uuid now s input author_id agent).memories j
        ≡ (if uuid == j then some (memory_row (new_memory uuid now input)) else row_of s.memories j)
  unfolding new_memory memory_row
  row_of-inserted j = row_of-snoc s.memories (memory_row mem) j new

  pub revision-inserted :
      (j : Text) (v : ℕ)
      → revision_at (insert_state uuid now s input author_id agent) j v
        ≡ (elim (revision_at s j v) [
          | some a ↦ some a
          | none ↦
              if uuid == j && 1 == v
              then some (revision_row (new_memory uuid now input) author_id agent now)
              else none
        ])
  unfolding revision_at new_memory revision_row
  revision-inserted j v = revision-snoc s.revisions (revision_row mem author_id agent now) j v

  history-inserted :
      (j : Text) (v : ℕ) (r : Row)
      → row_of inserted.memories j ≡ some r
      → is_some (revision_at inserted j v) ≡ (leb 1 v && leb v r.version)
  unfolding new_memory memory_row
  history-inserted j v r h = rw revision-inserted (
      ground (
        arith,
        row_of-inserted j,
        sound.history j v r,
        sound.orphan uuid v new,
        text_beq_iff uuid j,
      ))

  orphan-inserted :
      (j : Text) (v : ℕ) → row_of inserted.memories j ≡ none → revision_at inserted j v ≡ none
  orphan-inserted j v h = rw revision-inserted (ground (arith, row_of-inserted j, sound.orphan j v))

  IsSnapshot-inserted : IsSnapshot (revision_row mem author_id agent now) (memory_row mem)
  unfolding revision_row memory_row new_memory
  IsSnapshot-inserted = record {
    title = refl;
    content = refl;
    taxonomy = refl;
    format = sym (format_or_default_idem input.format);
  }

  current-inserted :
      (j : Text) (r : Row)
      → row_of inserted.memories j ≡ some r
      → (rev : RevisionRow) × (revision_at inserted j r.version ≡ some rev) × IsSnapshot rev r
  current-inserted j r h = elim (Bool-cases (uuid == j)) [
    | inl same ↦
        let e : memory_row mem ≡ r = ground (arith, row_of-inserted j) in
        let none_yet : revision_at s j 1 ≡ none =
          ground (arith, text_beq_iff uuid j, sound.orphan uuid 1 new) in
        subst
          (λ x.
            (rev : RevisionRow) × (revision_at inserted j x.version ≡ some rev) × IsSnapshot rev x)
          e
          (
            revision_row mem author_id agent now,
            unfold new_memory memory_row in rw revision-inserted (rw (none_yet, same)),
            IsSnapshot-inserted,
          )
    | inr other ↦
        let (rev, at, snap) = sound.current j r (ground (arith, row_of-inserted j)) in
        (rev, rw revision-inserted (rw at), snap)
  ]

  burned-inserted :
      (j : Text) (r : Row)
      → row_of inserted.memories j ≡ some r
      → tombstone_of inserted.tombstones j ≡ none
  burned-inserted j r h = ground (arith, row_of-inserted j, sound.burned j r, text_beq_iff uuid j)

  IsLive-inserted : (j : Text) → IsLive s.memories j → IsLive inserted.memories j
  IsLive-inserted j (r, h) = elim (Bool-cases (uuid == j)) [
    | inl same ↦ (memory_row mem, ground (arith, row_of-inserted j))
    | inr other ↦ (r, ground (arith, row_of-inserted j))
  ]

  sources-inserted : All (λ e. IsLive inserted.memories e.src) inserted.edges
  unfolding new_memory
  sources-inserted =
      All-synced_edges (IsLive inserted.memories) (with_row s (memory_row mem)) uuid input.title
        input.content (memory_row mem, ground (arith, row_of-inserted uuid, text_beq_iff uuid uuid))
        (weaken-sources s.memories inserted.memories s.edges IsLive-inserted sound.sources)

  pub inserted-IsSound : IsSound (insert_state uuid now s input author_id agent)
  inserted-IsSound = record {
    history = history-inserted;
    orphan = orphan-inserted;
    current = current-inserted;
    burned = burned-inserted;
    sources = sources-inserted;
  }
