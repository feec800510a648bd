-- ===== src/Store/Write/Outcome.antt =====
-- The state that each write of internal/db/memory.go leaves, where it succeeds.
use rekam.Prelude.{
  ℕ, ◌+◌, Text, true, false, List, [], ◌∷◌, ◌++◌, Option, none, some, ◌==◌, ◌≡◌, refl, ap, ◌∙◌, inl,
  inr, arith, text_eq, text_beq_iff, nat_eq, find, any, update_where, Bool-cases, Option-cases,
  any-of-find-none, any-of-find-some,
}
use rekam.Store.{Row, Memory, LinkStatus, Store, ok, row_of, title_holder, scan_memory}
use rekam.Store.Edges.Sync.{synced_edges, link_statuses, sync_edges-ok}
use rekam.Store.Write.{
  Input, Updates, is_revision, revision_row, insert_revision, new_memory, memory_row, insert_row,
  record_version, insert, apply_updates, is_stale, retitled, update, tombstone_row, delete_rows,
  delete,
}
use rekam.Store.Write.Rows.{row_of-snoc, row_of-update, row_of_id}

-- the state behind `record_version`
abbrev pub versioned : Store → Memory → Text → Text → ℕ → Store
versioned s mem author_id agent now = record s {
  revisions = s.revisions ++ revision_row mem author_id agent now ∷ [];
  edges = synced_edges s mem.id mem.title mem.content;
}

row_of-any :
    (rows : List Row) (id : Text) (r : Row)
    → row_of rows id ≡ some r
    → any (λ x. x.id == id) rows ≡ true
unfolding row_of
row_of-any rows id r h = any-of-find-some (λ x. x.id == id) rows r h

row_of-none-any :
    (rows : List Row) (id : Text) → row_of rows id ≡ none → any (λ x. x.id == id) rows ≡ false
unfolding row_of
row_of-none-any rows id h = any-of-find-none (λ x. x.id == id) rows h

pub record_version-ok :
    (s : Store) (mem : Memory) (author_id agent : Text) (now : ℕ) (r : Row)
    → find (is_revision mem.id mem.version) s.revisions ≡ none
    → row_of s.memories mem.id ≡ some r
    → record_version s mem author_id agent now
      ≡ ok (mem, link_statuses s mem.id mem.title mem.content, versioned s mem author_id agent now)
unfolding record_version insert_revision
record_version-ok s mem author_id agent now r new live =
    let there = row_of-any s.memories mem.id r live in
    let s' = record s { revisions = s.revisions ++ revision_row mem author_id agent now ∷ [] } in
    rw (
      any-of-find-none (is_revision mem.id mem.version) s.revisions new,
      there,
      sync_edges-ok s' mem.id mem.title mem.content there,
    )

abbrev pub with_row : Store → Row → Store
with_row s row = record s { memories = s.memories ++ row ∷ [] }

pub insert-ok :
    (uuid : Text) (now : ℕ) (s : Store) (input : Input) (author_id agent : Text)
    → title_holder s.memories input.title uuid ≡ none
    → row_of s.memories uuid ≡ none
    → find (is_revision uuid 1) s.revisions ≡ none
    → let mem = new_memory uuid now input in
      let s' = with_row s (memory_row mem) in
      insert uuid now s input author_id agent
      ≡ ok (
        mem,
        link_statuses s' uuid input.title input.content,
        versioned s' mem author_id agent now,
      )
unfolding insert new_memory memory_row insert_row
insert-ok uuid now s input author_id agent free new clean =
    let mem = new_memory uuid now input in
    let s' = with_row s (memory_row mem) in
    let there : row_of s'.memories uuid ≡ some (memory_row mem) =
      rw (row_of-snoc s.memories (memory_row mem) uuid new, (text_beq_iff uuid uuid).1 refl) in
    rw (free, row_of-none-any s.memories uuid new, insert)
      (record_version-ok s' mem author_id agent now (memory_row mem) clean there)

pub update-ok :
    (now : ℕ) (s : Store) (id : Text) (u : Updates) (author_id agent : Text) (base : Option ℕ)
    (row : Row)
    → row_of s.memories id ≡ some row
    → is_stale base row.version ≡ false
    → retitled s.memories u.title id ≡ none
    → find (is_revision id (row.version + 1)) s.revisions ≡ none
    → let mem = scan_memory (apply_updates u now row) in
      let s' = record s {
        memories = update_where (λ r. r.id == id) (apply_updates u now) s.memories;
      } in
      update now s id u author_id agent base
      ≡ ok
          (mem, link_statuses s' mem.id mem.title mem.content, versioned s' mem author_id agent now)
unfolding update apply_updates scan_memory
update-ok now s id u author_id agent base row live fresh free new =
    let row' = apply_updates u now row in
    let same = row_of_id s.memories id row live in
    let rows = update_where (λ r. r.id == id) (apply_updates u now) s.memories in
    let s' = record s { memories = rows } in
    let there : row_of rows id ≡ some row' = rw (
      row_of-update s.memories id id (apply_updates u now) (λ r. refl),
      live,
      (text_beq_iff id id).1 refl,
    ) in
    rw (live, fresh, free, update)
      (record_version-ok s' (scan_memory row') author_id agent now row'
        (ap (λ (i : Text). find (is_revision i (row.version + 1)) s.revisions) same ∙ new)
        (ap (row_of rows) same ∙ there))

-- What a write that succeeds has found.
pub insert_found :
    (uuid : Text) (now : ℕ) (s : Store) (input : Input) (author_id agent : Text)
    {out : Memory × List LinkStatus × Store}
    → insert uuid now s input author_id agent ≡ ok out
    → (title_holder s.memories input.title uuid ≡ none) × (row_of s.memories uuid ≡ none)
unfolding insert new_memory memory_row insert_row
insert_found uuid now s input author_id agent h =
    elim (Option-cases (title_holder s.memories input.title uuid)) [
      | inr (other, e) ↦ absurd (ground arith)
      | inl e ↦ elim (Option-cases (row_of s.memories uuid)) [
        | inl new ↦ (e, new)
        | inr (r, there) ↦ absurd (ground (arith, row_of-any s.memories uuid r there))
      ]
    ]

pub update_found :
    (now : ℕ) (s : Store) (id : Text) (u : Updates) (author_id agent : Text) (base : Option ℕ)
    {out : Memory × List LinkStatus × Store}
    → update now s id u author_id agent base ≡ ok out
    → (row : Row) × (row_of s.memories id ≡ some row)
      × (is_stale base row.version ≡ false)
      × (retitled s.memories u.title id ≡ none)
unfolding update
update_found now s id u author_id agent base h = elim (Option-cases (row_of s.memories id)) [
  | inl e ↦ absurd (ground arith)
  | inr (row, e) ↦ elim (Bool-cases (is_stale base row.version)) [
    | inl stale ↦ absurd (ground arith)
    | inr fresh ↦ elim (Option-cases (retitled s.memories u.title id)) [
      | inr (other, t) ↦ absurd (ground arith)
      | inl t ↦ (row, e, fresh, t)
    ]
  ]
]

pub delete_found :
    (now : ℕ) (s : Store) (id deleted_by : Text) {t : Store}
    → delete now s id deleted_by ≡ ok t
    → (row : Row) × (row_of s.memories id ≡ some row)
      × (t
          ≡ delete_rows id
              (record s { tombstones = s.tombstones ++ tombstone_row row deleted_by now ∷ [] }))
unfolding delete
delete_found now s id deleted_by h = elim (Option-cases (row_of s.memories id)) [
  | inl e ↦ absurd (ground arith)
  | inr (row, e) ↦ elim (Bool-cases (any (λ t. t.memory_id == row.id) s.tombstones)) [
    | inl taken ↦ absurd (ground arith)
    | inr free ↦ (row, e, ground arith)
  ]
]
