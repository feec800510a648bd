-- ===== src/Store/Write.antt =====
-- internal/db/memory.go: `Insert`, `insertRevision`, `Update`, `Delete` and `RebuildEdges`.
pub mod Rows
pub mod Outcome
pub mod Sound
pub mod Inserted
pub mod Updated
pub mod Removed
pub mod Keeps
pub mod Burned
pub mod History
pub mod Titles
pub mod Rebuild
use rekam.Prelude.{
  ℕ, ◌+◌, Text, Bool, true, false, ◌&&◌, ◌||◌, not, List, [], ◌∷◌, ◌++◌, Option, none, some, ◌==◌,
  text_eq, text_beq, nat_eq, find, any, select, update_where, if◌then◌else◌,
}
use rekam.Store.{
  Row, Memory, Edge, LinkStatus, RevisionRow, TombstoneRow, SrsRow, Store, Error, version_conflict,
  title_conflict, Result, ok, err, ◌>>=◌, ◌>>◌, reject_if, null_str, string, format_or_default,
  scan_memory, row_of, missing, title_holder,
}
use rekam.Store.Edges.{sync_edges}

-- the fields that a caller of `Insert` sets
pub record Input : Type 0 where
  pub title : Text
  pub content : Text
  pub taxonomy : Text
  pub format : Text

-- the columns that a caller of `Update` may set
pub record Updates : Type 0 where
  pub title : Option Text
  pub content : Option Text
  pub taxonomy : Option Text
  pub format : Option Text

unfoldable pub revision_row : Memory → Text → Text → ℕ → RevisionRow
unfolding null_str format_or_default
revision_row mem author_id agent at = record {
  memory_id = mem.id;
  version = mem.version;
  title = mem.title;
  content = null_str mem.content;
  taxonomy = null_str mem.taxonomy;
  format = format_or_default mem.format;
  author_id = null_str author_id;
  agent = null_str agent;
  created_at = at;
}

-- the primary key (memory_id, version)
abbrev pub is_revision : Text → ℕ → RevisionRow → Bool
is_revision id version r = r.memory_id == id && r.version == version

unfoldable pub insert_revision : Store → Memory → Text → Text → ℕ → Result Store
insert_revision s mem author_id agent at = do
  reject_if (any (is_revision mem.id mem.version) s.revisions)
  reject_if (not (any (λ r. r.id == mem.id) s.memories))
  ok (record s { revisions = s.revisions ++ revision_row mem author_id agent at ∷ [] })

unfoldable pub new_memory : Text → ℕ → Input → Memory
new_memory uuid now input = record {
  id = uuid;
  title = input.title;
  content = input.content;
  taxonomy = input.taxonomy;
  format = input.format;
  created_at = now;
  updated_at = now;
  version = 1;
}

unfoldable pub memory_row : Memory → Row
unfolding null_str format_or_default
memory_row mem = record {
  id = mem.id;
  title = mem.title;
  content = null_str mem.content;
  taxonomy = null_str mem.taxonomy;
  format = format_or_default mem.format;
  created_at = mem.created_at;
  updated_at = mem.updated_at;
  version = mem.version;
}

-- INSERT INTO memories, with its primary key
unfoldable pub insert_row : Store → Row → Result Store
unfolding any text_beq
insert_row s row = do
  reject_if (any (λ r. r.id == row.id) s.memories)
  ok (record s { memories = s.memories ++ row ∷ [] })

-- What both writes end with: the revision of the memory as it now is, and its edges.
unfoldable pub record_version :
    Store → Memory → Text → Text → ℕ → Result (Memory × List LinkStatus × Store)
record_version s mem author_id agent now = do
  s' ← insert_revision s mem author_id agent now
  (links, edges) ← sync_edges s' mem.id mem.title mem.content
  ok (mem, links, record s' { edges = edges })

-- `uuid` is what `uuid.New` gives and `now` what the clock says.
unfoldable pub insert :
    Text → ℕ → Store → Input → Text → Text → Result (Memory × List LinkStatus × Store)
insert uuid now s input author_id agent =
    let mem = new_memory uuid now input in
    elim (title_holder s.memories mem.title mem.id) [
      | some other ↦ err (title_conflict mem.title other)
      | none ↦ (do s' ← insert_row s (memory_row mem); record_version s' mem author_id agent now)
    ]

abbrev pub or_old : Option Text → Text → Text
or_old none old = old
or_old (some t) old = t

-- a column is set to the text that is given, also to the empty one
abbrev pub or_old_column : Option Text → Option Text → Option Text
or_old_column none old = old
or_old_column (some t) old = some t

unfoldable pub apply_updates : Updates → ℕ → Row → Row
apply_updates u now r = record r {
  title = or_old u.title r.title;
  content = or_old_column u.content r.content;
  taxonomy = or_old_column u.taxonomy r.taxonomy;
  format = or_old u.format r.format;
  updated_at = now;
  version = r.version + 1;
}

-- the compare-and-swap test
unfoldable pub is_stale : Option ℕ → ℕ → Bool
is_stale none current = false
is_stale (some base) current = not (base == current)

abbrev pub or_zero : Option ℕ → ℕ
or_zero none = 0
or_zero (some n) = n

abbrev pub retitled : List Row → Option Text → Text → Option Text
retitled rows none id = none
retitled rows (some title) id = title_holder rows title id

unfoldable pub update :
    ℕ → Store → Text → Updates → Text → Text → Option ℕ → Result (Memory × List LinkStatus × Store)
update now s id u author_id agent base = elim (row_of s.memories id) [
  | none ↦ err (missing s id)
  | some row ↦
      if is_stale base row.version
      then err (version_conflict id (or_zero base) row.version)
      else elim (retitled s.memories u.title id) [
        | some other ↦ err (title_conflict (or_old u.title row.title) other)
        | none ↦
            let rows = update_where (λ r. r.id == id) (apply_updates u now) s.memories in
            record_version (record s { memories = rows }) (scan_memory (apply_updates u now row))
              author_id agent now
      ]
]

unfoldable pub tombstone_row : Row → Text → ℕ → TombstoneRow
unfolding null_str
tombstone_row r deleted_by now = record {
  memory_id = r.id;
  title = r.title;
  taxonomy = null_str (string r.taxonomy);
  created_at = r.created_at;
  deleted_at = now;
  deleted_by = null_str deleted_by;
  final_version = r.version;
}

-- DELETE FROM memories, with the cascades on `edges`, `srs` and `revisions`
unfoldable pub delete_rows : Text → Store → Store
unfolding select text_beq
delete_rows id s = record s {
  memories = select (λ r. not (r.id == id)) s.memories;
  edges = select (λ e. not (e.src == id)) s.edges;
  revisions = select (λ r. not (r.memory_id == id)) s.revisions;
  srs = select (λ r. not (r.memory_id == id)) s.srs;
}

unfoldable pub delete : ℕ → Store → Text → Text → Result Store
delete now s id deleted_by = elim (row_of s.memories id) [
  | none ↦ err (missing s id)
  | some row ↦ (do
    reject_if (any (λ t. t.memory_id == row.id) s.tombstones)
    ok (
        delete_rows id
          (record s { tombstones = s.tombstones ++ tombstone_row row deleted_by now ∷ [] })))
]

-- the loop of `RebuildEdges` over the memories
unfoldable pub sync_all : List Row → Store → Result Store
sync_all [] s = ok s
sync_all (r ∷ rows) s = do
  (links, edges) ← sync_edges s r.id r.title (string r.content)
  sync_all rows (record s { edges = edges })

unfoldable pub rebuild_edges : Store → Result Store
rebuild_edges s = sync_all s.memories (record s { edges = [] })

unfoldable pub revision_at : Store → Text → ℕ → Option RevisionRow
unfolding find text_beq
revision_at s id version = find (is_revision id version) s.revisions
