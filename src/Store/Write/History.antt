-- ===== src/Store/Write/History.antt =====
-- Reading behind a write of internal/db/memory.go: the new version, the others, and the history.
use rekam.Prelude.{
  ℕ, ◌+◌, Text, List, none, some, ◌==◌, ◌≡◌, ◌≢◌, ap, ◌∙◌, arith, text_eq, text_beq_iff, nat_eq,
  if◌then◌else◌,
}
use rekam.Store.{Row, Memory, LinkStatus, Store, ok, err, row_of, format_or_default, scan_memory}
use rekam.Store.Edges.Sync.{link_statuses}
use rekam.Store.Write.{
  Input, Updates, is_stale, new_memory, memory_row, insert, apply_updates, update,
}
use rekam.Store.Write.Rows.{row_of-snoc}
use rekam.Store.Write.Outcome.{with_row, insert-ok}
use rekam.Store.Write.Sound.{IsSound, string-null_str}
use rekam.Store.Write.Inserted.{insert_state}
use rekam.Store.Write.Updated.{row_of-updated}
use rekam.Store.{version_conflict, title_conflict, get, missing, title_holder}
use rekam.Store.Write.Keeps.{update-result, update-IsSound, no_revision}

scan-memory_row :
    (m : Memory) → scan_memory (memory_row m) ≡ record m { format = format_or_default m.format }
unfolding scan_memory memory_row
scan-memory_row m = cc (string-null_str m.content, string-null_str m.taxonomy)

module _ (uuid : Text) (now : ℕ) (s : Store) (input : Input) (author_id agent : Text)
    (new : row_of s.memories uuid ≡ none) where
  row_of-after :
      (j : Text)
      → row_of (insert_state uuid now s input author_id agent).memories j
        ≡ (if uuid == j then some (memory_row (new_memory uuid now input)) else row_of s.memories j)
  unfolding new_memory memory_row
  row_of-after j = row_of-snoc s.memories (memory_row (new_memory uuid now input)) j new

  get-inserted :
      get (insert_state uuid now s input author_id agent) uuid
      ≡ ok (record (new_memory uuid now input) { format = format_or_default input.format })
  unfolding get new_memory
  get-inserted = ground (
    arith,
    row_of-after uuid,
    text_beq_iff uuid uuid,
    scan-memory_row (new_memory uuid now input),
  )

  get-not_inserted :
      (j : Text) → j ≢ uuid → get (insert_state uuid now s input author_id agent) j ≡ get s j
  unfolding get missing
  get-not_inserted j ne = ground (arith, row_of-after j, text_beq_iff uuid j)

-- Inserting under a new id fails exactly by a title conflict, with the id of the memory that holds
-- the title, and otherwise succeeds. The id then reads as what was written, at version 1, and every
-- other id reads as before.
pub insert_lem :
    (uuid : Text) (now : ℕ) (s : Store) (input : Input) (author_id agent : Text)
    → IsSound s
    → row_of s.memories uuid ≡ none
    → ((other : Text)
        → title_holder s.memories input.title uuid ≡ some other
        → insert uuid now s input author_id agent ≡ err (title_conflict input.title other))
      × (title_holder s.memories input.title uuid ≡ none
          → (links : List LinkStatus) × (t : Store) × (insert uuid now s input author_id agent
              ≡ ok (new_memory uuid now input, links, t))
            × (get t uuid
                ≡ ok (record (new_memory uuid now input) {
                  format = format_or_default input.format;
                }))
            × ((j : Text) → j ≢ uuid → get t j ≡ get s j))
insert_lem uuid now s input author_id agent sound new = (
  λ other h. unfold insert new_memory in rw (h, insert),
  λ free.
      let mem = new_memory uuid now input in
      (
        link_statuses (with_row s (memory_row mem)) uuid input.title input.content,
        insert_state uuid now s input author_id agent,
        insert-ok uuid now s input author_id agent free new (no_revision s sound uuid 1 new),
        get-inserted uuid now s input author_id agent new,
        get-not_inserted uuid now s input author_id agent new,
      ),
)

module _ (now : ℕ) (s : Store) (id : Text) (u : Updates) (author_id agent : Text) (row : Row)
    (sound : IsSound s) (live : row_of s.memories id ≡ some row) where
  stale-conflict :
      (b : ℕ)
      → b ≢ row.version
      → update now s id u author_id agent (some b) ≡ err (version_conflict id b row.version)
  unfolding update is_stale
  stale-conflict b ne = ground arith

-- Of two updates that are based on the same version the second is refused: it fails with a version
-- conflict that carries that version and the next one.
pub lost_update_refused :
    (now later : ℕ) (s : Store) (id : Text) (u v : Updates)
    (author_id agent author_id' agent' : Text) (b : ℕ) {m : Memory} {links : List LinkStatus}
    {t : Store}
    → IsSound s
    → update now s id u author_id agent (some b) ≡ ok (m, links, t)
    → update later t id v author_id' agent' (some b) ≡ err (version_conflict id b (b + 1))
lost_update_refused now later s id u v author_id agent author_id' agent' b {t} sound h =
    let (row, live, fresh, _, et) = update-result now s id u author_id agent (some b) sound h in
    let current : b ≡ row.version = unfold is_stale in ground arith in
    let sound' = update-IsSound now s id u author_id agent (some b) sound h in
    let there : row_of t.memories id ≡ some (apply_updates u now row) =
      ap (λ (x : Store). row_of x.memories id) et
      ∙ ground (
        arith,
        row_of-updated now s id u author_id agent row sound live id,
        text_beq_iff id id,
      ) in
    let next : (apply_updates u now row).version ≡ b + 1 = unfold apply_updates in ground arith in
    let refused =
      stale-conflict later t id v author_id' agent' (apply_updates u now row) sound' there b
        (λ e. absurd (omega arith)) in
    refused ∙ ap (λ (n : ℕ). err (version_conflict id b n)) next
