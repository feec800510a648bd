-- ===== src/Store/Write/Keeps.antt =====
-- `Insert`, `Update` and `Delete` of internal/db/memory.go succeed where they should, and keep the
-- invariant of the file.
use rekam.Prelude.{
  ℕ, ◌+◌, Text, false, List, [], Option, none, some, ◌≡◌, refl, arith, text_eq, nat_eq, find,
}
use rekam.Store.{Row, Memory, LinkStatus, Store, Result, ok, row_of, tombstone_of, scan_memory}
use rekam.Store.Write.{
  Input, Updates, is_stale, is_revision, revision_at, insert, apply_updates, update, delete,
}
use rekam.Store.Write.Outcome.{insert-ok, update-ok, insert_found, update_found, delete_found}
use rekam.Store.Write.Sound.{IsSound}
use rekam.Store.Write.Inserted.{insert_state, inserted-IsSound}
use rekam.Store.Write.Updated.{update_state, updated-IsSound}
use rekam.Store.Write.Removed.{removed-IsSound}

abbrev pub Written : Type 0
Written = Memory × List LinkStatus × Store

-- the result of a write that is known in two ways
same_store :
    {r : Result Written} {m m' : Memory} {links links' : List LinkStatus} {t t' : Store}
    → r ≡ ok (m, links, t)
    → r ≡ ok (m', links', t')
    → (m ≡ m') × (t ≡ t')
same_store h k = (cc, cc)

pub no_revision :
    (s : Store)
    → IsSound s
    → (id : Text) (v : ℕ) → row_of s.memories id ≡ none
    → find (is_revision id v) s.revisions ≡ none
unfolding revision_at
no_revision s sound id v h = sound.orphan id v h

pub no_next_revision :
    (s : Store)
    → IsSound s
    → (id : Text) (r : Row) → row_of s.memories id ≡ some r
    → find (is_revision id (r.version + 1)) s.revisions ≡ none
unfolding revision_at
no_next_revision s sound id r h = ground (arith, sound.history id (r.version + 1) r h)

-- What `insert` returns, where it returns a memory.
pub insert-result :
    (uuid : Text) (now : ℕ) (s : Store) (input : Input) (author_id agent : Text) {m : Memory}
    {links : List LinkStatus} {t : Store}
    → IsSound s
    → insert uuid now s input author_id agent ≡ ok (m, links, t)
    → (row_of s.memories uuid ≡ none) × (t ≡ insert_state uuid now s input author_id agent)
insert-result uuid now s input author_id agent sound h =
    let (free, new) = insert_found uuid now s input author_id agent h in
    (
      new,
      (same_store h
          (insert-ok uuid now s input author_id agent free new (no_revision s sound uuid 1 new))).1,
    )

-- What `update` returns, where it returns a memory.
pub update-result :
    (now : ℕ) (s : Store) (id : Text) (u : Updates) (author_id agent : Text) (base : Option ℕ)
    {m : Memory} {links : List LinkStatus} {t : Store}
    → IsSound s
    → update now s id u author_id agent base ≡ ok (m, links, t)
    → (row : Row) × (row_of s.memories id ≡ some row)
      × (is_stale base row.version ≡ false)
      × (m ≡ scan_memory (apply_updates u now row))
      × (t ≡ update_state now s id u author_id agent row)
update-result now s id u author_id agent base sound h =
    let (row, live, fresh, free) = update_found now s id u author_id agent base h in
    let (em, et) = same_store h (
      update-ok now s id u author_id agent base row live fresh free
        (no_next_revision s sound id row live)) in
    (row, live, fresh, em, et)

pub insert-IsSound :
    (uuid : Text) (now : ℕ) (s : Store) (input : Input) (author_id agent : Text) {m : Memory}
    {links : List LinkStatus} {t : Store}
    → IsSound s
    → tombstone_of s.tombstones uuid ≡ none
    → insert uuid now s input author_id agent ≡ ok (m, links, t)
    → IsSound t
insert-IsSound uuid now s input author_id agent sound unburned h =
    let (new, e) = insert-result uuid now s input author_id agent sound h in
    rw e (inserted-IsSound uuid now s input author_id agent sound new unburned)

pub update-IsSound :
    (now : ℕ) (s : Store) (id : Text) (u : Updates) (author_id agent : Text) (base : Option ℕ)
    {m : Memory} {links : List LinkStatus} {t : Store}
    → IsSound s
    → update now s id u author_id agent base ≡ ok (m, links, t)
    → IsSound t
update-IsSound now s id u author_id agent base sound h =
    let (row, live, _, _, e) = update-result now s id u author_id agent base sound h in
    rw e (updated-IsSound now s id u author_id agent row sound live)

pub delete-IsSound :
    (now : ℕ) (s : Store) (id deleted_by : Text) {t : Store}
    → IsSound s
    → delete now s id deleted_by ≡ ok t
    → IsSound t
delete-IsSound now s id deleted_by sound h =
    let (row, live, e) = delete_found now s id deleted_by h in
    rw e (removed-IsSound now s id deleted_by row sound live)

-- One write that succeeds; `uuid.New` gives no id that was ever deleted.
pub data Step (s t : Store) : Type 0 where
  inserts :
      (uuid : Text) (now : ℕ) (input : Input) (author_id agent : Text) (m : Memory)
      (links : List LinkStatus)
      → tombstone_of s.tombstones uuid ≡ none
      → insert uuid now s input author_id agent ≡ ok (m, links, t)
      → Step s t
  updates :
      (now : ℕ) (id : Text) (u : Updates) (author_id agent : Text) (base : Option ℕ) (m : Memory)
      (links : List LinkStatus)
      → update now s id u author_id agent base ≡ ok (m, links, t)
      → Step s t
  deletes : (now : ℕ) (id deleted_by : Text) → delete now s id deleted_by ≡ ok t → Step s t

pub data Reach (s : Store) : Store → Type 0 where
  here : Reach s s
  next : {t u : Store} → Reach s t → Step t u → Reach s u

pub Step-IsSound : {s t : Store} → IsSound s → Step s t → IsSound t
Step-IsSound {s} sound (inserts uuid now input author_id agent m links unburned h) =
    insert-IsSound uuid now s input author_id agent sound unburned h
Step-IsSound {s} sound (updates now id u author_id agent base m links h) =
    update-IsSound now s id u author_id agent base sound h
Step-IsSound {s} sound (deletes now id deleted_by h) = delete-IsSound now s id deleted_by sound h

abbrev pub empty_store : Store
empty_store = record { memories = []; edges = []; revisions = []; tombstones = []; srs = [] }

pub empty_store-IsSound : IsSound empty_store
unfolding row_of revision_at find
empty_store-IsSound = record {
  history = λ j v r h. absurd (cc);
  orphan = λ j v h. refl;
  current = λ j r h. absurd (cc);
  burned = λ j r h. absurd (cc);
  sources = tt;
}

pub Reach-IsSound : {s t : Store} → IsSound s → Reach s t → IsSound t
Reach-IsSound sound here = sound
Reach-IsSound sound (next r step) = Step-IsSound (Reach-IsSound sound r) step

-- In every file that successful writes make from an empty one, each live memory has exactly the
-- revisions 1 to its version, the newest of them holds what the row holds, an id without a memory
-- has no revision, no live id has a tombstone, and every edge starts at a live memory.
pub reachable-IsSound : {t : Store} → Reach empty_store t → IsSound t
reachable-IsSound = Reach-IsSound empty_store-IsSound
