-- ===== src/Store/Write/Burned.antt =====
-- What `Delete` of internal/db/memory.go leaves, and for how long.
use rekam.Prelude.{
  In, ℕ, Text, List, Option, none, some, ◌==◌, ◌≡◌, ◌≢◌, inl, inr, arith, text_eq, nat_eq, find,
  Option-cases, find-snoc,
}
use rekam.Store.{Row, Edge, TombstoneRow, Store, err, row_of, tombstone_of}
use rekam.Store.Write.{Updates, update, tombstone_row, delete_rows, delete}
use rekam.Store.Write.Outcome.{delete_found}
use rekam.Store.Write.Sound.{IsSound}
use rekam.Store.{deleted, Tombstone, get, missing, tombstone}
use rekam.Store.Write.Keeps.{
  insert-result, update-result, Step, inserts, updates, deletes, Reach, here, next, Reach-IsSound,
}

tombstone-kept :
    {s t : Store} (id : Text) {ts : Tombstone}
    → IsSound s
    → Step s t
    → tombstone_of s.tombstones id ≡ some ts
    → tombstone_of t.tombstones id ≡ some ts
tombstone-kept {s} id sound (inserts uuid now input author_id agent m links unburned h) k =
    rw (insert-result uuid now s input author_id agent sound h).1 k
tombstone-kept {s} id sound (updates now j u author_id agent base m links h) k =
    let (_, _, _, _, e) = update-result now s j u author_id agent base sound h in rw e k
tombstone-kept {s} id sound (deletes now j deleted_by h) k =
    let (row, live, e) = delete_found now s j deleted_by h in
    rw e (
      unfold delete_rows tombstone_of in
      ground (
        arith,
        find-snoc (λ (t : TombstoneRow). t.memory_id == id) s.tombstones
            (tombstone_row row deleted_by now),
      ))

tombstone-stays :
    {s t : Store} (id : Text) {ts : Tombstone}
    → IsSound s
    → Reach s t
    → tombstone_of s.tombstones id ≡ some ts
    → tombstone_of t.tombstones id ≡ some ts
tombstone-stays id sound here k = k
tombstone-stays id sound (next r step) k =
    tombstone-kept id (Reach-IsSound sound r) step (tombstone-stays id sound r k)

not-live :
    (s : Store) (id : Text) {ts : Tombstone}
    → IsSound s
    → tombstone_of s.tombstones id ≡ some ts
    → row_of s.memories id ≡ none
not-live s id sound k = elim (Option-cases (row_of s.memories id)) [
  | inl e ↦ e
  | inr (r, e) ↦ absurd (cc (sound.burned id r e))
]

missing-eq-deleted :
    (s : Store) (id : Text) {ts : Tombstone}
    → tombstone_of s.tombstones id ≡ some ts
    → missing s id ≡ deleted ts
unfolding missing
missing-eq-deleted s id k = rw (k, missing)

-- Once an id has a tombstone, then after any further successful writes reading it, updating it and
-- deleting it again all fail with the error that carries that tombstone.
pub burned_forever :
    {s t : Store} (id : Text) {ts : Tombstone}
    → IsSound s
    → Reach s t
    → tombstone s id ≡ some ts
    → (get t id ≡ err (deleted ts))
      × ((now : ℕ) (u : Updates) (author_id agent : Text) (base : Option ℕ)
          → update now t id u author_id agent base ≡ err (deleted ts))
      × ((now : ℕ) (deleted_by : Text) → delete now t id deleted_by ≡ err (deleted ts))
unfolding tombstone get update delete
burned_forever {t} id sound reach k =
    let kept = tombstone-stays id sound reach k in
    let gone = not-live t id (Reach-IsSound sound reach) kept in
    let e = missing-eq-deleted t id kept in
    (ground arith, λ now u author_id agent base. ground arith, λ now deleted_by. ground arith)

-- the edges that other memories have
abbrev pub KeepsEdges : Store → Store → Text → Type 0
KeepsEdges s t id = (e : Edge) → In e s.edges → e.src ≢ id → In e t.edges

no_tombstone-any :
    (rows : List TombstoneRow) (id : Text)
    → tombstone_of rows id ≡ none
    → find (λ t. t.memory_id == id) rows ≡ none
unfolding tombstone_of
no_tombstone-any rows id h = ground arith

module _ (now : ℕ) (s : Store) (id deleted_by : Text) (row : Row) (sound : IsSound s)
    (live : row_of s.memories id ≡ some row) where
  abbrev no_tombstone : find (λ (t : TombstoneRow). t.memory_id == id) s.tombstones ≡ none
  no_tombstone = no_tombstone-any s.tombstones id (sound.burned id row live)
