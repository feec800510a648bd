-- ===== src/Engine/Access.antt =====
-- internal/engine/engine.go: what a caller needs for a write to succeed.
use rekam.Prelude.{
  ℕ, ◌<◌, Text, Bool, true, false, ◌&&◌, ◌||◌, not, List, [], Option, none, some, ◌≡◌, refl, sym,
  ap, ◌∙◌, subst, arith, ltb, leb, is_empty,
}
use rekam.Scope.{Scope, can_write}
use rekam.Store.{
  Row, Memory, LinkStatus, RevisionRow, Store, Result, ok, err, get, row_of, scan_memory, string,
  scan_revision,
}
use rekam.Store.Write.{
  Input, Updates, insert, update, delete, apply_updates, revision_at, or_old, or_old_column,
}
use rekam.Store.Write.Sound.{IsSound}
use rekam.Store.Write.Keeps.{update-result}
use rekam.Store.Health.{inbound_link_count}
use rekam.Engine.{
  reply, refuse_if, from_store, readable_memory, writable_memory, valid_taxonomy, normalize_format,
  check_move, checked_format, check_title, check_storage_ceiling, taxonomy_forbidden, is_none,
  max_tenant_bytes, redact_link_resolution, write_memory, update_memory, restore_revision,
  delete_memory, revision_updates,
}
use rekam.Engine.Replies.{
  >>=-reply, refuse_if-reply, from_store-reply, MayWrite, writable_memory-reply, redacted-state,
}

-- A memory is written only into a valid branch that the scope may write, with a title, and while the
-- file is below the ceiling; what is stored is what `Insert` stores of the input with its format
-- normalized.
pub write_memory_lem :
    (uuid : Text) (now size : ℕ) (s : Store) (scope : Scope) (identity : Text) (input : Input)
    (agent : Text) (m : Memory) (links : List LinkStatus) (t : Store)
    → write_memory uuid now size s scope identity input agent ≡ reply (m, links, t)
    → (can_write scope input.taxonomy ≡ true)
      × ((valid_taxonomy input.taxonomy ≡ true)
          × ((is_empty input.title ≡ false)
              × ((size < max_tenant_bytes)
                  × ((from : List LinkStatus) × ((insert uuid now s
                            (record input { format = (normalize_format input.format).0 })
                            identity
                            agent
                          ≡ ok (m, from, t))
                        × (links ≡ redact_link_resolution t scope from))))))
unfolding write_memory check_storage_ceiling
write_memory_lem uuid now size s scope identity input agent m links t h =
    let (g1, h1) =
      refuse_if-reply (is_empty input.title || is_empty input.taxonomy) _ _ (m, links, t) h in
    let (g2, h2) = refuse_if-reply (not (valid_taxonomy input.taxonomy)) _ _ (m, links, t) h1 in
    let (g3, h3) = refuse_if-reply (not (can_write scope input.taxonomy)) _ _ (m, links, t) h2 in
    let (g4, h4) = refuse_if-reply (not (normalize_format input.format).1) _ _ (m, links, t) h3 in
    let (g5, h5) = refuse_if-reply (leb max_tenant_bytes size) _ _ (m, links, t) h4 in
    let (w, (g6, h6)) =
      >>=-reply
        (from_store (
          insert uuid now s (record input { format = (normalize_format input.format).0 }) identity
            agent))
        _ (m, links, t) h5 in
    let (from, (e, l)) = redacted-state scope w m links t h6 in
    (
      ground (arith, g3),
      (
        ground (arith, g2),
        (
          ground (arith, g1),
          (
            ground (arith, g5),
            (
              from,
              (
                from_store-reply
                      (insert uuid now s
                        (record input { format = (normalize_format input.format).0 }) identity
                        agent)
                      w g6
                    ∙ ap (λ y. ok y) e,
                l,
              ),
            ),
          ),
        ),
      ),
    )

check_move-done :
    (scope : Scope) (o : Option Text) (u : Unit {0}) (t : Text)
    → check_move scope o ≡ reply u
    → o ≡ some t
    → (can_write scope t ≡ true) × (valid_taxonomy t ≡ true)
unfolding check_move
check_move-done scope none u t h e = absurd (cc)
check_move-done scope (some x) u t h e =
    let (g1, h1) = refuse_if-reply (not (valid_taxonomy x)) _ _ u h in
    subst (λ y. (can_write scope y ≡ true) × (valid_taxonomy y ≡ true)) (some_injective x t e)
      (last (can_write scope x) h1, ground (arith, g1))
  where
    some_injective : (a b : Text) → some a ≡ some b → a ≡ b
    some_injective a b q = cc

    last : (b : Bool) → refuse_if (not b) (taxonomy_forbidden x) ≡ reply u → b ≡ true
    last true q = refl
    last false q = absurd (cc)

branch-written :
    (scope : Scope) (o : Option Text) (old : Text) (u : Unit {0})
    → check_move scope o ≡ reply u
    → can_write scope old ≡ true
    → can_write scope (or_old o old) ≡ true
branch-written scope none old u h w = w
branch-written scope (some t) old u h w = (check_move-done scope (some t) u t h refl).0

string-or_old :
    (o : Option Text) (old : Option Text) → string (or_old_column o old) ≡ or_old o (string old)
string-or_old none old = refl
string-or_old (some t) old = refl

memory_taxonomy : Result Memory → Text
memory_taxonomy (ok m) = m.taxonomy
memory_taxonomy (err e) = []

get-row :
    (s : Store) (id : Text) (row : Row)
    → row_of s.memories id ≡ some row
    → get s id ≡ ok (scan_memory row)
unfolding get
get-row s id row h = rw (h, get) refl

-- the branch after an update
branch-updated :
    (now : ℕ) (s : Store) (id : Text) (u : Updates) (old m : Memory) (row : Row)
    → get s id ≡ ok old
    → row_of s.memories id ≡ some row
    → m ≡ scan_memory (apply_updates u now row)
    → or_old u.taxonomy old.taxonomy ≡ m.taxonomy
unfolding memory_taxonomy scan_memory apply_updates
branch-updated now s id u old m row h live em =
    let ob : string row.taxonomy ≡ old.taxonomy =
      ap memory_taxonomy (sym (get-row s id row live) ∙ h) in
    ap (or_old u.taxonomy) (sym ob)
    ∙ (sym (string-or_old u.taxonomy row.taxonomy) ∙ sym (ap (λ y. y.taxonomy) em))

-- An update succeeds only where the scope may read and write the branch that the memory is in and
-- write the branch that it ends up in.
pub update_memory_lem :
    (now size : ℕ) (s : Store) (scope : Scope) (identity id : Text) (u : Updates) (agent : Text)
    (base : Option ℕ) (m : Memory) (links : List LinkStatus) (t : Store)
    → IsSound s
    → update_memory now size s scope identity id u agent base ≡ reply (m, links, t)
    → (old : Memory) × (MayWrite s scope id old
        × ((can_write scope m.taxonomy ≡ true) × (size < max_tenant_bytes)))
unfolding update_memory check_storage_ceiling
update_memory_lem now size s scope identity id u agent base m links t sound h =
    let (old, (g0, h0)) = >>=-reply (writable_memory s scope id) _ (m, links, t) h in
    let (u1, (g1, h1)) = >>=-reply (check_title u.title) _ (m, links, t) h0 in
    let (u2, (g2, h2)) = >>=-reply (check_move scope u.taxonomy) _ (m, links, t) h1 in
    let (format, (g3, h3)) = >>=-reply (checked_format u.format) _ (m, links, t) h2 in
    let (g4, h4) =
      refuse_if-reply
        (is_none u.title && (is_none u.content && (is_none u.taxonomy && is_none u.format))) _ _
        (m, links, t) h3 in
    let (g5, h5) = refuse_if-reply (leb max_tenant_bytes size) _ _ (m, links, t) h4 in
    let (w, (g6, h6)) =
      >>=-reply (from_store (update now s id (record u { format = format }) identity agent base)) _
        (m, links, t) h5 in
    let (from, (e, l)) = redacted-state scope w m links t h6 in
    let done =
      from_store-reply (update now s id (record u { format = format }) identity agent base) w g6
      ∙ ap (λ y. ok y) e in
    let (row, live, fresh, em, et) =
      update-result now s id (record u { format = format }) identity agent base sound done in
    let may = writable_memory-reply s scope id old g0 in
    let me : or_old u.taxonomy old.taxonomy ≡ m.taxonomy =
      branch-updated now s id (record u { format = format }) old m row may.live live em in
    (
      old,
      (
        may,
        (
          subst (λ y. can_write scope y ≡ true) me
              (branch-written scope u.taxonomy old.taxonomy u2 g2 may.writes),
          ground (arith, g5),
        ),
      ),
    )

-- A restored revision goes to the branch that it was in, and no check asks whether the scope may
-- write there: wherever the scope may read and write the branch that the memory is in now and
-- `Update` takes the fields of the revision, the restoration succeeds and the memory is moved.
pub restore_ignores_destination :
    (now : ℕ) (s : Store) (scope : Scope) (identity id : Text) (version : ℕ) (old : Memory)
    (rev : RevisionRow) (m : Memory) (links : List LinkStatus) (t : Store)
    → IsSound s
    → MayWrite s scope id old
    → revision_at s id version ≡ some rev
    → update now s id (revision_updates rev) identity [] none ≡ ok (m, links, t)
    → (restore_revision now s scope identity id version ≡ reply (m, links, t))
      × (m.taxonomy ≡ string rev.taxonomy)
unfolding restore_revision writable_memory readable_memory scan_memory apply_updates
    revision_updates scan_revision
restore_ignores_destination now s scope identity id version old rev m links t sound may r h =
    let (row, live, fresh, em, et) =
      update-result now s id (revision_updates rev) identity [] none sound h in
    (rw (may.live, may.reads, may.writes, r) (rw h refl), ap (λ y. y.taxonomy) em)

-- A deletion succeeds only where the scope may read and write the branch of the memory, and, unless
-- it is forced, where no other memory links to it.
pub delete_memory_lem :
    (now : ℕ) (s : Store) (scope : Scope) (identity id : Text) (force : Bool) (t : Store)
    → delete_memory now s scope identity id force ≡ reply t
    → (m : Memory) × (MayWrite s scope id m
        × ((force ≡ false → inbound_link_count s id ≡ 0) × (delete now s id identity ≡ ok t)))
unfolding delete_memory
delete_memory_lem now s scope identity id force t h =
    let (m, (g1, h1)) = >>=-reply (writable_memory s scope id) _ t h in
    let (g2, h2) = refuse_if-reply (not force && ltb 0 (inbound_link_count s id)) _ _ t h1 in
    (
      m,
      (
        writable_memory-reply s scope id m g1,
        (λ f. ground (arith, f, g2), from_store-reply (delete now s id identity) t h2),
      ),
    )
