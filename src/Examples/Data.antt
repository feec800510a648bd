-- ===== src/Examples/Data.antt =====
-- A small file of internal/db/memory.go: two memories, the first linking to the second, which is then
-- deleted.
use rekam.Prelude.{ℕ, Text, codes, Bool, true, false, List, [], ◌∷◌, Option, none, some, ◌≡◌, refl}
use rekam.Store.{
  Row, Memory, Edge, LinkStatus, RevisionRow, TombstoneRow, Store, Result, ok, err, tombstone_of,
}
use rekam.Store.Write.{Input, Updates, insert, update, delete, new_memory}
use rekam.Store.Write.Keeps.{
  empty_store, Reach, here, next, inserts, updates, deletes, Reach-IsSound, empty_store-IsSound,
}
use rekam.Store.Write.Sound.{IsSound}
use rekam.Links.{relates}

abbrev pub go_id : Text
go_id = codes "g"

abbrev pub style_id : Text
style_id = codes "s"

abbrev pub go_input : Input
go_input = record {
  title = codes "Go";
  content = codes "[[Style]]";
  taxonomy = codes "work.go";
  format = codes "markdown";
}

abbrev pub style_input : Input
style_input = record {
  title = codes "Style";
  content = codes "tabs";
  taxonomy = codes "home";
  format = codes "markdown";
}

abbrev pub go_memory : Memory
go_memory = record {
  id = go_id;
  title = codes "Go";
  content = codes "[[Style]]";
  taxonomy = codes "work.go";
  format = codes "markdown";
  created_at = 10;
  updated_at = 10;
  version = 1;
}

abbrev pub style_memory : Memory
style_memory = record {
  id = style_id;
  title = codes "Style";
  content = codes "tabs";
  taxonomy = codes "home";
  format = codes "markdown";
  created_at = 20;
  updated_at = 20;
  version = 1;
}

abbrev pub go_row : Row
go_row = record {
  id = go_id;
  title = codes "Go";
  content = some (codes "[[Style]]");
  taxonomy = some (codes "work.go");
  format = codes "markdown";
  created_at = 10;
  updated_at = 10;
  version = 1;
}

abbrev pub style_row : Row
style_row = record {
  id = style_id;
  title = codes "Style";
  content = some (codes "tabs");
  taxonomy = some (codes "home");
  format = codes "markdown";
  created_at = 20;
  updated_at = 20;
  version = 1;
}

abbrev pub go_revision : RevisionRow
go_revision = record {
  memory_id = go_id;
  version = 1;
  title = codes "Go";
  content = some (codes "[[Style]]");
  taxonomy = some (codes "work.go");
  format = codes "markdown";
  author_id = some (codes "u");
  agent = none;
  created_at = 10;
}

abbrev pub style_revision : RevisionRow
style_revision = record {
  memory_id = style_id;
  version = 1;
  title = codes "Style";
  content = some (codes "tabs");
  taxonomy = some (codes "home");
  format = codes "markdown";
  author_id = some (codes "u");
  agent = none;
  created_at = 20;
}

abbrev pub style_edge : Option Text → Edge
style_edge dst = record { src = go_id; dst = dst; raw = codes "style"; rel = relates }

abbrev pub one_memory : Store
one_memory = record {
  memories = go_row ∷ [];
  edges = style_edge none ∷ [];
  revisions = go_revision ∷ [];
  tombstones = [];
  srs = [];
}

abbrev pub two_memories : Store
two_memories = record {
  memories = go_row ∷ style_row ∷ [];
  edges = style_edge (some style_id) ∷ [];
  revisions = go_revision ∷ style_revision ∷ [];
  tombstones = [];
  srs = [];
}

abbrev pub style_tombstone : TombstoneRow
style_tombstone = record {
  memory_id = style_id;
  title = codes "Style";
  taxonomy = some (codes "home");
  created_at = 20;
  deleted_at = 30;
  deleted_by = some (codes "u");
  final_version = 1;
}

abbrev pub one_deleted : Store
one_deleted = record {
  memories = go_row ∷ [];
  edges = style_edge (some style_id) ∷ [];
  revisions = go_revision ∷ [];
  tombstones = style_tombstone ∷ [];
  srs = [];
}

abbrev pub style_link : Bool → LinkStatus
style_link resolved = record {
  target = codes "style";
  rel = relates;
  resolved = resolved;
  deleted = false;
}

pub insert-go :
    insert go_id 10 empty_store go_input (codes "u") []
    ≡ ok (go_memory, style_link false ∷ [], one_memory)
unfolding insert rekam.Store.title_holder rekam.Store.Write.insert_row
    rekam.Store.Write.record_version rekam.Store.Write.insert_revision rekam.Store.Write.memory_row
    new_memory rekam.Store.Edges.sync_edges rekam.Store.Write.revision_row
insert-go = refl

pub insert-style :
    insert style_id 20 one_memory style_input (codes "u") [] ≡ ok (style_memory, [], two_memories)
unfolding insert rekam.Store.title_holder new_memory rekam.Store.Write.insert_row
    rekam.Store.Write.memory_row rekam.Store.Write.record_version rekam.Store.Write.insert_revision
    rekam.Store.Edges.sync_edges rekam.Store.Write.revision_row
insert-style = refl

pub delete-style : delete 30 two_memories style_id (codes "u") ≡ ok one_deleted
unfolding delete rekam.Store.row_of rekam.Prelude.any rekam.Store.Write.delete_rows
    rekam.Store.Write.tombstone_row
delete-style = refl

pub Reach-one : Reach empty_store one_memory
unfolding tombstone_of
Reach-one =
    next here
      (inserts go_id 10 go_input (codes "u") [] go_memory (style_link false ∷ []) refl insert-go)

pub Reach-two : Reach empty_store two_memories
unfolding tombstone_of
Reach-two =
    next Reach-one
      (inserts style_id 20 style_input (codes "u") [] style_memory [] refl insert-style)

pub Reach-deleted : Reach empty_store one_deleted
Reach-deleted = next Reach-two (deletes 30 style_id (codes "u") delete-style)

pub two_memories-IsSound : IsSound two_memories
two_memories-IsSound = Reach-IsSound empty_store-IsSound Reach-two

pub one_memory-IsSound : IsSound one_memory
one_memory-IsSound = Reach-IsSound empty_store-IsSound Reach-one

pub one_deleted-IsSound : IsSound one_deleted
one_deleted-IsSound = Reach-IsSound empty_store-IsSound Reach-deleted

abbrev pub go_tombstone : TombstoneRow
go_tombstone = record {
  memory_id = go_id;
  title = codes "Go";
  taxonomy = some (codes "work.go");
  created_at = 10;
  deleted_at = 40;
  deleted_by = some (codes "u");
  final_version = 1;
}

abbrev pub both_deleted : Store
both_deleted = record {
  memories = [];
  edges = [];
  revisions = [];
  tombstones = style_tombstone ∷ go_tombstone ∷ [];
  srs = [];
}

pub delete-go : delete 40 one_deleted go_id (codes "u") ≡ ok both_deleted
unfolding delete rekam.Store.row_of rekam.Prelude.any rekam.Store.Write.delete_rows
    rekam.Store.Write.tombstone_row
delete-go = refl

pub Reach-both : Reach one_deleted both_deleted
Reach-both = next here (deletes 40 go_id (codes "u") delete-go)

-- an update that moves the first memory to another branch
abbrev pub moving : Updates
moving = record {
  title = none;
  content = some (codes "x");
  taxonomy = some (codes "home");
  format = none;
}

abbrev pub moved_memory : Memory
moved_memory = record go_memory {
  content = codes "x";
  taxonomy = codes "home";
  updated_at = 40;
  version = 2;
}

abbrev pub moved_row : Row
moved_row = record go_row {
  content = some (codes "x");
  taxonomy = some (codes "home");
  updated_at = 40;
  version = 2;
}

abbrev pub moved_revision : RevisionRow
moved_revision = record {
  memory_id = go_id;
  version = 2;
  title = codes "Go";
  content = some (codes "x");
  taxonomy = some (codes "home");
  format = codes "markdown";
  author_id = some (codes "u");
  agent = none;
  created_at = 40;
}

abbrev pub moved : Store
moved = record {
  memories = moved_row ∷ style_row ∷ [];
  edges = [];
  revisions = go_revision ∷ style_revision ∷ moved_revision ∷ [];
  tombstones = [];
  srs = [];
}

pub update-go :
    update 40 two_memories go_id moving (codes "u") [] (some 1) ≡ ok (moved_memory, [], moved)
unfolding update rekam.Store.row_of rekam.Store.Write.is_stale rekam.Store.Write.record_version
    rekam.Store.Write.insert_revision rekam.Prelude.any rekam.Store.scan_memory
    rekam.Store.Write.apply_updates rekam.Prelude.update_where rekam.Store.Edges.sync_edges
    rekam.Store.Write.revision_row
update-go = refl

pub moved-IsSound : IsSound moved
moved-IsSound =
    Reach-IsSound empty_store-IsSound
      (next Reach-two (updates 40 go_id moving (codes "u") [] (some 1) moved_memory [] update-go))
