-- ===== src/Examples/Access.antt =====
-- internal/engine/engine.go: calls on a small file.
use rekam.Prelude.{
  ℕ, ◌+◌, ◌≤◌, ◌<◌, Text, codes, Bool, true, false, ◌&&◌, not, List, [], ◌∷◌, ◌++◌, Option, some,
  ◌≡◌, ◌≢◌, inl, inr, refl, arith, is_empty, In,
}
use rekam.Scope.{Scope, can_read, can_write}
use rekam.Store.{
  Row, Memory, Edge, LinkStatus, RevisionRow, Store, Error, not_found, Result, ok, err, string,
}
use rekam.Store.Health.{inbound_link_count}
use rekam.Store.Write.{Input, Updates, insert, update, delete, revision_at}
use rekam.Engine.{
  Reply, reply, valid_taxonomy, normalize_format, max_tenant_bytes, redact_link_resolution,
  write_memory, update_memory, restore_revision, delete_memory,
}
use rekam.Engine.Replies.{MayWrite}
use rekam.Engine.Access.{
  write_memory_lem, update_memory_lem, delete_memory_lem, restore_ignores_destination,
}
use rekam.Examples.Data.{
  go_id, style_id, style_input, go_memory, style_memory, go_row, style_row, go_revision,
  style_revision, moved_revision, one_memory, two_memories, one_deleted, moved, moving,
  moved_memory, style_edge, style_link, two_memories-IsSound, moved-IsSound,
}

abbrev everyone : Scope
everyone = record { everything = true; read = []; write = []; titles_visible = [] }

abbrev home_only : Scope
home_only = record {
  everything = false;
  read = codes "home" ∷ [];
  write = codes "home" ∷ [];
  titles_visible = [];
}

abbrev nobody : Scope
nobody = record { everything = false; read = []; write = []; titles_visible = [] }

abbrev restored_memory : Memory
restored_memory = record go_memory { updated_at = 60; version = 3 }

abbrev restored : Store
restored = record {
  memories = record go_row { updated_at = 60; version = 3 } ∷ style_row ∷ [];
  edges = style_edge (some style_id) ∷ [];
  revisions =
      go_revision
      ∷ style_revision
      ∷ moved_revision
      ∷ record go_revision { version = 3; created_at = 60 }
      ∷ [];
  tombstones = [];
  srs = [];
}

write-style :
    write_memory style_id 20 4096 one_memory everyone (codes "u") style_input []
    ≡ reply (style_memory, [], two_memories)
unfolding write_memory rekam.Prelude.trim rekam.Store.title_holder rekam.Store.Write.new_memory
    rekam.Store.Write.insert_row rekam.Store.Write.memory_row rekam.Store.Write.record_version
    rekam.Store.Write.insert_revision rekam.Store.Edges.sync_edges rekam.Store.Write.revision_row
write-style = refl

may : MayWrite moved home_only go_id moved_memory
unfolding rekam.Store.get can_read can_write
may = record { live = refl; reads = refl; writes = refl }

write_memory_lem_example :
    (can_write everyone style_input.taxonomy ≡ true)
    × ((valid_taxonomy style_input.taxonomy ≡ true)
        × ((is_empty style_input.title ≡ false)
            × ((4096 < max_tenant_bytes)
                × ((from : List LinkStatus) × ((insert style_id 20 one_memory
                          (record style_input { format = (normalize_format style_input.format).0 })
                          (codes "u")
                          []
                        ≡ ok (style_memory, from, two_memories))
                      × ([] ≡ redact_link_resolution two_memories everyone from))))))
write_memory_lem_example =
    write_memory_lem style_id 20 4096 one_memory everyone (codes "u") style_input [] style_memory []
      two_memories write-style

update_memory_lem_example :
    (old : Memory) × (MayWrite two_memories everyone go_id old
      × ((can_write everyone moved_memory.taxonomy ≡ true) × (4096 < max_tenant_bytes)))
unfolding update_memory rekam.Store.Write.is_stale rekam.Store.Write.record_version
    rekam.Store.Write.insert_revision rekam.Store.Write.apply_updates rekam.Prelude.update_where
    rekam.Store.Edges.sync_edges rekam.Store.Write.revision_row
update_memory_lem_example =
    update_memory_lem 40 4096 two_memories everyone (codes "u") go_id moving [] (some 1)
      moved_memory [] moved two_memories-IsSound refl

delete_memory_lem_example :
    (m : Memory) × (MayWrite two_memories everyone style_id m
      × ((true ≡ false → inbound_link_count two_memories style_id ≡ 0)
          × (delete 30 two_memories style_id (codes "u") ≡ ok one_deleted)))
unfolding delete_memory rekam.Store.Write.delete_rows rekam.Store.Write.tombstone_row
delete_memory_lem_example =
    delete_memory_lem 30 two_memories everyone (codes "u") style_id true one_deleted refl

restore_ignores_destination_example :
    (restore_revision 60 moved home_only (codes "u") go_id 1
      ≡ reply (restored_memory, (style_link true ∷ []), restored))
    × (restored_memory.taxonomy ≡ string go_revision.taxonomy)
unfolding revision_at update rekam.Store.row_of rekam.Store.Write.is_stale
    rekam.Engine.revision_updates rekam.Store.title_holder rekam.Store.Write.record_version
    rekam.Store.Write.insert_revision rekam.Prelude.any rekam.Store.scan_memory
    rekam.Store.Write.apply_updates rekam.Prelude.update_where rekam.Store.Edges.sync_edges
    rekam.Store.Write.revision_row
restore_ignores_destination_example =
    restore_ignores_destination 60 moved home_only (codes "u") go_id 1 moved_memory go_revision
      restored_memory (style_link true ∷ []) restored moved-IsSound may refl refl
