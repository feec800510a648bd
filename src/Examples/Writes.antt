-- ===== src/Examples/Writes.antt =====
-- internal/db/memory.go: writes to a small file.
use rekam.Prelude.{
  ℕ, ◌≤◌, Text, codes, Bool, true, false, ◌&&◌, not, List, [], ◌∷◌, ◌++◌, Option, none, some, ◌≡◌,
  ◌≢◌, ◌⊎◌, inl, inr, refl, sym, ap, arith, any, In, All, trim,
}
use rekam.Links.{ParsedLink, parse_links, relates}
use rekam.Store.{
  Row, Edge, LinkStatus, TombstoneRow, Tombstone, Store, Error, not_found, deleted, title_conflict,
  Result, ok, err, row_of, tombstone_of, tombstone, scan_tombstone, get, title_holder,
  format_or_default, scan_memory,
}
use rekam.Store.Edges.{sync_edges}
use rekam.Store.Edges.Sticky.{sync_edges-sticky}
use rekam.Store.Write.{Input, Updates, insert, update, delete, new_memory, rebuild_edges}
use rekam.Store.Write.Sound.{IsSound}
use rekam.Store.Write.Keeps.{empty_store, reachable-IsSound, empty_store-IsSound}
use rekam.Store.Write.Burned.{burned_forever}
use rekam.Store.Write.History.{insert_lem}
use rekam.Store.Write.Titles.{untrimmed_title_twice, IsTrimmed}
use rekam.Examples.Data.{
  style_id, style_input, one_memory, one_deleted, both_deleted, style_edge, style_tombstone,
  Reach-deleted, Reach-both, one_memory-IsSound, one_deleted-IsSound,
}

abbrev style_parsed : ParsedLink
style_parsed = record { rel = relates; raw = codes "style" }

only_edge : (x : Edge) → In x (style_edge (some style_id) ∷ []) → x.dst ≡ some style_id
only_edge x (inl e) = ap (λ y. y.dst) e
only_edge x (inr i) = absurd i

reachable-IsSound_example : IsSound one_deleted
reachable-IsSound_example = reachable-IsSound Reach-deleted

burned_forever_example :
    (get both_deleted style_id ≡ err (deleted (scan_tombstone style_tombstone)))
    × ((now : ℕ) (u : Updates) (author_id agent : Text) (base : Option ℕ)
        → update now both_deleted style_id u author_id agent base
          ≡ err (deleted (scan_tombstone style_tombstone)))
    × ((now : ℕ) (deleted_by : Text)
        → delete now both_deleted style_id deleted_by
          ≡ err (deleted (scan_tombstone style_tombstone)))
unfolding tombstone
burned_forever_example = burned_forever style_id one_deleted-IsSound Reach-both refl

insert_lem_example :
    ((other : Text)
      → title_holder one_memory.memories style_input.title style_id ≡ some other
      → insert style_id 20 one_memory style_input (codes "u") []
        ≡ err (title_conflict style_input.title other))
    × (title_holder one_memory.memories style_input.title style_id ≡ none
        → (links : List LinkStatus) × (t : Store) × (insert style_id 20 one_memory style_input
              (codes "u")
              []
            ≡ ok (new_memory style_id 20 style_input, links, t))
          × (get t style_id
              ≡ ok (record (new_memory style_id 20 style_input) {
                format = format_or_default style_input.format;
              }))
          × ((j : Text) → j ≢ style_id → get t j ≡ get one_memory j))
unfolding row_of
insert_lem_example =
    insert_lem style_id 20 one_memory style_input (codes "u") [] one_memory-IsSound refl

abbrev tabbed : Input
tabbed = record style_input { title = codes "Style" ++ 9 ∷ [] }

abbrev tabbed_row : Row
tabbed_row = record {
  id = codes "p";
  title = tabbed.title;
  content = some (codes "tabs");
  taxonomy = some (codes "home");
  format = codes "markdown";
  created_at = 20;
  updated_at = 20;
  version = 1;
}

abbrev one_tabbed : Store
one_tabbed = record {
  memories = tabbed_row ∷ [];
  edges = [];
  revisions =
      record {
        memory_id = codes "p";
        version = 1;
        title = tabbed.title;
        content = some (codes "tabs");
        taxonomy = some (codes "home");
        format = codes "markdown";
        author_id = some (codes "u");
        agent = none;
        created_at = 20;
      }
      ∷ [];
  tombstones = [];
  srs = [];
}

insert-tabbed :
    insert (codes "p") 20 empty_store tabbed (codes "u") []
    ≡ ok (new_memory (codes "p") 20 tabbed, [], one_tabbed)
unfolding insert title_holder rekam.Store.Write.insert_row rekam.Store.Write.record_version
    rekam.Store.Write.insert_revision rekam.Store.Write.memory_row new_memory sync_edges
    rekam.Store.Write.revision_row
insert-tabbed = refl

untrimmed : ¬ IsTrimmed tabbed.title
unfolding trim
untrimmed h = absurd (cc)

untrimmed_title_twice_example :
    (links' : List LinkStatus) × (t' : Store) × (insert
        (codes "q")
        21
        one_tabbed
        tabbed
        (codes "u")
        []
      ≡ ok (new_memory (codes "q") 21 tabbed, links', t'))
unfolding tombstone_of row_of title_holder
untrimmed_title_twice_example =
    untrimmed_title_twice (codes "p") (codes "q") 20 21 empty_store tabbed (codes "u") []
      empty_store-IsSound refl (λ e. ground arith) refl untrimmed refl insert-tabbed

sync_edges-sticky_example :
    (links : List LinkStatus) × (edges : List Edge) × (sync_edges one_deleted
        (style_edge (some style_id)).src
        (codes "Go")
        (codes "[[Style]]")
      ≡ ok (links, edges))
    × In
        (record {
          src = (style_edge (some style_id)).src;
          dst = some style_id;
          raw = style_parsed.raw;
          rel = style_parsed.rel;
        })
        edges
    × In
        (record {
          target = style_parsed.raw;
          rel = style_parsed.rel;
          resolved = false;
          deleted = true;
        })
        links
unfolding any rekam.Prelude.text_beq parse_links
sync_edges-sticky_example =
    sync_edges-sticky one_deleted (codes "Go") (codes "[[Style]]") (style_edge (some style_id))
      style_parsed style_id refl (inl refl) refl refl (λ x i q k. only_edge x i) (inl refl) refl
      refl
