-- ===== src/Store/Write/Titles.antt =====
-- The title check of internal/db/memory.go: which titles it keeps apart, and which it does not.
use rekam.Prelude.{
  find-none, All-at, find-some, trim_space, lower, ℕ, Text, false, ◌&&◌, not, List, Option, none,
  some, ◌==◌, ◌≡◌, ◌≢◌, refl, sym, ap, ◌∙◌, ◌⊎◌, inl, inr, arith, text_eq, text_beq_iff, nat_eq,
  update_where, Option-cases, find-snoc,
}
use rekam.Store.{Row, Memory, LinkStatus, Store, ok, row_of, tombstone_of}
use rekam.Store.Edges.Sync.{link_statuses}
use rekam.Store.Write.{
  Input, Updates, new_memory, memory_row, insert, apply_updates, update, delete_rows, delete,
}
use rekam.Store.Write.Rows.{row_of-snoc, row_of-update, row_of-delete}
use rekam.Store.Write.Outcome.{with_row, insert-ok, insert_found, update_found, delete_found}
use rekam.Store.Write.Sound.{IsSound}
use rekam.Store.Write.Inserted.{insert_state}
use rekam.Store.Write.Updated.{update_state}
use rekam.Store.Write.Removed.{delete_state}
use rekam.Store.{title_holder, title_key}
use rekam.Store.Write.{retitled}
use rekam.Store.Write.Keeps.{insert-result, update-result, insert-IsSound, no_revision}

-- The two normal forms of a title agree: that of the check and that of the rows.
abbrev pub IsTrimmed : Text → Type 0
IsTrimmed title = title_key title ≡ lower (trim_space title)

-- No two live memories have the same title, up to case and blanks at the ends.
pub record HasUniqueTitles (s : Store) : Type 0 where
  pub unique :
      (i j : Text) (r q : Row)
      → row_of s.memories i ≡ some r
      → row_of s.memories j ≡ some q
      → title_key r.title ≡ title_key q.title
      → i ≡ j

title_holder-none :
    (rows : List Row) (title exclude_id j : Text) (r : Row)
    → title_holder rows title exclude_id ≡ none
    → row_of rows j ≡ some r
    → j ≢ exclude_id
    → title_key r.title ≢ lower (trim_space title)
unfolding title_holder row_of
title_holder-none rows title exclude_id j r h there ne e =
    let p =
      λ (x : Row). title_key x.title == lower (trim_space title) && not (x.id == exclude_id) in
    let (i, at) = find-some (λ (x : Row). x.id == j) rows r there in
    let no : p r ≡ false =
      All-at (λ (x : Row). p x ≡ false) r rows (find-none p rows (ground arith)) i in
    ground (
      arith,
      text_beq_iff r.id j,
      text_beq_iff r.id exclude_id,
      text_beq_iff (title_key r.title) (lower (trim_space title)),
    )

insert-HasUniqueTitles :
    (uuid : Text) (now : ℕ) (s : Store) (input : Input) (author_id agent : Text)
    → HasUniqueTitles s
    → IsTrimmed input.title
    → title_holder s.memories input.title uuid ≡ none
    → row_of s.memories uuid ≡ none
    → HasUniqueTitles (insert_state uuid now s input author_id agent)
unfolding new_memory memory_row
insert-HasUniqueTitles uuid now s input author_id agent titled trimmed free new =
    let after =
      λ (j : Text). row_of-snoc s.memories (memory_row (new_memory uuid now input)) j new in
    record {
      unique = λ i j r q hi hj e. ground (
        arith,
        after i,
        after j,
        text_beq_iff uuid i,
        text_beq_iff uuid j,
        titled.unique i j r q,
        title_holder-none s.memories input.title uuid i r free,
        title_holder-none s.memories input.title uuid j q free,
      );
    }

-- a row of the table behind an update, with the row that it was
module _ (now : ℕ) (s : Store) (id : Text) (u : Updates) (author_id agent : Text) where
  row_before :
      (j : Text) (r : Row)
      → row_of (update_where (λ x. x.id == id) (apply_updates u now) s.memories) j ≡ some r
      → (q : Row) × (row_of s.memories j ≡ some q)
        × (((j ≡ id) × (r ≡ apply_updates u now q)) ⊎ ((j ≢ id) × (r ≡ q)))
  unfolding apply_updates
  row_before j r h =
      let after = row_of-update s.memories id j (apply_updates u now) (λ r. refl) in
      elim (Option-cases (row_of s.memories j)) [
        | inl e ↦ absurd (ground (arith, after))
        | inr (q, e) ↦ (q, e, ground (arith, after, text_beq_iff id j))
      ]

  -- the new title of the row is not that of another one
  new_title_free :
      (row q : Row) (j : Text)
      → ((title : Text) → u.title ≡ some title → IsTrimmed title)
      → HasUniqueTitles s
      → row_of s.memories id ≡ some row
      → retitled s.memories u.title id ≡ none
      → row_of s.memories j ≡ some q
      → j ≢ id
      → title_key (apply_updates u now row).title ≢ title_key q.title
  unfolding apply_updates
  new_title_free row q j trimmed titled live free there ne e = elim (Option-cases u.title) [
    | inl keep ↦
        let same : title_key row.title ≡ title_key q.title = ground arith in
        ne (sym (titled.unique id j row q live there same))
    | inr (title, change) ↦
        ground (arith, trimmed title change, title_holder-none s.memories title id j q)
  ]

update-HasUniqueTitles :
    (now : ℕ) (s : Store) (id : Text) (u : Updates) (author_id agent : Text) (row : Row)
    → HasUniqueTitles s
    → ((title : Text) → u.title ≡ some title → IsTrimmed title)
    → row_of s.memories id ≡ some row
    → retitled s.memories u.title id ≡ none
    → HasUniqueTitles (update_state now s id u author_id agent row)
update-HasUniqueTitles now s id u author_id agent row titled trimmed live free =
    let other = λ (q : Row) (j : Text).
      new_title_free now s id u author_id agent row q j trimmed titled live free in
    record {
      unique = λ i j r q hi hj e.
          let (r', ri, ci) = row_before now s id u author_id agent i r hi in
          let (q', qj, cj) = row_before now s id u author_id agent j q hj in
          elim ci [
            | inl (ii, er) ↦ elim cj [
              | inl (jj, eq) ↦ ii ∙ sym jj
              | inr (nj, eq) ↦
                  let er' : r ≡ apply_updates u now row = cc in absurd (other q' j qj nj (cc))
            ]
            | inr (ni, er) ↦ elim cj [
              | inl (jj, eq) ↦
                  let eq' : q ≡ apply_updates u now row = cc in absurd (other r' i ri ni (cc))
              | inr (nj, eq) ↦ titled.unique i j r' q' ri qj (cc)
            ]
          ];
    }

delete-HasUniqueTitles :
    (now : ℕ) (s : Store) (id deleted_by : Text) (row : Row)
    → HasUniqueTitles s
    → HasUniqueTitles (delete_state now s id deleted_by row)
unfolding delete_rows
delete-HasUniqueTitles now s id deleted_by row titled = record {
  unique = λ i j r q hi hj e.
      ground (
        arith,
        row_of-delete s.memories id i,
        row_of-delete s.memories id j,
        titled.unique i j r q,
      );
}

-- Titles stay unique under writes whose new titles have no white space at the ends but blanks.
pub titles_stay_unique :
    (s : Store)
    → IsSound s
    → HasUniqueTitles s
    → ((uuid : Text) (now : ℕ) (input : Input) (author_id agent : Text) (m : Memory)
          (links : List LinkStatus) (t : Store)
        → IsTrimmed input.title
        → insert uuid now s input author_id agent ≡ ok (m, links, t)
        → HasUniqueTitles t)
      × ((now : ℕ) (id : Text) (u : Updates) (author_id agent : Text) (base : Option ℕ) (m : Memory)
            (links : List LinkStatus) (t : Store)
          → ((title : Text) → u.title ≡ some title → IsTrimmed title)
          → update now s id u author_id agent base ≡ ok (m, links, t)
          → HasUniqueTitles t)
      × ((now : ℕ) (id deleted_by : Text) (t : Store)
          → delete now s id deleted_by ≡ ok t
          → HasUniqueTitles t)
titles_stay_unique s sound titled = (
  λ uuid now input author_id agent m links t trimmed h.
      let (new, e) = insert-result uuid now s input author_id agent sound h in
      let (free, _) = insert_found uuid now s input author_id agent h in
      rw e (insert-HasUniqueTitles uuid now s input author_id agent titled trimmed free new),
  λ now id u author_id agent base m links t trimmed h.
      let (row, live, _, _, e) = update-result now s id u author_id agent base sound h in
      let (row', live', _, free) = update_found now s id u author_id agent base h in
      rw e (update-HasUniqueTitles now s id u author_id agent row titled trimmed live free),
  λ now id deleted_by t h.
      let (row, live, e) = delete_found now s id deleted_by h in
      rw e (delete-HasUniqueTitles now s id deleted_by row titled),
)

-- A title with other white space at an end, such as a tab, is not kept apart from itself: after it was
-- inserted once, inserting it again under a new id succeeds.
pub untrimmed_title_twice :
    (uuid uuid' : Text) (now later : ℕ) (s : Store) (input : Input) (author_id agent : Text)
    {m : Memory} {links : List LinkStatus} {t : Store}
    → IsSound s
    → tombstone_of s.tombstones uuid ≡ none
    → uuid' ≢ uuid
    → row_of s.memories uuid' ≡ none
    → ¬ IsTrimmed input.title
    → title_holder s.memories input.title uuid' ≡ none
    → insert uuid now s input author_id agent ≡ ok (m, links, t)
    → (links' : List LinkStatus) × (t' : Store) × (insert uuid' later t input author_id agent
        ≡ ok (new_memory uuid' later input, links', t'))
untrimmed_title_twice uuid uuid' now later s input author_id agent {t} sound unburned ne new
      untrimmed free h =
    let (fresh, e) = insert-result uuid now s input author_id agent sound h in
    let sound' = insert-IsSound uuid now s input author_id agent sound unburned h in
    let p =
      λ (x : Row). title_key x.title == lower (trim_space input.title) && not (x.id == uuid') in
    let row = memory_row (new_memory uuid now input) in
    let still_free : title_holder t.memories input.title uuid' ≡ none =
      ap (λ (x : Store). title_holder x.memories input.title uuid') e
      ∙ (unfold title_holder new_memory memory_row in
          ground (
            arith,
            find-snoc p s.memories row,
            text_beq_iff (title_key input.title) (lower (trim_space input.title)),
          )) in
    let still_new : row_of t.memories uuid' ≡ none =
      ap (λ (x : Store). row_of x.memories uuid') e
      ∙ (unfold new_memory memory_row in
          ground (arith, row_of-snoc s.memories row uuid' fresh, text_beq_iff uuid uuid')) in
    let done =
      insert-ok uuid' later t input author_id agent still_free still_new
        (no_revision t sound' uuid' 1 still_new) in
    (
      link_statuses (with_row t (memory_row (new_memory uuid' later input))) uuid' input.title
          input.content,
      insert_state uuid' later t input author_id agent,
      done,
    )
