-- ===== src/Store/Write/Rows.antt =====
-- Reading a table of internal/db/memory.go after a row was added, changed or removed.
use rekam.Prelude.{
  ℕ, Text, ◌&&◌, not, List, [], ◌∷◌, ◌++◌, none, some, ◌==◌, ◌≡◌, refl, inl, inr, arith, text_eq,
  text_beq_iff, nat_eq, find, select, update_where, if◌then◌else◌, Bool-cases, find-snoc,
  find-select-none, find-select_same, find-some,
}
use rekam.Store.{Row, RevisionRow, row_of}
use rekam.Store.Write.{is_revision}

pub row_of_id : (rows : List Row) (id : Text) (r : Row) → row_of rows id ≡ some r → r.id ≡ id
unfolding row_of
row_of_id rows id r h = (text_beq_iff r.id id).0 (find-some (λ r. r.id == id) rows r h).1

pub row_of-snoc :
    (rows : List Row) (r : Row) (j : Text)
    → row_of rows r.id ≡ none
    → row_of (rows ++ r ∷ []) j ≡ (if r.id == j then some r else row_of rows j)
unfolding row_of
row_of-snoc rows r j h = elim (Bool-cases (r.id == j)) [
  | inl e ↦
      let same : r.id ≡ j = (text_beq_iff r.id j).0 e in
      let q : find (λ x. x.id == j) rows ≡ none = rw (← same) h in
      rw (find-snoc (λ x. x.id == j) rows r, q, e)
  | inr n ↦ rw (find-snoc (λ x. x.id == j) rows r, n) (ground arith)
]

pub row_of-update :
    (rows : List Row) (id j : Text) (f : Row → Row)
    → ((r : Row) → (f r).id ≡ r.id)
    → row_of (update_where (λ r. r.id == id) f rows) j
      ≡ (elim (row_of rows j) [ none ↦ none | some r ↦ if id == j then some (f r) else some r ])
unfolding row_of find update_where
row_of-update [] id j f k = refl
row_of-update (r ∷ rows) id j f k = ground (
  arith,
  row_of-update rows id j f k,
  k r,
  text_beq_iff r.id id,
  text_beq_iff r.id j,
  text_beq_iff id j,
)

pub row_of-delete :
    (rows : List Row) (id j : Text)
    → row_of (select (λ r. not (r.id == id)) rows) j ≡ (if id == j then none else row_of rows j)
unfolding row_of
row_of-delete rows id j = elim (Bool-cases (id == j)) [
  | inl e ↦ rw e (
      find-select-none (λ r. r.id == j) (λ r. not (r.id == id)) rows
        (λ r h. ground (arith, text_beq_iff r.id id, text_beq_iff r.id j, text_beq_iff id j)))
  | inr n ↦ rw n (
      find-select_same (λ r. r.id == j) (λ r. not (r.id == id)) rows
        (λ r h. ground (arith, text_beq_iff r.id id, text_beq_iff r.id j, text_beq_iff id j)))
]

module _ (revisions : List RevisionRow) where
  pub revision-snoc :
      (rev : RevisionRow) (j : Text) (v : ℕ)
      → find (is_revision j v) (revisions ++ rev ∷ []) ≡ (elim (find (is_revision j v) revisions) [
        | some a ↦ some a
        | none ↦ if rev.memory_id == j && rev.version == v then some rev else none
      ])
  revision-snoc rev j v = find-snoc (is_revision j v) revisions rev

  pub revision-delete :
      (id j : Text) (v : ℕ)
      → find (is_revision j v) (select (λ r. not (r.memory_id == id)) revisions)
        ≡ (if id == j then none else find (is_revision j v) revisions)
  revision-delete id j v = elim (Bool-cases (id == j)) [
    | inl e ↦ rw e (
        find-select-none (is_revision j v) (λ r. not (r.memory_id == id)) revisions
          (λ r h.
            ground
              (arith, text_beq_iff r.memory_id id, text_beq_iff r.memory_id j, text_beq_iff id j)))
    | inr n ↦ rw n (
        find-select_same (is_revision j v) (λ r. not (r.memory_id == id)) revisions
          (λ r h.
            ground
              (arith, text_beq_iff r.memory_id id, text_beq_iff r.memory_id j, text_beq_iff id j)))
  ]
