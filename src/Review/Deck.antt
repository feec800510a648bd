-- ===== src/Review/Deck.antt =====
-- The deck as a table: internal/db/srs.go.
use rekam.Prelude.{
  ℕ, zero, suc, ◌≤◌, ◌<◌, Text, text_eq, text_beq_iff, List, [], ◌∷◌, ◌++◌, Option, none, some, ◌≡◌,
  ◌≢◌, refl, inl, inr, arith, leb, if◌then◌else◌, ◌==◌, nat_eq, find, select, take, length, All,
  update_where, find-snoc, Bool-cases, Option-cases,
}
use rekam.Store.{SrsRow, Row, Store, not_found, bad_grade, ok, err, row_of}
use rekam.Review.{
  srs_of, srs_state, add_to_review, graded, grade, insert_by_due, sort_by_due, join_row,
  with_memory, ReviewCard, due_reviews,
}

srs_of_id :
    (rows : List SrsRow) (id : Text) (r : SrsRow) → srs_of rows id ≡ some r → r.memory_id ≡ id
unfolding srs_of find
srs_of_id [] id r h = absurd (cc)
srs_of_id (x ∷ rows) id r h = ground (arith, srs_of_id rows id r, text_beq_iff x.memory_id id)

srs_of-update :
    (rows : List SrsRow) (id j : Text) (c : SrsRow)
    → c.memory_id ≡ id
    → srs_of (update_where (λ r. r.memory_id == id) (λ r. c) rows) j
      ≡ (elim (srs_of rows j) [ none ↦ none | some r ↦ if id == j then some c else some r ])
unfolding srs_of find update_where
srs_of-update [] id j c e = refl
srs_of-update (x ∷ rows) id j c e = ground (
  arith,
  srs_of-update rows id j c e,
  text_beq_iff x.memory_id id,
  text_beq_iff x.memory_id j,
  text_beq_iff c.memory_id j,
  text_beq_iff id j,
)

-- Grading fails for a grade above 5 and then for a memory that is not in the deck, and in no other
-- case. Where it succeeds it returns the graded card, which is then the card of that memory, and the
-- card of every other memory is as it was.
pub grade_lem :
    (now : ℕ) (s : Store) (id : Text) (g : ℕ)
    → (5 < g → grade now s id g ≡ err (bad_grade g))
      × (g ≤ 5 → srs_of s.srs id ≡ none → grade now s id g ≡ err (not_found id))
      × ((card : SrsRow)
          → g ≤ 5
          → srs_of s.srs id ≡ some card
          → (t : Store) × (grade now s id g ≡ ok (graded now g card, t))
            × (srs_of t.srs id ≡ some (graded now g card))
            × ((j : Text) → j ≢ id → srs_of t.srs j ≡ srs_of s.srs j))
unfolding grade srs_state
grade_lem now s id g = (
  λ h. ground arith,
  λ h e. ground arith,
  λ card h e.
      let card' = graded now g card in
      let same : card'.memory_id ≡ id = unfold graded in srs_of_id s.srs id card e in
      let rows = update_where (λ (r : SrsRow). r.memory_id == id) (λ r. card') s.srs in
      (
        record s { srs = rows },
        ground arith,
        ground (arith, srs_of-update s.srs id id card' same, text_beq_iff id id),
        λ j ne. ground (arith, srs_of-update s.srs id j card' same, text_beq_iff id j),
      ),
)

-- Enrolling a live memory puts a card into the deck that is due at once, if it has none; one that it
-- has is kept with its schedule. Either way enrolling it again, at any time, changes nothing more.
pub add_to_review_idem :
    (now later : ℕ) (s : Store) (id : Text) (row : Row)
    → row_of s.memories id ≡ some row
    → (card : SrsRow) × (t : Store) × (add_to_review now s id ≡ ok (card, t))
      × (add_to_review later t id ≡ ok (card, t))
      × (srs_of t.srs id ≡ some card)
      × ((old : SrsRow) → srs_of s.srs id ≡ some old → (card ≡ old) × (t ≡ s))
      × (srs_of s.srs id ≡ none → card.due_at ≡ now)
unfolding add_to_review
add_to_review_idem now later s id row live = elim (Option-cases (srs_of s.srs id)) [
  | inr (old, e) ↦ (
    old,
    s,
    rw (live, e, add_to_review),
    rw (live, e, add_to_review),
    e,
    (λ o h. (cc, refl)),
    λ h. absurd (cc),
  )
  | inl e ↦
      let card : SrsRow = record {
        memory_id = id;
        ease = 250;
        interval_days = 0;
        reps = 0;
        due_at = now;
        last_reviewed = none;
      } in
      let there : srs_of (s.srs ++ card ∷ []) id ≡ some card =
        unfold srs_of in
        ground
          (arith, find-snoc (λ (r : SrsRow). r.memory_id == id) s.srs card, text_beq_iff id id) in
      (
        card,
        record s { srs = s.srs ++ card ∷ [] },
        rw (live, e, add_to_review),
        rw (live, there, add_to_review),
        there,
        (λ o h. absurd (cc)),
        λ h. refl,
      )
]

-- Sorted by the time that a card is due.
abbrev pub IsSorted : List SrsRow → Type 0
IsSorted [] = Unit
IsSorted (c ∷ cs) = All (λ d. c.due_at ≤ d.due_at) cs × IsSorted cs

All-weaken :
    (m n : ℕ) (cs : List SrsRow) → m ≤ n → All (λ d. n ≤ d.due_at) cs → All (λ d. m ≤ d.due_at) cs
All-weaken m n [] l h = tt
All-weaken m n (c ∷ cs) l h = (omega arith, All-weaken m n cs l h.1)

All-insert_by_due :
    (P : SrsRow → Type 0) (c : SrsRow) (cs : List SrsRow)
    → P c
    → All P cs
    → All P (insert_by_due c cs)
unfolding insert_by_due
All-insert_by_due P c [] h k = (h, tt)
All-insert_by_due P c (d ∷ ds) h k = elim (Bool-cases (leb c.due_at d.due_at)) [
  | inl y ↦ rw y (h, k)
  | inr n ↦ rw n (k.0, All-insert_by_due P c ds h k.1)
]

insert_by_due-IsSorted :
    (c : SrsRow) (cs : List SrsRow) → IsSorted cs → IsSorted (insert_by_due c cs)
unfolding insert_by_due
insert_by_due-IsSorted c [] h = (tt, tt)
insert_by_due-IsSorted c (d ∷ ds) h = elim (Bool-cases (leb c.due_at d.due_at)) [
  | inl y ↦
      let l : c.due_at ≤ d.due_at = ground arith in
      rw y ((l, All-weaken c.due_at d.due_at ds l h.0), h)
  | inr n ↦
      let l : d.due_at ≤ c.due_at = ground arith in
      rw n
        (All-insert_by_due (λ x. d.due_at ≤ x.due_at) c ds l h.0, insert_by_due-IsSorted c ds h.1)
]

sort_by_due-IsSorted : (cs : List SrsRow) → IsSorted (sort_by_due cs)
unfolding sort_by_due
sort_by_due-IsSorted [] = tt
sort_by_due-IsSorted (c ∷ cs) = insert_by_due-IsSorted c (sort_by_due cs) (sort_by_due-IsSorted cs)

sort_by_due-All : (P : SrsRow → Type 0) (cs : List SrsRow) → All P cs → All P (sort_by_due cs)
unfolding sort_by_due
sort_by_due-All P [] h = tt
sort_by_due-All P (c ∷ cs) h = All-insert_by_due P c (sort_by_due cs) h.0 (sort_by_due-All P cs h.1)

abbrev pub IsQueue : List ReviewCard → Type 0
IsQueue [] = Unit
IsQueue (c ∷ cs) = All (λ (d : ReviewCard). c.state.due_at ≤ d.state.due_at) cs × IsQueue cs

module _ (P : ReviewCard → Type 0) where
  join_row-All :
      (c : SrsRow) (o : Option Row) (rest : List ReviewCard)
      → ((r : Row) → All P (join_row c (some r) []))
      → All P rest
      → All P (join_row c o rest)
  unfolding join_row
  join_row-All c none rest h k = k
  join_row-All c (some r) rest h k = ((h r).0, k)

with_memory-All :
    (rows : List Row) (P : SrsRow → Type 0) (cs : List SrsRow)
    → All P cs
    → All (λ (d : ReviewCard). P d.state) (with_memory rows cs)
unfolding with_memory join_row
with_memory-All rows P [] h = tt
with_memory-All rows P (c ∷ cs) h =
    join_row-All (λ d. P d.state) c (row_of rows c.memory_id) (with_memory rows cs) (λ r. (h.0, tt))
      (with_memory-All rows P cs h.1)

join_row-IsQueue :
    (c : SrsRow) (o : Option Row) (rest : List ReviewCard)
    → All (λ (d : ReviewCard). c.due_at ≤ d.state.due_at) rest
    → IsQueue rest
    → IsQueue (join_row c o rest)
unfolding join_row
join_row-IsQueue c none rest h k = k
join_row-IsQueue c (some r) rest h k = (h, k)

with_memory-IsQueue :
    (rows : List Row) (cs : List SrsRow) → IsSorted cs → IsQueue (with_memory rows cs)
unfolding with_memory
with_memory-IsQueue rows [] h = tt
with_memory-IsQueue rows (c ∷ cs) h =
    join_row-IsQueue c (row_of rows c.memory_id) (with_memory rows cs)
      (with_memory-All rows (λ d. c.due_at ≤ d.due_at) cs h.0) (with_memory-IsQueue rows cs h.1)

All-take : (P : ReviewCard → Type 0) (n : ℕ) (cs : List ReviewCard) → All P cs → All P (take n cs)
All-take P zero cs h = tt
All-take P (suc n) [] h = tt
All-take P (suc n) (c ∷ cs) h = (h.0, All-take P n cs h.1)

IsQueue-take : (n : ℕ) (cs : List ReviewCard) → IsQueue cs → IsQueue (take n cs)
IsQueue-take zero cs h = tt
IsQueue-take (suc n) [] h = tt
IsQueue-take (suc n) (c ∷ cs) h =
    (All-take (λ d. c.state.due_at ≤ d.state.due_at) n cs h.0, IsQueue-take n cs h.1)

length-take : (n : ℕ) (cs : List ReviewCard) → length (take n cs) ≤ n
length-take zero cs = omega arith
length-take (suc n) [] = omega arith
length-take (suc n) (c ∷ cs) = omega (arith, length-take n cs)

select-due :
    (now : ℕ) (cs : List SrsRow) → All (λ c. c.due_at ≤ now) (select (λ r. leb r.due_at now) cs)
unfolding select
select-due now [] = tt
select-due now (c ∷ cs) = elim (Bool-cases (leb c.due_at now)) [
  | inl y ↦ rw y (ground arith, select-due now cs)
  | inr n ↦ rw n (select-due now cs)
]

-- The review queue holds only cards that are due, the one that has been due longest first, and at
-- most as many as the limit, or 50 where no limit is given.
pub due_reviews_lem :
    (now : ℕ) (s : Store) (limit : ℕ)
    → let queue = due_reviews now s limit in
      All (λ c. c.state.due_at ≤ now) queue
      × IsQueue queue
      × (length queue ≤ (if limit == 0 then 50 else limit))
unfolding due_reviews
due_reviews_lem now s limit =
    let n = if limit == 0 then 50 else limit in
    let due = select (λ (r : SrsRow). leb r.due_at now) s.srs in
    let cards = with_memory s.memories (sort_by_due due) in
    (
      All-take (λ c. c.state.due_at ≤ now) n cards
          (with_memory-All s.memories (λ c. c.due_at ≤ now) (sort_by_due due)
            (sort_by_due-All (λ c. c.due_at ≤ now) due (select-due now s.srs))),
      IsQueue-take n cards
          (with_memory-IsQueue s.memories (sort_by_due due) (sort_by_due-IsSorted due)),
      length-take n cards,
    )
