-- ===== src/Review.antt =====
-- internal/db/srs.go: the review deck and its schedule by SM-2. An ease is kept in hundredths and
-- computed exactly, where the program has a float64; a time is in seconds.
pub mod Schedule
pub mod Deck
use rekam.Prelude.{
  ℕ, zero, suc, ◌+◌, ◌-◌, ◌*◌, ◌/◌, Text, Bool, true, false, ◌&&◌, not, List, [], ◌∷◌, ◌++◌, map,
  Option, none, some, ◌==◌, text_eq, text_beq, nat_eq, ltb, leb, find, any, select, update_where,
  count, take, length, if◌then◌else◌,
}
use rekam.Store.{
  Row, Memory, SrsRow, Store, Error, not_found, bad_grade, Result, ok, err, ◌>>=◌, row_of,
  scan_memory,
}

abbrev pub min_ease : ℕ
min_ease = 130

abbrev pub start_ease : ℕ
start_ease = 250

abbrev pub day : ℕ
day = 86400

-- `SRSState` is the row of the deck
unfoldable pub srs_of : List SrsRow → Text → Option SrsRow
unfolding find text_beq
srs_of rows id = find (λ r. r.memory_id == id) rows

unfoldable pub srs_state : Store → Text → Result SrsRow
srs_state s id = elim (srs_of s.srs id) [ none ↦ err (not_found id) | some r ↦ ok r ]

-- INSERT OR IGNORE
unfoldable pub add_to_review : ℕ → Store → Text → Result (SrsRow × Store)
add_to_review now s id = elim (row_of s.memories id) [
  | none ↦ err (not_found id)
  | some row ↦ elim (srs_of s.srs id) [
    | some r ↦ ok (r, s)
    | none ↦
        let card : SrsRow = record {
          memory_id = id;
          ease = start_ease;
          interval_days = 0;
          reps = 0;
          due_at = now;
          last_reviewed = none;
        } in
        ok (card, record s { srs = s.srs ++ card ∷ [] })
  ]
]

unfoldable pub remove_from_review : Store → Text → Store
unfolding select text_beq
remove_from_review s id = record s { srs = select (λ r. not (r.memory_id == id)) s.srs }

-- max(int(math.Round(float64(interval) * ease)), 1)
unfoldable pub grown_interval : ℕ → ℕ → ℕ
grown_interval interval ease =
    let days = (interval * ease + 50) / 100 in if ltb days 1 then 1 else days

-- the switch on the repetitions, which are counted already
unfoldable pub next_interval : ℕ → SrsRow → ℕ
unfolding grown_interval
next_interval reps card =
    if reps == 1 then 1 else if reps == 2 then 6 else grown_interval card.interval_days card.ease

-- ease + 0.1 - (5 - q) * (0.08 + (5 - q) * 0.02), not below the floor. With the grade at most 5 the
-- part that is taken off is a natural number of hundredths.
unfoldable pub next_ease : ℕ → ℕ → ℕ
next_ease ease grade =
    let off = (5 - grade) * (8 + (5 - grade) * 2) in
    if ltb (ease + 10) (min_ease + off) then min_ease else ease + 10 - off

unfoldable pub graded : ℕ → ℕ → SrsRow → SrsRow
unfolding next_interval next_ease
graded now grade card =
    let reps = if ltb grade 3 then 0 else card.reps + 1 in
    let interval = if ltb grade 3 then 0 else next_interval reps card in
    record card {
      ease = next_ease card.ease grade;
      interval_days = interval;
      reps = reps;
      due_at = if ltb grade 3 then now else now + interval * day;
      last_reviewed = some now;
    }

-- A negative grade is refused as one above 5 is, and is not a natural number here.
unfoldable pub grade : ℕ → Store → Text → ℕ → Result (SrsRow × Store)
grade now s id g = if ltb 5 g then err (bad_grade g) else (do
  card ← srs_state s id
  let card' = graded now g card
  ok (card', record s { srs = update_where (λ r. r.memory_id == id) (λ r. card') s.srs }))

pub record ReviewStats : Type 0 where
  pub total : ℕ
  pub due : ℕ

unfoldable pub review_stats : ℕ → Store → ReviewStats
unfolding count
review_stats now s = record { total = length s.srs; due = count (λ r. leb r.due_at now) s.srs }

unfoldable pub in_review : Store → Text → Bool
unfolding any text_beq
in_review s id = any (λ r. r.memory_id == id) s.srs

-- ORDER BY s.due_at ASC
unfoldable pub insert_by_due : SrsRow → List SrsRow → List SrsRow
insert_by_due c [] = c ∷ []
insert_by_due c (d ∷ ds) =
    let rest = insert_by_due c ds in if leb c.due_at d.due_at then c ∷ d ∷ ds else d ∷ rest

unfoldable pub sort_by_due : List SrsRow → List SrsRow
unfolding insert_by_due
sort_by_due [] = []
sort_by_due (c ∷ cs) = insert_by_due c (sort_by_due cs)

pub record ReviewCard : Type 0 where
  pub memory : Memory
  pub state : SrsRow

-- the JOIN with `memories`
unfoldable pub join_row : SrsRow → Option Row → List ReviewCard → List ReviewCard
unfolding scan_memory
join_row c none rest = rest
join_row c (some r) rest = record { memory = scan_memory r; state = c } ∷ rest

unfoldable pub with_memory : List Row → List SrsRow → List ReviewCard
unfolding row_of join_row
with_memory rows [] = []
with_memory rows (c ∷ cs) = join_row c (row_of rows c.memory_id) (with_memory rows cs)

-- A limit that is not positive is 0 here.
unfoldable pub due_reviews : ℕ → Store → ℕ → List ReviewCard
due_reviews now s limit =
    let limit' = if limit == 0 then 50 else limit in
    take limit' (with_memory s.memories (sort_by_due (select (λ r. leb r.due_at now) s.srs)))
