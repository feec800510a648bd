-- ===== src/Review/Schedule.antt =====
-- The schedule of one card of internal/db/srs.go.
use rekam.Prelude.{ℕ, ◌+◌, ◌-◌, ◌*◌, ◌≤◌, ◌<◌, ◌≡◌, arith, nat_eq}
use rekam.Store.{SrsRow}
use rekam.Review.{min_ease, day, grown_interval, next_interval, next_ease, graded}

-- A card at its first, second or a later repetition.
pub record IsScheduled (c : SrsRow) : Type 0 where
  pub floor : min_ease ≤ c.ease
  pub lapsed : c.reps ≡ 0 → c.interval_days ≡ 0
  pub first : c.reps ≡ 1 → c.interval_days ≡ 1
  pub later : 2 ≤ c.reps → 6 ≤ c.interval_days

next_ease-floor : (ease grade : ℕ) → min_ease ≤ next_ease ease grade
unfolding next_ease
next_ease-floor ease grade = ground arith

grown_interval-lt : (n e : ℕ) → 6 ≤ n → 130 ≤ e → n < grown_interval n e
unfolding grown_interval
grown_interval-lt n e hn he = let m : n * 130 ≤ n * e = grind arith in ground arith

next_interval-lt : (c : SrsRow) → IsScheduled c → c.interval_days < next_interval (c.reps + 1) c
unfolding next_interval
next_interval-lt c h = ground (arith, grown_interval-lt c.interval_days c.ease)

-- the interval of a card that passes, by its repetitions
next_interval-cases :
    (c : SrsRow)
    → IsScheduled c
    → (c.reps ≡ 0 → next_interval (c.reps + 1) c ≡ 1)
      × (1 ≤ c.reps → 6 ≤ next_interval (c.reps + 1) c)
unfolding next_interval
next_interval-cases c h =
    (λ e. ground arith, λ l. ground (arith, grown_interval-lt c.interval_days c.ease))

graded-IsScheduled : (now grade : ℕ) (c : SrsRow) → IsScheduled c → IsScheduled (graded now grade c)
unfolding graded
graded-IsScheduled now grade c h =
    let cases = next_interval-cases c h in
    record {
      floor = next_ease-floor c.ease grade;
      lapsed = λ e. ground arith;
      first = λ e. ground (arith, cases.0);
      later = λ l. ground (arith, cases.1);
    }

-- Grading a scheduled card keeps it scheduled, with an ease of at least 1.3. A grade below 3 sets
-- the repetitions and the interval to 0 and makes the card due at once; any other counts a
-- repetition, makes the interval strictly longer, and makes the card due that many days later.
pub graded_lem :
    (now grade : ℕ) (c : SrsRow)
    → IsScheduled c
    → let d = graded now grade c in
      IsScheduled d
      × (grade < 3 → (d.reps ≡ 0) × (d.interval_days ≡ 0) × (d.due_at ≡ now))
      × (3 ≤ grade
          → (d.reps ≡ c.reps + 1)
            × (c.interval_days < d.interval_days)
            × (d.due_at ≡ now + d.interval_days * day))
graded_lem now grade c h = (
  graded-IsScheduled now grade c h,
  λ lapse. unfold graded in ground arith,
  λ pass. let grows = next_interval-lt c h in unfold graded in ground arith,
)

penalty_mono : (a b : ℕ) → a ≤ b → a * (8 + a * 2) ≤ b * (8 + b * 2)
penalty_mono a b h = grind arith

-- Of two grades the higher one leaves an ease that is at least as high, from the ease of any card.
pub next_ease_mono : (ease g k : ℕ) → g ≤ k → k ≤ 5 → next_ease ease g ≤ next_ease ease k
unfolding next_ease
next_ease_mono ease g k h l = let m = penalty_mono (5 - k) (5 - g) (omega arith) in ground arith
