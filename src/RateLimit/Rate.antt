-- ===== src/RateLimit/Rate.antt =====
-- internal/api/ratelimit.go: the rate that the buckets enforce.
use rekam.Prelude.{
  ℕ, ◌+◌, ◌-◌, ◌*◌, ◌≤◌, Text, Bool, true, false, ◌&&◌, not, List, Option, none, some, ◌==◌,
  text_eq, text_beq, text_beq_iff, leb, find, if◌then◌else◌, ◌≡◌, refl, sym, ap, ◌∙◌, subst, arith,
  Bool-cases, inl, inr,
}
use native.Mathlib.Nat.{zero-mul}
use rekam.RateLimit.{Bucket, Limiter, full, bucket_of, set_bucket, sweep, refilled, spend, allow}
use rekam.RateLimit.Credit.{
  credit_of, credit, InPast, InPast-later, InPast-select, bucket_of-past, bucket_of-select_other,
  credit_of_later, SameRate, sweep-SameRate, credit-sweep, sweep-InPast,
}

-- what one request costs a key
unfoldable pub cost : Text → Text → Bool → Limiter → ℕ
unfolding text_beq
cost key asked allowed rl = if (asked == key) && allowed then rl.window else 0

-- the bucket that a change of one key leaves for a key
bucket_of-set :
    (bs : List Bucket) (b : Bucket) (key : Text)
    → bucket_of (set_bucket bs b) key ≡ (if b.key == key then some b else bucket_of bs key)
unfolding bucket_of set_bucket find
bucket_of-set bs b key = elim (Bool-cases (b.key == key)) [
  | inl y ↦ rw y refl
  | inr n ↦ rw n (bucket_of-select_other bs b.key key n)
]

bucket_of-set_same :
    (bs : List Bucket) (b : Bucket) (key : Text)
    → (b.key == key) ≡ true
    → bucket_of (set_bucket bs b) key ≡ some b
unfolding bucket_of set_bucket find
bucket_of-set_same bs b key h = rw h refl

module _ (rl : Limiter) (now : ℕ) (key : Text) where
  spent-credit :
      (asked : Text) (allowed : Bool) (b : Bucket)
      → b.key ≡ asked
      → b.last_fill ≡ now
      → (if allowed then rl.window else 0) + b.tokens ≤ credit rl now asked
      → cost key asked allowed rl
          + credit_of (full rl) rl.burst now (bucket_of (set_bucket rl.buckets b) key)
        ≤ credit rl now key
  unfolding cost credit
  spent-credit asked allowed b k l h = elim (Bool-cases (asked == key)) [
    | inl y ↦
        let z : (now - b.last_fill) * rl.burst ≡ 0 =
          (let d : now - b.last_fill ≡ 0 = omega arith in
            ap (λ n. n * rl.burst) d ∙ zero-mul rl.burst) in
        let w : credit_of (full rl) rl.burst now (bucket_of (set_bucket rl.buckets b) key)
            ≡ credit_of (full rl) rl.burst now (some b) =
          ap (credit_of (full rl) rl.burst now)
            (bucket_of-set_same rl.buckets b key (subst (λ i. (i == key) ≡ true) (sym k) y)) in
        rw (y, w)
          (at_most b z (
            subst
              (λ i.
                (if allowed then rl.window else 0) + b.tokens
                ≤ credit_of (full rl) rl.burst now (bucket_of rl.buckets i))
              ((text_beq_iff asked key).0 y) h))
    | inr n ↦
        rw (n, bucket_of-set rl.buckets b key, subst (λ i. (i == key) ≡ false) (sym k) n)
          (ground arith)
  ]
    where
      at_most :
          (c : Bucket)
          → (now - c.last_fill) * rl.burst ≡ 0
          → (if allowed then rl.window else 0) + c.tokens
            ≤ credit_of (full rl) rl.burst now (bucket_of rl.buckets key)
          → (if allowed then rl.window else 0) + credit_of (full rl) rl.burst now (some c)
            ≤ credit_of (full rl) rl.burst now (bucket_of rl.buckets key)
      at_most c z g = rw z (ground (arith, g))

  spend-credit :
      (second : ℕ) (asked : Text) (b : Bucket)
      → b.key ≡ asked
      → b.last_fill ≡ now
      → b.tokens ≡ credit rl now asked
      → cost key asked (spend second rl b).0.0 rl + credit (spend second rl b).1 now key
        ≤ credit rl now key
  unfolding spend credit
  spend-credit second asked b k l e = elim (Bool-cases (leb rl.window b.tokens)) [
    | inl y ↦ rw y (
        spent-credit asked true (record b { tokens = b.tokens - rl.window }) k l
          (ground (arith, y, e)))
    | inr n ↦ rw n (spent-credit asked false b k l (ground (arith, e)))
  ]

spend-SameRate : (second : ℕ) (rl : Limiter) (b : Bucket) → SameRate rl (spend second rl b).1
unfolding spend
spend-SameRate second rl b = elim (Bool-cases (leb rl.window b.tokens)) [
  | inl y ↦ rw y (record { bursts = refl; windows = refl })
  | inr n ↦ rw n (record { bursts = refl; windows = refl })
]

spend-InPast :
    (second : ℕ) (rl : Limiter) (now : ℕ) (b : Bucket)
    → b.last_fill ≡ now
    → InPast now rl.buckets
    → InPast now (spend second rl b).1.buckets
unfolding spend set_bucket InPast
spend-InPast second rl now b l p = elim (Bool-cases (leb rl.window b.tokens)) [
  | inl y ↦ rw y (omega arith, InPast-select (λ c. not (c.key == b.key)) now rl.buckets p)
  | inr n ↦ rw n (omega arith, InPast-select (λ c. not (c.key == b.key)) now rl.buckets p)
]

refilled-key :
    (rl : Limiter) (now : ℕ) (key : Text) (o : Option Bucket)
    → ((refilled rl now key o).key ≡ key)
      × (((refilled rl now key o).last_fill ≡ now)
          × ((refilled rl now key o).tokens ≡ credit_of (full rl) rl.burst now o))
unfolding refilled credit_of
refilled-key rl now key none = (refl, (refl, refl))
refilled-key rl now key (some b) = (refl, (refl, refl))

SameRate-trans : (a b c : Limiter) → SameRate a b → SameRate b c → SameRate a c
SameRate-trans a b c p q = record { bursts = q.bursts ∙ p.bursts; windows = q.windows ∙ p.windows }

at_most_chain : {a b c d : ℕ} → a ≤ b → b ≤ c → c ≤ d → a ≤ d
at_most_chain p q r = omega arith

-- one request, for the credit of any key
module _ (second : ℕ) (rl : Limiter) (t now : ℕ) (p : InPast t rl.buckets) (h : t ≤ now) where
  pub allow-SameRate : (asked : Text) → SameRate rl (allow second rl now asked).1
  unfolding allow
  allow-SameRate asked =
      SameRate-trans rl (sweep rl now) _ (sweep-SameRate rl now)
        (spend-SameRate second (sweep rl now) _)

  pub allow-InPast : (asked : Text) → InPast now (allow second rl now asked).1.buckets
  unfolding allow refilled
  allow-InPast asked =
      spend-InPast second (sweep rl now) now _ (refilled-key (sweep rl now) now asked _).1.0
        (sweep-InPast rl now now (InPast-later t now h rl.buckets p))

  pub allow-credit :
      (asked key : Text)
      → cost key asked (allow second rl now asked).0.0 (sweep rl now)
          + credit (allow second rl now asked).1 now key
        ≤ credit rl t key + (now - t) * rl.burst
  unfolding allow credit
  allow-credit asked key =
      let f = refilled-key (sweep rl now) now asked (bucket_of (sweep rl now).buckets asked) in
      at_most_chain
        (spend-credit (sweep rl now) now key second asked
          (refilled (sweep rl now) now asked (bucket_of (sweep rl now).buckets asked)) f.0 f.1.0
          f.1.1)
        (credit-sweep rl now key)
        (credit_of_later rl t now (bucket_of rl.buckets key)
          (λ b e. bucket_of-past t rl.buckets key b p e) h)
