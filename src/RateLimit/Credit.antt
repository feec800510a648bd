-- ===== src/RateLimit/Credit.antt =====
-- internal/api/ratelimit.go: what a key could spend, and the sweep of old buckets.
use rekam.Prelude.{
  ℕ, ◌+◌, ◌-◌, ◌*◌, ◌≤◌, Text, Bool, true, false, not, List, [], ◌∷◌, Option, none, some, ◌==◌,
  text_eq, text_beq_iff, ltb, find, select, if◌then◌else◌, ◌≡◌, refl, sym, ap, ◌∙◌, subst, arith,
  Bool-cases, inl, inr,
}
use native.Mathlib.Nat.{mul-le-mul_right}
use rekam.RateLimit.{Bucket, Limiter, evict_ttl, full, bucket_of, sweep, capped}

-- what a key could spend at a time
unfoldable pub credit_of : ℕ → ℕ → ℕ → Option Bucket → ℕ
credit_of cap burst now none = cap
credit_of cap burst now (some b) = capped cap (b.tokens + (now - b.last_fill) * burst)

unfoldable pub credit : Limiter → ℕ → Text → ℕ
unfolding credit_of bucket_of
credit rl now key = credit_of (full rl) rl.burst now (bucket_of rl.buckets key)

-- no bucket was filled after a time
unfoldable pub InPast : ℕ → List Bucket → Type 0
InPast now [] = Unit
InPast now (b ∷ bs) = (b.last_fill ≤ now) × InPast now bs

pub InPast-later : (t now : ℕ) → t ≤ now → (bs : List Bucket) → InPast t bs → InPast now bs
unfolding InPast
InPast-later t now h [] p = tt
InPast-later t now h (b ∷ bs) (p, ps) = (omega arith, InPast-later t now h bs ps)

pub InPast-select :
    (f : Bucket → Bool) (t : ℕ) (bs : List Bucket) → InPast t bs → InPast t (select f bs)
unfolding InPast select
InPast-select f t [] p = tt
InPast-select f t (b ∷ bs) (p, ps) = elim (Bool-cases (f b)) [
  | inl y ↦ rw y (p, InPast-select f t bs ps)
  | inr n ↦ rw n (InPast-select f t bs ps)
]

pub bucket_of-past :
    (t : ℕ) (bs : List Bucket) (key : Text) (b : Bucket)
    → InPast t bs
    → bucket_of bs key ≡ some b
    → b.last_fill ≤ t
unfolding InPast bucket_of find
bucket_of-past t [] key b p e = absurd (cc)
bucket_of-past t (c ∷ cs) key b (p, ps) e = elim (Bool-cases (c.key == key)) [
  | inl y ↦ ground (arith, y, e)
  | inr n ↦ bucket_of-past t cs key b ps (ground (arith, n, e))
]

-- one lookup beside a change of another key, and of the same one
pub bucket_of-select_other :
    (bs : List Bucket) (key other : Text)
    → (key == other) ≡ false
    → bucket_of (select (λ c. not (c.key == key)) bs) other ≡ bucket_of bs other
unfolding bucket_of find select
bucket_of-select_other [] key other h = refl
bucket_of-select_other (c ∷ cs) key other h = elim (Bool-cases (c.key == key)) [
  | inl y ↦
      rw (y, subst (λ i. (i == other) ≡ false) (sym ((text_beq_iff c.key key).0 y)) h)
        (bucket_of-select_other cs key other h)
  | inr n ↦
      rw n (ap (λ o. if c.key == other then some c else o) (bucket_of-select_other cs key other h))
]

credit_of-le-full :
    (rl : Limiter) (now : ℕ) (o : Option Bucket) → credit_of (full rl) rl.burst now o ≤ full rl
unfolding credit_of
credit_of-le-full rl now none = ground arith
credit_of-le-full rl now (some b) = ground arith

-- credit grows at most by what the time refills
pub credit_of_later :
    (rl : Limiter) (t now : ℕ) (o : Option Bucket)
    → ((b : Bucket) → o ≡ some b → b.last_fill ≤ t)
    → t ≤ now
    → credit_of (full rl) rl.burst now o ≤ credit_of (full rl) rl.burst t o + (now - t) * rl.burst
unfolding credit_of
credit_of_later rl t now none f h = omega arith
credit_of_later rl t now (some b) f h =
    let e : now - b.last_fill ≡ (t - b.last_fill) + (now - t) = (let q = f b refl in omega arith) in
    let d : (now - b.last_fill) * rl.burst ≡ (t - b.last_fill) * rl.burst + (now - t) * rl.burst =
      ap (λ n. n * rl.burst) e ∙ omega arith in
    ground (arith, d)

-- a bucket that is swept was full
credit_of-swept :
    (rl : Limiter) (now : ℕ) (b : Bucket)
    → ltb (evict_ttl rl) (now - b.last_fill) ≡ true
    → credit_of (full rl) rl.burst now (some b) ≡ full rl
unfolding credit_of
credit_of-swept rl now b h =
    let m : (10 * rl.window) * rl.burst ≤ (now - b.last_fill) * rl.burst =
      mul-le-mul_right rl.burst (ground (arith, h)) in
    let n : rl.burst * rl.window ≤ (10 * rl.window) * rl.burst = omega arith in ground (arith, m, n)

credit-select :
    (rl : Limiter) (now : ℕ) (key : Text) (bs : List Bucket)
    → credit_of
        (full rl)
        rl.burst
        now
        (bucket_of (select (λ b. not (ltb (evict_ttl rl) (now - b.last_fill))) bs) key)
      ≤ credit_of (full rl) rl.burst now (bucket_of bs key)
unfolding bucket_of find select
credit-select rl now key [] = ground arith
credit-select rl now key (b ∷ bs) = elim (Bool-cases (b.key == key)) [
  | inl y ↦ elim (Bool-cases (ltb (evict_ttl rl) (now - b.last_fill))) [
    | inl z ↦
        rw (y, z)
          (subst
            (λ n.
              credit_of (full rl) rl.burst now
                (bucket_of (select (λ c. not (ltb (evict_ttl rl) (now - c.last_fill))) bs) key)
              ≤ n)
            (sym (credit_of-swept rl now b z))
            (credit_of-le-full rl now
              (bucket_of (select (λ c. not (ltb (evict_ttl rl) (now - c.last_fill))) bs) key)))
    | inr z ↦ rw (z, y) (ground arith)
  ]
  | inr n ↦ elim (Bool-cases (ltb (evict_ttl rl) (now - b.last_fill))) [
    | inl z ↦ rw (n, z) (credit-select rl now key bs)
    | inr z ↦ rw (z, n) (credit-select rl now key bs)
  ]
]

-- two limiters allow the same rate
pub record SameRate (rl rl' : Limiter) : Type 0 where
  pub bursts : rl'.burst ≡ rl.burst
  pub windows : rl'.window ≡ rl.window

pub sweep-SameRate : (rl : Limiter) (now : ℕ) → SameRate rl (sweep rl now)
unfolding sweep
sweep-SameRate rl now = elim (Bool-cases (ltb (now - rl.last_sweep) (evict_ttl rl))) [
  | inl y ↦ rw y (record { bursts = refl; windows = refl })
  | inr n ↦ rw n (record { bursts = refl; windows = refl })
]

pub credit-sweep :
    (rl : Limiter) (now : ℕ) (key : Text) → credit (sweep rl now) now key ≤ credit rl now key
unfolding sweep credit bucket_of
credit-sweep rl now key = elim (Bool-cases (ltb (now - rl.last_sweep) (evict_ttl rl))) [
  | inl y ↦ rw y (ground arith)
  | inr n ↦ rw n (credit-select rl now key rl.buckets)
]

pub sweep-InPast :
    (rl : Limiter) (t now : ℕ) → InPast t rl.buckets → InPast t (sweep rl now).buckets
unfolding sweep
sweep-InPast rl t now p = elim (Bool-cases (ltb (now - rl.last_sweep) (evict_ttl rl))) [
  | inl y ↦ rw y p
  | inr n ↦ rw n (InPast-select (λ b. not (ltb (evict_ttl rl) (now - b.last_fill))) t rl.buckets p)
]
