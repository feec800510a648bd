-- ===== src/RateLimit.antt =====
-- internal/api/ratelimit.go: the token buckets. Times and windows are whole ticks of the clock, and a
-- token is worth as many units as a window has ticks: one tick then refills `burst` units, exactly.
pub mod Credit
pub mod Rate
pub mod Run
use rekam.Prelude.{
  ℕ, zero, suc, ◌+◌, ◌-◌, ◌*◌, ◌/◌, Text, Bool, true, false, ◌&&◌, not, List, [], ◌∷◌, Option, none,
  some, ◌==◌, text_eq, text_beq, ltb, leb, find, select, if◌then◌else◌,
}

pub record Bucket : Type 0 where
  pub key : Text
  pub tokens : ℕ
  pub last_fill : ℕ

-- the map from keys to buckets is a list with one bucket for a key
pub record Limiter : Type 0 where
  pub buckets : List Bucket
  pub burst : ℕ
  pub window : ℕ
  pub last_sweep : ℕ

unfoldable pub new_rate_limiter : ℕ → ℕ → Limiter
new_rate_limiter burst window = record {
  buckets = [];
  burst = burst;
  window = window;
  last_sweep = 0;
}

abbrev pub evict_ttl : Limiter → ℕ
evict_ttl rl = 10 * rl.window

-- a bucket that holds `burst` tokens
abbrev pub full : Limiter → ℕ
full rl = rl.burst * rl.window

unfoldable pub bucket_of : List Bucket → Text → Option Bucket
unfolding find text_beq
bucket_of bs key = find (λ b. b.key == key) bs

unfoldable pub set_bucket : List Bucket → Bucket → List Bucket
unfolding select text_beq
set_bucket bs b = b ∷ select (λ c. not (c.key == b.key)) bs

-- `sweepLocked`
unfoldable pub sweep : Limiter → ℕ → Limiter
unfolding select
sweep rl now = if ltb (now - rl.last_sweep) (evict_ttl rl) then rl else record rl {
  buckets = select (λ b. not (ltb (evict_ttl rl) (now - b.last_fill))) rl.buckets;
  last_sweep = now;
}

abbrev pub capped : ℕ → ℕ → ℕ
capped cap n = if leb cap n then cap else n

unfoldable pub refilled : Limiter → ℕ → Text → Option Bucket → Bucket
refilled rl now key none = record { key = key; tokens = full rl; last_fill = now }
refilled rl now key (some b) = record {
  key = key;
  tokens = capped (full rl) (b.tokens + (now - b.last_fill) * rl.burst);
  last_fill = now;
}

-- The answer, and how long to wait: until a whole token is there, and one second more.
unfoldable pub spend : ℕ → Limiter → Bucket → (Bool × ℕ) × Limiter
unfolding set_bucket
spend second rl b =
    if leb rl.window b.tokens
    then (
      (true, 0),
      record rl { buckets = set_bucket rl.buckets (record b { tokens = b.tokens - rl.window }) },
    )
    else (
      (false, (rl.window - b.tokens) / rl.burst + second),
      record rl { buckets = set_bucket rl.buckets b },
    )

unfoldable pub allow : ℕ → Limiter → ℕ → Text → (Bool × ℕ) × Limiter
unfolding sweep refilled bucket_of spend
allow second rl now key =
    let swept = sweep rl now in
    spend second swept (refilled swept now key (bucket_of swept.buckets key))
