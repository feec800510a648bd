-- ===== src/RateLimit/Run.antt =====
-- internal/api/ratelimit.go: sequences of requests.
use rekam.Prelude.{ℕ, ◌+◌, ◌≤◌, Text, ◌&&◌, List, [], ◌∷◌, ◌==◌, text_eq, text_beq, if◌then◌else◌}
use rekam.RateLimit.{Limiter, allow}

-- how many requests of a key are let through
unfoldable pub allowed : ℕ → Text → Limiter → List (ℕ × Text) → ℕ
unfolding allow text_beq
allowed second key rl [] = 0
allowed second key rl ((now, asked) ∷ rest) =
    (if (asked == key) && (allow second rl now asked).0.0 then 1 else 0)
    + allowed second key (allow second rl now asked).1 rest

-- the clock does not run backwards
abbrev pub Ordered : ℕ → List (ℕ × Text) → Type 0
Ordered t [] = Unit
Ordered t ((now, asked) ∷ rest) = (t ≤ now) × Ordered now rest

abbrev pub last_time : ℕ → List (ℕ × Text) → ℕ
last_time t [] = t
last_time t ((now, asked) ∷ rest) = last_time now rest
