-- ===== src/Examples/Others.antt =====
-- internal/db/srs.go, internal/api/ratelimit.go and internal/api/redirect_uri.go on small inputs.
use rekam.Prelude.{
  ◌↔◌, ℕ, ◌+◌, ◌*◌, ◌≤◌, ◌<◌, Text, codes, Bool, true, ◌||◌, List, [], ◌∷◌, Option, none, some, ◌≡◌,
  ◌⊎◌, arith, text_eq, nat_eq, text_beq, if◌then◌else◌, In,
}
use rekam.Store.{SrsRow}
use rekam.Review.{graded, day}
use rekam.Review.Schedule.{graded_lem, IsScheduled}
use rekam.Redirect.{Url, is_loopback, redirect_uri_allowed}
use rekam.Redirect.Exact.{SameButPort, redirect_iff}
use rekam.Examples.Data.{style_id}

abbrev card : SrsRow
card = record {
  memory_id = style_id;
  ease = 250;
  interval_days = 6;
  reps = 2;
  due_at = 900;
  last_reviewed = some 100;
}

card-IsScheduled : IsScheduled card
card-IsScheduled = record {
  floor = ground arith;
  lapsed = λ h. ground arith;
  first = λ h. ground arith;
  later = λ h. ground arith;
}

abbrev requests : List (ℕ × Text)
requests = (0, codes "k") ∷ (1, codes "k") ∷ (2, codes "k") ∷ (9, codes "k") ∷ []

abbrev registered_uri : Text
registered_uri = codes "http://127.0.0.1:1/cb"

abbrev requested_uri : Text
requested_uri = codes "http://127.0.0.1:2/cb?x"

abbrev local_url : Url
local_url = record { scheme = codes "http"; hostname = codes "127.0.0.1"; path = codes "/cb" }

-- a parser of the two texts
abbrev url_parse : Text → Option Url
url_parse t = if text_beq t registered_uri || text_beq t requested_uri then some local_url else none

abbrev loopback_ip : Text → Bool
loopback_ip host = text_beq host (codes "127.0.0.1")

graded_lem_example :
    let d = graded 1000 4 card in
    IsScheduled d
    × (4 < 3 → (d.reps ≡ 0) × (d.interval_days ≡ 0) × (d.due_at ≡ 1000))
    × (3 ≤ 4
        → (d.reps ≡ card.reps + 1)
          × (card.interval_days < d.interval_days)
          × (d.due_at ≡ 1000 + d.interval_days * day))
graded_lem_example = graded_lem 1000 4 card card-IsScheduled

redirect_iff_example :
    (redirect_uri_allowed url_parse loopback_ip (registered_uri ∷ []) requested_uri ≡ true) ↔ (
      (req : Url) × ((url_parse requested_uri ≡ some req)
        × (In requested_uri (registered_uri ∷ [])
            ⊎ ((is_loopback loopback_ip req ≡ true)
                × SameButPort url_parse loopback_ip (registered_uri ∷ []) req))))
redirect_iff_example = redirect_iff url_parse loopback_ip (registered_uri ∷ []) requested_uri
