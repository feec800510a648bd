-- ===== src/Redirect.antt =====
-- internal/api/redirect_uri.go: where an authorization code may be sent. The parsers of package net
-- are parameters: what url.Parse makes of a text, and whether a host is a literal loopback address.
pub mod Exact
use rekam.Prelude.{
  Text, codes, Bool, true, false, ◌&&◌, ◌||◌, List, [], ◌∷◌, Option, none, some, ◌==◌, text_eq,
  text_beq, if◌then◌else◌,
}

pub record Url : Type 0 where
  pub scheme : Text
  pub hostname : Text
  pub path : Text

unfoldable pub is_loopback : (Text → Bool) → Url → Bool
unfolding text_beq
is_loopback loopback_ip u = u.scheme == codes "http" && loopback_ip u.hostname

-- one turn of the loop: whether a candidate allows the request
unfoldable pub allowed_by : (Text → Bool) → Text → Url → Text → Option Url → Bool
unfolding is_loopback text_beq
allowed_by loopback_ip requested req candidate none = false
allowed_by loopback_ip requested req candidate (some reg) =
    if is_loopback loopback_ip reg && is_loopback loopback_ip req
    then reg.scheme == req.scheme && (reg.path == req.path && reg.hostname == req.hostname)
    else candidate == requested

unfoldable pub any_allows : (Text → Option Url) → (Text → Bool) → Text → Url → List Text → Bool
unfolding allowed_by
any_allows url_parse loopback_ip requested req [] = false
any_allows url_parse loopback_ip requested req (candidate ∷ registered) =
    allowed_by loopback_ip requested req candidate (url_parse candidate)
    || any_allows url_parse loopback_ip requested req registered

unfoldable pub parsed_allowed :
    (Text → Option Url) → (Text → Bool) → List Text → Text → Option Url → Bool
unfolding any_allows
parsed_allowed url_parse loopback_ip registered requested none = false
parsed_allowed url_parse loopback_ip registered requested (some req) =
    any_allows url_parse loopback_ip requested req registered

unfoldable pub redirect_uri_allowed : (Text → Option Url) → (Text → Bool) → List Text → Text → Bool
unfolding parsed_allowed
redirect_uri_allowed url_parse loopback_ip registered requested =
    parsed_allowed url_parse loopback_ip registered requested (url_parse requested)
