-- ===== src/Auth.antt =====
-- internal/engine/engine.go: who a bearer is and which tenant it opens; internal/mcp/server.go: the
-- team that the header of a request selects. A node has the registry, the rosters of the tenants'
-- files by path, where a file that is new has none, and its write leases. The hash of a key, the
-- signature of a session token and the challenge of a verifier are parameters.
pub mod Token
pub mod Opened
use rekam.Prelude.{
  ℕ, ◌/◌, ◌%◌, ◌+◌, ◌-◌, ◌*◌, ◌≡◌, Text, codes, Bool, true, false, ◌&&◌, ◌||◌, not, List, [], ◌∷◌,
  ◌++◌, Option, none, some, ◌==◌, text_eq, nat_eq, text_beq, nat_beq, ltb, leb, starts_with, drop,
  is_empty, All, if◌then◌else◌,
}
use rekam.Members.{
  Roster, Member, Effective, belongs, denied, effective_member, member_scope, can_write_any,
}
use rekam.Scope.{Scope}
use rekam.Registry.{Registry, Identity, TeamRow, Answer, gives, fails, resolve, resolve_by_id}
use rekam.Registry.Directory.{team_by_id}
use rekam.Registry.Grants.{resolve_grant}

-- HashKey, the HMAC under the secret of the process, and S256
pub record Crypto : Type 0 where
  pub hash : Text → Text
  pub mac : Text → Text
  pub challenge : Text → Text
  pub mac_bytes : (body : Text) → All (λ c. ltb c 256 ≡ true) (mac body)

pub record Node : Type 0 where
  pub registry : Registry
  pub rosters : Text → Roster
  pub registry_primary : Bool
  pub tenant_primary : Text → Bool

pub data Denial : Type 0 where
  auth_failed write_not_allowed no_such_team not_a_member not_primary cannot_manage select_team
        invalid_role owner_only invalid_email already_registered seat_limit invalid_invite
        wrong_email name_required team_limit no_such_account registry_failed :
      Denial

pub data Access (A : Type 0) : Type 0 where
  admits : A → Access A
  denies : Denial → Access A

infixl 5 ◌>>=◌ ◌>>◌
abbrev pub ◌>>=◌ : {A B : Type 0} → Access A → (A → Access B) → Access B
admits a >>= next = next a
denies e >>= next = denies e

abbrev pub ◌>>◌ : {B : Type 0} → Access (Unit {0}) → Access B → Access B
first >> second = first >>= λ _. second

abbrev pub deny_if : Bool → Denial → Access (Unit {0})
deny_if true e = denies e
deny_if false e = admits tt

abbrev pub or_deny : {A : Type 0} → Denial → Answer A → Access A
or_deny e (gives a) = admits a
or_deny e (fails _) = denies e

abbrev pub or_none : {A : Type 0} → Denial → Option A → Access A
or_none e none = denies e
or_none e (some a) = admits a

-- package encoding/hex
abbrev pub hex_digit : ℕ → ℕ
hex_digit n = if ltb n 10 then n + 48 else n + 87

unfoldable pub hex_encode : Text → Text
hex_encode [] = []
hex_encode (b ∷ bs) = hex_digit (b / 16) ∷ hex_digit (b % 16) ∷ hex_encode bs

abbrev pub hex_value : ℕ → Option ℕ
hex_value c =
    if leb 48 c && leb c 57
    then some (c - 48)
    else if leb 97 c && leb c 102
    then some (c - 87)
    else if leb 65 c && leb c 70
    then some (c - 55)
    else none

abbrev pub hex_byte : Option ℕ → Option ℕ → Option Text → Option Text
hex_byte (some high) (some low) (some rest) = some ((high * 16 + low) ∷ rest)
hex_byte _ _ _ = none

unfoldable pub hex_decode : Text → Option Text
hex_decode [] = some []
hex_decode (c ∷ []) = none
hex_decode (c ∷ d ∷ cs) = hex_byte (hex_value c) (hex_value d) (hex_decode cs)

abbrev pub dot_or_later : ℕ → Text → Option (Text × Text) → Option (Text × Text)
dot_or_later c cs (some (before, after)) = some (c ∷ before, after)
dot_or_later c cs none = if nat_beq c b'.' then some ([], cs) else none

-- what stands before and after the last dot
unfoldable pub last_dot : Text → Option (Text × Text)
last_dot [] = none
last_dot (c ∷ cs) = dot_or_later c cs (last_dot cs)

abbrev pub bar_or_later : ℕ → Text → Text × Text → Text × Text
bar_or_later c cs (before, after) = if nat_beq c b'|' then ([], cs) else (c ∷ before, after)

-- what stands before and after the first bar
unfoldable pub first_bar : Text → Text × Text
first_bar [] = ([], [])
first_bar (c ∷ cs) = bar_or_later c cs (first_bar cs)

abbrev pub session_token_prefix : Text
session_token_prefix = codes "sess_"

-- "<id>" or "<id>|<team>"
abbrev pub token_body : Text → Text → Text
token_body id team = if is_empty team then id else id ++ b'|' ∷ team

unfoldable pub session_token_for : Crypto → Text → Text → Text
unfolding hex_encode
session_token_for c id team =
    let body = token_body id team in
    session_token_prefix ++ (body ++ b'.' ∷ hex_encode (c.mac body))

abbrev pub same_mac : Option Text → Text → Bool
same_mac none mac = false
same_mac (some want) mac = want == mac

abbrev pub signed_by : Crypto → Option (Text × Text) → Option (Text × Text)
signed_by c none = none
signed_by c (some (signed, sig)) =
    if is_empty signed || not (same_mac (hex_decode sig) (c.mac signed))
    then none
    else some (first_bar signed)

unfoldable pub identity_from_session_token : Crypto → Text → Option (Text × Text)
unfolding starts_with last_dot hex_decode first_bar text_beq
identity_from_session_token c token =
    if not (starts_with token session_token_prefix)
    then none
    else signed_by c (last_dot (drop 5 token))

abbrev pub with_team : Text → Answer Identity → Access (Identity × Text)
with_team team (gives id) = admits (id, team)
with_team team (fails e) = denies auth_failed

abbrev pub bearer_key :
    Crypto → Registry → Text → Option (Identity × Text) → Access (Identity × Text)
bearer_key c r bearer (some granted) = admits granted
bearer_key c r bearer none = with_team [] (resolve c.hash r bearer)

abbrev pub bearer_of : Crypto → Registry → Text → Option (Text × Text) → Access (Identity × Text)
bearer_of c r bearer (some (id, team)) = with_team team (resolve_by_id r id)
bearer_of c r bearer none = bearer_key c r bearer (resolve_grant c.hash r bearer)

-- a session token, then a delegated grant, then the key of an identity
unfoldable pub resolve_bearer : Crypto → Registry → Text → Access (Identity × Text)
unfolding identity_from_session_token resolve_grant resolve resolve_by_id
resolve_bearer c r bearer = bearer_of c r bearer (identity_from_session_token c bearer)

-- `none` for a bearer that is not known
abbrev pub rebound : Crypto → Text → Access (Identity × Text) → Option Text
rebound c team (denies e) = none
rebound c team (admits (id, pinned)) = some (session_token_for c id.id team)

unfoldable pub bearer_for_team : Crypto → Registry → Text → Text → Option Text
unfolding resolve_bearer session_token_for
bearer_for_team c r bearer team =
    if is_empty team then some bearer else rebound c team (resolve_bearer c r bearer)

abbrev pub or_key : Text → Option Text → Text
or_key key none = key
or_key key (some other) = other

-- `teamBoundKey`, from the bearer and the header X-Rekam-Team
unfoldable pub team_bound_key : Crypto → Registry → Text → Text → Text
unfolding bearer_for_team
team_bound_key c r key team =
    if is_empty team || is_empty key then key else or_key key (bearer_for_team c r key team)

pub record Tenant : Type 0 where
  pub identity : Identity
  pub member : Member
  pub team_id : Text
  pub path : Text

-- the path of the selected team, or of the identity's own file
unfoldable pub tenant_path : Registry → Identity → Text → Access Text
unfolding team_by_id
tenant_path r id team =
    if is_empty team
    then admits id.memory_path
    else elim (team_by_id r team) [ none ↦ denies no_such_team | some t ↦ admits t.path ]

abbrev pub member_in : Effective → Access Member
member_in (belongs m) = admits m
member_in denied = denies not_a_member

unfoldable pub resolve_tenant : Crypto → Node → Text → Bool → Access Tenant
unfolding resolve_bearer tenant_path effective_member can_write_any
resolve_tenant c n bearer require_write = do
  who ← resolve_bearer c n.registry bearer
  deny_if (require_write && not who.0.allow_write) write_not_allowed
  path ← tenant_path n.registry who.0 who.1
  m ← member_in (effective_member (n.rosters path) who.0.id)
  deny_if (require_write && not (can_write_any m.role)) write_not_allowed
  deny_if (require_write && not (n.tenant_primary path)) not_primary
  admits (record { identity = who.0; member = m; team_id = who.1; path = path })

-- the scope of the calls that `resolve` serves
unfoldable pub tenant_scope : Tenant → Scope
unfolding member_scope
tenant_scope t = member_scope t.member
