-- ===== src/Registry/Grants.antt =====
-- internal/db/registry.go: grants, the keys that an OAuth client holds. A delegated grant has a key
-- of its own and acts as a user; a legacy grant owns a hidden identity.
pub mod Keyless
pub mod Revoked
use rekam.Prelude.{
  ℕ, Text, Bool, false, ◌&&◌, ◌||◌, not, List, [], ◌∷◌, ◌++◌, map, Option, none, some, ◌==◌,
  text_eq, text_beq, ltb, find, any, select, update_where, if◌then◌else◌,
}
use rekam.Store.{null_str, string}
use rekam.Store.Health.{sort_by}
use rekam.Registry.{
  Registry, Account, Identity, Grant, TeamRow, Answer, gives, fails, ◌>>=◌, ◌>>◌, duplicate,
  grant_not_found, already_revoked, is_null, equals, validate_identity_fields, insert_account,
  key_account, resolve_by_id, account_by_id,
}
use rekam.Registry.Directory.{team_by_id}

abbrev pub same_key : Option Text → Option Text → Bool
same_key (some s) (some t) = s == t
same_key _ _ = false

unfoldable pub insert_grant : Registry → Grant → Answer Registry
unfolding any text_beq
insert_grant r g =
    if any (λ h. g.id == h.id || same_key g.api_key h.api_key) r.grants
    then fails duplicate
    else gives (record r { grants = r.grants ++ g ∷ [] })

abbrev pub new_grant : Text → Text → Text → Option Text → Option Text → ℕ → Grant
new_grant id client_id identity_id key team_id now = record {
  id = id;
  client_id = client_id;
  identity_id = identity_id;
  created_at = now;
  revoked_at = none;
  api_key = key;
  team_id = team_id;
}

unfoldable pub mint_delegated_grant :
    (Text → Text) → Registry → Text → Text → Text → Text → Text → ℕ → Answer Registry
unfolding insert_grant null_str
mint_delegated_grant hash r id raw_key client_id identity_id team_id now =
    insert_grant r (new_grant id client_id identity_id (some (hash raw_key)) (null_str team_id) now)

-- WHERE api_key = ? AND revoked_at IS NULL
abbrev pub holds_key : Text → Grant → Bool
holds_key key g = equals g.api_key key && is_null g.revoked_at

-- a grant whose account is gone resolves to nothing
abbrev pub grant_identity : Option Text → Answer Identity → Option (Identity × Text)
grant_identity team (fails e) = none
grant_identity team (gives id) = some (id, string team)

unfoldable pub granted_to : Registry → Option Grant → Option (Identity × Text)
unfolding resolve_by_id
granted_to r none = none
granted_to r (some g) = grant_identity g.team_id (resolve_by_id r g.identity_id)

unfoldable pub resolve_grant : (Text → Text) → Registry → Text → Option (Identity × Text)
unfolding find granted_to text_beq
resolve_grant hash r raw_key = granted_to r (find (holds_key (hash raw_key)) r.grants)

-- one transaction: the hidden identity, and the grant without a key
unfoldable pub mint_grant :
    (Text → Text) → Registry → Text → Text → Text → Text → Text → Text → Bool → ℕ → Answer Registry
unfolding validate_identity_fields insert_account insert_grant
mint_grant hash r identity_id id raw_key client_id name memory_path allow_write now = do
  validate_identity_fields name memory_path
  r' ← insert_account r (key_account identity_id name (hash raw_key) memory_path allow_write now)
  insert_grant r' (new_grant id client_id identity_id none none now)

unfoldable pub revoked : Registry → Grant → ℕ → Registry
unfolding select update_where text_beq
revoked r g now = record r {
  accounts =
      if is_null g.api_key
      then select (λ a. not (a.id == g.identity_id)) r.accounts
      else r.accounts;
  grants = update_where (λ h. h.id == g.id) (λ h. record h { revoked_at = some now }) r.grants;
}

abbrev pub revoke_row : Registry → ℕ → Option Grant → Answer Registry
revoke_row r now none = fails grant_not_found
revoke_row r now (some g) =
    if is_null g.revoked_at then gives (revoked r g now) else fails already_revoked

unfoldable pub revoke_grant : Registry → Text → ℕ → Answer Registry
unfolding find revoked text_beq
revoke_grant r id now = revoke_row r now (find (λ g. g.id == id) r.grants)

pub record GrantView : Type 0 where
  pub grant : Grant
  pub identity_name : Text
  pub team_name : Text

abbrev pub name_of : Option Account → Text
name_of none = []
name_of (some a) = a.name

abbrev pub team_name_of : Option TeamRow → Text
team_name_of none = []
team_name_of (some t) = t.name

-- the two left joins, in the order of creation
unfoldable pub list_grants : Registry → List GrantView
unfolding sort_by account_by_id team_by_id
list_grants r =
    map
      (λ g. record {
        grant = g;
        identity_name = name_of (account_by_id r g.identity_id);
        team_name = elim g.team_id [ none ↦ [] | some t ↦ team_name_of (team_by_id r t) ];
      })
      (sort_by (λ g h. ltb g.created_at h.created_at) r.grants)
