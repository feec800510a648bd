-- ===== src/Workspaces.antt =====
-- internal/engine/engine.go: the workspaces that an identity can act in, `MyTeams`, and the grants that
-- are pinned to one of them, `MintGrantByID`; the choices that internal/api/oauth_handlers.go makes of
-- the list.
use rekam.Prelude.{
  ℕ, Text, codes, Bool, true, false, not, List, [], ◌∷◌, ◌++◌, map, ◌==◌, text_eq, text_beq,
  is_empty, if◌then◌else◌,
}
use rekam.Members.{Role, viewer, Effective, belongs, denied, effective_member}
use rekam.Registry.{resolve, resolve_by_id}
use rekam.Registry.Directory.{team_by_id, teams_for_identity}
use rekam.Registry.Grants.{mint_grant, mint_delegated_grant}
use rekam.Auth.{
  Crypto, Node, Access, admits, denies, auth_failed, not_primary, no_such_team, registry_failed,
  ◌>>=◌, ◌>>◌, deny_if, or_deny, or_none, member_in, resolve_bearer, session_token_for,
}

unfoldable pub assert_member_of_team : Node → Text → Text → Access (Unit {0})
unfolding team_by_id effective_member
assert_member_of_team n identity_id team_id = do
  t ← or_none no_such_team (team_by_id n.registry team_id)
  m ← member_in (effective_member (n.rosters t.path) identity_id)
  admits tt

abbrev pub or_unknown : Text → Text
or_unknown client_id = if is_empty client_id then codes "unknown" else client_id

-- what a handler draws at random
pub record Drawn : Type 0 where
  pub id : Text
  pub raw_key : Text

unfoldable pub mint_grant_by_id : Crypto → Node → Drawn → Text → Text → Text → ℕ → Access Node
unfolding resolve_by_id assert_member_of_team mint_delegated_grant
mint_grant_by_id c n drawn identity_id client_id team_id now = do
  deny_if (not n.registry_primary) not_primary
  who ← or_deny auth_failed (resolve_by_id n.registry identity_id)
  if is_empty team_id then admits tt else assert_member_of_team n identity_id team_id
  r ← or_deny registry_failed (
      mint_delegated_grant c.hash n.registry drawn.id drawn.raw_key (or_unknown client_id)
        identity_id team_id now)
  admits (record n { registry = r })

-- the grant of the master key, with a hidden identity
unfoldable pub mint_master_grant : Crypto → Node → Text → Drawn → Text → Text → ℕ → Access Node
unfolding resolve mint_grant
mint_master_grant c n identity_id drawn base_key client_id now = do
  deny_if (not n.registry_primary) not_primary
  base ← or_deny auth_failed (resolve c.hash n.registry base_key)
  r ← or_deny registry_failed (
      mint_grant c.hash n.registry identity_id drawn.id drawn.raw_key (or_unknown client_id)
        (codes "oauth:" ++ or_unknown client_id) base.memory_path base.allow_write now)
  admits (record n { registry = r })

pub record TeamRef : Type 0 where
  pub id : Text
  pub name : Text
  pub home : Bool
  pub role : Role
  pub is_active : Bool

abbrev pub home_ref : Text → Effective → List TeamRef
home_ref active denied = []
home_ref active (belongs m) =
    record {
      id = [];
      name = codes "Personal";
      home = true;
      role = m.role;
      is_active = is_empty active;
    }
    ∷ []

abbrev pub role_in : Effective → Role
role_in denied = viewer
role_in (belongs m) = m.role

unfoldable pub my_teams : Crypto → Node → Text → Access (List TeamRef)
unfolding resolve_bearer effective_member teams_for_identity text_beq
my_teams c n bearer = do
  who ← resolve_bearer c n.registry bearer
  admits (
      home_ref who.1 (effective_member (n.rosters who.0.memory_path) who.0.id)
      ++ map
          (λ t. record {
            id = t.id;
            name = t.name;
            home = false;
            role = role_in (effective_member (n.rosters t.path) who.0.id);
            is_active = t.id == who.1;
          })
          (teams_for_identity n.registry who.0.id))

pub record WorkspaceChoice : Type 0 where
  pub id : Text
  pub name : Text
  pub role : Role

abbrev pub choice_of : TeamRef → WorkspaceChoice
choice_of t = record {
  id = t.id;
  name = if t.home then codes "Personal memory" else t.name;
  role = t.role;
}

abbrev pub or_nothing : Access (List TeamRef) → List WorkspaceChoice
or_nothing (denies e) = []
or_nothing (admits refs) = map choice_of refs

unfoldable pub workspaces_for : Crypto → Node → Text → List WorkspaceChoice
unfolding my_teams session_token_for
workspaces_for c n identity_id = or_nothing (my_teams c n (session_token_for c identity_id []))
