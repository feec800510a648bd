-- ===== src/Invites.antt =====
-- internal/engine/engine.go: invitations to a team, `InviteMember` and `AcceptInvite`, the lookup of a
-- member by email, and the teams themselves, `CreateTeam`, `RenameTeam` and `DeleteTeam`.
pub mod Accepted
pub mod Stranded
use rekam.Prelude.{
  ℕ, ◌+◌, ◌*◌, Text, codes, Bool, true, false, ◌&&◌, ◌||◌, not, List, [], ◌∷◌, Option, none, some,
  ◌==◌, text_eq, text_beq, leb, is_empty, trim_space, if◌then◌else◌,
}
use rekam.Members.{
  Role, owner, is_owner, valid_role, can_manage_members, can_manage_team, Roster, Member, member,
  effective_member, count_members, put_member,
}
use rekam.Registry.{
  Registry, RegistryError, Identity, TeamRow, Invite, Answer, gives, fails, team_limit as too_many,
}
use rekam.Registry.Directory.{
  team_by_id, create_team, rename_team, soft_delete_team, index_team_member,
}
use rekam.Registry.Tickets.{store_invite, resolve_invite, delete_invite}
use rekam.Registry.Users.{normalize_email, validate_email, lookup_by_email}
use rekam.Store.{string}
use rekam.Auth.{
  Crypto, Node, Access, admits, denies, Denial, no_such_team, not_primary, cannot_manage,
  select_team, invalid_role, owner_only, invalid_email, already_registered, seat_limit,
  invalid_invite, wrong_email, name_required, team_limit, no_such_account, registry_failed, ◌>>=◌,
  ◌>>◌, deny_if, or_deny, or_none, member_in, Tenant, resolve_bearer, resolve_tenant,
}

-- a write to one tenant's file
abbrev pub put_roster : (Text → Roster) → Text → Roster → Text → Roster
put_roster files path r p = if p == path then r else files p

-- a team that the registry does not find has no limit
abbrev pub seats_full : Roster → Option TeamRow → Bool
seats_full r none = false
seats_full r (some t) = leb t.seat_limit (count_members r)

unfoldable pub check_seat_limit : Registry → Roster → Text → Access (Unit {0})
unfolding team_by_id count_members
check_seat_limit reg r team_id = deny_if (seats_full r (team_by_id reg team_id)) seat_limit

abbrev pub is_some : {A : Type 0} → Option A → Bool
is_some none = false
is_some (some _) = true

abbrev pub invite_ttl : ℕ
invite_ttl = 7 * 24 * 60 * 60

-- the caller in the team that the bearer selects
unfoldable pub resolve_team_manager : Crypto → Node → Text → Access Tenant
unfolding resolve_tenant effective_member
resolve_team_manager c n bearer = do
  t ← resolve_tenant c n bearer false
  deny_if (is_empty t.team_id) select_team
  m ← member_in (effective_member (n.rosters t.path) t.identity.id)
  admits (record t { member = m })

pub record MemberCandidate : Type 0 where
  pub identity_id : Text
  pub name : Text
  pub email : Text

unfoldable pub lookup_member_by_email : Crypto → Node → Text → Text → Access MemberCandidate
unfolding resolve_team_manager can_manage_members lookup_by_email
lookup_member_by_email c n bearer email = do
  t ← resolve_team_manager c n bearer
  deny_if (not (can_manage_members t.member.role)) cannot_manage
  target ← or_none no_such_account (lookup_by_email n.registry email)
  admits (record { identity_id = target.id; name = target.name; email = target.email })

-- with the name of the team
unfoldable pub invite_member :
    Crypto → Node → Text → Text → Text → Role → List Text → List Text → ℕ → Access (Node × Text)
unfolding resolve_team_manager can_manage_members valid_role can_manage_team normalize_email
    validate_email lookup_by_email check_seat_limit team_by_id store_invite
invite_member c n bearer token email role reads shown now = do
  t ← resolve_team_manager c n bearer
  deny_if (not (can_manage_members t.member.role)) cannot_manage
  deny_if (not (valid_role role)) invalid_role
  deny_if (is_owner role && not (can_manage_team t.member.role)) owner_only
  or_deny invalid_email (validate_email (normalize_email email))
  deny_if (is_some (lookup_by_email n.registry (normalize_email email))) already_registered
  check_seat_limit n.registry (n.rosters t.path) t.team_id
  team ← or_none no_such_team (team_by_id n.registry t.team_id)
  r ← or_deny registry_failed (
      store_invite c.hash n.registry token t.team_id (normalize_email email) role reads shown
        t.identity.id invite_ttl now)
  admits (record n { registry = r }, team.name)

unfoldable pub accept_invite : Crypto → Node → Text → Text → ℕ → Access Node
unfolding resolve_bearer resolve_invite normalize_email text_beq team_by_id member check_seat_limit
    put_member index_team_member delete_invite
accept_invite c n bearer token now = do
  who ← resolve_bearer c n.registry bearer
  inv ← or_none invalid_invite (resolve_invite c.hash n.registry token now)
  deny_if (not (normalize_email who.0.email == inv.email)) wrong_email
  team ← or_none no_such_team (team_by_id n.registry inv.team_id)
  deny_if (not (n.tenant_primary team.path)) not_primary
  deny_if (not n.registry_primary) not_primary
  if is_some (member (n.rosters team.path) who.0.id)
      then admits tt
      else check_seat_limit n.registry (n.rosters team.path) inv.team_id
  roster ← or_none invalid_role (
      put_member (n.rosters team.path) who.0.id inv.role inv.read_grants inv.title_grants
        (string inv.invited_by) now)
  r ← or_deny registry_failed (index_team_member n.registry inv.team_id who.0.id)
  admits (record n {
    registry = delete_invite c.hash r token;
    rosters = put_roster n.rosters team.path roster;
  })

abbrev pub max_owned_teams : ℕ
max_owned_teams = 2

abbrev pub within_limit : Answer Registry → Access Registry
within_limit (gives r) = admits r
within_limit (fails too_many) = denies team_limit
within_limit (fails _) = denies registry_failed

-- `CreateTeam`: the row, the first owner in the new file, and the index
unfoldable pub create_shared_team : Crypto → Node → Text → Text → Text → Text → ℕ → Access Node
unfolding resolve_bearer create_team put_member index_team_member text_beq
create_shared_team c n bearer id name path now = do
  who ← resolve_bearer c n.registry bearer
  deny_if (is_empty (trim_space name)) name_required
  deny_if (not n.registry_primary) not_primary
  r ← within_limit (create_team n.registry id name path who.0.id max_owned_teams now)
  roster ← or_none invalid_role (put_member (n.rosters path) who.0.id owner [] [] who.0.id now)
  r' ← or_deny registry_failed (index_team_member r id who.0.id)
  admits (record n { registry = r'; rosters = put_roster n.rosters path roster })

unfoldable pub rename_shared_team : Crypto → Node → Text → Text → Access Node
unfolding resolve_team_manager can_manage_members rename_team
rename_shared_team c n bearer name = do
  t ← resolve_team_manager c n bearer
  deny_if (not (can_manage_members t.member.role)) cannot_manage
  deny_if (is_empty (trim_space name)) name_required
  deny_if (not n.registry_primary) not_primary
  r ← or_deny registry_failed (rename_team n.registry t.team_id (trim_space name))
  admits (record n { registry = r })

unfoldable pub delete_shared_team : Crypto → Node → Text → ℕ → Access Node
unfolding resolve_team_manager can_manage_team soft_delete_team
delete_shared_team c n bearer now = do
  t ← resolve_team_manager c n bearer
  deny_if (not (can_manage_team t.member.role)) cannot_manage
  deny_if (not n.registry_primary) not_primary
  r ← or_deny registry_failed (soft_delete_team n.registry t.team_id now)
  admits (record n { registry = r })

-- the operator's deletion, which asks no member
unfoldable pub admin_delete_team : Node → Text → ℕ → Access Node
unfolding soft_delete_team
admin_delete_team n id now = do
  deny_if (not n.registry_primary) not_primary
  r ← or_deny registry_failed (soft_delete_team n.registry id now)
  admits (record n { registry = r })
