-- ===== src/Team/Steps.antt =====
-- internal/engine/engine.go: sequences of changes to the members of a team.
use rekam.Prelude.{◌≤◌, Text, true, false, List, Option, none, some, ◌≡◌, text_eq, leb}
use rekam.Members.{
  Role, Member, MemberRow, can_manage_members, can_manage_team, Roster, member, count_owners,
}
use rekam.Members.Rows.{UniqueIds}
use rekam.Team.{Team, Setting, done, member_of, holds_owner, set_member, remove}

-- an accepted change
pub data Step (t t' : Team) (caller : Member) : Type 0 where
  put :
      (c : Setting) (caller_id target : Text) (role : Role) (reads shown : List Text)
      → member_of t.roster caller_id ≡ done caller
      → set_member c t caller_id target role reads shown ≡ done t'
      → Step t t' caller
  drop :
      (c : Setting) (caller_id target : Text)
      → member_of t.roster caller_id ≡ done caller
      → remove c t caller_id target ≡ done t'
      → Step t t' caller

pub data Reach (t : Team) : Team → Type 0 where
  here : Reach t t
  after : {s u : Team} (caller : Member) → Reach t s → Step s u caller → Reach t u

-- what a successful RemoveMember has checked
pub record MayLeave (t : Team) (target : Text) (caller : Member) : Type 0 where
  pub may_manage : can_manage_members caller.role ≡ true
  pub owner_leaves :
      holds_owner (member t.roster target) ≡ true
      → (can_manage_team caller.role ≡ true) × (leb (count_owners t.roster) 1 ≡ false)

-- the roster has an owner, and one row for each identity
pub record IsManaged (t : Team) : Type 0 where
  pub unique : UniqueIds t.roster.members
  pub owned : 1 ≤ count_owners t.roster

members_or : List MemberRow → Option Roster → List MemberRow
members_or rows none = rows
members_or rows (some r) = r.members
