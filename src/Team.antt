-- ===== src/Team.antt =====
-- internal/engine/engine.go: `SetMember` and `RemoveMember` of a team, with the guards that they run
-- on the roster of the tenant's file and on the registry's index of its members.
pub mod Owners
pub mod Steps
use rekam.Prelude.{
  ℕ, Text, Bool, true, false, ◌&&◌, ◌||◌, not, List, [], ◌∷◌, ◌++◌, Option, none, some, ◌==◌,
  text_eq, text_beq, leb, any, select, if◌then◌else◌,
}
use rekam.Members.{
  Role, is_owner, Member, valid_role, can_manage_members, can_manage_team, Roster, MemberRow,
  member, member_row, Effective, belongs, denied, effective_member, count_owners, count_members,
  put_member, remove_member,
}

pub record Team : Type 0 where
  pub roster : Roster
  pub index : List Text

-- What a call knows of its surroundings: whether the tenant is a registered team, the team's limit
-- of seats if the registry finds it, the two write leases, and the identities that exist.
pub record Setting : Type 0 where
  pub registered : Bool
  pub seat_limit : Option ℕ
  pub tenant_primary : Bool
  pub registry_primary : Bool
  pub known : Text → Bool
  pub now : ℕ

pub data TeamError : Type 0 where
  not_a_member cannot_manage not_primary invalid_role no_such_identity owner_only last_owner
        seat_limit :
      TeamError

pub data Outcome (A : Type 0) : Type 0 where
  done : A → Outcome A
  refused : TeamError → Outcome A

infixl 5 ◌>>=◌ ◌>>◌
abbrev pub ◌>>=◌ : {A B : Type 0} → Outcome A → (A → Outcome B) → Outcome B
done a >>= f = f a
refused e >>= f = refused e

abbrev pub ◌>>◌ : {B : Type 0} → Outcome (Unit {0}) → Outcome B → Outcome B
m >> k = m >>= λ _. k

abbrev pub refuse_if : Bool → TeamError → Outcome (Unit {0})
refuse_if true e = refused e
refuse_if false e = done tt

abbrev pub member_in : Effective → Outcome Member
member_in (belongs m) = done m
member_in denied = refused not_a_member

unfoldable pub member_of : Roster → Text → Outcome Member
unfolding effective_member
member_of r id = member_in (effective_member r id)

unfoldable pub guard_last_owner : Roster → Outcome (Unit {0})
unfolding count_owners
guard_last_owner r = refuse_if (leb (count_owners r) 1) last_owner

abbrev pub seats_taken : Option ℕ → ℕ → Bool
seats_taken none n = false
seats_taken (some limit) n = leb limit n

unfoldable pub check_seat_limit : Roster → Option ℕ → Outcome (Unit {0})
unfolding count_members
check_seat_limit r limit = refuse_if (seats_taken limit (count_members r)) seat_limit

abbrev pub holds_owner : Option Member → Bool
holds_owner none = false
holds_owner (some m) = is_owner m.role

abbrev pub is_new : Option Member → Bool
is_new none = true
is_new (some m) = false

-- INSERT OR IGNORE
unfoldable pub index_team_member : List Text → Text → List Text
unfolding any text_beq
index_team_member ids id = if any (λ i. i == id) ids then ids else ids ++ id ∷ []

unfoldable pub unindex_team_member : List Text → Text → List Text
unfolding select text_beq
unindex_team_member ids id = select (λ i. not (i == id)) ids

unfoldable pub put_team : Setting → Team → Text → Option Roster → Outcome Team
unfolding index_team_member
put_team c t target none = refused invalid_role
put_team c t target (some r) = done (record {
  roster = r;
  index = if c.registered then index_team_member t.index target else t.index;
})

unfoldable pub set_member :
    Setting → Team → Text → Text → Role → List Text → List Text → Outcome Team
unfolding member_of can_manage_members can_manage_team valid_role member guard_last_owner
    check_seat_limit put_member put_team
set_member c t caller_id target role reads shown = do
  caller ← member_of t.roster caller_id
  refuse_if (not (can_manage_members caller.role)) cannot_manage
  refuse_if (not c.tenant_primary) not_primary
  refuse_if (not (valid_role role)) invalid_role
  refuse_if (not (c.known target)) no_such_identity
  refuse_if (not (can_manage_team caller.role) && is_owner role) owner_only
  refuse_if (not (can_manage_team caller.role) && holds_owner (member t.roster target)) owner_only
  if holds_owner (member t.roster target) && not (is_owner role)
      then guard_last_owner t.roster
      else done tt
  if c.registered && is_new (member t.roster target)
      then check_seat_limit t.roster c.seat_limit
      else done tt
  refuse_if (c.registered && not c.registry_primary) not_primary
  put_team c t target (put_member t.roster target role reads shown caller_id c.now)

unfoldable pub drop_team : Setting → Team → Text → Option Roster → Outcome Team
unfolding unindex_team_member
drop_team c t target none = refused not_a_member
drop_team c t target (some r) = done (record {
  roster = r;
  index = if c.registered then unindex_team_member t.index target else t.index;
})

unfoldable pub leave_guard : Roster → Member → Option Member → Outcome (Unit {0})
unfolding can_manage_team guard_last_owner
leave_guard r caller none = refused not_a_member
leave_guard r caller (some target) =
    if is_owner target.role
    then (refuse_if (not (can_manage_team caller.role)) owner_only >> guard_last_owner r)
    else done tt

unfoldable pub remove : Setting → Team → Text → Text → Outcome Team
unfolding member_of can_manage_members leave_guard member remove_member drop_team
remove c t caller_id target = do
  caller ← member_of t.roster caller_id
  refuse_if (not (can_manage_members caller.role)) cannot_manage
  leave_guard t.roster caller (member t.roster target)
  refuse_if (not c.tenant_primary) not_primary
  refuse_if (c.registered && not c.registry_primary) not_primary
  drop_team c t target (remove_member t.roster target)
