-- ===== src/Members.antt =====
-- internal/db/members.go: roles, the membership tables of a tenant, and their operations.
pub mod Rows
pub mod Grants
pub mod Found
pub mod Lookup
use rekam.Prelude.{
  ℕ, Text, Bool, true, false, ◌&&◌, ◌||◌, not, List, [], ◌∷◌, ◌++◌, map, Option, none, some, ◌==◌,
  text_eq, text_beq, nat_eq, ltb, leb, select, find, count, any, update_where, if◌then◌else◌,
  length,
}
use rekam.Scope.{Scope, full_scope, new_scope}
use rekam.Store.{null_str, string}
use rekam.Store.Health.{sort_by}

-- the column is a text, so a role that is none of the four can stand in a file
pub data Role : Type 0 where
  owner admin editor viewer : Role
  unknown : Text → Role

abbrev pub is_owner : Role → Bool
is_owner owner = true
is_owner _ = false

unfoldable pub valid_role : Role → Bool
valid_role (unknown r) = false
valid_role _ = true

unfoldable pub can_write_any : Role → Bool
can_write_any viewer = false
can_write_any _ = true

unfoldable pub can_manage_members : Role → Bool
can_manage_members owner = true
can_manage_members admin = true
can_manage_members _ = false

unfoldable pub can_manage_team : Role → Bool
can_manage_team r = is_owner r

pub record Member : Type 0 where
  pub identity_id : Text
  pub role : Role
  pub read_grants : List Text
  pub title_grants : List Text
  pub added_at : ℕ
  pub added_by : Text

-- `Member.Scope`
unfoldable pub scope_for : Role → List Text → List Text → Scope
unfolding full_scope new_scope
scope_for owner reads shown = full_scope
scope_for admin reads shown = full_scope
scope_for editor reads shown = new_scope reads reads shown
scope_for _ reads shown = new_scope reads [] shown

unfoldable pub member_scope : Member → Scope
unfolding scope_for
member_scope m = scope_for m.role m.read_grants m.title_grants

-- a row of `members`
pub record MemberRow : Type 0 where
  pub identity_id : Text
  pub role : Role
  pub added_at : ℕ
  pub added_by : Option Text

pub data GrantKind : Type 0 where
  read titles : GrantKind

abbrev pub kind_beq : GrantKind → GrantKind → Bool
kind_beq read read = true
kind_beq titles titles = true
kind_beq _ _ = false

-- a row of `member_scopes`
pub record GrantRow : Type 0 where
  pub identity_id : Text
  pub kind : GrantKind
  pub prefix : Text

pub record Roster : Type 0 where
  pub members : List MemberRow
  pub grants : List GrantRow

unfoldable pub has_members : Roster → Bool
has_members r = ltb 0 (length r.members)

unfoldable pub grants_of : List GrantRow → Text → GrantKind → List Text
unfolding select text_beq
grants_of rows id kind =
    map (λ g. g.prefix)
      (select (λ g. kind_beq g.kind kind) (select (λ g. g.identity_id == id) rows))

-- a row of `members` with what loadGrants adds
unfoldable pub load_grants : Roster → MemberRow → Member
unfolding grants_of
load_grants r m = record {
  identity_id = m.identity_id;
  role = m.role;
  read_grants = grants_of r.grants m.identity_id read;
  title_grants = grants_of r.grants m.identity_id titles;
  added_at = m.added_at;
  added_by = string m.added_by;
}

unfoldable pub member_row : List MemberRow → Text → Option MemberRow
unfolding find text_beq
member_row rows id = find (λ m. m.identity_id == id) rows

unfoldable pub loaded : Roster → Option MemberRow → Option Member
unfolding load_grants
loaded r none = none
loaded r (some m) = some (load_grants r m)

unfoldable pub member : Roster → Text → Option Member
unfolding member_row loaded
member r id = loaded r (member_row r.members id)

-- What EffectiveMember answers: a member, the owner of a personal file, or a refusal.
pub data Effective : Type 0 where
  belongs : Member → Effective
  denied : Effective

abbrev pub owner_of_file : Text → Member
owner_of_file id = record {
  identity_id = id;
  role = owner;
  read_grants = [];
  title_grants = [];
  added_at = 0;
  added_by = [];
}

unfoldable pub effective : Roster → Text → Option Member → Effective
unfolding has_members
effective r id (some m) = belongs m
effective r id none = if has_members r then denied else belongs (owner_of_file id)

unfoldable pub effective_member : Roster → Text → Effective
unfolding effective member
effective_member r id = effective r id (member r id)

-- the CASE of ORDER BY
abbrev pub role_rank : Role → ℕ
role_rank owner = 0
role_rank admin = 1
role_rank editor = 2
role_rank _ = 3

unfoldable pub list_members : Roster → List Member
unfolding load_grants sort_by
list_members r = map (load_grants r) (
    sort_by
      (λ m n.
        ltb (role_rank m.role) (role_rank n.role)
        || (role_rank m.role == role_rank n.role && ltb m.added_at n.added_at))
      r.members)

unfoldable pub count_owners : Roster → ℕ
unfolding count
count_owners r = count (λ m. is_owner m.role) r.members

unfoldable pub count_members : Roster → ℕ
count_members r = length r.members

-- INSERT OR IGNORE: the table's key is the whole row
unfoldable pub insert_grants : Text → GrantKind → List Text → List GrantRow → List GrantRow
unfolding any text_beq
insert_grants id kind [] rows = rows
insert_grants id kind (p ∷ ps) rows = insert_grants id kind ps (
    if any (λ g. g.identity_id == id && (kind_beq g.kind kind && g.prefix == p)) rows
    then rows
    else rows ++ record { identity_id = id; kind = kind; prefix = p } ∷ [])

-- UPDATE, and INSERT if that changed no row
unfoldable pub put_row : List MemberRow → Text → Role → Text → ℕ → List MemberRow
unfolding any update_where text_beq null_str
put_row rows id role added_by now =
    if any (λ m. m.identity_id == id) rows
    then update_where (λ m. m.identity_id == id) (λ m. record m { role = role }) rows
    else rows
      ++ record { identity_id = id; role = role; added_at = now; added_by = null_str added_by } ∷ []

-- `none` for an unknown role
unfoldable pub put_member : Roster → Text → Role → List Text → List Text → Text → ℕ → Option Roster
unfolding valid_role put_row insert_grants select text_beq
put_member r id role reads shown added_by now =
    if not (valid_role role)
    then none
    else (let kept = select (λ g. not (g.identity_id == id)) r.grants in
        some (record {
          members = put_row r.members id role added_by now;
          grants = insert_grants id titles shown (insert_grants id read reads kept);
        }))

-- The grants go with the row. `none` if no row goes.
unfoldable pub remove_member : Roster → Text → Option Roster
unfolding any select text_beq
remove_member r id =
    if any (λ m. m.identity_id == id) r.members
    then some (record {
      members = select (λ m. not (m.identity_id == id)) r.members;
      grants = select (λ g. not (g.identity_id == id)) r.grants;
    })
    else none
