-- ===== src/Registry/Directory.antt =====
-- internal/db/registry.go: the directory of teams and the index of their members;
-- internal/db/entitlements.go: TeamsOwnedBy.
pub mod Owned
use rekam.Prelude.{
  ℕ, Text, codes, Bool, ◌&&◌, not, List, [], ◌∷◌, ◌++◌, map, Option, none, some, ◌==◌, text_eq,
  text_beq, ltb, find, any, count, select, update_where, if◌then◌else◌,
}
use rekam.Store.{null_str}
use rekam.Store.Health.{sort_by}
use rekam.Registry.{
  Registry, TeamRow, IndexRow, Answer, gives, fails, ◌>>=◌, ◌>>◌, fail_if, team_limit,
  team_not_found, duplicate, is_null, equals, validate_identity_fields,
}

-- a row that is not deleted
abbrev pub is_live : TeamRow → Bool
is_live t = is_null t.deleted_at

-- WHERE created_by = ? AND deleted_at IS NULL
abbrev pub owned_by : Text → TeamRow → Bool
owned_by id t = equals t.created_by id && is_live t

unfoldable pub count_owned_teams : Registry → Text → ℕ
unfolding count text_beq
count_owned_teams r id = count (owned_by id) r.teams

unfoldable pub teams_owned_by : Registry → Text → List Text
unfolding select text_beq
teams_owned_by r id = map (λ t. t.id) (select (owned_by id) r.teams)

abbrev pub new_team : Text → Text → Text → Text → ℕ → TeamRow
new_team id name path created_by now = record {
  id = id;
  name = name;
  path = path;
  created_by = null_str created_by;
  created_at = now;
  deleted_at = none;
  plan = codes "free";
  seat_limit = 1;
}

-- INSERT … SELECT … WHERE, which counts and inserts in one statement
unfoldable pub create_team : Registry → Text → Text → Text → Text → ℕ → ℕ → Answer Registry
unfolding validate_identity_fields count_owned_teams any text_beq null_str
create_team r id name path created_by max_owned now = do
  validate_identity_fields name path
  fail_if (not (ltb (count_owned_teams r created_by) max_owned)) team_limit
  fail_if (any (λ t. t.id == id) r.teams) duplicate
  gives (record r { teams = r.teams ++ new_team id name path created_by now ∷ [] })

-- WHERE id = ? AND deleted_at IS NULL
abbrev pub live_id : Text → TeamRow → Bool
live_id id t = t.id == id && is_live t

unfoldable pub team_by_id : Registry → Text → Option TeamRow
unfolding find text_beq
team_by_id r id = find (live_id id) r.teams

unfoldable pub update_team : Registry → Text → (TeamRow → TeamRow) → Answer Registry
unfolding any update_where text_beq
update_team r id change =
    if any (live_id id) r.teams
    then gives (record r { teams = update_where (live_id id) change r.teams })
    else fails team_not_found

unfoldable pub set_team_plan : Registry → Text → Text → ℕ → Answer Registry
unfolding update_team
set_team_plan r id plan seat_limit =
    update_team r id (λ t. record t { plan = plan; seat_limit = seat_limit })

unfoldable pub rename_team : Registry → Text → Text → Answer Registry
unfolding update_team validate_identity_fields
rename_team r id name = do
  validate_identity_fields name (b'x' ∷ [])
  update_team r id (λ t. record t { name = name })

-- one transaction: the stamp, and the rows of the index
unfoldable pub soft_delete_team : Registry → Text → ℕ → Answer Registry
unfolding update_team select text_beq
soft_delete_team r id now = do
  r' ← update_team r id (λ t. record t { deleted_at = some now })
  gives (record r' { index = select (λ i. not (i.team_id == id)) r'.index })

abbrev pub is_indexed : Text → Text → IndexRow → Bool
is_indexed team_id identity_id i = i.team_id == team_id && i.identity_id == identity_id

-- INSERT OR IGNORE; a team without a row breaks the foreign key
unfoldable pub index_team_member : Registry → Text → Text → Answer Registry
unfolding any text_beq
index_team_member r team_id identity_id =
    if any (is_indexed team_id identity_id) r.index
    then gives r
    else if any (λ t. t.id == team_id) r.teams
    then gives (record r {
      index = r.index ++ record { team_id = team_id; identity_id = identity_id } ∷ [];
    })
    else fails duplicate

unfoldable pub unindex_team_member : Registry → Text → Text → Registry
unfolding select text_beq
unindex_team_member r team_id identity_id = record r {
  index = select (λ i. not (is_indexed team_id identity_id i)) r.index;
}

-- the join, in the order of creation
unfoldable pub teams_for_identity : Registry → Text → List TeamRow
unfolding select any sort_by text_beq
teams_for_identity r id =
    sort_by (λ s t. ltb s.created_at t.created_at)
      (select (λ t. is_live t && any (is_indexed t.id id) r.index) r.teams)

unfoldable pub all_teams : Registry → List (TeamRow × ℕ)
unfolding select count sort_by text_beq
all_teams r =
    map (λ t. (t, count (λ i. i.team_id == t.id) r.index))
      (sort_by (λ s t. ltb s.created_at t.created_at) (select is_live r.teams))
