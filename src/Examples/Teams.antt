-- ===== src/Examples/Teams.antt =====
-- internal/engine/engine.go and internal/db/members.go: a small team.
use rekam.Prelude.{ℕ, Text, codes, true, [], ◌∷◌, none, some}
use rekam.Members.{Role, owner, admin, editor, MemberRow, Member, GrantRow, read}
use rekam.Team.{Team, Setting}

abbrev row : Text → Role → ℕ → MemberRow
row id role at = record { identity_id = id; role = role; added_at = at; added_by = none }

abbrev member_with : Text → Role → ℕ → Member
member_with id role at = record {
  identity_id = id;
  role = role;
  read_grants = [];
  title_grants = [];
  added_at = at;
  added_by = [];
}

abbrev boss : Member
boss = member_with (codes "o") owner 1

abbrev deputy : Member
deputy = member_with (codes "a") admin 2

abbrev invited : Text → MemberRow
invited by = record { identity_id = codes "e"; role = editor; added_at = 5; added_by = some by }

abbrev grant : GrantRow
grant = record { identity_id = codes "e"; kind = read; prefix = codes "work" }

abbrev founded : Team
founded = record {
  roster = record { members = row (codes "o") owner 1 ∷ []; grants = [] };
  index = [];
}

abbrev with_editor : Team
with_editor = record {
  roster = record {
    members = row (codes "o") owner 1 ∷ invited (codes "o") ∷ [];
    grants = grant ∷ [];
  };
  index = codes "e" ∷ [];
}

abbrev with_admin : Team
with_admin = record {
  roster = record { members = row (codes "o") owner 1 ∷ row (codes "a") admin 2 ∷ []; grants = [] };
  index = [];
}

abbrev admin_and_editor : Team
admin_and_editor = record {
  roster = record {
    members = row (codes "o") owner 1 ∷ row (codes "a") admin 2 ∷ invited (codes "a") ∷ [];
    grants = grant ∷ [];
  };
  index = codes "e" ∷ [];
}

abbrev setting : Setting
setting = record {
  registered = true;
  seat_limit = some 3;
  tenant_primary = true;
  registry_primary = true;
  known = λ id. true;
  now = 5;
}
