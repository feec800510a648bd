-- ===== src/Examples/People.antt =====
-- internal/db/registry.go, internal/engine/engine.go and internal/api/oauth_handlers.go: a small
-- registry, with functions in place of the hashes and of the parsers.
use rekam.Prelude.{
  ℕ, zero, suc, ◌+◌, ◌-◌, ◌≡◌, Text, codes, true, false, [], ◌∷◌, ◌++◌, none, some, ◌==◌, text_eq,
  nat_beq, ltb, refl, arith, ap, length, All, if◌then◌else◌,
}
use rekam.Members.{Role, owner, editor, MemberRow, Member, Roster}
use rekam.Registry.{Registry, Account, Identity, Grant, TeamRow, CodeRow, Invite}
use rekam.Registry.Passwords.{Pbkdf2}
use rekam.Registry.Events.{empty}
use rekam.Auth.{Crypto, Node}
use rekam.Workspaces.{Drawn}
use rekam.OAuth.{AuthorizeView, Net}

-- the first bytes of a text, with zeros where it ends
unfoldable pub fill : ℕ → Text → Text
fill zero s = []
fill (suc n) [] = 0 ∷ fill n []
fill (suc n) (c ∷ cs) = c ∷ fill n cs

pub length-fill : (n : ℕ) (s : Text) → length (fill n s) ≡ n
unfolding fill
length-fill zero s = refl
length-fill (suc n) [] = ap suc (length-fill n [])
length-fill (suc n) (c ∷ cs) = ap suc (length-fill n cs)

-- a text without `$`, and back
unfoldable pub lift : Text → Text
lift [] = []
lift (c ∷ cs) = (if ltb c b'$' then c else c + 1) ∷ lift cs

unfoldable pub drop_back : Text → Text
drop_back [] = []
drop_back (c ∷ cs) = (if ltb c b'$' then c else c - 1) ∷ drop_back cs

pub drop_back-lift : (s : Text) → drop_back (lift s) ≡ s
unfolding drop_back lift
drop_back-lift [] = refl
drop_back-lift (c ∷ cs) =
    let same : (if ltb (if ltb c b'$' then c else c + 1) b'$'
          then (if ltb c b'$' then c else c + 1)
          else (if ltb c b'$' then c else c + 1) - 1)
        ≡ c =
      ground arith in
    rw (same, drop_back-lift cs) refl

pub lift-plain : (s : Text) → All (λ c. nat_beq c b'$' ≡ false) (lift s)
unfolding lift
lift-plain [] = tt
lift-plain (c ∷ cs) = (ground arith, lift-plain cs)

unfoldable pub pbkdf2 : Pbkdf2
pbkdf2 = record {
  key = λ password salt iterations size. some (fill size password);
  encode = lift;
  decode = λ s. some (drop_back s);
  key_total = λ password salt iterations size.
      (fill (suc size) password, refl, length-fill (suc size) password);
  decode-encode = λ s. ap some (drop_back-lift s);
  encode_plain = lift-plain;
}

abbrev pub crypto : Crypto
crypto = record {
  hash = λ s. b'#' ∷ s;
  mac = λ s. 7 ∷ 200 ∷ [];
  challenge = λ s. b'=' ∷ s;
  mac_bytes = λ s. (refl, (refl, tt));
}

abbrev pub app : Text
app = codes "https://app/cb"

abbrev pub net : Net
net = record {
  url_parse = λ s.
      if s == app
      then some (record { scheme = codes "https"; hostname = codes "app"; path = codes "/cb" })
      else none;
  loopback_ip = λ s. false;
}

abbrev pub ann : Account
ann = record {
  id = codes "u";
  name = codes "Ann";
  email = some (codes "a@b");
  api_key = codes "#master";
  memory_path = codes "u.db";
  allow_write = true;
  is_admin = false;
  password_hash = some (
      codes "pbkdf2_sha256$210000$"
      ++ (lift (codes "salt") ++ b'$' ∷ lift (fill 32 (codes "password"))));
  confirmed = true;
  confirm_token = none;
  confirm_expires = none;
  reset_token = none;
  reset_expires = none;
  created_at = 1;
}

abbrev pub ann_identity : Identity
ann_identity = record {
  id = codes "u";
  name = codes "Ann";
  email = codes "a@b";
  api_key_hash = codes "#master";
  memory_path = codes "u.db";
  allow_write = true;
  is_admin = false;
  created_at = 1;
}

abbrev pub team_row : Text → Text → TeamRow
team_row id path = record {
  id = id;
  name = codes "Team";
  path = path;
  created_by = some (codes "u");
  created_at = 2;
  deleted_at = none;
  plan = codes "free";
  seat_limit = 3;
}

abbrev pub pinned_grant : Grant
pinned_grant = record {
  id = codes "g";
  client_id = codes "c";
  identity_id = codes "u";
  created_at = 3;
  revoked_at = none;
  api_key = some (codes "#key");
  team_id = some (codes "t");
}

abbrev pub invitation : Invite
invitation = record {
  token_hash = codes "#inv";
  team_id = codes "t";
  email = codes "a@b";
  role = editor;
  read_grants = [];
  title_grants = [];
  invited_by = none;
  created_at = 1;
  expires_at = 100;
}

abbrev pub stored_code : CodeRow
stored_code = record {
  code = codes "code";
  code_challenge = codes "=verifier";
  client_id = codes "c";
  identity_id = codes "u";
  team_id = [];
  expires_at = 605;
}

-- one account, one client, two teams, a grant that is pinned to the first, and an invitation
abbrev pub people : Registry
people = record empty {
  accounts = ann ∷ [];
  grants = pinned_grant ∷ [];
  teams = team_row (codes "t") (codes "t.db") ∷ team_row (codes "s") (codes "s.db") ∷ [];
  invites = invitation ∷ [];
  clients = record { client_id = codes "c"; redirect_uris = app ∷ [] } ∷ [];
}

abbrev pub with_code : Registry
with_code = record people { codes = stored_code ∷ [] }

abbrev pub member_of_team : Text → Role → MemberRow
member_of_team id role = record { identity_id = id; role = role; added_at = 2; added_by = none }

abbrev pub roster_of : Text → Role → Roster
roster_of id role = record { members = member_of_team id role ∷ []; grants = [] }

abbrev pub ann_owner : Member
ann_owner = record {
  identity_id = codes "u";
  role = owner;
  read_grants = [];
  title_grants = [];
  added_at = 2;
  added_by = [];
}

-- every team has one owner
abbrev pub node : Text → Registry → Node
node owner_id r = record {
  registry = r;
  rosters = λ path.
      if path == codes "u.db"
      then record { members = []; grants = [] }
      else roster_of owner_id owner;
  registry_primary = true;
  tenant_primary = λ path. true;
}

abbrev pub view : AuthorizeView
view = record {
  redirect_uri = app;
  state = codes "st";
  code_challenge = codes "=verifier";
  code_challenge_method = codes "S256";
  client_id = codes "c";
}

abbrev pub drawn : Drawn
drawn = record { id = codes "g2"; raw_key = codes "key2" }
