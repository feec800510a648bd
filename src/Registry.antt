-- ===== src/Registry.antt =====
-- internal/db/registry.go: the tables of registry.sqlite, and the operations on identities. The hash
-- of a key is a parameter; ids and random keys are arguments. A statement that breaks a key of its
-- table fails and leaves the table as it was.
pub mod Directory
pub mod Grants
pub mod Tickets
pub mod Passwords
pub mod Users
pub mod Events
pub mod Answers
use rekam.Prelude.{
  ℕ, Text, Bool, true, false, ◌&&◌, ◌||◌, not, List, [], ◌∷◌, ◌++◌, map, Option, none, some, ◌==◌,
  text_eq, nat_eq, text_beq, ltb, find, any, count, select, update_where, is_empty, trim_space,
  length, if◌then◌else◌,
}
use rekam.Members.{Role}
use rekam.Store.Health.{sort_by, distinct}
use rekam.Store.{string}

-- a row of `identities`
pub record Account : Type 0 where
  pub id : Text
  pub name : Text
  pub email : Option Text
  pub api_key : Text
  pub memory_path : Text
  pub allow_write : Bool
  pub is_admin : Bool
  pub password_hash : Option Text
  pub confirmed : Bool
  pub confirm_token : Option Text
  pub confirm_expires : Option ℕ
  pub reset_token : Option Text
  pub reset_expires : Option ℕ
  pub created_at : ℕ

pub record Identity : Type 0 where
  pub id : Text
  pub name : Text
  pub email : Text
  pub api_key_hash : Text
  pub memory_path : Text
  pub allow_write : Bool
  pub is_admin : Bool
  pub created_at : ℕ

-- a row of `grants`
pub record Grant : Type 0 where
  pub id : Text
  pub client_id : Text
  pub identity_id : Text
  pub created_at : ℕ
  pub revoked_at : Option ℕ
  pub api_key : Option Text
  pub team_id : Option Text

-- a row of `teams`
pub record TeamRow : Type 0 where
  pub id : Text
  pub name : Text
  pub path : Text
  pub created_by : Option Text
  pub created_at : ℕ
  pub deleted_at : Option ℕ
  pub plan : Text
  pub seat_limit : ℕ

-- a row of `team_members`
pub record IndexRow : Type 0 where
  pub team_id : Text
  pub identity_id : Text

-- a row of `oauth_codes`
pub record CodeRow : Type 0 where
  pub code : Text
  pub code_challenge : Text
  pub client_id : Text
  pub identity_id : Text
  pub team_id : Text
  pub expires_at : ℕ

-- a row of `oauth_consents`
pub record TicketRow : Type 0 where
  pub ticket : Text
  pub identity_id : Text
  pub teams : List Text
  pub redirect_uri : Text
  pub state : Text
  pub code_challenge : Text
  pub code_challenge_method : Text
  pub client_id : Text
  pub expires_at : ℕ

-- a row of `sessions`
pub record SessionRow : Type 0 where
  pub id_hash : Text
  pub identity_id : Text
  pub expires_at : ℕ

-- a row of `team_invites`
pub record Invite : Type 0 where
  pub token_hash : Text
  pub team_id : Text
  pub email : Text
  pub role : Role
  pub read_grants : List Text
  pub title_grants : List Text
  pub invited_by : Option Text
  pub created_at : ℕ
  pub expires_at : ℕ

-- a row of `oauth_clients`
pub record Client : Type 0 where
  pub client_id : Text
  pub redirect_uris : List Text

pub record Registry : Type 0 where
  pub accounts : List Account
  pub grants : List Grant
  pub teams : List TeamRow
  pub index : List IndexRow
  pub codes : List CodeRow
  pub tickets : List TicketRow
  pub sessions : List SessionRow
  pub invites : List Invite
  pub clients : List Client

pub data RegistryError : Type 0 where
  unknown_key identity_not_found team_not_found grant_not_found already_revoked team_limit
        name_required name_too_long path_required path_too_long control_characters email_required
        email_too_long invalid_email email_taken password_length bad_login bad_confirm_token
        bad_reset_token client_required duplicate :
      RegistryError

pub data Answer {ℓ} (A : Type ℓ) : Type ℓ where
  gives : A → Answer A
  fails : RegistryError → Answer A

infixl 5 ◌>>=◌ ◌>>◌
abbrev pub ◌>>=◌ : {A B : Type 0} → Answer A → (A → Answer B) → Answer B
gives a >>= next = next a
fails e >>= next = fails e

abbrev pub ◌>>◌ : {B : Type 0} → Answer (Unit {0}) → Answer B → Answer B
first >> second = first >>= λ _. second

abbrev pub fail_if : Bool → RegistryError → Answer (Unit {0})
fail_if true e = fails e
fail_if false e = gives tt

abbrev pub is_null : {A : Type 0} → Option A → Bool
is_null none = true
is_null (some _) = false

-- `column = ?`, which no NULL fulfils
abbrev pub equals : Option Text → Text → Bool
equals none s = false
equals (some t) s = t == s

unfoldable pub has_control : Text → Bool
unfolding any
has_control s = any (λ c. ltb c 0x20 || c == 0x7f) s

unfoldable pub validate_identity_fields : Text → Text → Answer (Unit {0})
unfolding has_control
validate_identity_fields name memory_path = do
  fail_if (is_empty (trim_space name)) name_required
  fail_if (ltb 200 (length name)) name_too_long
  fail_if (is_empty (trim_space memory_path)) path_required
  fail_if (ltb 4096 (length memory_path)) path_too_long
  fail_if (has_control (name ++ memory_path)) control_characters

unfoldable pub scan_identity : Account → Identity
scan_identity a = record {
  id = a.id;
  name = a.name;
  email = string a.email;
  api_key_hash = a.api_key;
  memory_path = a.memory_path;
  allow_write = a.allow_write;
  is_admin = a.is_admin;
  created_at = a.created_at;
}

abbrev pub scan_row : RegistryError → Option Account → Answer Identity
scan_row e none = fails e
scan_row e (some a) = gives (scan_identity a)

unfoldable pub account_by_id : Registry → Text → Option Account
unfolding find text_beq
account_by_id r id = find (λ a. a.id == id) r.accounts

unfoldable pub resolve_by_id : Registry → Text → Answer Identity
unfolding account_by_id scan_identity
resolve_by_id r id = scan_row unknown_key (account_by_id r id)

unfoldable pub resolve : (Text → Text) → Registry → Text → Answer Identity
unfolding find text_beq scan_identity
resolve hash r raw_key = scan_row unknown_key (find (λ a. a.api_key == hash raw_key) r.accounts)

-- the unique index on emails leaves out NULL and the empty text
abbrev pub same_email : Option Text → Option Text → Bool
same_email (some s) (some t) = not (is_empty s) && s == t
same_email _ _ = false

unfoldable pub clashes : Account → Account → Bool
unfolding text_beq
clashes a b = a.id == b.id || (a.api_key == b.api_key || same_email a.email b.email)

unfoldable pub insert_account : Registry → Account → Answer Registry
unfolding any clashes
insert_account r a =
    if any (clashes a) r.accounts
    then fails duplicate
    else gives (record r { accounts = r.accounts ++ a ∷ [] })

abbrev pub key_account : Text → Text → Text → Text → Bool → ℕ → Account
key_account id name key path allow_write now = record {
  id = id;
  name = name;
  email = none;
  api_key = key;
  memory_path = path;
  allow_write = allow_write;
  is_admin = false;
  password_hash = none;
  confirmed = false;
  confirm_token = none;
  confirm_expires = none;
  reset_token = none;
  reset_expires = none;
  created_at = now;
}

unfoldable pub create :
    (Text → Text) → Registry → Text → Text → Text → Text → Bool → ℕ → Answer Registry
unfolding validate_identity_fields insert_account
create hash r id name raw_key memory_path allow_write now = do
  validate_identity_fields name memory_path
  insert_account r (key_account id name (hash raw_key) memory_path allow_write now)

-- UPDATE identities … WHERE id = ?, and the error if no row changes
unfoldable pub update_account : Registry → Text → (Account → Account) → Answer Registry
unfolding any update_where text_beq
update_account r id change =
    if any (λ a. a.id == id) r.accounts
    then gives (record r { accounts = update_where (λ a. a.id == id) change r.accounts })
    else fails identity_not_found

unfoldable pub set_memory_path : Registry → Text → Text → Answer Registry
unfolding validate_identity_fields update_account
set_memory_path r id memory_path = do
  validate_identity_fields (b'x' ∷ []) memory_path
  update_account r id (λ a. record a { memory_path = memory_path })

unfoldable pub delete_identity : Registry → Text → Answer Registry
unfolding any select text_beq
delete_identity r id =
    if any (λ a. a.id == id) r.accounts
    then gives (record r { accounts = select (λ a. not (a.id == id)) r.accounts })
    else fails identity_not_found

unfoldable pub list_identities : Registry → List Identity
unfolding sort_by scan_identity
list_identities r = map scan_identity (sort_by (λ a b. ltb a.created_at b.created_at) r.accounts)

pub record Stats : Type 0 where
  pub identities : ℕ
  pub grants : ℕ
  pub active_grants : ℕ
  pub memory_paths : ℕ

unfoldable pub stats : Registry → Stats
unfolding count distinct
stats r = record {
  identities = length r.accounts;
  grants = length r.grants;
  active_grants = count (λ g. is_null g.revoked_at) r.grants;
  memory_paths = length (distinct (map (λ a. a.memory_path) r.accounts));
}
