-- ===== src/Registry/Users.antt =====
-- internal/db/users.go: accounts with an email and a password, and the tokens that confirm and reset
-- them. The random salt, keys and tokens are arguments.
use rekam.Prelude.{
  ℕ, ◌+◌, Text, Bool, true, false, ◌&&◌, not, List, [], ◌∷◌, map, Option, none, some, ◌==◌, text_eq,
  nat_eq, text_beq, ltb, lower, trim_space, index_of, take, find, any, count, select, length,
  is_empty, if◌then◌else◌,
}
use rekam.Store.Health.{sort_by}
use rekam.Registry.{
  Registry, Account, Identity, Answer, gives, fails, ◌>>=◌, ◌>>◌, fail_if, email_required,
  email_too_long, invalid_email, email_taken, bad_login, bad_confirm_token, bad_reset_token,
  unknown_key, equals, is_null, scan_identity, validate_identity_fields, insert_account,
  update_account, account_by_id, same_email,
}
use rekam.Registry.Passwords.{Pbkdf2, hash_password, verify_password}

unfoldable pub normalize_email : Text → Text
normalize_email email = lower (trim_space email)

abbrev pub at_sign : ℕ
at_sign = 0x40

-- the place of the first `@` is neither the first nor the last
abbrev pub at_inside : Text → Option ℕ → Bool
at_inside email none = false
at_inside email (some at) = ltb 0 at && not (at + 1 == length email)

unfoldable pub validate_email : Text → Answer (Unit {0})
unfolding index_of count
validate_email email = do
  fail_if (is_empty email) email_required
  fail_if (ltb 320 (length email)) email_too_long
  fail_if
      (not
        (at_inside email (index_of (at_sign ∷ []) email) && count (λ c. c == at_sign) email == 1))
      invalid_email

abbrev pub before_at : Text → Option ℕ → Text
before_at email none = email
before_at email (some at) = take at email

-- an empty name becomes what stands before the `@`
unfoldable pub default_name : Text → Text → Text
unfolding index_of
default_name name email =
    if is_empty (trim_space name) then before_at email (index_of (at_sign ∷ []) email) else name

-- any broken unique key is reported as a taken email
abbrev pub unless_taken : Answer Registry → Answer Registry
unless_taken (gives r) = gives r
unless_taken (fails e) = fails email_taken

abbrev pub user_account : Text → Text → Text → Text → Text → Text → Bool → Bool → Bool → ℕ → Account
user_account id name email key path pw_hash allow_write is_admin confirmed now = record {
  id = id;
  name = name;
  email = some email;
  api_key = key;
  memory_path = path;
  allow_write = allow_write;
  is_admin = is_admin;
  password_hash = some pw_hash;
  confirmed = confirmed;
  confirm_token = none;
  confirm_expires = none;
  reset_token = none;
  reset_expires = none;
  created_at = now;
}

-- what a call draws at random
pub record Fresh : Type 0 where
  pub id : Text
  pub raw_key : Text
  pub salt : Text
  pub token : Text

unfoldable pub create_user :
    Pbkdf2
    → (Text → Text)
    → Registry
    → Fresh
    → Text
    → Text
    → Text
    → Text
    → Bool
    → Bool
    → Bool
    → ℕ
    → Answer Registry
unfolding normalize_email validate_email default_name validate_identity_fields insert_account
create_user p hash r fresh name email password path allow_write is_admin confirmed now = do
  validate_email (normalize_email email)
  validate_identity_fields (default_name name (normalize_email email)) path
  pw_hash ← hash_password p fresh.salt password
  unless_taken (
      insert_account r (
        user_account fresh.id (default_name name (normalize_email email)) (normalize_email email)
          (hash fresh.raw_key) path pw_hash allow_write is_admin confirmed now))

unfoldable pub account_by_email : Registry → Text → Option Account
unfolding find text_beq normalize_email
account_by_email r email = find (λ a. equals a.email (normalize_email email)) r.accounts

abbrev pub identity_of : Option Account → Option Identity
identity_of none = none
identity_of (some a) = some (scan_identity a)

unfoldable pub lookup_by_email : Registry → Text → Option Identity
unfolding account_by_email scan_identity
lookup_by_email r email = identity_of (account_by_email r email)

abbrev pub verified : Pbkdf2 → Text → Option Text → Bool
verified p password none = false
verified p password (some pw_hash) = not (is_empty pw_hash) && verify_password p pw_hash password

abbrev pub login : Pbkdf2 → Text → Option Account → Answer Identity
login p password none = fails bad_login
login p password (some a) =
    if verified p password a.password_hash then gives (scan_identity a) else fails bad_login

unfoldable pub authenticate_password : Pbkdf2 → Registry → Text → Text → Answer Identity
unfolding account_by_email scan_identity verify_password
authenticate_password p r email password = login p password (account_by_email r email)

unfoldable pub set_password : Pbkdf2 → Registry → Text → Text → Text → Answer Registry
unfolding hash_password update_account
set_password p r salt id password = do
  pw_hash ← hash_password p salt password
  update_account r id (λ a. record a { password_hash = some pw_hash })

abbrev pub or_flag : Option Bool → Bool → Bool
or_flag none old = old
or_flag (some new) old = new

unfoldable pub update_flags : Registry → Text → Option Bool → Option Bool → Answer Registry
unfolding update_account
update_flags r id allow_write is_admin =
    if is_null allow_write && is_null is_admin
    then gives r
    else update_account r id (λ a. record a {
      allow_write = or_flag allow_write a.allow_write;
      is_admin = or_flag is_admin a.is_admin;
    })

unfoldable pub admin_exists : Registry → Bool
unfolding count
admin_exists r = ltb 0 (count (λ a. a.is_admin) r.accounts)

-- an UPDATE of the row would break the unique index on emails
unfoldable pub email_elsewhere : Registry → Text → Text → Bool
unfolding any text_beq
email_elsewhere r id email =
    any (λ a. a.id == id) r.accounts
    && any (λ a. not (a.id == id) && same_email a.email (some email)) r.accounts

abbrev pub with_credentials : Text → Text → Bool → Account → Account
with_credentials email pw_hash is_admin a = record a {
  email = some email;
  password_hash = some pw_hash;
  is_admin = is_admin;
}

unfoldable pub set_credentials :
    Pbkdf2 → Registry → Text → Text → Text → Text → Bool → Answer Registry
unfolding normalize_email validate_email hash_password email_elsewhere update_account
set_credentials p r salt id email password is_admin = do
  validate_email (normalize_email email)
  pw_hash ← hash_password p salt password
  fail_if (email_elsewhere r id (normalize_email email)) email_taken
  update_account r id (with_credentials (normalize_email email) pw_hash is_admin)

abbrev pub confirmed_row : Option Account → Answer Bool
confirmed_row none = fails unknown_key
confirmed_row (some a) = gives a.confirmed

unfoldable pub is_confirmed : Registry → Text → Answer Bool
unfolding account_by_id
is_confirmed r id = confirmed_row (account_by_id r id)

-- an UPDATE whose number of rows is not looked at
abbrev pub change_account : Registry → Text → (Account → Account) → Registry
change_account r id change = elim (update_account r id change) [ gives r' ↦ r' | fails e ↦ r ]

unfoldable pub set_confirm_token : Registry → Text → Text → ℕ → ℕ → Registry
unfolding update_account
set_confirm_token r id token ttl now =
    change_account r id
      (λ a. record a { confirm_token = some token; confirm_expires = some (now + ttl) })

abbrev pub after : ℕ → Option ℕ → Bool
after now none = false
after now (some t) = ltb now t

abbrev pub confirm_row : Registry → Option Account → Answer (Registry × Identity)
confirm_row r none = fails bad_confirm_token
confirm_row r (some a) = gives (
  change_account r a.id
      (λ b. record b { confirmed = true; confirm_token = none; confirm_expires = none }),
  scan_identity a,
)

unfoldable pub confirm_by_token : Registry → Text → ℕ → Answer (Registry × Identity)
unfolding find text_beq update_account scan_identity
confirm_by_token r token now =
    confirm_row r
      (find (λ a. equals a.confirm_token token && after now a.confirm_expires) r.accounts)

unfoldable pub set_reset_token : Registry → Text → Text → ℕ → ℕ → Registry
unfolding update_account
set_reset_token r id token ttl now =
    change_account r id
      (λ a. record a { reset_token = some token; reset_expires = some (now + ttl) })

-- WHERE reset_token = ? AND reset_expires > ?
abbrev pub may_reset : Text → ℕ → Account → Bool
may_reset token now a = equals a.reset_token token && after now a.reset_expires

abbrev pub reset_row : Registry → Text → Option Account → Answer (Registry × Identity)
reset_row r pw_hash none = fails bad_reset_token
reset_row r pw_hash (some a) = gives (
  change_account r a.id
      (λ b. record b { password_hash = some pw_hash; reset_token = none; reset_expires = none }),
  scan_identity a,
)

unfoldable pub reset_password_by_token :
    Pbkdf2 → Registry → Text → Text → Text → ℕ → Answer (Registry × Identity)
unfolding hash_password find text_beq update_account scan_identity
reset_password_by_token p r salt token password now = do
  pw_hash ← hash_password p salt password
  reset_row r pw_hash (find (may_reset token now) r.accounts)

unfoldable pub unconfirmed_identities : Registry → List Identity
unfolding select sort_by scan_identity
unconfirmed_identities r =
    map scan_identity
      (sort_by (λ a b. ltb a.created_at b.created_at) (select (λ a. not a.confirmed) r.accounts))

unfoldable pub pending_resets : Registry → ℕ → List Identity
unfolding select sort_by scan_identity
pending_resets r now = map scan_identity (
    sort_by (λ a b. ltb a.created_at b.created_at)
      (select (λ a. not (is_null a.reset_token) && after now a.reset_expires) r.accounts))
