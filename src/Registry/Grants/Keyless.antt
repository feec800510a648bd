-- ===== src/Registry/Grants/Keyless.antt =====
-- internal/db/registry.go and users.go: which calls issue a key; those on accounts issue no other.
use rekam.Prelude.{
  ℕ, ◌≤◌, Text, Bool, true, false, not, List, [], ◌∷◌, Option, none, some, ◌≡◌, refl, ap, arith,
  ◌==◌, text_eq, text_beq, text_beq_iff, any, find, count, update_where, Bool-cases, inl, inr,
  count-of-find, any-update_where, any-select-false, any-snoc,
}
use rekam.Registry.{
  Registry, Account, Grant, Answer, gives, fails, ◌>>=◌, equals, insert_account, update_account,
  create, set_memory_path, delete_identity, key_account, email_taken, validate_identity_fields,
}
use rekam.Registry.Grants.{holds_key}
use rekam.Registry.Passwords.{Pbkdf2, hash_password}
use rekam.Registry.Users.{
  Fresh, create_user, set_password, update_flags, set_credentials, set_confirm_token,
  confirm_by_token, set_reset_token, reset_password_by_token, unless_taken, change_account,
  user_account, normalize_email, validate_email, default_name, confirm_row, reset_row, or_flag,
  email_elsewhere, with_credentials,
}
use rekam.Registry.Answers.{>>=-gives, fail_if-gives, settle_rule}
use rekam.Registry.Events.{
  Event, AccountEvent, on_accounts, on_grants, created, moved, removed, signed_up, password_set,
  flags_set, credentials_set, confirmation_sent, confirmed_by, reset_sent, reset_by, delegated,
  hidden, settle_first, apply_account,
}

-- the unique index on the keys of grants
abbrev pub DistinctKeys : List Grant → Type 0
DistinctKeys rows = (key : Text) → count (λ g. equals g.api_key key) rows ≤ 1

-- an event that issues no key with the hash
abbrev pub OtherKey : (Text → Text) → Text → Event → Type 0
OtherKey hash key (on_accounts (created id name raw path w now)) = (hash raw == key) ≡ false
OtherKey hash key (on_accounts (signed_up f name email pw path w a c now)) =
    (hash f.raw_key == key) ≡ false
OtherKey hash key (on_grants (delegated id raw client identity team now)) =
    (hash raw == key) ≡ false
OtherKey hash key (on_grants (hidden identity id raw client name path w now)) =
    (hash raw == key) ≡ false
OtherKey hash key _ = Unit

abbrev NoAccount : Text → List Account → Type 0
NoAccount key rows = any (λ a. a.api_key == key) rows ≡ false

abbrev NoGrant : Text → List Grant → Type 0
NoGrant key rows = any (holds_key key) rows ≡ false

abbrev pub stamp : ℕ → Grant → Grant
stamp now g = record g { revoked_at = some now }

-- stamping the only row that has the key leaves none that is live
pub stamped-NoGrant :
    (key id : Text) (now : ℕ) (g : Grant) (rows : List Grant)
    → count (λ h. equals h.api_key key) rows ≤ 1
    → find (λ h. h.id == id) rows ≡ some g
    → g.api_key ≡ some key
    → NoGrant key (update_where (λ h. h.id == g.id) (stamp now) rows)
unfolding find count any update_where
stamped-NoGrant key id now g [] d f k = refl
stamped-NoGrant key id now g (h ∷ rows) d f k = elim (Bool-cases (h.id == id)) [
  | inl y ↦
      let same : h ≡ g = ground arith in
      let self : text_beq h.id g.id ≡ true =
        (text_beq_iff h.id g.id).1 (ap (λ (x : Grant). x.id) same) in
      let own : equals h.api_key key ≡ true = rw same (rw k ((text_beq_iff key key).1 refl)) in
      let rest = none_live rows (ground arith) in rw self (ground (arith, rest))
  | inr n ↦
      let f' : find (λ h. h.id == id) rows ≡ some g = ground arith in
      let own : equals g.api_key key ≡ true = rw k ((text_beq_iff key key).1 refl) in
      let there = count-of-find (λ h. h.id == id) (λ h. equals h.api_key key) rows g f' own in
      ground (arith, there, stamped-NoGrant key id now g rows (ground arith) f' k)
]
  where
    none_live :
        (rows : List Grant)
        → count (λ h. equals h.api_key key) rows ≡ 0
        → NoGrant key (update_where (λ h. h.id == g.id) (stamp now) rows)
    none_live [] z = refl
    none_live (h ∷ rows) z = ground (arith, none_live rows)

-- no row of either table answers to the key
pub record Dead (key : Text) (r : Registry) : Type 0 where
  pub no_account : NoAccount key r.accounts
  pub no_grant : NoGrant key r.grants

updated-NoAccount :
    (key : Text) (r r' : Registry) (id : Text) (f : Account → Account)
    → ((a : Account) → (a.api_key == key) ≡ false → ((f a).api_key == key) ≡ false)
    → NoAccount key r.accounts
    → update_account r id f ≡ gives r'
    → NoAccount key r'.accounts
unfolding update_account
updated-NoAccount key r r' id f keeps h e =
    ground (arith, any-update_where (λ a. a.api_key == key) (λ a. a.id == id) f keeps r.accounts)

changed-NoAccount :
    (key : Text) (r : Registry) (id : Text) (f : Account → Account)
    → ((a : Account) → (a.api_key == key) ≡ false → ((f a).api_key == key) ≡ false)
    → NoAccount key r.accounts
    → NoAccount key (change_account r id f).accounts
unfolding update_account
changed-NoAccount key r id f keeps h =
    ground (arith, any-update_where (λ a. a.api_key == key) (λ a. a.id == id) f keeps r.accounts)

pub inserted-NoAccount :
    (key : Text) (r r' : Registry) (a : Account)
    → (a.api_key == key) ≡ false
    → NoAccount key r.accounts
    → insert_account r a ≡ gives r'
    → NoAccount key r'.accounts
unfolding insert_account
inserted-NoAccount key r r' a q h e =
    ground (arith, any-snoc (λ b. b.api_key == key) r.accounts a h q)

confirmed-NoAccount :
    (key : Text) (r : Registry) (o : Option Account)
    → NoAccount key r.accounts
    → NoAccount key (settle_first r (confirm_row r o)).accounts
confirmed-NoAccount key r none h = h
confirmed-NoAccount key r (some a) h = changed-NoAccount key r a.id _ (λ b q. q) h

reset-NoAccount :
    (key : Text) (r : Registry) (o : Option Account) (pw : Answer Text)
    → NoAccount key r.accounts
    → NoAccount key (settle_first r (pw >>= λ pw_hash. reset_row r pw_hash o)).accounts
reset-NoAccount key r o (fails e) h = h
reset-NoAccount key r none (gives pw) h = h
reset-NoAccount key r (some a) (gives pw) h = changed-NoAccount key r a.id _ (λ b q. q) h

signed_up-NoAccount :
    (key : Text) (p : Pbkdf2) (hash : Text → Text) (r : Registry) (f : Fresh)
    (name email pw path : Text) (w a c : Bool) (now : ℕ)
    → (hash f.raw_key == key) ≡ false
    → NoAccount key r.accounts
    → (r' : Registry) → create_user p hash r f name email pw path w a c now ≡ gives r'
    → NoAccount key r'.accounts
unfolding create_user
signed_up-NoAccount key p hash r f name email pw path w a c now o h r' e =
    let (u, v, e1) = >>=-gives (validate_email (normalize_email email)) _ r' e in
    let (u', v', e2) =
      >>=-gives (validate_identity_fields (default_name name (normalize_email email)) path) _ r'
        e1 in
    let (pw_hash, v'', e3) = >>=-gives (hash_password p f.salt pw) _ r' e2 in
    let account : Account =
      user_account f.id (default_name name (normalize_email email)) (normalize_email email)
        (hash f.raw_key) path pw_hash w a c now in
    inserted-NoAccount key r r' account o h (taken (insert_account r account) e3)
  where
    taken : (x : Answer Registry) → unless_taken x ≡ gives r' → x ≡ gives r'
    taken (gives x) q = q
    taken (fails e) q = absurd (cc)

credentials-NoAccount :
    (key : Text) (p : Pbkdf2) (r : Registry) (salt id email pw : Text) (adm : Bool)
    → NoAccount key r.accounts
    → (r' : Registry) → set_credentials p r salt id email pw adm ≡ gives r'
    → NoAccount key r'.accounts
unfolding set_credentials
credentials-NoAccount key p r salt id email pw adm h r' e =
    let (u, v, e1) = >>=-gives (validate_email (normalize_email email)) _ r' e in
    let (pw_hash, v', e2) = >>=-gives (hash_password p salt pw) _ r' e1 in
    let change : Account → Account = with_credentials (normalize_email email) pw_hash adm in
    let (u'', e3) =
      fail_if-gives (email_elsewhere r id (normalize_email email)) email_taken
        (update_account r id change) r' e2 in
    updated-NoAccount key r r' id change (λ a q. q) h e3

pub apply_account-NoAccount :
    (key : Text) (p : Pbkdf2) (hash : Text → Text) (r : Registry) (e : AccountEvent)
    → OtherKey hash key (on_accounts e)
    → NoAccount key r.accounts
    → NoAccount key (apply_account p hash r e).accounts
unfolding apply_account create set_memory_path delete_identity create_user set_password update_flags
    set_credentials set_confirm_token confirm_by_token set_reset_token reset_password_by_token
apply_account-NoAccount key p hash r (created id name raw path w now) o h =
    settle_rule (λ r'. NoAccount key r'.accounts) r (create hash r id name raw path w now) h
      λ r' e.
        let (u, v, e1) = >>=-gives (validate_identity_fields name path) _ r' e in
        inserted-NoAccount key r r' (key_account id name (hash raw) path w now) o h e1
apply_account-NoAccount key p hash r (moved id path) o h =
    settle_rule (λ r'. NoAccount key r'.accounts) r (set_memory_path r id path) h
      λ r' e.
        let (u, v, e1) = >>=-gives (validate_identity_fields (b'x' ∷ []) path) _ r' e in
        updated-NoAccount key r r' id (λ a. record a { memory_path = path }) (λ a q. q) h e1
apply_account-NoAccount key p hash r (removed id) o h =
    ground (arith, any-select-false (λ a. a.api_key == key) (λ a. not (a.id == id)) r.accounts h)
apply_account-NoAccount key p hash r (signed_up f name email pw path w a c now) o h =
    settle_rule (λ r'. NoAccount key r'.accounts) r
      (create_user p hash r f name email pw path w a c now) h
      (signed_up-NoAccount key p hash r f name email pw path w a c now o h)
apply_account-NoAccount key p hash r (password_set salt id pw) o h =
    settle_rule (λ r'. NoAccount key r'.accounts) r (set_password p r salt id pw) h
      λ r' e.
        let (pw_hash, v, e1) = >>=-gives (hash_password p salt pw) _ r' e in
        updated-NoAccount key r r' id (λ a. record a { password_hash = some pw_hash }) (λ a q. q) h
          e1
apply_account-NoAccount key p hash r (flags_set id w adm) o h = ground (
  arith,
  any-update_where (λ a. a.api_key == key) (λ a. a.id == id)
      (λ a. record a { allow_write = or_flag w a.allow_write; is_admin = or_flag adm a.is_admin })
      (λ a q. q) r.accounts h,
)
apply_account-NoAccount key p hash r (credentials_set salt id email pw adm) o h =
    settle_rule (λ r'. NoAccount key r'.accounts) r (set_credentials p r salt id email pw adm) h
      (credentials-NoAccount key p r salt id email pw adm h)
apply_account-NoAccount key p hash r (confirmation_sent id token ttl now) o h =
    changed-NoAccount key r id _ (λ a q. q) h
apply_account-NoAccount key p hash r (confirmed_by token now) o h = confirmed-NoAccount key r _ h
apply_account-NoAccount key p hash r (reset_sent id token ttl now) o h =
    changed-NoAccount key r id _ (λ a q. q) h
apply_account-NoAccount key p hash r (reset_by salt token pw now) o h =
    reset-NoAccount key r _ (hash_password p salt pw) h
