-- ===== src/Registry/Events/Frame.antt =====
-- internal/db/registry.go, users.go: which tables an operation of the registry leaves alone.
use rekam.Prelude.{Text, ◌≡◌, arith, text_eq}
use rekam.Registry.{
  Registry, Account, create, set_memory_path, delete_identity, insert_account, update_account,
}
use rekam.Registry.Passwords.{Pbkdf2}
use rekam.Registry.Users.{
  create_user, set_password, update_flags, set_credentials, set_confirm_token, confirm_by_token,
  set_reset_token, reset_password_by_token, change_account,
}
use rekam.Registry.Events.{
  AccountEvent, TeamEvent, GrantEvent, TicketEvent, created, moved, removed, signed_up,
  password_set, flags_set, credentials_set, confirmation_sent, confirmed_by, reset_sent, reset_by,
  settle, apply_account, team_created, plan_set, team_renamed, team_deleted, indexed, unindexed,
  delegated, hidden, grant_revoked, code_stored, code_taken, ticket_stored, ticket_taken,
  session_stored, session_deleted, invited, invite_deleted, client_put, apply_team, apply_grant,
  apply_ticket,
}
use rekam.Registry.Directory.{
  create_team, set_team_plan, rename_team, soft_delete_team, index_team_member, unindex_team_member,
}
use rekam.Registry.Grants.{mint_delegated_grant, mint_grant, revoke_grant}
use rekam.Registry.Tickets.{
  store_oauth_code, take_oauth_code, store_consent_ticket, take_consent_ticket, store_session,
  delete_session, store_invite, delete_invite, put_oauth_client,
}

-- every table but that of the accounts is as it was
pub record AccountsOnly (r r' : Registry) : Type 0 where
  pub grants_kept : r'.grants ≡ r.grants
  pub teams_kept : r'.teams ≡ r.teams
  pub codes_kept : r'.codes ≡ r.codes

update_account-AccountsOnly :
    (r : Registry) (id : Text) (f : Account → Account)
    → AccountsOnly r (settle r (update_account r id f))
unfolding update_account
update_account-AccountsOnly r id f = ground arith

change_account-AccountsOnly :
    (r : Registry) (id : Text) (f : Account → Account) → AccountsOnly r (change_account r id f)
unfolding update_account
change_account-AccountsOnly r id f = ground arith

insert_account-AccountsOnly :
    (r : Registry) (a : Account) → AccountsOnly r (settle r (insert_account r a))
unfolding insert_account
insert_account-AccountsOnly r a = ground arith

pub apply_account-AccountsOnly :
    (p : Pbkdf2) (hash : Text → Text) (r : Registry) (e : AccountEvent)
    → AccountsOnly r (apply_account p hash r e)
unfolding apply_account create set_memory_path delete_identity create_user set_password update_flags
    set_credentials set_confirm_token confirm_by_token set_reset_token reset_password_by_token
apply_account-AccountsOnly p hash r (created id name key path w now) = ground arith
apply_account-AccountsOnly p hash r (moved id path) =
    ground (arith, update_account-AccountsOnly r id (λ a. record a { memory_path = path }))
apply_account-AccountsOnly p hash r (removed id) = ground arith
apply_account-AccountsOnly p hash r (signed_up f name email pw path w a c now) = ground arith
apply_account-AccountsOnly p hash r (password_set salt id pw) = ground arith
apply_account-AccountsOnly p hash r (flags_set id w a) = ground arith
apply_account-AccountsOnly p hash r (credentials_set salt id email pw a) = ground arith
apply_account-AccountsOnly p hash r (confirmation_sent id token ttl now) =
    change_account-AccountsOnly r id _
apply_account-AccountsOnly p hash r (confirmed_by token now) = ground arith
apply_account-AccountsOnly p hash r (reset_sent id token ttl now) =
    change_account-AccountsOnly r id _
apply_account-AccountsOnly p hash r (reset_by salt token pw now) = ground arith

-- only the teams and their index change
pub record TeamsOnly (r r' : Registry) : Type 0 where
  pub accounts_kept : r'.accounts ≡ r.accounts
  pub grants_kept : r'.grants ≡ r.grants
  pub codes_kept : r'.codes ≡ r.codes

pub apply_team-TeamsOnly : (r : Registry) (e : TeamEvent) → TeamsOnly r (apply_team r e)
unfolding apply_team create_team set_team_plan rename_team soft_delete_team index_team_member
    unindex_team_member
apply_team-TeamsOnly r (team_created id name path by limit now) = ground arith
apply_team-TeamsOnly r (plan_set id plan seats) = ground arith
apply_team-TeamsOnly r (team_renamed id name) = ground arith
apply_team-TeamsOnly r (team_deleted id now) = ground arith
apply_team-TeamsOnly r (indexed team id) = ground arith
apply_team-TeamsOnly r (unindexed team id) = ground arith

-- only the accounts and the grants change
pub record GrantsOnly (r r' : Registry) : Type 0 where
  pub teams_kept : r'.teams ≡ r.teams
  pub codes_kept : r'.codes ≡ r.codes

pub apply_grant-GrantsOnly :
    (hash : Text → Text) (r : Registry) (e : GrantEvent) → GrantsOnly r (apply_grant hash r e)
unfolding apply_grant mint_delegated_grant mint_grant revoke_grant
apply_grant-GrantsOnly hash r (delegated id key client identity team now) = ground arith
apply_grant-GrantsOnly hash r (hidden identity id key client name path w now) = ground arith
apply_grant-GrantsOnly hash r (grant_revoked id now) = ground arith

-- what expires is kept apart from accounts, grants and teams
pub record TicketsOnly (r r' : Registry) : Type 0 where
  pub accounts_kept : r'.accounts ≡ r.accounts
  pub grants_kept : r'.grants ≡ r.grants
  pub teams_kept : r'.teams ≡ r.teams

pub apply_ticket-TicketsOnly :
    (hash : Text → Text) (r : Registry) (e : TicketEvent) → TicketsOnly r (apply_ticket hash r e)
unfolding apply_ticket store_oauth_code take_oauth_code store_consent_ticket take_consent_ticket
    store_session delete_session store_invite delete_invite put_oauth_client
apply_ticket-TicketsOnly hash r (code_stored e now) = ground arith
apply_ticket-TicketsOnly hash r (code_taken code now) = ground arith
apply_ticket-TicketsOnly hash r (ticket_stored e now) = ground arith
apply_ticket-TicketsOnly hash r (ticket_taken ticket now) = ground arith
apply_ticket-TicketsOnly hash r (session_stored raw id expiry now) = ground arith
apply_ticket-TicketsOnly hash r (session_deleted raw) = ground arith
apply_ticket-TicketsOnly hash r (invited token team email role reads shown by ttl now) =
    ground arith
apply_ticket-TicketsOnly hash r (invite_deleted token) = ground arith
apply_ticket-TicketsOnly hash r (client_put id uris) = ground arith
