-- ===== src/Registry/Events.antt =====
-- Histories of the registry: each event is a call of one of its operations, and a call that fails
-- leaves the registry as it was (internal/db/registry.go, users.go, oauth_clients.go).
pub mod Frame
use rekam.Prelude.{ℕ, Text, Bool, List, [], ◌∷◌, Option, ◌≡◌, refl, arith}
use rekam.Members.{Role}
use rekam.Registry.{
  Registry, CodeRow, TicketRow, Identity, Answer, gives, fails, create, set_memory_path,
  delete_identity, ◌>>=◌,
}
use rekam.Registry.Directory.{
  create_team, set_team_plan, rename_team, soft_delete_team, index_team_member, unindex_team_member,
}
use rekam.Registry.Grants.{mint_delegated_grant, mint_grant, revoke_grant}
use rekam.Registry.Tickets.{
  store_oauth_code, take_oauth_code, store_consent_ticket, take_consent_ticket, store_session,
  delete_session, store_invite, delete_invite, put_oauth_client,
}
use rekam.Registry.Passwords.{Pbkdf2}
use rekam.Registry.Users.{
  Fresh, create_user, set_password, update_flags, set_credentials, set_confirm_token,
  confirm_by_token, set_reset_token, reset_password_by_token,
}

pub data AccountEvent : Type 0 where
  created : Text → Text → Text → Text → Bool → ℕ → AccountEvent
  moved : Text → Text → AccountEvent
  removed : Text → AccountEvent
  signed_up : Fresh → Text → Text → Text → Text → Bool → Bool → Bool → ℕ → AccountEvent
  password_set : Text → Text → Text → AccountEvent
  flags_set : Text → Option Bool → Option Bool → AccountEvent
  credentials_set : Text → Text → Text → Text → Bool → AccountEvent
  confirmation_sent : Text → Text → ℕ → ℕ → AccountEvent
  confirmed_by : Text → ℕ → AccountEvent
  reset_sent : Text → Text → ℕ → ℕ → AccountEvent
  reset_by : Text → Text → Text → ℕ → AccountEvent

pub data TeamEvent : Type 0 where
  team_created : Text → Text → Text → Text → ℕ → ℕ → TeamEvent
  plan_set : Text → Text → ℕ → TeamEvent
  team_renamed : Text → Text → TeamEvent
  team_deleted : Text → ℕ → TeamEvent
  indexed unindexed : Text → Text → TeamEvent

pub data GrantEvent : Type 0 where
  delegated : Text → Text → Text → Text → Text → ℕ → GrantEvent
  hidden : Text → Text → Text → Text → Text → Text → Bool → ℕ → GrantEvent
  grant_revoked : Text → ℕ → GrantEvent

pub data TicketEvent : Type 0 where
  code_stored : CodeRow → ℕ → TicketEvent
  code_taken : Text → ℕ → TicketEvent
  ticket_stored : TicketRow → ℕ → TicketEvent
  ticket_taken : Text → ℕ → TicketEvent
  session_stored : Text → Text → ℕ → ℕ → TicketEvent
  session_deleted : Text → TicketEvent
  invited : Text → Text → Text → Role → List Text → List Text → Text → ℕ → ℕ → TicketEvent
  invite_deleted : Text → TicketEvent
  client_put : Text → List Text → TicketEvent

pub data Event : Type 0 where
  on_accounts : AccountEvent → Event
  on_teams : TeamEvent → Event
  on_grants : GrantEvent → Event
  on_tickets : TicketEvent → Event

abbrev pub settle : Registry → Answer Registry → Registry
settle r (gives r') = r'
settle r (fails e) = r

abbrev pub settle_first : Registry → Answer (Registry × Identity) → Registry
settle_first r (gives (r', i)) = r'
settle_first r (fails e) = r

unfoldable pub apply_account : Pbkdf2 → (Text → Text) → Registry → AccountEvent → Registry
apply_account p hash r (created id name key path w now) =
    settle r (create hash r id name key path w now)
apply_account p hash r (moved id path) = settle r (set_memory_path r id path)
apply_account p hash r (removed id) = settle r (delete_identity r id)
apply_account p hash r (signed_up f name email pw path w a c now) =
    settle r (create_user p hash r f name email pw path w a c now)
apply_account p hash r (password_set salt id pw) = settle r (set_password p r salt id pw)
apply_account p hash r (flags_set id w a) = settle r (update_flags r id w a)
apply_account p hash r (credentials_set salt id email pw a) =
    settle r (set_credentials p r salt id email pw a)
apply_account p hash r (confirmation_sent id token ttl now) = set_confirm_token r id token ttl now
apply_account p hash r (confirmed_by token now) = settle_first r (confirm_by_token r token now)
apply_account p hash r (reset_sent id token ttl now) = set_reset_token r id token ttl now
apply_account p hash r (reset_by salt token pw now) =
    settle_first r (reset_password_by_token p r salt token pw now)

unfoldable pub apply_team : Registry → TeamEvent → Registry
apply_team r (team_created id name path by limit now) =
    settle r (create_team r id name path by limit now)
apply_team r (plan_set id plan seats) = settle r (set_team_plan r id plan seats)
apply_team r (team_renamed id name) = settle r (rename_team r id name)
apply_team r (team_deleted id now) = settle r (soft_delete_team r id now)
apply_team r (indexed team id) = settle r (index_team_member r team id)
apply_team r (unindexed team id) = unindex_team_member r team id

unfoldable pub apply_grant : (Text → Text) → Registry → GrantEvent → Registry
apply_grant hash r (delegated id key client identity team now) =
    settle r (mint_delegated_grant hash r id key client identity team now)
apply_grant hash r (hidden identity id key client name path w now) =
    settle r (mint_grant hash r identity id key client name path w now)
apply_grant hash r (grant_revoked id now) = settle r (revoke_grant r id now)

unfoldable pub apply_ticket : (Text → Text) → Registry → TicketEvent → Registry
apply_ticket hash r (code_stored e now) = settle r (store_oauth_code r e now)
apply_ticket hash r (code_taken code now) = (take_oauth_code r code now).0
apply_ticket hash r (ticket_stored e now) = settle r (store_consent_ticket r e now)
apply_ticket hash r (ticket_taken ticket now) = (take_consent_ticket r ticket now).0
apply_ticket hash r (session_stored raw id expiry now) = store_session hash r raw id expiry now
apply_ticket hash r (session_deleted raw) = delete_session hash r raw
apply_ticket hash r (invited token team email role reads shown by ttl now) =
    settle r (store_invite hash r token team email role reads shown by ttl now)
apply_ticket hash r (invite_deleted token) = delete_invite hash r token
apply_ticket hash r (client_put id uris) = settle r (put_oauth_client r id uris)

unfoldable pub apply : Pbkdf2 → (Text → Text) → Registry → Event → Registry
unfolding apply_account apply_team apply_grant apply_ticket
apply p hash r (on_accounts e) = apply_account p hash r e
apply p hash r (on_teams e) = apply_team r e
apply p hash r (on_grants e) = apply_grant hash r e
apply p hash r (on_tickets e) = apply_ticket hash r e

unfoldable pub run : Pbkdf2 → (Text → Text) → Registry → List Event → Registry
unfolding apply
run p hash r [] = r
run p hash r (e ∷ es) = run p hash (apply p hash r e) es

abbrev pub empty : Registry
empty = record {
  accounts = [];
  grants = [];
  teams = [];
  index = [];
  codes = [];
  tickets = [];
  sessions = [];
  invites = [];
  clients = [];
}
