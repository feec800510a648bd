-- ===== src/Registry/Tickets.antt =====
-- internal/db/registry.go and internal/db/oauth_clients.go: what the registry keeps for a limited
-- time, authorization codes, consent tickets, sessions and invitations, and the clients of OAuth.
pub mod Shelf
pub mod Once
use rekam.Prelude.{
  ℕ, ◌+◌, Text, not, List, [], ◌∷◌, ◌++◌, Option, none, some, ◌==◌, text_eq, text_beq, ltb, find,
  any, select, update_where, is_empty, if◌then◌else◌,
}
use rekam.Store.{null_str}
use rekam.Members.{Role}
use rekam.Registry.{
  Registry, CodeRow, TicketRow, SessionRow, Invite, Client, Answer, gives, fails, duplicate,
  client_required,
}

-- DELETE … WHERE expires_at < ?, then INSERT; of a call that fails, the sweep is left out
unfoldable pub store_oauth_code : Registry → CodeRow → ℕ → Answer Registry
unfolding select any text_beq
store_oauth_code r e now =
    let kept = select (λ c. not (ltb c.expires_at now)) r.codes in
    if any (λ c. c.code == e.code) kept
    then fails duplicate
    else gives (record r { codes = kept ++ e ∷ [] })

abbrev pub fresh_code : ℕ → Option CodeRow → Option CodeRow
fresh_code now none = none
fresh_code now (some e) = if ltb e.expires_at now then none else some e

-- DELETE … RETURNING: what is redeemed is gone, expired or not
unfoldable pub take_oauth_code : Registry → Text → ℕ → Registry × Option CodeRow
unfolding find select text_beq
take_oauth_code r code now = (
  record r { codes = select (λ c. not (c.code == code)) r.codes },
  fresh_code now (find (λ c. c.code == code) r.codes),
)

unfoldable pub store_consent_ticket : Registry → TicketRow → ℕ → Answer Registry
unfolding select any text_beq
store_consent_ticket r e now =
    let kept = select (λ t. not (ltb t.expires_at now)) r.tickets in
    if any (λ t. t.ticket == e.ticket) kept
    then fails duplicate
    else gives (record r { tickets = kept ++ e ∷ [] })

abbrev pub fresh_ticket : ℕ → Option TicketRow → Option TicketRow
fresh_ticket now none = none
fresh_ticket now (some e) = if ltb e.expires_at now then none else some e

unfoldable pub take_consent_ticket : Registry → Text → ℕ → Registry × Option TicketRow
unfolding find select text_beq
take_consent_ticket r ticket now = (
  record r { tickets = select (λ t. not (t.ticket == ticket)) r.tickets },
  fresh_ticket now (find (λ t. t.ticket == ticket) r.tickets),
)

-- INSERT … ON CONFLICT DO UPDATE
unfoldable pub put_session : List SessionRow → SessionRow → List SessionRow
unfolding any update_where text_beq
put_session rows s =
    if any (λ t. t.id_hash == s.id_hash) rows
    then update_where (λ t. t.id_hash == s.id_hash) (λ t. s) rows
    else rows ++ s ∷ []

unfoldable pub store_session : (Text → Text) → Registry → Text → Text → ℕ → ℕ → Registry
unfolding select put_session
store_session hash r raw_id identity_id expiry now = record r {
  sessions =
      put_session (select (λ s. not (ltb s.expires_at now)) r.sessions)
        (record { id_hash = hash raw_id; identity_id = identity_id; expires_at = expiry });
}

abbrev pub session_identity : ℕ → Option SessionRow → Option Text
session_identity now none = none
session_identity now (some s) = if ltb s.expires_at now then none else some s.identity_id

unfoldable pub resolve_session : (Text → Text) → Registry → Text → ℕ → Option Text
unfolding find text_beq
resolve_session hash r raw_id now =
    session_identity now (find (λ s. s.id_hash == hash raw_id) r.sessions)

unfoldable pub delete_session : (Text → Text) → Registry → Text → Registry
unfolding select text_beq
delete_session hash r raw_id = record r {
  sessions = select (λ s. not (s.id_hash == hash raw_id)) r.sessions;
}

abbrev pub new_invite : Text → Text → Text → Role → List Text → List Text → Text → ℕ → ℕ → Invite
new_invite token_hash team_id email role reads shown invited_by ttl now = record {
  token_hash = token_hash;
  team_id = team_id;
  email = email;
  role = role;
  read_grants = reads;
  title_grants = shown;
  invited_by = null_str invited_by;
  created_at = now;
  expires_at = now + ttl;
}

unfoldable pub store_invite :
    (Text → Text)
    → Registry
    → Text
    → Text
    → Text
    → Role
    → List Text
    → List Text
    → Text
    → ℕ
    → ℕ
    → Answer Registry
unfolding select any text_beq null_str
store_invite hash r token team_id email role reads shown invited_by ttl now =
    let kept = select (λ i. not (ltb i.expires_at now)) r.invites in
    if any (λ i. i.token_hash == hash token) kept
    then fails duplicate
    else gives (record r {
      invites =
          kept ++ new_invite (hash token) team_id email role reads shown invited_by ttl now ∷ [];
    })

abbrev pub fresh_invite : ℕ → Option Invite → Option Invite
fresh_invite now none = none
fresh_invite now (some i) = if ltb i.expires_at now then none else some i

unfoldable pub resolve_invite : (Text → Text) → Registry → Text → ℕ → Option Invite
unfolding find text_beq
resolve_invite hash r token now =
    fresh_invite now (find (λ i. i.token_hash == hash token) r.invites)

unfoldable pub delete_invite : (Text → Text) → Registry → Text → Registry
unfolding select text_beq
delete_invite hash r token = record r {
  invites = select (λ i. not (i.token_hash == hash token)) r.invites;
}

-- a client that registers again replaces its addresses
unfoldable pub put_oauth_client : Registry → Text → List Text → Answer Registry
unfolding any update_where text_beq
put_oauth_client r client_id uris =
    if is_empty client_id
    then fails client_required
    else if any (λ c. c.client_id == client_id) r.clients
    then gives (record r {
      clients =
          update_where (λ c. c.client_id == client_id) (λ c. record c { redirect_uris = uris })
            r.clients;
    })
    else gives (record r {
      clients = r.clients ++ record { client_id = client_id; redirect_uris = uris } ∷ [];
    })

unfoldable pub oauth_client : Registry → Text → Option Client
unfolding find text_beq
oauth_client r client_id = find (λ c. c.client_id == client_id) r.clients
