-- ===== src/Registry/Tickets/Once.antt =====
-- internal/db/registry.go: an authorization code is redeemed once.
use rekam.Prelude.{
  ℕ, Text, false, not, List, [], ◌∷◌, none, ◌≡◌, refl, arith, ◌==◌, text_eq, any, find, select, ltb,
  All, any-select_none, any-select-false, any-snoc,
}
use rekam.Registry.{Registry, CodeRow}
use rekam.Registry.Passwords.{Pbkdf2}
use rekam.Registry.Tickets.{
  store_oauth_code, take_oauth_code, store_consent_ticket, take_consent_ticket, store_session,
  delete_session, store_invite, delete_invite, put_oauth_client, fresh_code,
}
use rekam.Registry.Events.{
  Event, TicketEvent, on_accounts, on_teams, on_grants, on_tickets, code_stored, code_taken,
  ticket_stored, ticket_taken, session_stored, session_deleted, invited, invite_deleted, client_put,
  apply_ticket, apply, run,
}
use rekam.Registry.Events.Frame.{
  apply_account-AccountsOnly, apply_team-TeamsOnly, apply_grant-GrantsOnly,
}

-- an event that does not store the code again
abbrev pub Spares : Text → Event → Type 0
Spares code (on_tickets (code_stored e now)) = (e.code == code) ≡ false
Spares code _ = Unit

abbrev Gone : Text → List CodeRow → Type 0
Gone code rows = any (λ c. c.code == code) rows ≡ false

apply_ticket-Gone :
    (code : Text) (hash : Text → Text) (r : Registry) (e : TicketEvent)
    → Spares code (on_tickets e)
    → Gone code r.codes
    → Gone code (apply_ticket hash r e).codes
unfolding apply_ticket store_oauth_code take_oauth_code store_consent_ticket take_consent_ticket
    store_session delete_session store_invite delete_invite put_oauth_client
apply_ticket-Gone code hash r (code_stored e now) s g =
    let kept : List CodeRow = select (λ c. not (ltb c.expires_at now)) r.codes in
    let swept : Gone code kept = any-select-false (λ c. c.code == code) _ r.codes g in
    ground (arith, swept, any-snoc (λ c. c.code == code) kept e swept s)
apply_ticket-Gone code hash r (code_taken other now) s g = any-select-false _ _ r.codes g
apply_ticket-Gone code hash r (ticket_stored e now) s g = ground arith
apply_ticket-Gone code hash r (ticket_taken ticket now) s g = g
apply_ticket-Gone code hash r (session_stored raw id expiry now) s g = g
apply_ticket-Gone code hash r (session_deleted raw) s g = g
apply_ticket-Gone code hash r (invited token team email role reads shown by ttl now) s g =
    ground arith
apply_ticket-Gone code hash r (invite_deleted token) s g = g
apply_ticket-Gone code hash r (client_put id uris) s g = ground arith

apply-Gone :
    (code : Text) (p : Pbkdf2) (hash : Text → Text) (r : Registry) (e : Event)
    → Spares code e
    → Gone code r.codes
    → Gone code (apply p hash r e).codes
unfolding apply
apply-Gone code p hash r (on_accounts e) s g =
    rw (apply_account-AccountsOnly p hash r e).codes_kept g
apply-Gone code p hash r (on_teams e) s g = rw (apply_team-TeamsOnly r e).codes_kept g
apply-Gone code p hash r (on_grants e) s g = rw (apply_grant-GrantsOnly hash r e).codes_kept g
apply-Gone code p hash r (on_tickets e) s g = apply_ticket-Gone code hash r e s g

run-Gone :
    (code : Text) (p : Pbkdf2) (hash : Text → Text) (r : Registry) (es : List Event)
    → All (Spares code) es
    → Gone code r.codes
    → Gone code (run p hash r es).codes
unfolding run
run-Gone code p hash r [] s g = g
run-Gone code p hash r (e ∷ es) s g =
    run-Gone code p hash (apply p hash r e) es s.1 (apply-Gone code p hash r e s.0 g)

Gone-none :
    (code : Text) (now : ℕ) (rows : List CodeRow)
    → Gone code rows
    → fresh_code now (find (λ c. c.code == code) rows) ≡ none
unfolding any find
Gone-none code now [] g = refl
Gone-none code now (c ∷ rows) g = ground (arith, Gone-none code now rows)

-- Once a code has been presented, valid or expired, no later presentation of it succeeds, whatever
-- the registry does in between, unless the same code is stored again.
pub redeemed_once :
    (p : Pbkdf2) (hash : Text → Text) (r : Registry) (code : Text) (now later : ℕ) (es : List Event)
    → All (Spares code) es
    → (take_oauth_code (run p hash (take_oauth_code r code now).0 es) code later).1 ≡ none
unfolding take_oauth_code
redeemed_once p hash r code now later es s = Gone-none code later _ (
    run-Gone code p hash _ es s (
      any-select_none (λ c. c.code == code) (λ c. not (c.code == code)) r.codes (λ c q. rw q refl)))
