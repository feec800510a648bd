-- ===== src/OAuth.antt =====
-- internal/api/oauth_handlers.go: the authorization code flow, from the
-- registration of a client to the grant that a token is. A handler takes the node and what it draws
-- at random, and gives the node and the reply. url.Parse and the test for a loopback address are the
-- parameters of the redirect check; forms are records of their values.
pub mod Minting
pub mod Exchange
pub mod Delivery
pub mod Flow
use rekam.Prelude.{
  ℕ, ◌+◌, Text, codes, Bool, true, false, ◌&&◌, ◌||◌, not, List, [], ◌∷◌, ◌++◌, map, Option, none,
  some, ◌==◌, text_eq, text_beq, ltb, any, length, is_empty, if◌then◌else◌,
}
use rekam.Members.{Role, viewer, Effective, belongs, denied, effective_member}
use rekam.Redirect.{Url, redirect_uri_allowed}
use rekam.Registry.{
  Registry, Identity, CodeRow, TicketRow, Client, TeamRow, Answer, gives, fails, resolve,
  resolve_by_id,
}
use rekam.Registry.Directory.{team_by_id, teams_for_identity}
use rekam.Registry.Grants.{mint_grant, mint_delegated_grant}
use rekam.Registry.Tickets.{
  store_oauth_code, take_oauth_code, store_consent_ticket, take_consent_ticket, put_oauth_client,
  oauth_client,
}
use rekam.Registry.Passwords.{Pbkdf2}
use rekam.Registry.Users.{authenticate_password, is_confirmed}
use rekam.Auth.{
  Crypto, Node, Access, admits, denies, auth_failed, not_primary, no_such_team, not_a_member,
  registry_failed, ◌>>=◌, ◌>>◌, deny_if, or_deny, or_none, member_in, resolve_bearer,
  session_token_for,
}
use rekam.Workspaces.{Drawn, mint_grant_by_id, WorkspaceChoice, workspaces_for}

unfoldable pub valid_pkce : Text → Text → Bool
unfolding text_beq
valid_pkce challenge method = not (is_empty challenge) && method == codes "S256"

-- the parameters of an authorization request
pub record AuthorizeView : Type 0 where
  pub redirect_uri : Text
  pub state : Text
  pub code_challenge : Text
  pub code_challenge_method : Text
  pub client_id : Text

pub data Page : Type 0 where
  bad_request server_error login_again : Page
  choose : Text → List WorkspaceChoice → Page
  redirect : Text → Text → Text → Page

-- the parsers of package net
pub record Net : Type 0 where
  pub url_parse : Text → Option Url
  pub loopback_ip : Text → Bool

abbrev pub registered_for : Net → Text → Option Client → Bool
registered_for net uri none = false
registered_for net uri (some client) =
    redirect_uri_allowed net.url_parse net.loopback_ip client.redirect_uris uri

-- whether the check finds nothing to complain of
unfoldable pub check_redirect_uri : Net → Registry → Text → Text → Bool
unfolding oauth_client redirect_uri_allowed
check_redirect_uri net r client_id uri =
    not (is_empty client_id) && registered_for net uri (oauth_client r client_id)

abbrev pub code_of : AuthorizeView → Text → Text → Text → ℕ → CodeRow
code_of v identity_id team_id code now = record {
  code = code;
  code_challenge = v.code_challenge;
  client_id = v.client_id;
  identity_id = identity_id;
  team_id = team_id;
  expires_at = now + 600;
}

abbrev pub landing : AuthorizeView → Text → Option Url → Page
landing v code none = bad_request
landing v code (some u) = redirect v.redirect_uri code v.state

-- the redirection, once the code is stored
abbrev pub deliver : Net → Node → AuthorizeView → Text → Answer Registry → Node × Page
deliver net n v code (fails e) = (n, server_error)
deliver net n v code (gives r) =
    (record n { registry = r }, landing v code (net.url_parse v.redirect_uri))

unfoldable pub finish_authorize : Net → Node → AuthorizeView → Text → Text → Text → ℕ → Node × Page
unfolding valid_pkce check_redirect_uri store_oauth_code
finish_authorize net n v identity_id team_id code now =
    if not (valid_pkce v.code_challenge v.code_challenge_method)
    then (n, bad_request)
    else if not (check_redirect_uri net n.registry v.client_id v.redirect_uri)
    then (n, bad_request)
    else if not n.registry_primary
    then (n, server_error)
    else deliver net n v code
        (store_oauth_code n.registry (code_of v identity_id team_id code now) now)

abbrev pub ticket_of : AuthorizeView → Text → List Text → Text → ℕ → TicketRow
ticket_of v identity_id teams ticket now = record {
  ticket = ticket;
  identity_id = identity_id;
  teams = teams;
  redirect_uri = v.redirect_uri;
  state = v.state;
  code_challenge = v.code_challenge;
  code_challenge_method = v.code_challenge_method;
  client_id = v.client_id;
  expires_at = now + 600;
}

abbrev pub offer : Node → Text → List WorkspaceChoice → Answer Registry → Node × Page
offer n ticket choices (fails e) = (n, server_error)
offer n ticket choices (gives r) = (record n { registry = r }, choose ticket choices)

-- after the password: one workspace is taken at once, several are offered
abbrev pub authorized :
    Net → Node → AuthorizeView → Text → List WorkspaceChoice → Text → ℕ → Node × Page
authorized net n v identity_id choices drawn now =
    if ltb (length choices) 2
    then finish_authorize net n v identity_id [] drawn now
    else if not n.registry_primary
    then (n, server_error)
    else offer n drawn choices (
        store_consent_ticket n.registry
          (ticket_of v identity_id (map (λ t. t.id) choices) drawn now) now)

abbrev pub logged_in :
    Crypto → Net → Node → AuthorizeView → Text → ℕ → Answer Identity → Answer Bool → Node × Page
logged_in c net n v drawn now (fails e) confirmed = (n, login_again)
logged_in c net n v drawn now (gives id) (fails e) = (n, server_error)
logged_in c net n v drawn now (gives id) (gives confirmed) =
    if confirmed
    then authorized net n v id.id (workspaces_for c n id.id) drawn now
    else (n, login_again)

abbrev pub confirmation : Registry → Answer Identity → Answer Bool
confirmation r (fails e) = fails e
confirmation r (gives id) = is_confirmed r id.id

unfoldable pub handle_authorize_submit :
    Crypto → Net → Pbkdf2 → Node → AuthorizeView → Text → Text → Text → ℕ → Node × Page
unfolding check_redirect_uri authenticate_password is_confirmed workspaces_for finish_authorize
    store_consent_ticket
handle_authorize_submit c net p n v email password drawn now =
    if not (check_redirect_uri net n.registry v.client_id v.redirect_uri)
    then (n, bad_request)
    else (let login = authenticate_password p n.registry email password in
        logged_in c net n v drawn now login (confirmation n.registry login))

abbrev pub view_of : TicketRow → AuthorizeView
view_of t = record {
  redirect_uri = t.redirect_uri;
  state = t.state;
  code_challenge = t.code_challenge;
  code_challenge_method = t.code_challenge_method;
  client_id = t.client_id;
}

abbrev pub chosen : Net → Node → Text → Text → ℕ → Option TicketRow → Node × Page
chosen net n team drawn now none = (n, bad_request)
chosen net n team drawn now (some t) =
    if any (λ id. id == team) t.teams
    then finish_authorize net n (view_of t) t.identity_id team drawn now
    else (n, bad_request)

unfoldable pub handle_authorize_workspace : Net → Node → Text → Text → Text → ℕ → Node × Page
unfolding take_consent_ticket finish_authorize any text_beq
handle_authorize_workspace net n ticket team drawn now =
    if not n.registry_primary
    then (n, server_error)
    else (let (r, entry) = take_consent_ticket n.registry ticket now in
        chosen net (record n { registry = r }) team drawn now entry)

pub data TokenReply : Type 0 where
  failed_exchange invalid_grant : TokenReply
  token : Text → Text → Text → TokenReply

abbrev pub minted : Node → Drawn → Text → Access Node → Node × TokenReply
minted n drawn identity_id (denies e) = (n, invalid_grant)
minted n drawn identity_id (admits n') = (n', token drawn.id identity_id drawn.raw_key)

-- the code is gone by now, whatever follows
abbrev pub exchange : Crypto → Node → Drawn → Text → ℕ → Option CodeRow → Node × TokenReply
exchange c n drawn verifier now none = (n, invalid_grant)
exchange c n drawn verifier now (some e) =
    if is_empty e.code_challenge
    then (n, invalid_grant)
    else if not (c.challenge verifier == e.code_challenge)
    then (n, invalid_grant)
    else minted n drawn e.identity_id
        (mint_grant_by_id c n drawn e.identity_id e.client_id e.team_id now)

unfoldable pub handle_oauth_token : Crypto → Node → Drawn → Text → Text → ℕ → Node × TokenReply
unfolding take_oauth_code text_beq mint_grant_by_id
handle_oauth_token c n drawn code verifier now =
    if not n.registry_primary
    then (n, failed_exchange)
    else (let (r, entry) = take_oauth_code n.registry code now in
        exchange c (record n { registry = r }) drawn verifier now entry)

-- `stringList` of a decoded list, where `none` is a value that is no string
unfoldable pub string_list : List (Option Text) → List Text
string_list [] = []
string_list (none ∷ vs) = string_list vs
string_list (some s ∷ vs) = let rest = string_list vs in if is_empty s then rest else s ∷ rest

pub data RegisterReply : Type 0 where
  invalid_redirect_uri register_failed : RegisterReply
  registered : Text → List Text → RegisterReply

abbrev pub registration : Node → Text → List Text → Answer Registry → Node × RegisterReply
registration n id uris (fails e) = (n, register_failed)
registration n id uris (gives r) = (record n { registry = r }, registered id uris)

-- a client without an id is given one
unfoldable pub handle_oauth_register :
    Node → Text → Text → List (Option Text) → Node × RegisterReply
unfolding string_list put_oauth_client
handle_oauth_register n client_id drawn values =
    let id = if is_empty client_id then drawn else client_id in
    let uris = string_list values in
    if is_empty uris
    then (n, invalid_redirect_uri)
    else if not n.registry_primary
    then (n, register_failed)
    else registration n id uris (put_oauth_client n.registry id uris)
