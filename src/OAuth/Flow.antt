-- ===== src/OAuth/Flow.antt =====
-- internal/api/oauth_handlers.go: the whole flow, from the login to the token.
use rekam.Prelude.{
  ℕ, ◌+◌, ◌≤◌, Text, true, false, ◌||◌, List, none, some, ◌≡◌, refl, sym, ◌∙◌, ap, subst, arith,
  ◌==◌, text_eq, text_beq_iff, any, is_empty, [], ◌∷◌, ◌++◌,
}
use rekam.Registry.{Registry, Identity, Grant, CodeRow, gives, resolve_by_id, account_by_id}
use rekam.Registry.Grants.{mint_delegated_grant, insert_grant, same_key, new_grant, resolve_grant}
use rekam.Registry.Passwords.{Pbkdf2}
use rekam.Registry.Users.{authenticate_password}
use rekam.Registry.Tickets.{take_oauth_code}
use rekam.Registry.Tickets.Shelf.{live_code}
use rekam.Auth.{Crypto, Node, admits}
use rekam.Workspaces.{Drawn, or_unknown, mint_grant_by_id}
use rekam.OAuth.{
  Net, AuthorizeView, redirect, token, exchange, handle_oauth_token, handle_authorize_submit,
  code_of, valid_pkce,
}
use rekam.OAuth.Exchange.{token_lem}
use rekam.OAuth.Delivery.{submit_lem}

-- the id and the key of a grant are new
abbrev pub Unused : Crypto → Drawn → List Grant → Type 0
Unused c drawn rows =
    any (λ g. drawn.id == g.id || same_key (some (c.hash drawn.raw_key)) g.api_key) rows ≡ false

take-live :
    (r : Registry) (code : Text) (now : ℕ) → (take_oauth_code r code now).1 ≡ live_code r now code
unfolding take_oauth_code live_code
take-live r code now = refl

mint_succeeds :
    (c : Crypto) (n : Node) (drawn : Drawn) (identity client : Text) (now : ℕ) (who : Identity)
    → n.registry_primary ≡ true
    → resolve_by_id n.registry identity ≡ gives who
    → Unused c drawn n.registry.grants
    → (n' : Node) × (mint_grant_by_id c n drawn identity client [] now ≡ admits n')
unfolding mint_grant_by_id mint_delegated_grant insert_grant
mint_succeeds c n drawn identity client now who on known unused =
    let g : Grant =
      new_grant drawn.id (or_unknown client) identity (some (c.hash drawn.raw_key)) none now in
    let r : Registry = record n.registry { grants = n.registry.grants ++ g ∷ [] } in
    (record n { registry = r }, rw (on, known, unused) refl)

exchange_succeeds :
    (c : Crypto) (n : Node) (drawn : Drawn) (verifier : Text) (now : ℕ) (e : CodeRow) (n' : Node)
    → is_empty e.code_challenge ≡ false
    → c.challenge verifier ≡ e.code_challenge
    → mint_grant_by_id c n drawn e.identity_id e.client_id e.team_id now ≡ admits n'
    → exchange c n drawn verifier now (some e) ≡ (n', token drawn.id e.identity_id drawn.raw_key)
exchange_succeeds c n drawn verifier now e n' full answer mint =
    rw (full, (text_beq_iff (c.challenge verifier) e.code_challenge).1 answer, mint) refl

handle_succeeds :
    (c : Crypto) (n n' : Node) (drawn : Drawn) (code verifier : Text) (later : ℕ) (e : CodeRow)
    → n.registry_primary ≡ true
    → live_code n.registry later code ≡ some e
    → exchange c
        (record n { registry = (take_oauth_code n.registry code later).0 })
        drawn
        verifier
        later
        (some e)
      ≡ (n', token drawn.id e.identity_id drawn.raw_key)
    → handle_oauth_token c n drawn code verifier later
      ≡ (n', token drawn.id e.identity_id drawn.raw_key)
unfolding handle_oauth_token
handle_succeeds c n n' drawn code verifier later e on there h =
    let n1 : Node = record n { registry = (take_oauth_code n.registry code later).0 } in
    let step : handle_oauth_token c n drawn code verifier later
        ≡ exchange c n1 drawn verifier later (take_oauth_code n.registry code later).1 =
      ground arith in
    step ∙ ap (exchange c n1 drawn verifier later) (take-live n.registry code later ∙ there) ∙ h

pkce-full :
    (challenge method : Text) → valid_pkce challenge method ≡ true → is_empty challenge ≡ false
unfolding valid_pkce
pkce-full [] method h = absurd (cc)
pkce-full (c ∷ s) method h = refl

same_account :
    (r r' : Registry) (id : Text)
    → r'.accounts ≡ r.accounts
    → resolve_by_id r' id ≡ resolve_by_id r id
unfolding resolve_by_id account_by_id
same_account r r' id h = rw h refl

taken_account :
    (n : Node) (code : Text) (later : ℕ) (id : Text)
    → resolve_by_id (take_oauth_code n.registry code later).0 id ≡ resolve_by_id n.registry id
unfolding resolve_by_id account_by_id take_oauth_code
taken_account n code later id = refl

-- A client that a login has handed a code can exchange it, within ten minutes and with the verifier
-- of its challenge: the exchange gives a token, and the token acts as the account that logged in, in
-- its own workspace. The account is found by its id, and the id and the key that are drawn are new.
pub login_then_token :
    (c : Crypto) (net : Net) (p : Pbkdf2) (n n' : Node) (v : AuthorizeView)
    (email password fresh : Text) (now later : ℕ) (uri code state verifier : Text) (drawn : Drawn)
    (who : Identity)
    → handle_authorize_submit c net p n v email password fresh now ≡ (n', redirect uri code state)
    → authenticate_password p n.registry email password ≡ gives who
    → resolve_by_id n.registry who.id ≡ gives who
    → later ≤ now + 600
    → c.challenge verifier ≡ v.code_challenge
    → Unused c drawn n'.registry.grants
    → (n'' : Node) × (handle_oauth_token c n' drawn code verifier later
        ≡ (n'', token drawn.id who.id drawn.raw_key))
      × (resolve_grant c.hash n''.registry drawn.raw_key ≡ some (who, []))
login_then_token c net p n n' v email password fresh now later uri code state verifier drawn who h
      login known soon answer unused =
    let (who', login', confirmed, d) =
      submit_lem c net p n n' v email password fresh now uri code state h in
    let same : who' ≡ who = cc (login, login') in
    let e : CodeRow = code_of v who'.id [] code now in
    let n1 : Node = record n' { registry = (take_oauth_code n'.registry code later).0 } in
    let known1 : resolve_by_id n1.registry who'.id ≡ gives who =
      taken_account n' code later who'.id
      ∙ same_account n.registry n'.registry who'.id d.accounts_kept
      ∙ rw same known in
    let (n2, mint) =
      mint_succeeds c n1 drawn who'.id v.client_id later who d.was_primary known1
        (unfold take_oauth_code in unused) in
    let given =
      handle_succeeds c n' n2 drawn code verifier later e d.was_primary (d.stored later soon) (
        exchange_succeeds c n1 drawn verifier later e n2
          (pkce-full v.code_challenge v.code_challenge_method d.challenged) answer mint) in
    let (e', who'', owner, key, x) =
      token_lem c n' n2 drawn code verifier later drawn.id who'.id drawn.raw_key given in
    let entry : e ≡ e' = cc (d.stored later soon, take-live n'.registry code later, x.redeemed) in
    let owner' : resolve_by_id n'.registry who'.id ≡ gives who'' =
      subst (λ (i : Text). resolve_by_id n'.registry i ≡ gives who'') (sym owner) x.exists in
    let known' : resolve_by_id n'.registry who'.id ≡ gives who =
      same_account n.registry n'.registry who'.id d.accounts_kept ∙ rw same known in
    let whose : who'' ≡ who = cc (owner', known') in
    let team : e'.team_id ≡ [] = ap (λ (y : CodeRow). y.team_id) (sym entry) in
    let given' : handle_oauth_token c n' drawn code verifier later
        ≡ (n2, token drawn.id who.id drawn.raw_key) =
      given ∙ ap (λ (w : Identity). (n2, token drawn.id w.id drawn.raw_key)) same in
    (n2, given', rw (x.acts_as, whose, team) refl)
