-- ===== src/OAuth/Delivery.antt =====
-- internal/api/oauth_handlers.go: where a code is delivered, and that it can be exchanged.
use rekam.Prelude.{
  ℕ, ◌+◌, ◌≤◌, Text, Bool, true, false, not, List, [], map, Option, none, some, ◌≡◌, refl, ◌∙◌, ap,
  subst, arith, ◌==◌, text_eq, ltb, any, length, Bool-cases, inl, inr, find-select-none,
}
use rekam.Redirect.{Url}
use rekam.Registry.{Registry, Identity, CodeRow, TicketRow, Answer, gives, fails}
use rekam.Registry.Passwords.{Pbkdf2}
use rekam.Registry.Users.{authenticate_password, is_confirmed}
use rekam.Registry.Tickets.{store_oauth_code, store_consent_ticket, take_consent_ticket}
use rekam.Registry.Tickets.Shelf.{live_code, store-found}
use rekam.Auth.{Crypto, Node}
use rekam.Workspaces.{WorkspaceChoice, workspaces_for}
use rekam.OAuth.{
  Net, AuthorizeView, Page, redirect, valid_pkce, check_redirect_uri, code_of, landing, deliver,
  finish_authorize, offer, authorized, logged_in, confirmation, ticket_of, handle_authorize_submit,
  view_of, chosen, handle_authorize_workspace,
}

-- a code that is handed to a client's address
pub record Delivered (net : Net) (n n' : Node) (v : AuthorizeView) (identity team : Text)
    (drawn uri code : Text) (now : ℕ) : Type 0 where
  pub to_request : uri ≡ v.redirect_uri
  pub as_drawn : code ≡ drawn
  pub registered : check_redirect_uri net n.registry v.client_id v.redirect_uri ≡ true
  pub challenged : valid_pkce v.code_challenge v.code_challenge_method ≡ true
  pub stored :
      (later : ℕ)
      → later ≤ now + 600
      → live_code n'.registry later code ≡ some (code_of v identity team code now)
  pub tickets_kept : n'.registry.tickets ≡ n.registry.tickets
  pub accounts_kept : n'.registry.accounts ≡ n.registry.accounts
  pub was_primary : n'.registry_primary ≡ true

landing-redirect :
    (v : AuthorizeView) (code uri code' state : Text) (u : Option Url)
    → landing v code u ≡ redirect uri code' state
    → (uri ≡ v.redirect_uri) × (code' ≡ code)
landing-redirect v code uri code' state none h = absurd (cc)
landing-redirect v code uri code' state (some u) h = (ground arith, ground arith)

deliver-stored :
    (net : Net) (n n' : Node) (v : AuthorizeView) (code uri code' state : Text)
    (o : Answer Registry)
    → deliver net n v code o ≡ (n', redirect uri code' state)
    → (o ≡ gives n'.registry)
      × (uri ≡ v.redirect_uri)
      × (code' ≡ code)
      × (n'.registry_primary ≡ n.registry_primary)
deliver-stored net n n' v code uri code' state (fails e) h = absurd (cc)
deliver-stored net n n' v code uri code' state (gives r) h =
    let node : record n { registry = r } ≡ n' = ap (λ (x : Node × Page). x.0) h in
    let page : landing v code (net.url_parse v.redirect_uri) ≡ redirect uri code' state =
      ap (λ (x : Node × Page). x.1) h in
    let (at, same) = landing-redirect v code uri code' state _ page in
    (rw (← node) refl, at, same, rw (← node) refl)

store-kept :
    (r r' : Registry) (e : CodeRow) (now : ℕ)
    → store_oauth_code r e now ≡ gives r'
    → (r'.tickets ≡ r.tickets) × (r'.accounts ≡ r.accounts)
unfolding store_oauth_code
store-kept r r' e now h = ground arith

finish-Delivered :
    (net : Net) (n n' : Node) (v : AuthorizeView) (identity team drawn : Text) (now : ℕ)
    (uri code state : Text)
    → finish_authorize net n v identity team drawn now ≡ (n', redirect uri code state)
    → Delivered net n n' v identity team drawn uri code now
unfolding finish_authorize
finish-Delivered net n n' v identity team drawn now uri code state h =
    elim (Bool-cases (valid_pkce v.code_challenge v.code_challenge_method)) [
      | inr bad ↦ absurd (ground arith)
      | inl pkce ↦
          elim (Bool-cases (check_redirect_uri net n.registry v.client_id v.redirect_uri)) [
            | inr bad ↦ absurd (ground arith)
            | inl reg ↦ elim (Bool-cases n.registry_primary) [
              | inr off ↦ absurd (ground arith)
              | inl on ↦
                  let e : CodeRow = code_of v identity team drawn now in
                  let (kept, at, same, prim) =
                    deliver-stored net n n' v drawn uri code state
                      (store_oauth_code n.registry e now) (ground arith) in
                  let there : (later : ℕ)
                      → later ≤ now + 600
                      → live_code n'.registry later drawn ≡ some e =
                    λ later q.
                      let alive : ltb (now + 600) later ≡ false = ground arith in
                      store-found n.registry n'.registry e now kept later ∙ rw alive refl in
                  let (tickets, accounts) = store-kept n.registry n'.registry e now kept in
                  record {
                    to_request = at;
                    as_drawn = same;
                    registered = reg;
                    challenged = pkce;
                    stored = rw same there;
                    tickets_kept = tickets;
                    accounts_kept = accounts;
                    was_primary = rw prim on;
                  }
            ]
          ]
    ]

authorized-redirect :
    (net : Net) (n n' : Node) (v : AuthorizeView) (identity : Text) (choices : List WorkspaceChoice)
    (drawn : Text) (now : ℕ) (uri code state : Text)
    → authorized net n v identity choices drawn now ≡ (n', redirect uri code state)
    → finish_authorize net n v identity [] drawn now ≡ (n', redirect uri code state)
authorized-redirect net n n' v identity choices drawn now uri code state h =
    elim (Bool-cases (ltb (length choices) 2)) [
      | inl few ↦ ground arith
      | inr many ↦ elim (Bool-cases n.registry_primary) [
        | inr off ↦ absurd (ground arith)
        | inl on ↦ absurd (
            offered
              (store_consent_ticket n.registry
                (ticket_of v identity (map (λ t. t.id) choices) drawn now) now)
              (ground arith))
      ]
    ]
  where
    offered : (o : Answer Registry) → offer n drawn choices o ≡ (n', redirect uri code state) → ⊥
    offered (fails e) q = cc
    offered (gives r) q = cc

login-redirect :
    (c : Crypto) (net : Net) (n n' : Node) (v : AuthorizeView) (drawn : Text) (now : ℕ)
    (login : Answer Identity) (confirmed : Answer Bool) (uri code state : Text)
    → logged_in c net n v drawn now login confirmed ≡ (n', redirect uri code state)
    → (who : Identity) × (login ≡ gives who)
      × (confirmed ≡ gives true)
      × Delivered net n n' v who.id [] drawn uri code now
login-redirect c net n n' v drawn now (fails e) confirmed uri code state h = absurd (cc)
login-redirect c net n n' v drawn now (gives id) (fails e) uri code state h = absurd (cc)
login-redirect c net n n' v drawn now (gives id) (gives false) uri code state h = absurd (cc)
login-redirect c net n n' v drawn now (gives id) (gives true) uri code state h = (
  id,
  refl,
  refl,
  finish-Delivered net n n' v id.id [] drawn now uri code state
      (authorized-redirect net n n' v id.id (workspaces_for c n id.id) drawn now uri code state h),
)

-- The form of a login redirects with a code only to the address of the request, which the client has
-- registered, with an S256 challenge, and after the password of an account whose email is confirmed.
-- The code is then stored for that account, its own workspace, that client and that challenge.
pub submit_lem :
    (c : Crypto) (net : Net) (p : Pbkdf2) (n n' : Node) (v : AuthorizeView)
    (email password drawn : Text) (now : ℕ) (uri code state : Text)
    → handle_authorize_submit c net p n v email password drawn now ≡ (n', redirect uri code state)
    → (who : Identity) × (authenticate_password p n.registry email password ≡ gives who)
      × (is_confirmed n.registry who.id ≡ gives true)
      × Delivered net n n' v who.id [] drawn uri code now
unfolding handle_authorize_submit
submit_lem c net p n n' v email password drawn now uri code state h =
    elim (Bool-cases (check_redirect_uri net n.registry v.client_id v.redirect_uri)) [
      | inr bad ↦ absurd (ground arith)
      | inl reg ↦
          let login : Answer Identity = authenticate_password p n.registry email password in
          let (who, known, confirmed, d) =
            login-redirect c net n n' v drawn now login (confirmation n.registry login) uri code
              state (ground arith) in
          let is : is_confirmed n.registry who.id ≡ gives true =
            subst (λ (l : Answer Identity). confirmation n.registry l ≡ gives true) known
              confirmed in
          (who, known, is, d)
    ]

spent-ticket :
    (r r' : Registry) (ticket : Text) (now : ℕ)
    → r'.tickets ≡ (take_consent_ticket r ticket now).0.tickets
    → (take_consent_ticket r' ticket now).1 ≡ none
unfolding take_consent_ticket
spent-ticket r r' ticket now h =
    rw
      (
        h,
        find-select-none (λ x. x.ticket == ticket) (λ x. not (x.ticket == ticket)) r.tickets
            (λ a q. rw q refl),
      )
      refl

chosen-redirect :
    (net : Net) (n n' : Node) (team drawn : Text) (now : ℕ) (o : Option TicketRow)
    (uri code state : Text)
    → chosen net n team drawn now o ≡ (n', redirect uri code state)
    → (t : TicketRow) × (o ≡ some t)
      × (any (λ id. id == team) t.teams ≡ true)
      × Delivered net n n' (view_of t) t.identity_id team drawn uri code now
chosen-redirect net n n' team drawn now none uri code state h = absurd (cc)
chosen-redirect net n n' team drawn now (some t) uri code state h =
    elim (Bool-cases (any (λ id. id == team) t.teams)) [
      | inl y ↦ (
        t,
        refl,
        y,
        finish-Delivered net n n' (view_of t) t.identity_id team drawn now uri code state
            (ground arith),
      )
      | inr m ↦ absurd (ground arith)
    ]

-- The form of the workspaces redirects with a code only for a ticket that was stored and has not
-- expired and for a workspace that the ticket offers. The code goes to the address of the ticket,
-- which the client has registered still, for the account of the ticket and the chosen workspace, and
-- the ticket cannot be presented again.
pub workspace_lem :
    (net : Net) (n n' : Node) (ticket team drawn : Text) (now : ℕ) (uri code state : Text)
    → handle_authorize_workspace net n ticket team drawn now ≡ (n', redirect uri code state)
    → (t : TicketRow) × ((take_consent_ticket n.registry ticket now).1 ≡ some t)
      × (any (λ id. id == team) t.teams ≡ true)
      × Delivered net
          (record n { registry = (take_consent_ticket n.registry ticket now).0 })
          n'
          (view_of t)
          t.identity_id
          team
          drawn
          uri
          code
          now
      × ((take_consent_ticket n'.registry ticket now).1 ≡ none)
unfolding handle_authorize_workspace
workspace_lem net n n' ticket team drawn now uri code state h =
    elim (Bool-cases n.registry_primary) [
      | inr off ↦ absurd (ground arith)
      | inl on ↦
          let n1 : Node = record n { registry = (take_consent_ticket n.registry ticket now).0 } in
          let asked : chosen net n1 team drawn now (take_consent_ticket n.registry ticket now).1
              ≡ (n', redirect uri code state) =
            ground arith in
          let (t, taken, offered, d) =
            chosen-redirect net n1 n' team drawn now _ uri code state asked in
          (t, taken, offered, d, spent-ticket n.registry n'.registry ticket now d.tickets_kept)
    ]
