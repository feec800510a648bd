-- ===== src/OAuth/Exchange.antt =====
-- internal/api/oauth_handlers.go: what a code is exchanged for.
use rekam.Prelude.{
  ℕ, Text, not, [], ◌∷◌, Option, none, some, ◌≡◌, ◌≢◌, refl, arith, ◌==◌, text_eq, text_beq_iff,
  is_empty, if◌then◌else◌, Bool-cases, inl, inr, find-select-none,
}
use rekam.Members.{Member, belongs, effective_member}
use rekam.Registry.{
  Registry, Identity, CodeRow, TeamRow, Answer, gives, resolve_by_id, account_by_id,
}
use rekam.Registry.Directory.{team_by_id}
use rekam.Registry.Grants.{mint_delegated_grant, insert_grant, resolve_grant}
use rekam.Registry.Tickets.{take_oauth_code}
use rekam.Auth.{
  Crypto, Node, Access, admits, denies, auth_failed, not_primary, registry_failed, deny_if, or_deny,
  or_none, no_such_team, member_in,
}
use rekam.Auth.Opened.{>>=-admits, member_in-admits, or_deny-admits, or_none-admits}
use rekam.Workspaces.{Drawn, or_unknown, mint_grant_by_id, assert_member_of_team}
use rekam.OAuth.{token, minted, exchange, handle_oauth_token}
use rekam.OAuth.Minting.{minted-resolves}

pub record Exchanged (c : Crypto) (n n' : Node) (code verifier : Text) (now : ℕ) (drawn : Drawn)
    (e : CodeRow) (who : Identity) : Type 0 where
  pub redeemed : (take_oauth_code n.registry code now).1 ≡ some e
  pub challenged : e.code_challenge ≢ []
  pub answered : c.challenge verifier ≡ e.code_challenge
  pub exists : resolve_by_id n.registry e.identity_id ≡ gives who
  pub joined :
      e.team_id ≢ []
      → (t : TeamRow) × (m : Member) × (team_by_id n.registry e.team_id ≡ some t)
        × (effective_member (n.rosters t.path) e.identity_id ≡ belongs m)
  pub acts_as : resolve_grant c.hash n'.registry drawn.raw_key ≡ some (who, e.team_id)
  pub spent : (take_oauth_code n'.registry code now).1 ≡ none

assert_member-joined :
    (n : Node) (identity team : Text)
    → assert_member_of_team n identity team ≡ admits tt
    → (t : TeamRow) × (m : Member) × (team_by_id n.registry team ≡ some t)
      × (effective_member (n.rosters t.path) identity ≡ belongs m)
unfolding assert_member_of_team
assert_member-joined n identity team h =
    let (t, live, h1) = >>=-admits (or_none no_such_team (team_by_id n.registry team)) _ tt h in
    let (m, inside, h2) =
      >>=-admits (member_in (effective_member (n.rosters t.path) identity)) _ tt h1 in
    (
      t,
      m,
      or_none-admits no_such_team (team_by_id n.registry team) t live,
      member_in-admits (effective_member (n.rosters t.path) identity) m inside,
    )

if-not_empty :
    (s : Text) (a : Access (Unit {0})) (u : Unit {0})
    → (if is_empty s then admits tt else a) ≡ admits u
    → s ≢ []
    → a ≡ admits tt
if-not_empty [] a u h n = absurd (n refl)
if-not_empty (c ∷ s) a u h n = ground arith

-- what minting a grant has checked and done
record Minted (c : Crypto) (n n' : Node) (drawn : Drawn) (identity team : Text) : Type 0 where
  who : Identity
  exists : resolve_by_id n.registry identity ≡ gives who
  joined :
      team ≢ []
      → (t : TeamRow) × (m : Member) × (team_by_id n.registry team ≡ some t)
        × (effective_member (n.rosters t.path) identity ≡ belongs m)
  acts_as : resolve_grant c.hash n'.registry drawn.raw_key ≡ some (who, team)
  codes_kept : n'.registry.codes ≡ n.registry.codes

mint-codes :
    (hash : Text → Text) (r r' : Registry) (id raw client identity team : Text) (now : ℕ)
    → mint_delegated_grant hash r id raw client identity team now ≡ gives r'
    → r'.codes ≡ r.codes
unfolding mint_delegated_grant insert_grant
mint-codes hash r r' id raw client identity team now h = ground arith

mint-Minted :
    (c : Crypto) (n n' : Node) (drawn : Drawn) (identity client team : Text) (now : ℕ)
    → mint_grant_by_id c n drawn identity client team now ≡ admits n'
    → Minted c n n' drawn identity team
unfolding mint_grant_by_id
mint-Minted c n n' drawn identity client team now h =
    let (u, a, h1) = >>=-admits (deny_if (not n.registry_primary) not_primary) _ n' h in
    let (who, known, h2) =
      >>=-admits (or_deny auth_failed (resolve_by_id n.registry identity)) _ n' h1 in
    let (u', inside, h3) =
      >>=-admits (if is_empty team then admits tt else assert_member_of_team n identity team) _ n'
        h2 in
    let mint : Answer Registry =
      mint_delegated_grant c.hash n.registry drawn.id drawn.raw_key (or_unknown client) identity
        team now in
    let (r, given, h4) = >>=-admits (or_deny registry_failed mint) _ n' h3 in
    let exists = or_deny-admits auth_failed (resolve_by_id n.registry identity) who known in
    let made = or_deny-admits registry_failed mint r given in
    let same : record n { registry = r } ≡ n' = ground arith in
    rw (← same) (record {
      who = who;
      exists = exists;
      joined = λ q. assert_member-joined n identity team (if-not_empty team _ u' inside q);
      acts_as =
          minted-resolves c.hash n.registry r drawn.id drawn.raw_key (or_unknown client) identity
            team now who made exists;
      codes_kept =
          mint-codes c.hash n.registry r drawn.id drawn.raw_key (or_unknown client) identity team
            now made;
    })

-- an exchange of what was taken that gives a token
record Given (c : Crypto) (n n' : Node) (drawn : Drawn) (verifier : Text) (now : ℕ)
    (o : Option CodeRow) (who_id key : Text) : Type 0 where
  entry : CodeRow
  taken : o ≡ some entry
  challenged : entry.code_challenge ≢ []
  answered : c.challenge verifier ≡ entry.code_challenge
  mint : mint_grant_by_id c n drawn entry.identity_id entry.client_id entry.team_id now ≡ admits n'
  owner : who_id ≡ entry.identity_id
  issued : key ≡ drawn.raw_key

minted-token :
    (n n' : Node) (drawn : Drawn) (identity : Text) (a : Access Node) (id who_id key : Text)
    → minted n drawn identity a ≡ (n', token id who_id key)
    → (a ≡ admits n') × (who_id ≡ identity) × (key ≡ drawn.raw_key)
minted-token n n' drawn identity (denies e) id who_id key h = absurd (cc)
minted-token n n' drawn identity (admits x) id who_id key h =
    (ground arith, ground arith, ground arith)

exchange-Given :
    (c : Crypto) (n n' : Node) (drawn : Drawn) (verifier : Text) (now : ℕ) (o : Option CodeRow)
    (id who_id key : Text)
    → exchange c n drawn verifier now o ≡ (n', token id who_id key)
    → Given c n n' drawn verifier now o who_id key
exchange-Given c n n' drawn verifier now none id who_id key h = absurd (cc)
exchange-Given c n n' drawn verifier now (some e) id who_id key h =
    elim (Bool-cases (is_empty e.code_challenge)) [
      | inl y ↦ absurd (ground arith)
      | inr full ↦ elim (Bool-cases (c.challenge verifier == e.code_challenge)) [
        | inl same ↦
            let mint : Access Node =
              mint_grant_by_id c n drawn e.identity_id e.client_id e.team_id now in
            let (m, o', k) =
              minted-token n n' drawn e.identity_id mint id who_id key (ground arith) in
            record {
              entry = e;
              taken = refl;
              challenged = λ q. absurd (ground arith);
              answered = (text_beq_iff (c.challenge verifier) e.code_challenge).0 same;
              mint = m;
              owner = o';
              issued = k;
            }
        | inr other ↦ absurd (ground arith)
      ]
    ]

spent-take :
    (r r' : Registry) (code : Text) (now : ℕ)
    → r'.codes ≡ (take_oauth_code r code now).0.codes
    → (take_oauth_code r' code now).1 ≡ none
unfolding take_oauth_code
spent-take r r' code now h =
    rw
      (
        h,
        find-select-none (λ x. x.code == code) (λ x. not (x.code == code)) r.codes
            (λ a q. rw q refl),
      )
      refl

-- A token is issued only for a code that was stored and has not expired, whose challenge is not empty
-- and is what the verifier hashes to, for an identity that exists and, if the code names a team, has
-- a membership there. The token then acts as that identity in that team, and the code is spent.
pub token_lem :
    (c : Crypto) (n n' : Node) (drawn : Drawn) (code verifier : Text) (now : ℕ)
    (id who_id key : Text)
    → handle_oauth_token c n drawn code verifier now ≡ (n', token id who_id key)
    → (e : CodeRow) × (who : Identity) × (who_id ≡ e.identity_id)
      × (key ≡ drawn.raw_key)
      × Exchanged c n n' code verifier now drawn e who
unfolding handle_oauth_token
token_lem c n n' drawn code verifier now id who_id key h = elim (Bool-cases n.registry_primary) [
  | inr off ↦ absurd (ground arith)
  | inl on ↦
      let n1 : Node = record n { registry = (take_oauth_code n.registry code now).0 } in
      let asked : exchange c n1 drawn verifier now (take_oauth_code n.registry code now).1
          ≡ (n', token id who_id key) =
        ground arith in
      let g = exchange-Given c n1 n' drawn verifier now _ id who_id key asked in
      let m =
        mint-Minted c n1 n' drawn g.entry.identity_id g.entry.client_id g.entry.team_id now
          g.mint in
      (
        g.entry,
        m.who,
        g.owner,
        g.issued,
        record {
          redeemed = g.taken;
          challenged = g.challenged;
          answered = g.answered;
          exists = unfold take_oauth_code resolve_by_id account_by_id in m.exists;
          joined = unfold take_oauth_code team_by_id in m.joined;
          acts_as = m.acts_as;
          spent = spent-take n.registry n'.registry code now m.codes_kept;
        },
      )
]
