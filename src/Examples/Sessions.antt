-- ===== src/Examples/Sessions.antt =====
-- internal/db/registry.go, internal/engine/engine.go and internal/api/oauth_handlers.go: sessions,
-- codes, grants and invitations of a small registry.
use rekam.Prelude.{
  ℕ, ◌≤◌, ◌≡◌, Text, codes, true, false, List, [], ◌∷◌, ◌++◌, none, some, ◌==◌, text_eq, text_beq,
  refl, arith, ◌↔◌, trim, count, find, any, if◌then◌else◌,
}
use rekam.Members.{owner, editor, count_owners, effective_member, member_row, valid_role}
use rekam.Registry.{Registry, Identity, CodeRow, gives, fails, unknown_key, resolve, resolve_by_id}
use rekam.Registry.Directory.{count_owned_teams, team_by_id}
use rekam.Registry.Directory.Owned.{owned_teams_bounded}
use rekam.Registry.Grants.{resolve_grant, revoke_grant}
use rekam.Registry.Grants.Keyless.{DistinctKeys}
use rekam.Registry.Grants.Revoked.{revoked_forever}
use rekam.Registry.Tickets.{store_oauth_code, take_oauth_code, fresh_code, resolve_invite}
use rekam.Registry.Tickets.Shelf.{DistinctCodes, live_code, codes_refine_map}
use rekam.Registry.Tickets.Once.{redeemed_once}
use rekam.Registry.Passwords.{hash_password, verify_password, pbkdf2_iter, pbkdf2_key_len}
use rekam.Registry.Passwords.Verified.{verify-hash}
use rekam.Registry.Users.{authenticate_password, normalize_email, is_confirmed}
use rekam.Registry.Events.{
  Event, on_teams, on_grants, on_tickets, team_created, delegated, code_stored, run, empty,
}
use rekam.Auth.{
  Node, admits, hex_decode, session_token_prefix, session_token_for, identity_from_session_token,
  resolve_bearer, team_bound_key, resolve_tenant,
}
use rekam.Auth.Token.{Says, session_token_roundtrip, session_token_sound}
use rekam.Auth.Opened.{Opened, resolve_tenant_lem, pin_escaped}
use rekam.OAuth.{token, handle_authorize_submit, handle_oauth_token}
use rekam.OAuth.Exchange.{Exchanged, token_lem}
use rekam.OAuth.Delivery.{Delivered, submit_lem}
use rekam.OAuth.Flow.{login_then_token}
use rekam.Invites.{accept_invite, put_roster}
use rekam.Invites.Accepted.{Accepted, accept_invite_lem}
use rekam.Invites.Stranded.{invite_drops_last_owner}
use rekam.Examples.People.{
  fill, lift, drop_back, pbkdf2, crypto, app, net, ann_identity, team_row, pinned_grant, invitation,
  stored_code, people, with_code, member_of_team, ann_owner, node, view, drawn,
}

-- events after the moment of interest
abbrev later_events : List Event
later_events =
    on_grants (delegated (codes "g9") (codes "key9") (codes "c") (codes "u") [] 8)
    ∷ on_tickets (code_stored (record stored_code { code = codes "other" }) 8)
    ∷ []

redeemed_once_example :
    (take_oauth_code
      (run pbkdf2 crypto.hash (take_oauth_code with_code (codes "code") 6).0 later_events)
      (codes "code")
      9).1
    ≡ none
unfolding text_beq
redeemed_once_example =
    redeemed_once pbkdf2 crypto.hash with_code (codes "code") 6 9 later_events (tt, (refl, tt))

one_code-DistinctCodes : DistinctCodes with_code.codes
unfolding count
one_code-DistinctCodes code = ground arith

codes_refine_map_example :
    ((e : CodeRow) (r' : Registry)
      → store_oauth_code with_code e 6 ≡ gives r'
      → DistinctCodes r'.codes
        × ((t : ℕ)
            → 6 ≤ t
            → (code : Text)
            → live_code r' t code
              ≡ (if e.code == code then fresh_code t (some e) else live_code with_code t code)))
    × ((code : Text)
        → DistinctCodes (take_oauth_code with_code code 6).0.codes
          × ((take_oauth_code with_code code 6).1 ≡ live_code with_code 6 code)
          × ((t : ℕ) (other : Text)
              → live_code (take_oauth_code with_code code 6).0 t other
                ≡ (if code == other then none else live_code with_code t other)))
codes_refine_map_example = codes_refine_map with_code 6 one_code-DistinctCodes

one_grant-DistinctKeys : DistinctKeys people.grants
unfolding count
one_grant-DistinctKeys key = ground arith

abbrev after_revoking : Registry
after_revoking = record people { grants = record pinned_grant { revoked_at = some 7 } ∷ [] }

revoked_forever_example :
    (after_revoking.accounts ≡ people.accounts)
    × (resolve_grant crypto.hash (run pbkdf2 crypto.hash after_revoking later_events) (codes "key")
        ≡ none)
    × (resolve crypto.hash (run pbkdf2 crypto.hash after_revoking later_events) (codes "key")
        ≡ fails unknown_key)
unfolding text_beq find any revoke_grant
revoked_forever_example =
    revoked_forever pbkdf2 crypto.hash people after_revoking (codes "g") (codes "key") pinned_grant
      7 later_events one_grant-DistinctKeys refl refl refl refl (refl, (tt, tt))

owned_teams_bounded_example :
    count_owned_teams
      (run pbkdf2 crypto.hash empty
        (on_teams (team_created (codes "t") (codes "Team") (codes "t.db") (codes "u") 2 5) ∷ []))
      (codes "u")
    ≤ 2
owned_teams_bounded_example =
    owned_teams_bounded 2 pbkdf2 crypto.hash
      (on_teams (team_created (codes "t") (codes "Team") (codes "t.db") (codes "u") 2 5) ∷ [])
      (omega arith, tt) (codes "u")

verify-hash_example :
    (encoded : Text) × (hash_password pbkdf2 (codes "salt") (codes "password") ≡ gives encoded)
    × ((other : Text)
        → (verify_password pbkdf2 encoded other ≡ true) ↔ (
            pbkdf2.key other (codes "salt") pbkdf2_iter pbkdf2_key_len
            ≡ pbkdf2.key (codes "password") (codes "salt") pbkdf2_iter pbkdf2_key_len))
verify-hash_example =
    verify-hash pbkdf2 (codes "salt") (codes "password") (omega arith) (omega arith)

session_token_roundtrip_example :
    identity_from_session_token crypto (session_token_for crypto (codes "u") (codes "t"))
    ≡ some (codes "u", codes "t")
session_token_roundtrip_example =
    session_token_roundtrip crypto (codes "u") (codes "t") (ground arith) (refl, tt)

session_token_sound_example :
    (signed : Text) × (sig : Text) × (codes "sess_u|t.07c8"
      ≡ session_token_prefix ++ (signed ++ b'.' ∷ sig))
    × (hex_decode sig ≡ some (crypto.mac signed))
    × Says signed (codes "u") (codes "t")
unfolding identity_from_session_token
session_token_sound_example =
    session_token_sound crypto (codes "sess_u|t.07c8") (codes "u") (codes "t") refl

abbrev with_token : Registry
with_token = record people {
  grants =
      pinned_grant
      ∷ record {
        id = codes "g2";
        client_id = codes "c";
        identity_id = codes "u";
        created_at = 6;
        revoked_at = none;
        api_key = some (codes "#key2");
        team_id = none;
      }
      ∷ [];
}

abbrev joined : Node
joined = record (node (codes "x") people) {
  registry = record people {
    index = record { team_id = codes "t"; identity_id = codes "u" } ∷ [];
    invites = [];
  };
  rosters = put_roster (node (codes "x") people).rosters (codes "t.db") (record {
    members =
        member_of_team (codes "x") owner
        ∷ record { identity_id = codes "u"; role = editor; added_at = 9; added_by = none }
        ∷ [];
    grants = [];
  });
}

resolve_tenant_lem_example : Opened crypto (node (codes "u") people) (codes "key") true (record {
  identity = ann_identity;
  member = ann_owner;
  team_id = codes "t";
  path = codes "t.db";
})
unfolding resolve_tenant text_beq
resolve_tenant_lem_example =
    resolve_tenant_lem crypto (node (codes "u") people) (codes "key") true
      (record {
        identity = ann_identity;
        member = ann_owner;
        team_id = codes "t";
        path = codes "t.db";
      })
      refl

pin_escaped_example :
    resolve_tenant crypto
      (node (codes "u") people)
      (team_bound_key crypto people (codes "key") (codes "s"))
      false
    ≡ admits (record {
      identity = ann_identity;
      member = ann_owner;
      team_id = codes "s";
      path = codes "s.db";
    })
unfolding resolve_bearer team_by_id effective_member resolve_by_id text_beq
pin_escaped_example =
    pin_escaped crypto (node (codes "u") people) (codes "key") (codes "t") (codes "s") ann_identity
      (team_row (codes "s") (codes "s.db")) ann_owner (ground arith) (ground arith) (ground arith)
      (refl, tt) refl refl refl refl

token_lem_example :
    (e : CodeRow) × (who : Identity) × (codes "u" ≡ e.identity_id)
    × (codes "key2" ≡ drawn.raw_key)
    × Exchanged crypto
        (node (codes "u") with_code)
        (node (codes "u") with_token)
        (codes "code")
        (codes "verifier")
        6
        drawn
        e
        who
unfolding handle_oauth_token
token_lem_example =
    token_lem crypto (node (codes "u") with_code) (node (codes "u") with_token) drawn (codes "code")
      (codes "verifier") 6 (codes "g2") (codes "u") (codes "key2") refl

submit_lem_example :
    (who : Identity) × (authenticate_password pbkdf2 people (codes "a@b") (codes "password")
      ≡ gives who)
    × (is_confirmed people who.id ≡ gives true)
    × Delivered net
        (node (codes "u") people)
        (node (codes "u") with_code)
        view
        who.id
        []
        (codes "code")
        app
        (codes "code")
        5
unfolding handle_authorize_submit trim lift fill pbkdf2 drop_back
submit_lem_example =
    submit_lem crypto net pbkdf2 (node (codes "u") people) (node (codes "u") with_code) view
      (codes "a@b") (codes "password") (codes "code") 5 app (codes "code") (codes "st") refl

login_then_token_example :
    (n'' : Node) × (handle_oauth_token crypto
        (node (codes "u") with_code)
        drawn
        (codes "code")
        (codes "verifier")
        605
      ≡ (n'', token (codes "g2") (codes "u") (codes "key2")))
    × (resolve_grant crypto.hash n''.registry (codes "key2") ≡ some (ann_identity, []))
unfolding handle_authorize_submit authenticate_password resolve_by_id any text_beq trim lift fill
    pbkdf2 drop_back
login_then_token_example =
    login_then_token crypto net pbkdf2 (node (codes "u") people) (node (codes "u") with_code) view
      (codes "a@b") (codes "password") (codes "code") 5 605 app (codes "code") (codes "st")
      (codes "verifier") drawn ann_identity refl refl refl (omega arith) refl refl

accept_invite_lem_example :
    Accepted crypto (node (codes "x") people) joined (codes "master") (codes "inv") 9
unfolding accept_invite trim
accept_invite_lem_example =
    accept_invite_lem crypto (node (codes "x") people) joined (codes "master") (codes "inv") 9 refl

invite_drops_last_owner_example :
    (n' : Node) × (accept_invite crypto (node (codes "u") people) (codes "master") (codes "inv") 9
      ≡ admits n')
    × (count_owners (n'.rosters (codes "t.db")) ≡ 0)
unfolding resolve_bearer resolve_invite team_by_id count_owners count text_beq normalize_email trim
    valid_role member_row
invite_drops_last_owner_example =
    invite_drops_last_owner crypto (node (codes "u") people) (codes "master") (codes "inv") [] 9
      ann_identity invitation (team_row (codes "t") (codes "t.db"))
      (member_of_team (codes "u") owner) refl refl refl refl refl refl refl refl refl refl refl
