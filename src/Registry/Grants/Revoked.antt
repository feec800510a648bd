-- ===== src/Registry/Grants/Revoked.antt =====
-- internal/db/registry.go: the key of a revoked grant.
use rekam.Prelude.{
  ℕ, Text, false, not, List, [], ◌∷◌, Option, none, some, ◌≡◌, refl, arith, ◌==◌, text_eq, any,
  find, All, Bool-cases, inl, inr, any-update_where, any-select-false, any-snoc, find-none_of_any,
}
use rekam.Store.{null_str}
use rekam.Registry.{
  Registry, Account, Grant, gives, fails, equals, is_null, insert_account, key_account, resolve,
  unknown_key, validate_identity_fields,
}
use rekam.Registry.Grants.{
  mint_delegated_grant, mint_grant, revoke_grant, revoked, revoke_row, resolve_grant, holds_key,
  insert_grant, new_grant,
}
use rekam.Registry.Passwords.{Pbkdf2}
use rekam.Registry.Answers.{>>=-gives, settle_rule}
use rekam.Registry.Events.{
  Event, GrantEvent, on_accounts, on_teams, on_grants, on_tickets, delegated, hidden, grant_revoked,
  settle, apply_grant, apply, run,
}
use rekam.Registry.Events.Frame.{
  apply_account-AccountsOnly, apply_team-TeamsOnly, apply_ticket-TicketsOnly,
}
use rekam.Registry.Grants.Keyless.{
  DistinctKeys, OtherKey, stamp, stamped-NoGrant, Dead, inserted-NoAccount, apply_account-NoAccount,
}

insert_account-grants :
    (r r' : Registry) (a : Account) → insert_account r a ≡ gives r' → r'.grants ≡ r.grants
unfolding insert_account
insert_account-grants r r' a e = ground arith

-- a grant that is added does not answer to the key
granted-Dead :
    (key : Text) (r r' : Registry) (g : Grant)
    → equals g.api_key key ≡ false
    → Dead key r
    → insert_grant r g ≡ gives r'
    → Dead key r'
unfolding insert_grant
granted-Dead key r r' g q d e = record {
  no_account = let h = d.no_account in ground arith;
  no_grant = ground (arith, any-snoc (holds_key key) r.grants g d.no_grant (rw q refl));
}

revoked-Dead :
    (key : Text) (r : Registry) (g : Grant) (now : ℕ) → Dead key r → Dead key (revoked r g now)
unfolding revoked
revoked-Dead key r g now d = record {
  no_account =
      let h = d.no_account in
      ground (
        arith,
        any-select-false (λ a. a.api_key == key) (λ a. not (a.id == g.identity_id)) r.accounts,
      );
  no_grant =
      any-update_where (holds_key key) (λ h. h.id == g.id) (stamp now) (λ h q. ground arith)
        r.grants d.no_grant;
}

revoke_row-Dead :
    (key : Text) (r : Registry) (now : ℕ) (o : Option Grant)
    → Dead key r
    → Dead key (settle r (revoke_row r now o))
revoke_row-Dead key r now none d = d
revoke_row-Dead key r now (some g) d = elim (Bool-cases (is_null g.revoked_at)) [
  | inl y ↦ rw y (revoked-Dead key r g now d)
  | inr n ↦ rw n d
]

apply_grant-Dead :
    (key : Text) (hash : Text → Text) (r : Registry) (e : GrantEvent)
    → OtherKey hash key (on_grants e)
    → Dead key r
    → Dead key (apply_grant hash r e)
unfolding apply_grant mint_delegated_grant mint_grant revoke_grant
apply_grant-Dead key hash r (delegated id raw client identity team now) o d =
    settle_rule (Dead key) r (mint_delegated_grant hash r id raw client identity team now) d λ r' e.
      granted-Dead key r r' (new_grant id client identity (some (hash raw)) (null_str team) now) o d
        e
apply_grant-Dead key hash r (hidden identity id raw client name path w now) o d =
    settle_rule (Dead key) r (mint_grant hash r identity id raw client name path w now) d λ r' e.
      let (u, v, e1) = >>=-gives (validate_identity_fields name path) _ r' e in
      let account : Account = key_account identity name (hash raw) path w now in
      let (r1, v1, e2) = >>=-gives (insert_account r account) _ r' e1 in
      let accounts = inserted-NoAccount key r r1 account o d.no_account v1 in
      granted-Dead key r1 r' (new_grant id client identity none none now) refl
        (record {
          no_account = accounts;
          no_grant = rw (insert_account-grants r r1 account v1) d.no_grant;
        })
        e2
apply_grant-Dead key hash r (grant_revoked id now) o d = revoke_row-Dead key r now _ d

apply-Dead :
    (key : Text) (p : Pbkdf2) (hash : Text → Text) (r : Registry) (e : Event)
    → OtherKey hash key e
    → Dead key r
    → Dead key (apply p hash r e)
unfolding apply
apply-Dead key p hash r (on_accounts e) o d = record {
  no_account = apply_account-NoAccount key p hash r e o d.no_account;
  no_grant = rw (apply_account-AccountsOnly p hash r e).grants_kept d.no_grant;
}
apply-Dead key p hash r (on_teams e) o d =
    let t = apply_team-TeamsOnly r e in
    record { no_account = rw t.accounts_kept d.no_account; no_grant = rw t.grants_kept d.no_grant }
apply-Dead key p hash r (on_grants e) o d = apply_grant-Dead key hash r e o d
apply-Dead key p hash r (on_tickets e) o d =
    let t = apply_ticket-TicketsOnly hash r e in
    record { no_account = rw t.accounts_kept d.no_account; no_grant = rw t.grants_kept d.no_grant }

run-Dead :
    (key : Text) (p : Pbkdf2) (hash : Text → Text) (r : Registry) (es : List Event)
    → All (OtherKey hash key) es
    → Dead key r
    → Dead key (run p hash r es)
unfolding run
run-Dead key p hash r [] o d = d
run-Dead key p hash r (e ∷ es) o d =
    run-Dead key p hash (apply p hash r e) es o.1 (apply-Dead key p hash r e o.0 d)

Dead-resolve :
    (hash : Text → Text) (raw : Text) (r : Registry)
    → Dead (hash raw) r
    → (resolve_grant hash r raw ≡ none) × (resolve hash r raw ≡ fails unknown_key)
unfolding resolve_grant resolve
Dead-resolve hash raw r d = (
  rw (find-none_of_any (holds_key (hash raw)) r.grants d.no_grant) refl,
  rw (find-none_of_any (λ a. a.api_key == hash raw) r.accounts d.no_account) refl,
)

-- A delegated grant that is revoked leaves its user's account and every other account as it was.
-- From then on its key resolves neither as a grant nor as an account, whatever the registry does,
-- provided that keys of grants were distinct, that no account has that key, and that no key with its
-- hash is issued again.
pub revoked_forever :
    (p : Pbkdf2) (hash : Text → Text) (r r' : Registry) (id raw : Text) (g : Grant) (now : ℕ)
    (es : List Event)
    → DistinctKeys r.grants
    → find (λ h. h.id == id) r.grants ≡ some g
    → g.api_key ≡ some (hash raw)
    → any (λ a. a.api_key == hash raw) r.accounts ≡ false
    → revoke_grant r id now ≡ gives r'
    → All (OtherKey hash (hash raw)) es
    → (r'.accounts ≡ r.accounts)
      × (resolve_grant hash (run p hash r' es) raw ≡ none)
      × (resolve hash (run p hash r' es) raw ≡ fails unknown_key)
unfolding revoke_grant
revoked_forever p hash r r' id raw g now es d f k a e o =
    let same : r' ≡ revoked r g now = revoked_result f e in
    let kept : r'.accounts ≡ r.accounts = rw same (rw (revoked, k) refl) in
    let stamped = stamped-NoGrant (hash raw) id now g r.grants (d (hash raw)) f k in
    let dead : Dead (hash raw) r' = record {
      no_account = rw kept a;
      no_grant = rw same (unfold revoked in stamped);
    } in
    let gone = Dead-resolve hash raw _ (run-Dead (hash raw) p hash r' es o dead) in
    (kept, gone.0, gone.1)
  where
    revoked_result :
        find (λ h. h.id == id) r.grants ≡ some g
        → revoke_row r now (find (λ h. h.id == id) r.grants) ≡ gives r'
        → r' ≡ revoked r g now
    revoked_result f e = ground arith
