-- ===== src/Auth/Opened.antt =====
-- internal/engine/engine.go: what a bearer may open, and internal/mcp/server.go: the team header.
use rekam.Prelude.{
  ℕ, Text, Bool, true, false, ◌&&◌, not, [], ◌∷◌, Option, none, some, ◌≡◌, ◌≢◌, refl, arith,
}
use rekam.Members.{Member, Effective, belongs, denied, effective_member, can_write_any}
use rekam.Registry.{Registry, Identity, TeamRow, Answer, fails, gives, resolve_by_id}
use rekam.Registry.Directory.{team_by_id}
use rekam.Auth.{
  Crypto, Node, Access, admits, denies, Denial, not_primary, write_not_allowed, no_such_team, ◌>>=◌,
  deny_if, or_deny, or_none, member_in, resolve_bearer, session_token_for, bearer_for_team,
  team_bound_key, Tenant, tenant_path, resolve_tenant,
}
use rekam.Auth.Token.{Lacks, session_token_roundtrip}

pub >>=-admits :
    {A B : Type 0} (m : Access A) (f : A → Access B) (b : B)
    → (m >>= f) ≡ admits b
    → (a : A) × (m ≡ admits a) × (f a ≡ admits b)
>>=-admits (admits a) f b h = (a, refl, h)
>>=-admits (denies e) f b h = absurd (cc)

pub deny_if-admits :
    {B : Type 0} (c : Bool) (e : Denial) (k : Access B) (b : B)
    → (deny_if c e >>= λ _. k) ≡ admits b
    → (c ≡ false) × (k ≡ admits b)
deny_if-admits true e k b h = absurd (cc)
deny_if-admits false e k b h = (refl, h)

pub member_in-admits : (e : Effective) (m : Member) → member_in e ≡ admits m → e ≡ belongs m
member_in-admits (belongs m') m h = ground arith
member_in-admits denied m h = absurd (cc)

pub or_deny-admits :
    {A : Type 0} (e : Denial) (o : Answer A) (a : A) → or_deny e o ≡ admits a → o ≡ gives a
or_deny-admits e (gives b) a h = ground arith
or_deny-admits e (fails x) a h = absurd (cc)

pub or_none-admits :
    {A : Type 0} (e : Denial) (o : Option A) (a : A) → or_none e o ≡ admits a → o ≡ some a
or_none-admits e (some b) a h = ground arith
or_none-admits e none a h = absurd (cc)

-- where the path of a tenant comes from
pub data Located (r : Registry) (who : Identity) (team path : Text) : Type 0 where
  at_home : team ≡ [] → path ≡ who.memory_path → Located r who team path
  in_team : (t : TeamRow) → team_by_id r team ≡ some t → path ≡ t.path → Located r who team path

tenant_path-Located :
    (r : Registry) (who : Identity) (team path : Text)
    → tenant_path r who team ≡ admits path
    → Located r who team path
unfolding tenant_path
tenant_path-Located r who [] path h = at_home refl (ground arith)
tenant_path-Located r who (c ∷ team) path h = go (team_by_id r (c ∷ team)) refl h
  where
    go :
        (o : Option TeamRow)
        → team_by_id r (c ∷ team) ≡ o
        → (elim o [ none ↦ denies no_such_team | some t ↦ admits t.path ]) ≡ admits path
        → Located r who (c ∷ team) path
    go none e q = absurd (cc)
    go (some t) e q = in_team t e (ground arith)

-- what a bearer that opens a tenant has shown
pub record Opened (c : Crypto) (n : Node) (bearer : Text) (write : Bool) (t : Tenant) : Type 0 where
  pub known : resolve_bearer c n.registry bearer ≡ admits (t.identity, t.team_id)
  pub located : Located n.registry t.identity t.team_id t.path
  pub belongs_there : effective_member (n.rosters t.path) t.identity.id ≡ belongs t.member
  pub may_write :
      write ≡ true
      → (t.identity.allow_write ≡ true)
        × (can_write_any t.member.role ≡ true)
        × (n.tenant_primary t.path ≡ true)

-- A tenant is opened only for the identity and the team that the bearer resolves to, at the path of
-- that identity's own file or of a live team with that id, with the membership that the roster there
-- gives to that identity, and for writing only if the identity, the role and the lease all allow it.
pub resolve_tenant_lem :
    (c : Crypto) (n : Node) (bearer : Text) (write : Bool) (t : Tenant)
    → resolve_tenant c n bearer write ≡ admits t
    → Opened c n bearer write t
unfolding resolve_tenant
resolve_tenant_lem c n bearer write t h =
    let (who, known, h1) = >>=-admits (resolve_bearer c n.registry bearer) _ t h in
    let (u1, h2, h3) =
      >>=-admits (deny_if (write && not who.0.allow_write) write_not_allowed) _ t h1 in
    let (path, located, h4) = >>=-admits (tenant_path n.registry who.0 who.1) _ t h3 in
    let (m, inside, h5) =
      >>=-admits (member_in (effective_member (n.rosters path) who.0.id)) _ t h4 in
    let (u2, h6, h7) =
      >>=-admits (deny_if (write && not (can_write_any m.role)) write_not_allowed) _ t h5 in
    let (u3, h8, h9) =
      >>=-admits (deny_if (write && not (n.tenant_primary path)) not_primary) _ t h7 in
    let there = tenant_path-Located n.registry who.0 who.1 path located in
    let belongs_m = member_in-admits (effective_member (n.rosters path) who.0.id) m inside in
    let same : record { identity = who.0; member = m; team_id = who.1; path = path } ≡ t =
      ground arith in
    rw (← same) (record {
      known = known;
      located = there;
      belongs_there = belongs_m;
      may_write = λ w. (ground arith, ground arith, ground arith);
    })

opened :
    (c : Crypto) (n : Node) (d : ℕ) (team : Text) (who : Identity) (t : TeamRow) (m : Member)
    → who.id ≢ []
    → Lacks b'|' who.id
    → resolve_by_id n.registry who.id ≡ gives who
    → team_by_id n.registry (d ∷ team) ≡ some t
    → effective_member (n.rosters t.path) who.id ≡ belongs m
    → resolve_tenant c n (session_token_for c who.id (d ∷ team)) false
      ≡ admits (record { identity = who; member = m; team_id = d ∷ team; path = t.path })
unfolding resolve_tenant tenant_path
opened c n d team who t m ni l by_id live member =
    let bearer : resolve_bearer c n.registry (session_token_for c who.id (d ∷ team))
        ≡ admits (who, d ∷ team) =
      unfold resolve_bearer in rw (session_token_roundtrip c who.id (d ∷ team) ni l, by_id) refl in
    rw (bearer, live, member) refl

-- A key opens for reading each live team in which its user has a membership, once the header of the
-- request names that team, whatever team the key is pinned to. The user is found by an id that is not
-- empty and has no bar in it.
pub pin_escaped :
    (c : Crypto) (n : Node) (key pinned team : Text) (who : Identity) (t : TeamRow) (m : Member)
    → key ≢ []
    → team ≢ []
    → who.id ≢ []
    → Lacks b'|' who.id
    → resolve_bearer c n.registry key ≡ admits (who, pinned)
    → resolve_by_id n.registry who.id ≡ gives who
    → team_by_id n.registry team ≡ some t
    → effective_member (n.rosters t.path) who.id ≡ belongs m
    → resolve_tenant c n (team_bound_key c n.registry key team) false
      ≡ admits (record { identity = who; member = m; team_id = team; path = t.path })
unfolding team_bound_key bearer_for_team
pin_escaped c n [] pinned team who t m nk nt ni l known by_id live member = absurd (nk refl)
pin_escaped c n (k ∷ key) pinned [] who t m nk nt ni l known by_id live member = absurd (nt refl)
pin_escaped c n (k ∷ key) pinned (d ∷ team) who t m nk nt ni l known by_id live member =
    rw known (opened c n d team who t m ni l by_id live member)
