-- ===== src/Invites/Stranded.antt =====
-- internal/engine/engine.go: `AcceptInvite` by an owner.
use rekam.Prelude.{
  ℕ, suc, ◌≤◌, Text, true, false, not, List, [], ◌∷◌, ◌++◌, some, ◌≡◌, refl, arith, ◌==◌, text_eq,
  text_beq_iff, any, find, count, select, update_where, Bool-cases, inl, inr, any-of-find-some,
  find-some, any-of-In,
}
use rekam.Store.{string}
use rekam.Members.{
  Role, is_owner, valid_role, MemberRow, member, member_row, Roster, put_member, put_row,
  count_owners, load_grants, insert_grants, titles, read,
}
use rekam.Registry.{Registry, Identity, TeamRow, Invite, gives}
use rekam.Registry.Directory.{team_by_id, live_id, is_indexed, index_team_member}
use rekam.Registry.Tickets.{resolve_invite, delete_invite}
use rekam.Registry.Users.{normalize_email}
use rekam.Auth.{Crypto, Node, admits, resolve_bearer}
use rekam.Invites.{accept_invite, put_roster}
use rekam.Invites.Accepted.{put_roster_self}

module _ (id : Text) (role : Role) (less : is_owner role ≡ false) where
  demoted : List MemberRow → List MemberRow
  demoted rows = update_where (λ m. m.identity_id == id) (λ m. record m { role = role }) rows

  demoted-le :
      (rows : List MemberRow)
      → count (λ m. is_owner m.role) (demoted rows) ≤ count (λ m. is_owner m.role) rows
  unfolding count demoted update_where
  demoted-le [] = omega arith
  demoted-le (m ∷ rows) = ground (arith, demoted-le rows, less)

  demoted-lt :
      (rows : List MemberRow) (m : MemberRow)
      → member_row rows id ≡ some m
      → is_owner m.role ≡ true
      → suc (count (λ x. is_owner x.role) (demoted rows)) ≤ count (λ x. is_owner x.role) rows
  unfolding count demoted update_where member_row find
  demoted-lt [] m h o = absurd (cc)
  demoted-lt (x ∷ rows) m h o = elim (Bool-cases (x.identity_id == id)) [
    | inl y ↦
        let same : x ≡ m = ground arith in
        let own : is_owner x.role ≡ true = rw same o in ground (arith, demoted-le rows, less)
    | inr n ↦ ground (arith, demoted-lt rows m (ground arith) o)
  ]

put_member-given :
    (r : Roster) (id : Text) (role : Role) (reads shown : List Text) (by : Text) (now : ℕ)
    → valid_role role ≡ true
    → (r' : Roster) × (put_member r id role reads shown by now ≡ some r')
      × (r'.members ≡ put_row r.members id role by now)
unfolding put_member
put_member-given r id role reads shown by now v = (
  record {
    members = put_row r.members id role by now;
    grants =
        insert_grants id titles shown
          (insert_grants id read reads (select (λ g. not (g.identity_id == id)) r.grants));
  },
  rw v refl,
  refl,
)

put_row-demoted :
    (rows : List MemberRow) (id : Text) (role : Role) (by : Text) (now : ℕ) (m : MemberRow)
    (less : is_owner role ≡ false)
    → member_row rows id ≡ some m
    → put_row rows id role by now ≡ demoted id role less rows
unfolding put_row demoted member_row
put_row-demoted rows id role by now m less h =
    rw (any-of-find-some (λ x. x.identity_id == id) rows m h) refl

index-given :
    (r : Registry) (team_id id : Text) (t : TeamRow)
    → team_by_id r team_id ≡ some t
    → (r' : Registry) × (index_team_member r team_id id ≡ gives r')
unfolding index_team_member team_by_id
index-given r team_id id t h =
    let (inside, l) = find-some (live_id team_id) r.teams t h in
    let there : any (λ x. x.id == team_id) r.teams ≡ true =
      any-of-In (λ x. x.id == team_id) t r.teams inside (ground arith) in
    elim (Bool-cases (any (is_indexed team_id id) r.index)) [
      | inl y ↦ (r, rw y refl)
      | inr n ↦ (
        record r { index = r.index ++ record { team_id = team_id; identity_id = id } ∷ [] },
        rw (n, there) refl,
      )
    ]

-- An unexpired invitation to a valid role below owner, to the email of the only owner of a live team,
-- is accepted from that owner on a node that holds both write leases, and leaves the team without an
-- owner.
pub invite_drops_last_owner :
    (c : Crypto) (n : Node) (bearer token selected : Text) (now : ℕ) (who : Identity) (inv : Invite)
    (team : TeamRow) (m : MemberRow)
    → resolve_bearer c n.registry bearer ≡ admits (who, selected)
    → resolve_invite c.hash n.registry token now ≡ some inv
    → normalize_email who.email ≡ inv.email
    → team_by_id n.registry inv.team_id ≡ some team
    → n.tenant_primary team.path ≡ true
    → n.registry_primary ≡ true
    → valid_role inv.role ≡ true
    → is_owner inv.role ≡ false
    → member_row (n.rosters team.path).members who.id ≡ some m
    → is_owner m.role ≡ true
    → count_owners (n.rosters team.path) ≡ 1
    → (n' : Node) × (accept_invite c n bearer token now ≡ admits n')
      × (count_owners (n'.rosters team.path) ≡ 0)
unfolding accept_invite count_owners
invite_drops_last_owner c n bearer token selected now who inv team m known pending addressed live
      tenant primary valid less row own single =
    let old : Roster = n.rosters team.path in
    let (roster, put, rows) =
      put_member-given old who.id inv.role inv.read_grants inv.title_grants (string inv.invited_by)
        now valid in
    let (r, indexed) = index-given n.registry inv.team_id who.id team live in
    let email : (normalize_email who.email == inv.email) ≡ true =
      (text_beq_iff (normalize_email who.email) inv.email).1 addressed in
    let there : member old who.id ≡ some (load_grants old m) = unfold member in rw row refl in
    let mine = put_roster_self n.rosters team.path roster in
    let fewer = demoted-lt who.id inv.role less old.members m row own in
    (
      record n {
        registry = delete_invite c.hash r token;
        rosters = put_roster n.rosters team.path roster;
      },
      simp (known, pending, email, live, tenant, primary, there, put, indexed),
      rw
          (
            mine,
            rows,
            put_row-demoted old.members who.id inv.role (string inv.invited_by) now m less row,
          )
          (omega (arith, fewer, single)),
    )
