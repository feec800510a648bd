-- ===== src/Invites/Accepted.antt =====
-- internal/engine/engine.go: what accepting an invitation does to the team.
use rekam.Prelude.{
  ℕ, Text, false, not, Option, none, some, ◌≡◌, ◌≢◌, refl, arith, ◌==◌, text_eq, text_beq_iff, leb,
  if◌then◌else◌, Bool-cases, inl, inr, find-select-none,
}
use rekam.Store.{string}
use rekam.Members.{member, Roster, put_member, count_members}
use rekam.Members.Found.{Holds}
use rekam.Members.Lookup.{put_member_lem}
use rekam.Registry.{Registry, Identity, TeamRow, Invite}
use rekam.Registry.Directory.{team_by_id, index_team_member}
use rekam.Registry.Tickets.{resolve_invite, delete_invite}
use rekam.Registry.Users.{normalize_email}
use rekam.Auth.{
  Crypto, Node, admits, deny_if, or_deny, or_none, resolve_bearer, invalid_invite, wrong_email,
  no_such_team, not_primary, invalid_role, seat_limit, registry_failed,
}
use rekam.Auth.Opened.{>>=-admits, or_none-admits}
use rekam.Invites.{accept_invite, put_roster, check_seat_limit, is_some}

-- what an acceptance has checked, and what it has done
pub record Accepted (c : Crypto) (n n' : Node) (bearer token : Text) (now : ℕ) : Type 0 where
  pub who : Identity
  pub selected : Text
  pub invite : Invite
  pub team : TeamRow
  pub known : resolve_bearer c n.registry bearer ≡ admits (who, selected)
  pub pending : resolve_invite c.hash n.registry token now ≡ some invite
  pub addressed : normalize_email who.email ≡ invite.email
  pub live : team_by_id n.registry invite.team_id ≡ some team
  pub seated :
      member (n.rosters team.path) who.id ≡ none
      → leb team.seat_limit (count_members (n.rosters team.path)) ≡ false
  pub joined :
      Holds invite.read_grants invite.title_grants invite.role
        (member (n'.rosters team.path) who.id)
  pub others :
      (other : Text)
      → who.id ≢ other
      → member (n'.rosters team.path) other ≡ member (n.rosters team.path) other
  pub elsewhere : (path : Text) → path ≢ team.path → n'.rosters path ≡ n.rosters path
  pub spent : (later : ℕ) → resolve_invite c.hash n'.registry token later ≡ none

pub put_roster_self :
    (files : Text → Roster) (path : Text) (r : Roster) → put_roster files path r path ≡ r
put_roster_self files path r = rw ((text_beq_iff path path).1 refl) refl

put_roster-other :
    (files : Text → Roster) (path : Text) (r : Roster) (p : Text)
    → p ≢ path
    → put_roster files path r p ≡ files p
put_roster-other files path r p d = elim (Bool-cases (p == path)) [
  | inl y ↦ absurd (d ((text_beq_iff p path).0 y))
  | inr n ↦ rw n refl
]

delete-resolve :
    (hash : Text → Text) (r : Registry) (token : Text) (later : ℕ)
    → resolve_invite hash (delete_invite hash r token) token later ≡ none
unfolding resolve_invite delete_invite
delete-resolve hash r token later =
    rw
      (find-select-none (λ i. i.token_hash == hash token) (λ i. not (i.token_hash == hash token))
        r.invites (λ i q. rw q refl))
      refl

seat-checked :
    (reg : Registry) (r : Roster) (id team_id : Text) (t : TeamRow) (u : Unit {0})
    → (if is_some (member r id) then admits tt else check_seat_limit reg r team_id) ≡ admits u
    → team_by_id reg team_id ≡ some t
    → member r id ≡ none
    → leb t.seat_limit (count_members r) ≡ false
unfolding check_seat_limit
seat-checked reg r id team_id t u h live absent =
    let full : deny_if (leb t.seat_limit (count_members r)) seat_limit ≡ admits u =
      rw (absent, live) at h in
    elim (Bool-cases (leb t.seat_limit (count_members r))) [
      | inl y ↦ absurd (ground arith)
      | inr m ↦ m
    ]

-- An invitation is accepted only by an account whose email is the one that it was sent to, while it
-- has not expired, into a team that is not deleted, and for a new member only while the team has a
-- seat. The account then has the role and the branches of the invitation, every other member and
-- every other file is as before, and the invitation cannot be used again.
pub accept_invite_lem :
    (c : Crypto) (n n' : Node) (bearer token : Text) (now : ℕ)
    → accept_invite c n bearer token now ≡ admits n'
    → Accepted c n n' bearer token now
unfolding accept_invite
accept_invite_lem c n n' bearer token now h =
    let (who, known, h1) = >>=-admits (resolve_bearer c n.registry bearer) _ n' h in
    let (inv, pending, h2) =
      >>=-admits (or_none invalid_invite (resolve_invite c.hash n.registry token now)) _ n' h1 in
    let (u1, email, h3) =
      >>=-admits (deny_if (not (normalize_email who.0.email == inv.email)) wrong_email) _ n' h2 in
    let (team, live, h4) =
      >>=-admits (or_none no_such_team (team_by_id n.registry inv.team_id)) _ n' h3 in
    let (u2, p1, h5) =
      >>=-admits (deny_if (not (n.tenant_primary team.path)) not_primary) _ n' h4 in
    let (u3, p2, h6) = >>=-admits (deny_if (not n.registry_primary) not_primary) _ n' h5 in
    let old : Roster = n.rosters team.path in
    let (u4, seat, h7) =
      >>=-admits
        (if is_some (member old who.0.id)
          then admits tt
          else check_seat_limit n.registry old inv.team_id)
        _ n' h6 in
    let put : Option Roster =
      put_member old who.0.id inv.role inv.read_grants inv.title_grants (string inv.invited_by)
        now in
    let (roster, made, h8) = >>=-admits (or_none invalid_role put) _ n' h7 in
    let (r, indexed, h9) =
      >>=-admits (or_deny registry_failed (index_team_member n.registry inv.team_id who.0.id)) _ n'
        h8 in
    let live' = or_none-admits no_such_team (team_by_id n.registry inv.team_id) team live in
    let (got, others) =
      put_member_lem old roster who.0.id inv.role inv.read_grants inv.title_grants
        (string inv.invited_by) now (or_none-admits invalid_role put roster made) in
    let same : record n {
      registry = delete_invite c.hash r token;
      rosters = put_roster n.rosters team.path roster;
    }
        ≡ n' =
      ground arith in
    let mine = put_roster_self n.rosters team.path roster in
    rw (← same) (record {
      who = who.0;
      selected = who.1;
      invite = inv;
      team = team;
      known = known;
      pending =
          or_none-admits invalid_invite (resolve_invite c.hash n.registry token now) inv pending;
      addressed = (text_beq_iff (normalize_email who.0.email) inv.email).0 (ground arith);
      live = live';
      seated = seat-checked n.registry old who.0.id inv.team_id team u4 seat live';
      joined = rw mine got;
      others = λ other d. rw mine (others other d);
      elsewhere = put_roster-other n.rosters team.path roster;
      spent = delete-resolve c.hash r token;
    })
