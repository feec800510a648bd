-- ===== src/Team/Owners.antt =====
-- internal/engine/engine.go: who may change the owners of a team, and that one always stays.
use rekam.Prelude.{
  Text, Bool, true, false, ◌&&◌, not, List, Option, none, some, ◌≡◌, refl, arith, text_eq, leb,
  if◌then◌else◌,
}
use rekam.Members.{
  Role, is_owner, Member, valid_role, can_manage_members, can_manage_team, Roster, member,
  put_member, count_owners,
}
use rekam.Team.{
  Team, Setting, TeamError, Outcome, done, refused, last_owner, ◌>>=◌, refuse_if, member_of,
  guard_last_owner, check_seat_limit, holds_owner, is_new, set_member, put_team, drop_team,
}

pub >>=-done :
    {A B : Type 0} (m : Outcome A) (f : A → Outcome B) (b : B)
    → (m >>= f) ≡ done b
    → (a : A) × ((m ≡ done a) × (f a ≡ done b))
>>=-done (done a) f b h = (a, (refl, h))
>>=-done (refused e) f b h = absurd (cc)

pub refuse_if-done :
    {B : Type 0} (c : Bool) (e : TeamError) (k : Outcome B) (b : B)
    → (refuse_if c e >>= λ _. k) ≡ done b
    → (c ≡ false) × (k ≡ done b)
refuse_if-done true e k b h = absurd (cc)
refuse_if-done false e k b h = (refl, h)

pub guard-done :
    (b g : Bool) (e : TeamError) (u : Unit {0})
    → (if b then refuse_if g e else done tt) ≡ done u
    → b ≡ true
    → g ≡ false
guard-done true true e u h q = absurd (cc)
guard-done true false e u h q = refl
guard-done false g e u h q = absurd (cc)

pub put_team-done :
    (c : Setting) (t : Team) (target : Text) (o : Option Roster) (t' : Team)
    → put_team c t target o ≡ done t'
    → o ≡ some t'.roster
unfolding put_team
put_team-done c t target none t' h = absurd (cc)
put_team-done c t target (some r) t' h = ground (arith, h)

pub drop_team-done :
    (c : Setting) (t : Team) (target : Text) (o : Option Roster) (t' : Team)
    → drop_team c t target o ≡ done t'
    → o ≡ some t'.roster
unfolding drop_team
drop_team-done c t target none t' h = absurd (cc)
drop_team-done c t target (some r) t' h = ground (arith, h)

-- what a successful SetMember has checked
pub record Allowed (t : Team) (target : Text) (role : Role) (caller : Member) : Type 0 where
  pub may_manage : can_manage_members caller.role ≡ true
  pub grants_owner : (not (can_manage_team caller.role) && is_owner role) ≡ false
  pub changes_owner :
      (not (can_manage_team caller.role) && holds_owner (member t.roster target)) ≡ false
  pub keeps_owner :
      (holds_owner (member t.roster target) && not (is_owner role)) ≡ true
      → leb (count_owners t.roster) 1 ≡ false

module _ (c : Setting) (t : Team) (caller_id target : Text) (role : Role)
    (reads shown : List Text) where
  pub set_member-done :
      (t' : Team)
      → set_member c t caller_id target role reads shown ≡ done t'
      → (caller : Member) × ((member_of t.roster caller_id ≡ done caller)
          × (Allowed t target role caller
              × (put_member t.roster target role reads shown caller_id c.now ≡ some t'.roster)))
  unfolding set_member put_team guard_last_owner
  set_member-done t' h =
      let (caller, (e, h1)) = >>=-done (member_of t.roster caller_id) _ t' h in
      let (g1, h2) = refuse_if-done (not (can_manage_members caller.role)) _ _ t' h1 in
      let (g2, h3) = refuse_if-done (not c.tenant_primary) _ _ t' h2 in
      let (g3, h4) = refuse_if-done (not (valid_role role)) _ _ t' h3 in
      let (g4, h5) = refuse_if-done (not (c.known target)) _ _ t' h4 in
      let (g5, h6) =
        refuse_if-done (not (can_manage_team caller.role) && is_owner role) _ _ t' h5 in
      let (g6, h7) =
        refuse_if-done (not (can_manage_team caller.role) && holds_owner (member t.roster target)) _
          _ t' h6 in
      let (u, (g7, h8)) =
        >>=-done
          (if holds_owner (member t.roster target) && not (is_owner role)
            then guard_last_owner t.roster
            else done tt)
          _ t' h7 in
      let (v, (g8, h9)) =
        >>=-done
          (if c.registered && is_new (member t.roster target)
            then check_seat_limit t.roster c.seat_limit
            else done tt)
          _ t' h8 in
      let (g9, h10) = refuse_if-done (c.registered && not c.registry_primary) _ _ t' h9 in
      (
        caller,
        (
          e,
          (
            record {
              may_manage = ground arith;
              grants_owner = g5;
              changes_owner = g6;
              keeps_owner = λ y. guard-done _ _ last_owner u g7 y;
            },
            put_team-done c t target _ t' h10,
          ),
        ),
      )
