-- ===== src/Members/Lookup.antt =====
-- internal/db/members.go: what `Member` finds after `PutMember` and `RemoveMember`.
use rekam.Prelude.{
  ℕ, Text, false, not, List, [], ◌∷◌, none, some, ◌≡◌, ◌≢◌, refl, ap, ◌∙◌, subst, arith, ◌==◌,
  text_eq, text_beq, text_beq_iff, select, find, Bool-cases, inl, inr,
}
use rekam.Members.{
  Role, valid_role, MemberRow, read, titles, Roster, member_row, loaded, member, insert_grants,
  put_member, remove_member,
}
use rekam.Members.Rows.{has_id}
use rekam.Members.Grants.{grants_of-insert_other, select-select, member_row-remaining_other}
use rekam.Members.Found.{with_grants, member-same, with_grants-Holds, put_row-other, Holds}

pub text_beq-differs : (s t : Text) → s ≢ t → (s == t) ≡ false
text_beq-differs s t h = ground (arith, h, text_beq_iff s t)

grants-other :
    (r : Roster) (id other : Text) (role : Role) (reads shown : List Text) (by : Text) (now : ℕ)
    → (id == other) ≡ false
    → select (λ g. g.identity_id == other) (with_grants r id role reads shown by now).grants
      ≡ select (λ g. g.identity_id == other) r.grants
unfolding with_grants
grants-other r id other role reads shown by now h =
    let kept = select (λ g. not (g.identity_id == id)) r.grants in
    grants_of-insert_other id other titles titles shown (insert_grants id read reads kept) h
    ∙ (grants_of-insert_other id other read read reads kept h
        ∙ select-select (λ g. not (g.identity_id == id)) (λ g. g.identity_id == other)
            (λ g y.
              ground (arith, h, y, text_beq_iff g.identity_id other, text_beq_iff g.identity_id id))
            r.grants)

-- A member that is put in the roster has the role and exactly the branches that were given, whatever
-- it had before; every other identity has what it had.
pub put_member_lem :
    (r r' : Roster) (id : Text) (role : Role) (reads shown : List Text) (by : Text) (now : ℕ)
    → put_member r id role reads shown by now ≡ some r'
    → Holds reads shown role (member r' id)
      × ((other : Text) → id ≢ other → member r' other ≡ member r other)
unfolding put_member with_grants
put_member_lem r r' id role reads shown by now h = elim (Bool-cases (valid_role role)) [
  | inl y ↦
      let q : with_grants r id role reads shown by now ≡ r' = ground (arith, h, y) in
      subst
        (λ x.
          Holds reads shown role (member x id)
          × ((other : Text) → id ≢ other → member x other ≡ member r other))
        q
        (
          with_grants-Holds r id role reads shown by now,
          λ other ne.
              member-same r (with_grants r id role reads shown by now) other
                (put_row-other r.members id other role by now (text_beq-differs id other ne))
                (grants-other r id other role reads shown by now (text_beq-differs id other ne)),
        )
  | inr n ↦ ground (arith, h, n)
]

member_row-remaining_same :
    (id : Text) (rows : List MemberRow)
    → member_row (select (λ m. not (m.identity_id == id)) rows) id ≡ none
unfolding member_row find select
member_row-remaining_same id [] = refl
member_row-remaining_same id (m ∷ ms) = elim (Bool-cases (m.identity_id == id)) [
  | inl y ↦ rw y (member_row-remaining_same id ms)
  | inr n ↦ rw (n, n) (member_row-remaining_same id ms)
]

without : Roster → Text → Roster
unfolding select text_beq
without r id = record {
  members = select (λ m. not (m.identity_id == id)) r.members;
  grants = select (λ g. not (g.identity_id == id)) r.grants;
}

-- A member that is removed is one no more, and every other identity has what it had.
pub remove_member_lem :
    (r r' : Roster) (id : Text)
    → remove_member r id ≡ some r'
    → (member r' id ≡ none) × ((other : Text) → id ≢ other → member r' other ≡ member r other)
unfolding remove_member without member loaded has_id
remove_member_lem r r' id h = elim (Bool-cases (has_id id r.members)) [
  | inl y ↦
      let q : without r id ≡ r' = ground (arith, h, y) in
      subst
        (λ x.
          (member x id ≡ none) × ((other : Text) → id ≢ other → member x other ≡ member r other))
        q
        (
          ap (loaded (without r id)) (member_row-remaining_same id r.members),
          λ other ne.
              member-same r (without r id) other
                (member_row-remaining_other id other r.members (text_beq-differs id other ne))
                (select-select (λ g. not (g.identity_id == id)) (λ g. g.identity_id == other)
                  (λ g y. ground (
                    arith,
                    y,
                    text_beq-differs id other ne,
                    text_beq_iff g.identity_id other,
                    text_beq_iff g.identity_id id,
                  ))
                  r.grants),
        )
  | inr n ↦ ground (arith, h, n)
]
