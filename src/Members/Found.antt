-- ===== src/Members/Found.antt =====
-- internal/db/members.go: what `Member` finds of a role and of grants that were put.
use rekam.Prelude.{
  ℕ, Text, true, false, not, List, [], ◌∷◌, ◌++◌, map, Option, none, some, ◌≡◌, refl, sym, ap, ◌∙◌,
  subst, arith, ◌==◌, text_eq, text_beq, text_beq_iff, select, find, any, update_where, Bool-cases,
  inl, inr, find-some,
}
use rekam.Store.{null_str}
use rekam.Members.{
  Role, Member, MemberRow, GrantRow, GrantKind, read, titles, kind_beq, Roster, grants_of,
  load_grants, member_row, loaded, member, insert_grants, put_row,
}
use rekam.Members.Rows.{has_id}
use rekam.Members.Grants.{
  granted, any-map_prefix, member_row-append_other, member_row-changed_other, any-insert_grants,
}

-- what `Member` finds of a role and of grants: the role, and the same branches in any order
pub data Holds (reads shown : List Text) (role : Role) : Option Member → Type 0 where
  holds :
      (m : Member)
      → m.role ≡ role
      → ((p : Text) → any (λ q. q == p) m.read_grants ≡ any (λ q. q == p) reads)
      → ((p : Text) → any (λ q. q == p) m.title_grants ≡ any (λ q. q == p) shown)
      → Holds reads shown role (some m)

none_kept :
    (id : Text) (kind : GrantKind) (p : Text) (rows : List GrantRow)
    → any (granted id kind p) (select (λ g. not (g.identity_id == id)) rows) ≡ false
unfolding granted select any
none_kept id kind p [] = refl
none_kept id kind p (g ∷ gs) = ground (arith, none_kept id kind p gs)

Found : Text → Role → Option MemberRow → Type 0
Found id role o = (m : MemberRow) × ((o ≡ some m) × ((m.role ≡ role) × (m.identity_id ≡ id)))

changed-Found :
    (rows : List MemberRow) (id : Text) (role : Role)
    → has_id id rows ≡ true
    → Found id role (
        member_row
          (update_where (λ m. m.identity_id == id) (λ m. record m { role = role }) rows)
          id)
unfolding Found member_row has_id update_where find any
changed-Found [] id role h = ground arith
changed-Found (m ∷ ms) id role h = elim (Bool-cases (m.identity_id == id)) [
  | inl y ↦
      rw (y, y) (record m { role = role }, (refl, (refl, (text_beq_iff m.identity_id id).0 y)))
  | inr n ↦ rw (n, n) (changed-Found ms id role (ground (arith, h)))
]

append-found :
    (rows : List MemberRow) (m : MemberRow)
    → has_id m.identity_id rows ≡ false
    → member_row (rows ++ m ∷ []) m.identity_id ≡ some m
unfolding member_row has_id find any
append-found [] m h = rw ((text_beq_iff m.identity_id m.identity_id).1 refl) refl
append-found (x ∷ xs) m h = elim (Bool-cases (x.identity_id == m.identity_id)) [
  | inl y ↦ ground (arith, h, y)
  | inr n ↦ rw n (append-found xs m (ground (arith, h)))
]

put_row-Found :
    (rows : List MemberRow) (id : Text) (role : Role) (by : Text) (now : ℕ)
    → Found id role (member_row (put_row rows id role by now) id)
unfolding put_row has_id Found
put_row-Found rows id role by now = elim (Bool-cases (has_id id rows)) [
  | inl y ↦ rw y (changed-Found rows id role y)
  | inr n ↦ rw n (
      let m : MemberRow = record {
        identity_id = id;
        role = role;
        added_at = now;
        added_by = null_str by;
      } in
      (m, (append-found rows m n, (refl, refl))))
]

pub put_row-other :
    (rows : List MemberRow) (id other : Text) (role : Role) (by : Text) (now : ℕ)
    → (id == other) ≡ false
    → member_row (put_row rows id role by now) other ≡ member_row rows other
unfolding put_row has_id
put_row-other rows id other role by now h = elim (Bool-cases (has_id id rows)) [
  | inl y ↦ rw y (member_row-changed_other id other role rows h)
  | inr n ↦ rw n (
      member_row-append_other id other rows
        (record { identity_id = id; role = role; added_at = now; added_by = null_str by }) h)
]

grants_of-same :
    (rows rows' : List GrantRow) (i id : Text) (k : GrantKind)
    → i ≡ id
    → select (λ g. g.identity_id == id) rows' ≡ select (λ g. g.identity_id == id) rows
    → grants_of rows' i k ≡ grants_of rows i k
unfolding grants_of
grants_of-same rows rows' i id k e h =
    subst (λ j. grants_of rows' j k ≡ grants_of rows j k) (sym e)
      (ap (λ l. map (λ g. g.prefix) (select (λ g. kind_beq g.kind k) l)) h)

load_grants-same :
    (r r' : Roster) (m : MemberRow) (id : Text)
    → m.identity_id ≡ id
    → select (λ g. g.identity_id == id) r'.grants ≡ select (λ g. g.identity_id == id) r.grants
    → load_grants r' m ≡ load_grants r m
unfolding load_grants
load_grants-same r r' m id e h =
    rw
      (
        grants_of-same r.grants r'.grants m.identity_id id read e h,
        grants_of-same r.grants r'.grants m.identity_id id titles e h,
      )
      refl

-- a member is read alike from two rosters with the same row and the same grants of that identity
pub member-same :
    (r r' : Roster) (id : Text)
    → member_row r'.members id ≡ member_row r.members id
    → select (λ g. g.identity_id == id) r'.grants ≡ select (λ g. g.identity_id == id) r.grants
    → member r' id ≡ member r id
unfolding member loaded member_row
member-same r r' id e g = ap (loaded r') e ∙ same (member_row r.members id) refl
  where
    same : (o : Option MemberRow) → member_row r.members id ≡ o → loaded r' o ≡ loaded r o
    same none q = refl
    same (some m) q = ap some (
        load_grants-same r r' m id
          ((text_beq_iff m.identity_id id).0 (find-some (λ x. x.identity_id == id) r.members m q).1)
          g)

unfoldable pub with_grants : Roster → Text → Role → List Text → List Text → Text → ℕ → Roster
unfolding put_row insert_grants select text_beq
with_grants r id role reads shown by now = record {
  members = put_row r.members id role by now;
  grants =
      insert_grants id titles shown
        (insert_grants id read reads (select (λ g. not (g.identity_id == id)) r.grants));
}

pub with_grants-Holds :
    (r : Roster) (id : Text) (role : Role) (reads shown : List Text) (by : Text) (now : ℕ)
    → Holds reads shown role (member (with_grants r id role reads shown by now) id)
unfolding with_grants member loaded load_grants Found
with_grants-Holds r id role reads shown by now =
    let kept = select (λ g. not (g.identity_id == id)) r.grants in
    let (m, (e, (q, w))) = put_row-Found r.members id role by now in
    subst (λ o. Holds reads shown role (loaded (with_grants r id role reads shown by now) o))
      (sym e)
      (holds (load_grants (with_grants r id role reads shown by now) m) q
        (λ p.
          subst
            (λ i.
              any (λ x. x == p) (grants_of (with_grants r id role reads shown by now).grants i read)
              ≡ any (λ x. x == p) reads)
            (sym w)
            (any-map_prefix p id read (with_grants r id role reads shown by now).grants
              ∙ (any-insert_grants id titles read p shown (insert_grants id read reads kept)
                  ∙ ground (
                    arith,
                    any-insert_grants id read read p reads kept,
                    none_kept id read p r.grants,
                  ))))
        (λ p.
          subst
            (λ i.
              any (λ x. x == p)
                (grants_of (with_grants r id role reads shown by now).grants i titles)
              ≡ any (λ x. x == p) shown)
            (sym w)
            (any-map_prefix p id titles (with_grants r id role reads shown by now).grants
              ∙ (any-insert_grants id titles titles p shown (insert_grants id read reads kept)
                  ∙ ground (
                    arith,
                    any-insert_grants id read titles p reads kept,
                    none_kept id titles p r.grants,
                  )))))
