-- ===== src/Members/Rows.antt =====
-- internal/db/members.go: `PutMember` and `RemoveMember` against `Member`.
use rekam.Prelude.{
  ℕ, suc, ◌≤◌, Text, Bool, false, ◌&&◌, not, List, [], ◌∷◌, ◌++◌, Option, none, some, ◌≡◌, refl, ap,
  ◌∙◌, subst, arith, ◌==◌, text_eq, text_beq, text_beq_iff, select, find, any, count, update_where,
  if◌then◌else◌, any-append, Bool-cases, inl, inr,
}
use rekam.Store.{null_str}
use rekam.Members.{Role, is_owner, MemberRow, member_row, put_row}

-- the primary key of `members`
unfoldable pub UniqueIds : List MemberRow → Type 0
unfolding any text_beq
UniqueIds [] = Unit
UniqueIds (m ∷ ms) = (any (λ n. n.identity_id == m.identity_id) ms ≡ false) × UniqueIds ms

unfoldable pub owners : List MemberRow → ℕ
unfolding count
owners rows = count (λ m. is_owner m.role) rows

abbrev pub row_owner : Option MemberRow → Bool
row_owner none = false
row_owner (some m) = is_owner m.role

unfoldable pub has_id : Text → List MemberRow → Bool
unfolding any text_beq
has_id id rows = any (λ m. m.identity_id == id) rows

module _ (id : Text) (role : Role) where
  changed : List MemberRow → List MemberRow
  changed rows = update_where (λ m. m.identity_id == id) (λ m. record m { role = role }) rows

  any-changed :
      (other : Text) (rows : List MemberRow)
      → any (λ m. m.identity_id == other) (changed rows) ≡ any (λ m. m.identity_id == other) rows
  unfolding any changed update_where
  any-changed other [] = refl
  any-changed other (m ∷ ms) = ground (arith, any-changed other ms)

  changed-Unique : (rows : List MemberRow) → UniqueIds rows → UniqueIds (changed rows)
  unfolding UniqueIds changed update_where any has_id
  changed-Unique [] h = tt
  changed-Unique (m ∷ ms) (h, k) = elim (Bool-cases (m.identity_id == id)) [
    | inl y ↦ rw y (any-changed m.identity_id ms ∙ h, changed-Unique ms k)
    | inr n ↦ rw n (any-changed m.identity_id ms ∙ h, changed-Unique ms k)
  ]

  changed-absent : (rows : List MemberRow) → has_id id rows ≡ false → changed rows ≡ rows
  unfolding changed update_where has_id any
  changed-absent [] h = refl
  changed-absent (m ∷ ms) h = elim (Bool-cases (m.identity_id == id)) [
    | inl y ↦ absurd (ground (arith, h, y))
    | inr n ↦ rw n (ap (λ l. m ∷ l) (changed-absent ms (ground (arith, h))))
  ]

  owners-changed :
      (rows : List MemberRow) → UniqueIds rows → owners rows ≤ suc (owners (changed rows))
  unfolding UniqueIds changed update_where any owners count has_id
  owners-changed [] h = ground arith
  owners-changed (m ∷ ms) (h, k) = elim (Bool-cases (m.identity_id == id)) [
    | inl y ↦
        rw
          (
            y,
            changed-absent ms
                (subst (λ i. has_id i ms ≡ false) ((text_beq_iff m.identity_id id).0 y) h),
          )
          (ground arith)
    | inr n ↦ rw n (ground (arith, owners-changed ms k))
  ]

  -- a change that does not take the role of an owner away keeps the number of owners
  owners-changed_kept :
      (rows : List MemberRow)
      → UniqueIds rows
      → (row_owner (member_row rows id) && not (is_owner role)) ≡ false
      → owners rows ≤ owners (changed rows)
  unfolding UniqueIds changed update_where any owners count has_id member_row find
  owners-changed_kept [] h q = ground arith
  owners-changed_kept (m ∷ ms) (h, k) q = elim (Bool-cases (m.identity_id == id)) [
    | inl y ↦
        let z : (is_owner m.role && not (is_owner role)) ≡ false =
          subst
            (λ b.
              (row_owner (if b then some m else member_row ms id) && not (is_owner role)) ≡ false)
            y q in
        rw
          (
            y,
            changed-absent ms
                (subst (λ i. has_id i ms ≡ false) ((text_beq_iff m.identity_id id).0 y) h),
          )
          (ground (arith, z))
    | inr n ↦
        let z : (row_owner (member_row ms id) && not (is_owner role)) ≡ false =
          subst
            (λ b.
              (row_owner (if b then some m else member_row ms id) && not (is_owner role)) ≡ false)
            n q in
        rw n (ground (arith, owners-changed_kept ms k z))
  ]

module _ (id : Text) where
  unfoldable pub remaining : List MemberRow → List MemberRow
  unfolding select text_beq
  remaining rows = select (λ m. not (m.identity_id == id)) rows

  remaining-absent : (rows : List MemberRow) → has_id id rows ≡ false → remaining rows ≡ rows
  unfolding remaining select has_id any
  remaining-absent [] h = refl
  remaining-absent (m ∷ ms) h = elim (Bool-cases (m.identity_id == id)) [
    | inl y ↦ absurd (ground (arith, h, y))
    | inr n ↦ rw n (ap (λ l. m ∷ l) (remaining-absent ms (ground (arith, h))))
  ]

  pub owners-remaining :
      (rows : List MemberRow) → UniqueIds rows → owners rows ≤ suc (owners (remaining rows))
  unfolding UniqueIds remaining select owners count has_id
  owners-remaining [] h = ground arith
  owners-remaining (m ∷ ms) (h, k) = elim (Bool-cases (m.identity_id == id)) [
    | inl y ↦
        rw
          (
            y,
            remaining-absent ms
                (subst (λ i. has_id i ms ≡ false) ((text_beq_iff m.identity_id id).0 y) h),
          )
          (ground arith)
    | inr n ↦ rw n (ground (arith, owners-remaining ms k))
  ]

  pub owners-remaining_kept :
      (rows : List MemberRow)
      → UniqueIds rows
      → row_owner (member_row rows id) ≡ false
      → owners rows ≤ owners (remaining rows)
  unfolding UniqueIds remaining select owners count has_id member_row find any
  owners-remaining_kept [] h q = ground arith
  owners-remaining_kept (m ∷ ms) (h, k) q = elim (Bool-cases (m.identity_id == id)) [
    | inl y ↦
        let z : is_owner m.role ≡ false =
          subst (λ b. row_owner (if b then some m else member_row ms id) ≡ false) y q in
        rw
          (
            y,
            remaining-absent ms
                (subst (λ i. has_id i ms ≡ false) ((text_beq_iff m.identity_id id).0 y) h),
          )
          (ground (arith, z))
    | inr n ↦
        let z : row_owner (member_row ms id) ≡ false =
          subst (λ b. row_owner (if b then some m else member_row ms id) ≡ false) n q in
        rw n (ground (arith, owners-remaining_kept ms k z))
  ]

  any-remaining :
      (other : Text) (rows : List MemberRow)
      → has_id other rows ≡ false
      → has_id other (remaining rows) ≡ false
  unfolding remaining select has_id any
  any-remaining other [] h = refl
  any-remaining other (m ∷ ms) h = ground (arith, any-remaining other ms)

  pub remaining-Unique : (rows : List MemberRow) → UniqueIds rows → UniqueIds (remaining rows)
  unfolding UniqueIds remaining select has_id
  remaining-Unique [] h = tt
  remaining-Unique (m ∷ ms) (h, k) = elim (Bool-cases (m.identity_id == id)) [
    | inl y ↦ rw y (remaining-Unique ms k)
    | inr n ↦ rw n (any-remaining m.identity_id ms h, remaining-Unique ms k)
  ]

append-Unique :
    (rows : List MemberRow) (m : MemberRow)
    → UniqueIds rows
    → has_id m.identity_id rows ≡ false
    → UniqueIds (rows ++ m ∷ [])
unfolding UniqueIds has_id any
append-Unique [] m h e = (refl, tt)
append-Unique (x ∷ xs) m (h, k) e = (
  ground (
    arith,
    any-append (λ n. n.identity_id == x.identity_id) xs (m ∷ []),
    text_beq_iff m.identity_id x.identity_id,
    text_beq_iff x.identity_id m.identity_id,
  ),
  append-Unique xs m k (ground (arith, e)),
)

owners-append : (rows : List MemberRow) (m : MemberRow) → owners rows ≤ owners (rows ++ m ∷ [])
unfolding owners count
owners-append [] m = ground arith
owners-append (x ∷ xs) m = ground (arith, owners-append xs m)

pub put_row-Unique :
    (rows : List MemberRow) (id : Text) (role : Role) (by : Text) (now : ℕ)
    → UniqueIds rows
    → UniqueIds (put_row rows id role by now)
unfolding put_row changed has_id any
put_row-Unique rows id role by now h = elim (Bool-cases (has_id id rows)) [
  | inl y ↦ rw y (changed-Unique id role rows h)
  | inr n ↦ rw n (append-Unique rows _ h n)
]

pub owners-put_row :
    (rows : List MemberRow) (id : Text) (role : Role) (by : Text) (now : ℕ)
    → UniqueIds rows
    → owners rows ≤ suc (owners (put_row rows id role by now))
unfolding put_row changed has_id any
owners-put_row rows id role by now h = elim (Bool-cases (has_id id rows)) [
  | inl y ↦ rw y (owners-changed id role rows h)
  | inr n ↦ rw n (
      ground (
        arith,
        owners-append rows
            (record { identity_id = id; role = role; added_at = now; added_by = null_str by }),
      ))
]

pub owners-put_row_kept :
    (rows : List MemberRow) (id : Text) (role : Role) (by : Text) (now : ℕ)
    → UniqueIds rows
    → (row_owner (member_row rows id) && not (is_owner role)) ≡ false
    → owners rows ≤ owners (put_row rows id role by now)
unfolding put_row changed has_id any
owners-put_row_kept rows id role by now h q = elim (Bool-cases (has_id id rows)) [
  | inl y ↦ rw y (owners-changed_kept id role rows h q)
  | inr n ↦ rw n (
      owners-append rows
        (record { identity_id = id; role = role; added_at = now; added_by = null_str by }))
]
