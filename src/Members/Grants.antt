-- ===== src/Members/Grants.antt =====
-- internal/db/members.go: the rows of a member and the grants of an identity after a write.
use rekam.Prelude.{
  Text, Bool, true, false, ◌&&◌, ◌||◌, not, List, [], ◌∷◌, ◌++◌, some, ◌≡◌, refl, sym, ap, ◌∙◌,
  subst, arith, ◌==◌, text_eq, text_beq, text_beq_iff, select, find, any, update_where,
  if◌then◌else◌, Bool-cases, inl, inr, any-append, append_nil,
}
use rekam.Members.{
  Role, MemberRow, GrantRow, GrantKind, read, titles, kind_beq, grants_of, member_row,
  insert_grants,
}

select-append :
    {A : Type 0} (p : A → Bool) (xs ys : List A) → select p (xs ++ ys) ≡ select p xs ++ select p ys
unfolding select
select-append p [] ys = refl
select-append p (x ∷ xs) ys = elim (Bool-cases (p x)) [
  | inl y ↦ rw y (ap (λ l. x ∷ l) (select-append p xs ys))
  | inr n ↦ rw n (select-append p xs ys)
]

pub select-select :
    {A : Type 0} (p q : A → Bool)
    → ((x : A) → q x ≡ true → p x ≡ true)
    → (xs : List A) → select q (select p xs) ≡ select q xs
unfolding select
select-select p q f [] = refl
select-select p q f (x ∷ xs) = elim (Bool-cases (q x)) [
  | inl y ↦ rw (f x y, y) (ap (λ l. x ∷ l) (select-select p q f xs))
  | inr n ↦ elim (Bool-cases (p x)) [
    | inl z ↦ rw (z, n) (select-select p q f xs)
    | inr z ↦ rw (z, n) (select-select p q f xs)
  ]
]

module _ (id other : Text) where
  pub member_row-changed_other :
      (role : Role) (rows : List MemberRow)
      → (id == other) ≡ false
      → member_row
          (update_where (λ m. m.identity_id == id) (λ m. record m { role = role }) rows)
          other
        ≡ member_row rows other
  unfolding member_row find update_where
  member_row-changed_other role [] h = refl
  member_row-changed_other role (m ∷ ms) h = elim (Bool-cases (m.identity_id == id)) [
    | inl y ↦
        rw (y, subst (λ i. (i == other) ≡ false) (sym ((text_beq_iff m.identity_id id).0 y)) h)
          (member_row-changed_other role ms h)
    | inr n ↦ rw n (
        ap (λ o. if m.identity_id == other then some m else o) (member_row-changed_other role ms h))
  ]

  pub member_row-append_other :
      (rows : List MemberRow) (m : MemberRow)
      → (m.identity_id == other) ≡ false
      → member_row (rows ++ m ∷ []) other ≡ member_row rows other
  unfolding member_row find
  member_row-append_other [] m h = rw h refl
  member_row-append_other (x ∷ xs) m h =
      ap (λ o. if x.identity_id == other then some x else o) (member_row-append_other xs m h)

  pub member_row-remaining_other :
      (rows : List MemberRow)
      → (id == other) ≡ false
      → member_row (select (λ m. not (m.identity_id == id)) rows) other ≡ member_row rows other
  unfolding member_row find select
  member_row-remaining_other [] h = refl
  member_row-remaining_other (m ∷ ms) h = elim (Bool-cases (m.identity_id == id)) [
    | inl y ↦
        rw (y, subst (λ i. (i == other) ≡ false) (sym ((text_beq_iff m.identity_id id).0 y)) h)
          (member_row-remaining_other ms h)
    | inr n ↦
        rw n
          (ap (λ o. if m.identity_id == other then some m else o) (member_row-remaining_other ms h))
  ]

  grant-elsewhere :
      (i : Text) (k : GrantKind) (p : Text)
      → (i == other) ≡ false
      → select
          (λ (g : GrantRow). g.identity_id == other)
          (record { identity_id = i; kind = k; prefix = p } ∷ [])
        ≡ []
  unfolding select
  grant-elsewhere i k p h = rw h refl

  pub grants_of-insert_other :
      (kind : GrantKind) (k : GrantKind) (ps : List Text) (rows : List GrantRow)
      → (id == other) ≡ false
      → select (λ g. g.identity_id == other) (insert_grants id k ps rows)
        ≡ select (λ g. g.identity_id == other) rows
  unfolding insert_grants
  grants_of-insert_other kind k [] rows h = refl
  grants_of-insert_other kind k (p ∷ ps) rows h =
      elim (Bool-cases
        (any (λ g. g.identity_id == id && (kind_beq g.kind k && g.prefix == p)) rows)) [
          | inl y ↦ rw y (grants_of-insert_other kind k ps rows h)
          | inr n ↦ rw n (
              grants_of-insert_other kind k ps
                (rows ++ record { identity_id = id; kind = k; prefix = p } ∷ []) h
              ∙ (select-append (λ g. g.identity_id == other) rows
                    (record { identity_id = id; kind = k; prefix = p } ∷ [])
                  ∙ (ap (λ l. select (λ g. g.identity_id == other) rows ++ l)
                        (grant-elsewhere id k p h)
                      ∙ append_nil (select (λ g. g.identity_id == other) rows))))
        ]

-- whether a row grants a branch
unfoldable pub granted : Text → GrantKind → Text → GrantRow → Bool
unfolding text_beq
granted id kind p g = g.identity_id == id && (kind_beq g.kind kind && g.prefix == p)

pub any-map_prefix :
    (p : Text) (id : Text) (kind : GrantKind) (rows : List GrantRow)
    → any (λ q. q == p) (grants_of rows id kind) ≡ any (granted id kind p) rows
unfolding grants_of select any granted
any-map_prefix p id kind [] = refl
any-map_prefix p id kind (g ∷ gs) = elim (Bool-cases (g.identity_id == id)) [
  | inl y ↦ elim (Bool-cases (kind_beq g.kind kind)) [
    | inl z ↦ rw (y, z) (ap (λ b. (g.prefix == p) || b) (any-map_prefix p id kind gs))
    | inr z ↦ rw (y, z) (any-map_prefix p id kind gs)
  ]
  | inr n ↦ rw n (any-map_prefix p id kind gs)
]

kind_beq_refl : (k : GrantKind) → kind_beq k k ≡ true
kind_beq_refl read = refl
kind_beq_refl titles = refl

kind_beq-eq : (k l : GrantKind) → kind_beq k l ≡ true → k ≡ l
kind_beq-eq read read h = refl
kind_beq-eq titles titles h = refl
kind_beq-eq read titles h = ground arith
kind_beq-eq titles read h = ground arith

pub any-insert_grants :
    (id : Text) (k kind : GrantKind) (p : Text) (ps : List Text) (rows : List GrantRow)
    → any (granted id kind p) (insert_grants id k ps rows)
      ≡ (any (granted id kind p) rows || (kind_beq k kind && any (λ q. q == p) ps))
unfolding insert_grants granted any
any-insert_grants id k kind p [] rows = ground arith
any-insert_grants id k kind p (q ∷ ps) rows =
    elim (Bool-cases
      (any (λ g. g.identity_id == id && (kind_beq g.kind k && g.prefix == q)) rows)) [
        | inl y ↦
            rw y (
              any-insert_grants id k kind p ps rows
              ∙ already (kind_beq k kind) (q == p) refl refl y)
        | inr n ↦ rw n (
            any-insert_grants id k kind p ps
              (rows ++ record { identity_id = id; kind = k; prefix = q } ∷ [])
            ∙ ground (
              arith,
              any-append (granted id kind p) rows
                  (record { identity_id = id; kind = k; prefix = q } ∷ []),
              text_beq_iff id id,
            ))
      ]
  where
    already :
        (b c : Bool)
        → kind_beq k kind ≡ b
        → (q == p) ≡ c
        → any (granted id k q) rows ≡ true
        → (any (granted id kind p) rows || (kind_beq k kind && any (λ r. r == p) ps))
          ≡ (any (granted id kind p) rows || (kind_beq k kind && (q == p || any (λ r. r == p) ps)))
    already true true e f y =
        let w : any (granted id kind p) rows ≡ true =
          subst (λ l. any (granted id l p) rows ≡ true) (kind_beq-eq k kind e)
            (subst (λ r. any (granted id k r) rows ≡ true) ((text_beq_iff q p).0 f) y) in
        rw w refl
    already true false e f y = rw (e, f) refl
    already false c e f y = rw (e) refl
