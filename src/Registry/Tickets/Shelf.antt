-- ===== src/Registry/Tickets/Shelf.antt =====
-- internal/db/registry.go: the table of authorization codes as a map from codes to entries.
use rekam.Prelude.{
  ℕ, ◌+◌, ◌≤◌, ◌≡◌, refl, sym, ◌∙◌, subst, Text, Bool, true, false, not, List, [], ◌∷◌, ◌++◌,
  Option, none, some, ◌==◌, text_eq, text_beq, text_beq_iff, ltb, find, any, count, select,
  if◌then◌else◌, Bool-cases, inl, inr, arith, ◌⊎◌, find-snoc, find-select-none, find-select_same,
  count-of-any-false, find-of-count_zero, count-select, count-snoc,
}
use rekam.Registry.{Registry, CodeRow, gives}
use rekam.Registry.Tickets.{store_oauth_code, take_oauth_code, fresh_code}

-- what a redemption at a time would find
unfoldable pub live_code : Registry → ℕ → Text → Option CodeRow
unfolding find text_beq
live_code r t code = fresh_code t (find (λ e. e.code == code) r.codes)

-- the primary key
abbrev pub DistinctCodes : List CodeRow → Type 0
DistinctCodes rows = (code : Text) → count (λ e. e.code == code) rows ≤ 1

-- a row that the sweep drops would have been refused as expired
fresh-swept :
    (p : CodeRow → Bool) (now t : ℕ)
    → now ≤ t
    → (xs : List CodeRow) → count p xs ≤ 1
    → fresh_code t (find p (select (λ c. not (ltb c.expires_at now)) xs)) ≡ fresh_code t (find p xs)
unfolding find select count
fresh-swept p now t h [] u = refl
fresh-swept p now t h (x ∷ xs) u = elim (Bool-cases (p x)) [
  | inl y ↦ elim (Bool-cases (ltb x.expires_at now)) [
    | inl old ↦
        let gone : count p (select (λ c. not (ltb c.expires_at now)) xs) ≡ 0 =
          ground (arith, count-select p (λ c. not (ltb c.expires_at now)) xs) in
        rw (y, old, find-of-count_zero p _ gone) (ground arith)
    | inr new ↦ rw (y, new, y) refl
  ]
  | inr n ↦
      let ih = fresh-swept p now t h xs (ground arith) in
      elim (Bool-cases (ltb x.expires_at now)) [
        | inl old ↦ rw (n, old) ih
        | inr new ↦ rw (n, new, n) ih
      ]
]

swept : Registry → ℕ → List CodeRow
swept r now = select (λ c. not (ltb c.expires_at now)) r.codes

-- what an insertion that succeeds has done
record Stored (r r' : Registry) (e : CodeRow) (now : ℕ) : Type 0 where
  is_new : any (λ c. c.code == e.code) (swept r now) ≡ false
  rows : r'.codes ≡ swept r now ++ e ∷ []

store-Stored :
    (r r' : Registry) (e : CodeRow) (now : ℕ)
    → store_oauth_code r e now ≡ gives r'
    → Stored r r' e now
unfolding store_oauth_code swept
store-Stored r r' e now h =
    elim (Bool-cases
      (any (λ c. c.code == e.code) (select (λ c. not (ltb c.expires_at now)) r.codes))) [
        | inl y ↦ absurd (ground arith)
        | inr n ↦ record { is_new = n; rows = ground arith }
      ]

module _ (r r' : Registry) (e : CodeRow) (now : ℕ) (s : Stored r r' e now) where
  stored_count :
      (code : Text)
      → count (λ c. c.code == code) (swept r now) + (if e.code == code then 1 else 0) ≤ 1
      → count (λ c. c.code == code) r'.codes ≤ 1
  stored_count code h = rw s.rows (rw (count-snoc (λ c. c.code == code) (swept r now) e) h)

  stored-Distinct : DistinctCodes r.codes → DistinctCodes r'.codes
  unfolding swept
  stored-Distinct d code = stored_count code (elim (Bool-cases (e.code == code)) [
    | inl y ↦
        let same : e.code ≡ code = (text_beq_iff e.code code).0 y in
        let zero_rows : count (λ c. c.code == code) (swept r now) ≡ 0 =
          count-of-any-false _ _
            (subst (λ (k : Text). any (λ c. c.code == k) (swept r now) ≡ false) same s.is_new) in
        rw (y, zero_rows) (omega arith)
    | inr n ↦ rw n (
        omega (
          arith,
          d code,
          count-select (λ c. c.code == code) (λ c. not (ltb c.expires_at now)) r.codes,
        ))
  ])

  -- the new entry is found under its code, and the others as before
  stored-live :
      DistinctCodes r.codes
      → (t : ℕ) → now ≤ t
      → (code : Text)
      → live_code r' t code ≡ (if e.code == code then fresh_code t (some e) else live_code r t code)
  unfolding live_code swept
  stored-live d t h code = elim (Bool-cases (e.code == code)) [
    | inl y ↦
        let same : e.code ≡ code = (text_beq_iff e.code code).0 y in
        let nothing : find (λ c. c.code == code) (swept r now) ≡ none = find-of-count_zero _ _ (
          count-of-any-false _ _
            (subst (λ (k : Text). any (λ c. c.code == k) (swept r now) ≡ false) same s.is_new)) in
        rw (s.rows, find-snoc (λ c. c.code == code) (swept r now) e, nothing, y) refl
    | inr n ↦
        rw
          (
            s.rows,
            find-snoc (λ c. c.code == code) (swept r now) e,
            n,
            ← fresh-swept (λ c. c.code == code) now t h r.codes (d code),
          )
          (settled (e.code == code) n (find (λ c. c.code == code) (swept r now)))
  ]
    where
      settled :
          (b : Bool)
          → b ≡ false
          → (o : Option CodeRow)
          → fresh_code t (elim o [ some a ↦ some a | none ↦ if b then some e else none ])
            ≡ fresh_code t o
      settled b q none = rw q refl
      settled b q (some a) = refl

-- a code that was just stored is found, until it expires
pub store-found :
    (r r' : Registry) (e : CodeRow) (now : ℕ)
    → store_oauth_code r e now ≡ gives r'
    → (t : ℕ) → live_code r' t e.code ≡ fresh_code t (some e)
unfolding live_code swept
store-found r r' e now h t =
    let s = store-Stored r r' e now h in
    let nothing : find (λ c. c.code == e.code) (swept r now) ≡ none =
      find-of-count_zero _ _ (count-of-any-false _ _ s.is_new) in
    rw
      (
        s.rows,
        find-snoc (λ c. c.code == e.code) (swept r now) e,
        nothing,
        (text_beq_iff e.code e.code).1 refl,
      )
      refl

taken-live :
    (r : Registry) (code : Text) (now t : ℕ) (other : Text)
    → live_code (take_oauth_code r code now).0 t other
      ≡ (if code == other then none else live_code r t other)
unfolding live_code take_oauth_code
taken-live r code now t other = elim (Bool-cases (code == other)) [
  | inl y ↦
      let same : code ≡ other = (text_beq_iff code other).0 y in
      rw
        (
          y,
          find-select-none (λ c. c.code == other) (λ c. not (c.code == code)) r.codes
              (λ a q. rw (same, q) refl),
        )
        refl
  | inr n ↦
      rw
        (
          n,
          find-select_same (λ c. c.code == other) (λ c. not (c.code == code)) r.codes
              (λ a q. differs n a (Bool-cases (a.code == code)) q),
        )
        refl
]
  where
    differs :
        (code == other) ≡ false
        → (a : CodeRow) → ((a.code == code) ≡ true) ⊎ ((a.code == code) ≡ false)
        → (a.code == other) ≡ true
        → not (a.code == code) ≡ true
    differs n a (inl y) q =
        let e : code ≡ other =
          sym ((text_beq_iff a.code code).0 y) ∙ (text_beq_iff a.code other).0 q in
        absurd (cc (n, (text_beq_iff code other).1 e))
    differs n a (inr m) q = rw m refl

-- The table of codes implements a map from codes to entries, as a redemption reads it at any time
-- from the moment of the step on: a code that is stored maps to its entry until that expires and no
-- other code is affected; a redemption returns what the map has, expired entries excluded, and leaves
-- that code without an entry and the others as they were. Both keep the codes distinct.
pub codes_refine_map :
    (r : Registry) (now : ℕ)
    → DistinctCodes r.codes
    → ((e : CodeRow) (r' : Registry)
        → store_oauth_code r e now ≡ gives r'
        → DistinctCodes r'.codes
          × ((t : ℕ)
              → now ≤ t
              → (code : Text)
              → live_code r' t code
                ≡ (if e.code == code then fresh_code t (some e) else live_code r t code)))
      × ((code : Text)
          → DistinctCodes (take_oauth_code r code now).0.codes
            × ((take_oauth_code r code now).1 ≡ live_code r now code)
            × ((t : ℕ) (other : Text)
                → live_code (take_oauth_code r code now).0 t other
                  ≡ (if code == other then none else live_code r t other)))
unfolding take_oauth_code live_code
codes_refine_map r now d = (
  λ e r' h.
      let s = store-Stored r r' e now h in
      (stored-Distinct r r' e now s d, stored-live r r' e now s d),
  λ code. (
    λ other.
        omega
          (arith, d other, count-select (λ c. c.code == other) (λ c. not (c.code == code)) r.codes),
    refl,
    taken-live r code now,
  ),
)
