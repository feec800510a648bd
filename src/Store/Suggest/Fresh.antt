-- ===== src/Store/Suggest/Fresh.antt =====
-- internal/db/suggest.go: what a suggestion may name.
use rekam.Prelude.{
  ℕ, zero, suc, ◌≤◌, Text, Bool, false, ◌&&◌, ◌||◌, not, List, [], ◌∷◌, map, Option, none, some,
  ◌≡◌, refl, sym, ap, subst, arith, ◌⊎◌, inl, inr, ◌==◌, text_eq, nat_eq, ltb, leb, In, In-select,
  All, All-at, select, take, length, is_empty, if◌then◌else◌, Bool-cases,
}
use rekam.Scope.{Scope}
use rekam.Store.{Row, Store}
use rekam.Store.Read.{sort_desc, Index, text_ltb}
use rekam.Store.Read.Budget.{In-sort_desc, In-map}
use rekam.Store.Health.{sort_by, insert_by}
use rekam.Store.Words.{fts_or_query}
use rekam.Store.Suggest.{
  LinkSuggestion, candidates_per_source, pair_key, linked, add_candidate, scored, readable,
  candidates, keep_best, consider, suggest_from, limit_or_20, suggest_links,
}

-- both memories are there and readable, they differ, and no edge joins them
pub record IsFresh (s : Store) (scope : Scope) (x : LinkSuggestion) : Type 0 where
  pub source_readable : In x.source (readable scope s.memories)
  pub target_readable : In x.target (readable scope s.memories)
  pub differ : (x.target.id == x.source.id) ≡ false
  pub unlinked : linked s.edges (pair_key x.source.id x.target.id) ≡ false

In-take : {A : Type 0} (n : ℕ) (a : A) (xs : List A) → In a (take n xs) → In a xs
In-take zero a xs i = absurd i
In-take (suc n) a [] i = i
In-take (suc n) a (x ∷ xs) (inl e) = inl e
In-take (suc n) a (x ∷ xs) (inr i) = inr (In-take n a xs i)

In-insert_by :
    {A : Type 0} (lt : A → A → Bool) (a x : A) (xs : List A)
    → In a (insert_by lt x xs)
    → (a ≡ x) ⊎ In a xs
unfolding insert_by
In-insert_by lt a x [] i = i
In-insert_by lt a x (y ∷ ys) i = ground (arith, In-insert_by lt a x ys)

In-sort_by : {A : Type 0} (lt : A → A → Bool) (a : A) (xs : List A) → In a (sort_by lt xs) → In a xs
unfolding sort_by
In-sort_by lt a [] i = i
In-sort_by lt a (x ∷ xs) i = ground (arith, In-insert_by lt a x (sort_by lt xs), In-sort_by lt a xs)

length-take_le : {A : Type 0} (n : ℕ) (xs : List A) → length (take n xs) ≤ n
length-take_le zero xs = ground arith
length-take_le (suc n) [] = ground arith
length-take_le (suc n) (x ∷ xs) = ground (arith, length-take_le n xs)

In-add_candidate :
    (c : Row × ℕ) (r : Row) (o : Option ℕ) (rest : List (Row × ℕ))
    → In c (add_candidate r o rest)
    → (c.0 ≡ r) ⊎ In c rest
In-add_candidate c r none rest i = inr i
In-add_candidate c r (some n) rest (inl e) = inl (ap (λ p. p.0) e)
In-add_candidate c r (some n) rest (inr i) = inr i

In-scored :
    (index : Index) (table : List Row) (match : Text) (c : Row × ℕ) (rows : List Row)
    → In c (scored index table match rows)
    → In c.0 rows
unfolding scored
In-scored index table match c [] i = i
In-scored index table match c (r ∷ rows) i =
    elim (In-add_candidate c r (index table match r) (scored index table match rows) i) [
      | inl e ↦ inl e
      | inr j ↦ inr (In-scored index table match c rows j)
    ]

In-candidates :
    (index : Index) (table : List Row) (scope : Scope) (s : Row) (c : Row × ℕ)
    → In c (candidates index table scope s)
    → In c.0 (readable scope table) × ((c.0.id == s.id) ≡ false)
unfolding candidates
In-candidates index table scope s c i = elim (Bool-cases (is_empty (fts_or_query s.title))) [
  | inl y ↦ absurd (subst (λ b. In c (if b then [] else found)) y i)
  | inr n ↦
      let j : In c found = subst (λ b. In c (if b then [] else found)) n i in
      let k = In-scored index table (fts_or_query s.title) c others (
        In-sort_desc (λ x. x.1) c (scored index table (fts_or_query s.title) others)
          (In-take candidates_per_source c
            (sort_desc (λ x. x.1) (scored index table (fts_or_query s.title) others)) j)) in
      let (l, ne) = (In-select (λ r. not (r.id == s.id)) c.0 (readable scope table)).0 k in
      (l, ground (arith, ne))
]
  where
    others : List Row
    others = select (λ r. not (r.id == s.id)) (readable scope table)

    found : List (Row × ℕ)
    found =
        take candidates_per_source
          (sort_desc (λ x. x.1) (scored index table (fts_or_query s.title) others))

module _ (s : Store) (scope : Scope) where
  AllFresh : List (Text × LinkSuggestion) → Type 0
  AllFresh best = All (λ p. IsFresh s scope p.1) best

  keep_best-AllFresh :
      (key : Text) (x : LinkSuggestion) (best : List (Text × LinkSuggestion))
      → IsFresh s scope x
      → AllFresh best
      → AllFresh (keep_best key x best)
  unfolding keep_best AllFresh
  keep_best-AllFresh key x [] h k = (h, tt)
  keep_best-AllFresh key x ((l, y) ∷ best) h (k, ks) = elim (Bool-cases (l == key)) [
    | inl a ↦ elim (Bool-cases (leb x.score y.score)) [
      | inl b ↦ rw (a, b) (k, ks)
      | inr b ↦ rw (a, b) (h, ks)
    ]
    | inr a ↦ rw a (k, keep_best-AllFresh key x best h ks)
  ]

  consider-AllFresh :
      (r : Row) (cs : List (Row × ℕ)) (best : List (Text × LinkSuggestion))
      → In r (readable scope s.memories)
      → ((c : Row × ℕ) → In c cs → In c.0 (readable scope s.memories) × ((c.0.id == r.id) ≡ false))
      → AllFresh best
      → AllFresh (consider s.edges r cs best)
  unfolding consider
  consider-AllFresh r [] best i f k = k
  consider-AllFresh r ((t, score) ∷ cs) best i f k =
      elim (Bool-cases (linked s.edges (pair_key r.id t.id))) [
        | inl y ↦ rw y (consider-AllFresh r cs best i (λ c j. f c (inr j)) k)
        | inr n ↦
            let (l, ne) = f (t, score) (inl refl) in
            let x : LinkSuggestion = record { source = r; target = t; score = score } in
            let fresh : IsFresh s scope x = record {
              source_readable = i;
              target_readable = l;
              differ = ne;
              unlinked = n;
            } in
            rw n (
              consider-AllFresh r cs (keep_best (pair_key r.id t.id) x best) i (λ c j. f c (inr j))
                (keep_best-AllFresh (pair_key r.id t.id) x best fresh k))
      ]

  suggest_from-AllFresh :
      (index : Index) (rows : List Row) (best : List (Text × LinkSuggestion))
      → ((r : Row) → In r rows → In r (readable scope s.memories))
      → AllFresh best
      → AllFresh (suggest_from index s scope rows best)
  unfolding suggest_from
  suggest_from-AllFresh index [] best f k = k
  suggest_from-AllFresh index (r ∷ rows) best f k =
      suggest_from-AllFresh index rows
        (consider s.edges r (candidates index s.memories scope r) best) (λ x i. f x (inr i))
        (consider-AllFresh r (candidates index s.memories scope r) best (f r (inl refl))
          (λ c j. In-candidates index s.memories scope r c j) k)

-- Every suggested pair joins two different memories that the caller may read and that no link joins
-- in either direction, and there are no more pairs than asked for.
pub suggest_links_lem :
    (index : Index) (s : Store) (scope : Scope) (limit : ℕ)
    → ((x : LinkSuggestion) → In x (suggest_links index s scope limit) → IsFresh s scope x)
      × (length (suggest_links index s scope limit) ≤ limit_or_20 limit)
unfolding suggest_links AllFresh
suggest_links_lem index s scope limit = (
  (λ x i.
      let (p, (j, q)) =
        In-map (λ y. y.1) x best
          (In-sort_by before x (map (λ y. y.1) best)
            (In-take (limit_or_20 limit) x (sort_by before (map (λ y. y.1) best)) i)) in
      subst (IsFresh s scope) (sym q) (
        All-at (λ y. IsFresh s scope y.1) p best
          (suggest_from-AllFresh s scope index (readable scope s.memories) [] (λ r k. k) tt) j)),
  length-take_le (limit_or_20 limit) (sort_by before (map (λ y. y.1) best)),
)
  where
    best : List (Text × LinkSuggestion)
    best = suggest_from index s scope (readable scope s.memories) []

    before : LinkSuggestion → LinkSuggestion → Bool
    before x y = ltb y.score x.score || (x.score == y.score && text_ltb x.source.id y.source.id)
