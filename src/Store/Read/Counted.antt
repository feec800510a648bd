-- ===== src/Store/Read/Counted.antt =====
-- The counts of `Catalog` in internal/db/memory.go, and the pages of `List`.
use rekam.Prelude.{
  ℕ, ◌+◌, Text, true, false, not, List, [], ◌∷◌, ◌≡◌, refl, sym, ap, ◌∙◌, select, count, arith,
  Bool-cases, inl, inr, if◌then◌else◌, text_eq, nat_eq, text_beq, text_beq_iff, ◌==◌, is_empty,
}
use rekam.Scope.{Scope, satisfies, title_clause}
use rekam.Store.{Row, Store, string}
use rekam.Store.Read.{TaxonomyEntry, text_ltb, tally, tally_rows, catalog}

-- the sum of the counts of the entries with a path
unfoldable pub counted : Text → List TaxonomyEntry → ℕ
unfolding text_beq
counted path [] = 0
counted path (e ∷ es) = (if e.path == path then e.count else 0) + counted path es

counted-tally :
    (path p : Text) (es : List TaxonomyEntry)
    → counted path (tally p es) ≡ (if p == path then 1 else 0) + counted path es
unfolding tally counted
counted-tally path p [] = refl
counted-tally path p (e ∷ es) = elim (Bool-cases (p == e.path)) [
  | inl y ↦ rw (y, sym ((text_beq_iff p e.path).0 y)) (ground arith)
  | inr n ↦ elim (Bool-cases (text_ltb p e.path)) [
    | inl l ↦ rw (n, l) refl
    | inr g ↦ rw (n, g) (ground (arith, counted-tally path p es))
  ]
]

counted-tally_rows :
    (path : Text) (rows : List Row)
    → counted path (tally_rows rows) ≡ count (λ r. string r.taxonomy == path) rows
unfolding tally_rows counted count
counted-tally_rows path [] = refl
counted-tally_rows path (r ∷ rows) =
    counted-tally path (string r.taxonomy) (tally_rows rows)
    ∙ ap (λ n. (if string r.taxonomy == path then 1 else 0) + n) (counted-tally_rows path rows)

-- the path of each entry is less than that of the next
unfoldable pub StartsAbove : Text → List TaxonomyEntry → Type 0
unfolding text_ltb
StartsAbove path [] = Unit
StartsAbove path (e ∷ es) = text_ltb path e.path ≡ true

unfoldable pub Ascending : List TaxonomyEntry → Type 0
Ascending [] = Unit
Ascending (e ∷ es) = StartsAbove e.path es × Ascending es

text_ltb-total : (a b : Text) → (a == b) ≡ false → text_ltb a b ≡ false → text_ltb b a ≡ true
unfolding text_ltb text_beq
text_ltb-total [] [] e h = ground arith
text_ltb-total [] (b ∷ t) e h = ground arith
text_ltb-total (a ∷ s) [] e h = refl
text_ltb-total (a ∷ s) (b ∷ t) e h = ground (arith, text_ltb-total s t)

StartsAbove-tally :
    (path p : Text) (es : List TaxonomyEntry)
    → text_ltb path p ≡ true
    → StartsAbove path es
    → StartsAbove path (tally p es)
unfolding tally StartsAbove
StartsAbove-tally path p [] h k = h
StartsAbove-tally path p (e ∷ es) h k = elim (Bool-cases (p == e.path)) [
  | inl y ↦ rw y k
  | inr n ↦ elim (Bool-cases (text_ltb p e.path)) [ inl l ↦ rw (n, l) h | inr g ↦ rw (n, g) k ]
]

tally-Ascending : (p : Text) (es : List TaxonomyEntry) → Ascending es → Ascending (tally p es)
unfolding tally Ascending StartsAbove
tally-Ascending p [] h = (tt, tt)
tally-Ascending p (e ∷ es) (h, k) = elim (Bool-cases (p == e.path)) [
  | inl y ↦ rw y (h, k)
  | inr n ↦ elim (Bool-cases (text_ltb p e.path)) [
    | inl l ↦ rw (n, l) (l, (h, k))
    | inr g ↦
        rw (n, g)
          (StartsAbove-tally e.path p es (text_ltb-total p e.path n g) h, tally-Ascending p es k)
  ]
]

tally_rows-Ascending : (rows : List Row) → Ascending (tally_rows rows)
unfolding tally_rows Ascending
tally_rows-Ascending [] = tt
tally_rows-Ascending (r ∷ rows) =
    tally-Ascending (string r.taxonomy) (tally_rows rows) (tally_rows-Ascending rows)

-- The catalog lists its paths in strictly ascending order, so each at most once, and the count of a
-- path is the number of memories that the title clause admits and that have this path, if it is
-- not empty.
pub catalog_lem :
    (s : Store) (scope : Scope) (path : Text)
    → Ascending (catalog s scope)
      × (counted path (catalog s scope)
          ≡ count
              (λ r. string r.taxonomy == path)
              (select
                (λ r. not (is_empty (string r.taxonomy)))
                (select (λ r. satisfies (title_clause scope) r.taxonomy) s.memories)))
unfolding catalog
catalog_lem s scope path = (tally_rows-Ascending visible, counted-tally_rows path visible)
  where
    visible : List Row
    visible =
        select (λ r. not (is_empty (string r.taxonomy)))
          (select (λ r. satisfies (title_clause scope) r.taxonomy) s.memories)
