-- ===== src/Store/Health/Sums.antt =====
-- What the counts of internal/db/memory.go on the link graph add up to.
use rekam.Prelude.{
  ℕ, zero, suc, ◌+◌, ◌≤◌, Text, Bool, true, ◌&&◌, not, List, [], ◌∷◌, map, Option, none, some, ◌≡◌,
  refl, sym, ap, ◌∙◌, ◌==◌, text_eq, nat_eq, arith, select, count, take, length, In, In-select, inl,
  inr,
}
use rekam.Scope.{Scope, satisfies, title_clause}
use rekam.Store.{Row, Edge, Store, row_of}
use rekam.Store.Edges.{is_null}
use rekam.Store.Read.{ScopedMemory, scoped, sort_desc}
use rekam.Store.Read.Budget.{length-sort_desc, length-map, In-map, In-sort_desc}
use rekam.Graph.{points_at}
use rekam.Store.Health.{
  inbound_link_count, add_joined, with_source, backlinks, DanglingRef, insert_by, sort_by, ref_ltb,
  distinct, add_ref, add_refs, top_ltb, edge_health,
}

count_split :
    {A : Type 0} (p : A → Bool) (xs : List A) → count (λ x. not (p x)) xs + count p xs ≡ length xs
unfolding count
count_split p [] = refl
count_split p (x ∷ xs) = ground (arith, count_split p xs)

count-length-select : {A : Type 0} (p : A → Bool) (xs : List A) → length (select p xs) ≡ count p xs
unfolding count select
count-length-select p [] = refl
count-length-select p (x ∷ xs) = ground (arith, count-length-select p xs)

length-distinct : (ts : List Text) → length (distinct ts) ≤ length ts
unfolding distinct
length-distinct [] = ground arith
length-distinct (t ∷ ts) = ground (arith, length-distinct ts)

length-select_le : {A : Type 0} (p : A → Bool) (xs : List A) → length (select p xs) ≤ length xs
unfolding select
length-select_le p [] = ground arith
length-select_le p (x ∷ xs) = ground (arith, length-select_le p xs)

length-take_le : {A : Type 0} (n : ℕ) (xs : List A) → length (take n xs) ≤ n
length-take_le zero xs = ground arith
length-take_le (suc n) [] = ground arith
length-take_le (suc n) (x ∷ xs) = ground (arith, length-take_le n xs)

abbrev pub sum_counts : List DanglingRef → ℕ
sum_counts [] = 0
sum_counts (d ∷ ds) = d.count + sum_counts ds

sum_counts-take : (n : ℕ) (ds : List DanglingRef) → sum_counts (take n ds) ≤ sum_counts ds
sum_counts-take zero ds = ground arith
sum_counts-take (suc n) [] = ground arith
sum_counts-take (suc n) (d ∷ ds) = ground (arith, sum_counts-take n ds)

sum_counts-insert_by :
    (lt : DanglingRef → DanglingRef → Bool) (d : DanglingRef) (ds : List DanglingRef)
    → sum_counts (insert_by lt d ds) ≡ d.count + sum_counts ds
unfolding insert_by
sum_counts-insert_by lt d [] = refl
sum_counts-insert_by lt d (e ∷ ds) = ground (arith, sum_counts-insert_by lt d ds)

sum_counts-sort_by :
    (lt : DanglingRef → DanglingRef → Bool) (ds : List DanglingRef)
    → sum_counts (sort_by lt ds) ≡ sum_counts ds
unfolding sort_by
sum_counts-sort_by lt [] = refl
sum_counts-sort_by lt (d ∷ ds) =
    sum_counts-insert_by lt d (sort_by lt ds) ∙ ap (λ n. d.count + n) (sum_counts-sort_by lt ds)

sum_counts-add_ref :
    (e : Edge) (m : ScopedMemory) (ds : List DanglingRef)
    → sum_counts (add_ref e m ds) ≡ suc (sum_counts ds)
unfolding add_ref
sum_counts-add_ref e m [] = refl
sum_counts-add_ref e m (d ∷ ds) = ground (arith, sum_counts-add_ref e m ds)

sum_counts-add_refs :
    (ds : List DanglingRef) (rows : List (Edge × Row))
    → sum_counts (add_refs ds rows) ≡ sum_counts ds + length rows
unfolding add_refs
sum_counts-add_refs ds [] = ground arith
sum_counts-add_refs ds ((e, r) ∷ rows) = ground (
  arith,
  sum_counts-add_refs (add_ref e (scoped r []) ds) rows,
  sum_counts-add_ref e (scoped r []) ds,
)

length-insert_by :
    {A : Type 0} (lt : A → A → Bool) (x : A) (xs : List A)
    → length (insert_by lt x xs) ≡ suc (length xs)
unfolding insert_by
length-insert_by lt x [] = refl
length-insert_by lt x (y ∷ ys) = ground (arith, length-insert_by lt x ys)

length-sort_by : {A : Type 0} (lt : A → A → Bool) (xs : List A) → length (sort_by lt xs) ≡ length xs
unfolding sort_by
length-sort_by lt [] = refl
length-sort_by lt (x ∷ xs) = length-insert_by lt x (sort_by lt xs) ∙ ap suc (length-sort_by lt xs)

-- The counts of the readout agree: the links to a memory and the dangling ones make up the total,
-- no more targets are missing than links dangle, and the references that are listed, 15 at most,
-- hold no more links than dangle.
pub edge_health_adds_up :
    (s : Store) (scope : Scope)
    → ((edge_health s scope).resolved + (edge_health s scope).dangling
        ≡ (edge_health s scope).total_edges)
      × (((edge_health s scope).dangling_targets ≤ (edge_health s scope).dangling)
          × ((length (edge_health s scope).top_dangling ≤ 15)
              × (sum_counts (edge_health s scope).top_dangling ≤ (edge_health s scope).dangling)))
unfolding edge_health
edge_health_adds_up s scope = (
  count_split (λ x. is_null x.0.dst) joined,
  (
    ground (
      arith,
      length-distinct (map (λ x. x.0.raw) loose),
      length-map (λ x. x.0.raw) loose,
      count-length-select (λ x. is_null x.0.dst) joined,
    ),
    (
      length-take_le 15 refs,
      ground (
        arith,
        sum_counts-take 15 refs,
        sum_counts-sort_by top_ltb (add_refs [] ordered),
        sum_counts-add_refs [] ordered,
        length-sort_by ref_ltb recent,
        length-sort_desc (λ x. x.1.updated_at) loose,
        count-length-select (λ x. is_null x.0.dst) joined,
      ),
    ),
  ),
)
  where
    joined : List (Edge × Row)
    joined =
        select (λ x. satisfies (title_clause scope) x.1.taxonomy) (with_source s.memories s.edges)

    loose : List (Edge × Row)
    loose = select (λ x. is_null x.0.dst) joined

    recent : List (Edge × Row)
    recent = sort_desc (λ x. x.1.updated_at) loose

    ordered : List (Edge × Row)
    ordered = sort_by ref_ltb recent

    refs : List DanglingRef
    refs = sort_by top_ltb (add_refs [] ordered)

length-add_joined :
    (e : Edge) (o : Option Row) (js : List (Edge × Row)) (n : ℕ)
    → length js ≤ n
    → length (add_joined e o js) ≤ suc n
length-add_joined e none js n h = ground arith
length-add_joined e (some r) js n h = ground arith

length-with_source : (rows : List Row) (es : List Edge) → length (with_source rows es) ≤ length es
unfolding with_source
length-with_source rows [] = ground arith
length-with_source rows (e ∷ es) =
    length-add_joined e (row_of rows e.src) (with_source rows es) (length es)
      (length-with_source rows es)

FromSource : List Row → Edge × Row → List Edge → Type 0
FromSource rows x es = In x.0 es × (row_of rows x.0.src ≡ some x.1)

In-add_joined :
    (x : Edge × Row) (rows : List Row) (e : Edge) (es : List Edge) (js : List (Edge × Row))
    (o : Option Row)
    → row_of rows e.src ≡ o
    → (In x js → FromSource rows x es)
    → In x (add_joined e o js)
    → FromSource rows x (e ∷ es)
unfolding FromSource
In-add_joined x rows e es js none q f j = let (k, w) = f j in (inr k, w)
In-add_joined x rows e es js (some r) q f (inl p) =
    (inl (ap (λ y. y.0) p), ap (λ y. row_of rows y.0.src) p ∙ (q ∙ ap (λ y. some y.1) (sym p)))
In-add_joined x rows e es js (some r) q f (inr j) = let (k, w) = f j in (inr k, w)

In-with_source :
    (x : Edge × Row) (rows : List Row) (es : List Edge)
    → In x (with_source rows es)
    → FromSource rows x es
unfolding with_source
In-with_source x rows [] i = absurd i
In-with_source x rows (e ∷ es) i =
    In-add_joined x rows e es (with_source rows es) (row_of rows e.src) refl
      (In-with_source x rows es) i

-- Each backlink is the title of a memory that the title clause admits and that holds another link
-- to the memory, and there are no more of them than the count of links that guards a deletion.
pub backlinks_lem :
    (s : Store) (scope : Scope) (id : Text)
    → (length (backlinks s scope id) ≤ inbound_link_count s id)
      × ((m : ScopedMemory)
          → In m (backlinks s scope id)
          → (x : Edge × Row) × ((In x.0 s.edges
                × ((points_at id x.0 && not (x.0.src == id)) ≡ true))
              × ((row_of s.memories x.0.src ≡ some x.1)
                  × ((satisfies (title_clause scope) x.1.taxonomy ≡ true)
                      × (m ≡ scoped x.1 x.0.rel)))))
unfolding backlinks inbound_link_count FromSource
backlinks_lem s scope id = (
  ground (
    arith,
    length-map (λ x. scoped x.1 x.0.rel) (sort_desc (λ x. x.1.updated_at) seen),
    length-sort_desc (λ x. x.1.updated_at) seen,
    length-select_le (λ x. satisfies (title_clause scope) x.1.taxonomy) joined,
    length-with_source s.memories links,
    count-length-select (λ e. points_at id e && not (e.src == id)) s.edges,
  ),
  λ m i.
      let (x, (j, q)) =
        In-map (λ x. scoped x.1 x.0.rel) m (sort_desc (λ x. x.1.updated_at) seen) i in
      let (k, c) =
        (In-select (λ x. satisfies (title_clause scope) x.1.taxonomy) x joined).0
          (In-sort_desc (λ x. x.1.updated_at) x seen j) in
      let (l, w) = In-with_source x s.memories links k in
      (x, ((In-select (λ e. points_at id e && not (e.src == id)) x.0 s.edges).0 l, (w, (c, q)))),
)
  where
    links : List Edge
    links = select (λ e. points_at id e && not (e.src == id)) s.edges

    joined : List (Edge × Row)
    joined = with_source s.memories links

    seen : List (Edge × Row)
    seen = select (λ x. satisfies (title_clause scope) x.1.taxonomy) joined
