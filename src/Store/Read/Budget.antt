-- ===== src/Store/Read/Budget.antt =====
-- The budget of tokens of `Search` in internal/db/memory.go.
use rekam.Prelude.{
  ℕ, suc, ◌+◌, Text, Bool, true, false, List, [], ◌∷◌, map, Option, none, some, ◌≡◌, refl, ap, ◌∙◌,
  ◌⊎◌, inl, inr, arith, text_eq, nat_eq, select, length, In,
}
use rekam.Scope.{Scope}
use rekam.Store.{Row, Edge, Store}
use rekam.Store.Read.{insert_desc, sort_desc, Hit, hit, Index, readable_rows}

abbrev pub total : {A : Type 0} → (A → ℕ) → List A → ℕ
total cost [] = 0
total cost (x ∷ xs) = cost x + total cost xs

module _ {A : Type 0} (key : A → ℕ) where
  In-insert_desc : (a x : A) (xs : List A) → In a (insert_desc key x xs) → (a ≡ x) ⊎ In a xs
  unfolding insert_desc
  In-insert_desc a x [] i = i
  In-insert_desc a x (y ∷ ys) i = ground (arith, In-insert_desc a x ys)

  pub In-sort_desc : (a : A) (xs : List A) → In a (sort_desc key xs) → In a xs
  unfolding sort_desc
  In-sort_desc a [] i = i
  In-sort_desc a (x ∷ xs) i =
      ground (arith, In-insert_desc a x (sort_desc key xs), In-sort_desc a xs)

  length-insert_desc : (x : A) (xs : List A) → length (insert_desc key x xs) ≡ suc (length xs)
  unfolding insert_desc
  length-insert_desc x [] = refl
  length-insert_desc x (y ∷ ys) = ground (arith, length-insert_desc x ys)

  pub length-sort_desc : (xs : List A) → length (sort_desc key xs) ≡ length xs
  unfolding sort_desc
  length-sort_desc [] = refl
  length-sort_desc (x ∷ xs) = length-insert_desc x (sort_desc key xs) ∙ ap suc (length-sort_desc xs)

pub length-map : {A B : Type 0} (f : A → B) (xs : List A) → length (map f xs) ≡ length xs
length-map f [] = refl
length-map f (x ∷ xs) = ap suc (length-map f xs)

pub In-map :
    {A B : Type 0} (f : A → B) (b : B) (xs : List A)
    → In b (map f xs)
    → (a : A) × (In a xs × (b ≡ f a))
In-map f b [] i = absurd i
In-map f b (x ∷ xs) (inl p) = (x, (inl refl, p))
In-map f b (x ∷ xs) (inr i) = let (a, (j, q)) = In-map f b xs i in (a, (inr j, q))

abbrev pub is_some : Option ℕ → Bool
is_some none = false
is_some (some n) = true

module _ (index : Index) (edges : List Edge) (table : List Row) (match : Text) where
  unfoldable pub matching : List Row → List Row
  matching rows = select (λ r. is_some (index table match r)) rows

  IsHitOf : List Row → ℕ × Hit → Type 0
  IsHitOf rows x = (r : Row) × (In r rows × (x.1 ≡ hit edges r))

-- the rows of the branch that the caller may read and that the index matches
unfoldable pub matching_rows : Index → Store → Scope → Text → Text → List Row
unfolding matching readable_rows
matching_rows index s scope match prefix =
    matching index s.edges s.memories match (readable_rows s scope prefix)
