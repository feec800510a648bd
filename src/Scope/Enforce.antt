-- ===== src/Scope/Enforce.antt =====
-- internal/db/scope.go: how the SQL fragments relate to the predicates that they stand for.
use rekam.Prelude.{
  any-append, ℕ, Text, true, false, ◌||◌, List, [], ◌∷◌, ◌++◌, map, some, ◌≡◌, ◌≢◌, refl, sym, ap,
  inl, inr, All, All-append, arith, starts_with, to_lower, text_beq_iff, any, Bool-cases, ◌∙◌,
}
use rekam.Scope.{
  Scope, new_scope, prefix_match, can_read, title_visible, dotted, in_branch, like, clause_for,
  read_clause, title_clause, satisfies, branch_holds, branch_args,
}
use rekam.Scope.Branch.{Under, itself, below, in_branch_iff}

like-percent : (t : Text) → like (b'%' ∷ []) t ≡ true
unfolding like
like-percent [] = refl
like-percent (c ∷ cs) = like-percent cs

like-percent-cons : (p t : Text) → like p t ≡ true → like (b'%' ∷ p) t ≡ true
unfolding like
like-percent-cons p [] h = h
like-percent-cons p (c ∷ cs) h = rw h

like-append : (p rest : Text) → like (p ++ b'%' ∷ []) (p ++ rest) ≡ true
unfolding like
like-append [] rest = like-percent rest
like-append (x ∷ xs) rest =
    ground (arith, like-append xs rest, like-percent-cons (xs ++ b'%' ∷ []) (xs ++ rest))

-- A character that a pattern matches only by itself, and one that has no other case.
abbrev pub IsFolded : ℕ → Type 0
IsFolded c = to_lower c ≡ c

abbrev pub IsPlain : ℕ → Type 0
IsPlain c = (c ≢ b'%') × (c ≢ b'_') × IsFolded c

like-plain :
    (p t : Text) → All IsPlain p → All IsFolded t → like (p ++ b'%' ∷ []) t ≡ starts_with t p
unfolding like starts_with
like-plain [] t h k = like-percent t
like-plain (x ∷ xs) [] h k = ground arith
like-plain (x ∷ xs) (c ∷ cs) h k = ground (arith, like-plain xs cs)

branch_complete : (t p : Text) → in_branch t p ≡ true → branch_holds (some t) (branch_args p) ≡ true
unfolding branch_holds
branch_complete t p h = elim ((in_branch_iff t p).0 h) [
  | itself e ↦ ground (arith, text_beq_iff t p)
  | below rest e ↦
      let m : like (dotted p ++ b'%' ∷ []) t ≡ true = rw e (like-append (dotted p) rest) in
      ground arith
]

branch-exact :
    (t p : Text)
    → All IsFolded t
    → All IsPlain p
    → branch_holds (some t) (branch_args p) ≡ in_branch t p
unfolding branch_holds
branch-exact t p k h =
    let dot : IsPlain b'.' = ((λ e. absurd (omega arith)), (λ e. absurd (omega arith)), refl) in
    rw (like-plain (dotted p) t ((All-append _ p (b'.' ∷ [])).1 (h, (dot, tt))) k)

any_complete :
    (t : Text) (ps : List Text)
    → any (in_branch t) ps ≡ true
    → any (branch_holds (some t)) (map branch_args ps) ≡ true
unfolding any
any_complete t [] h = h
any_complete t (p ∷ ps) h = ground (arith, branch_complete t p, any_complete t ps)

any-exact :
    (t : Text) (ps : List Text)
    → All IsFolded t
    → All (All IsPlain) ps
    → any (branch_holds (some t)) (map branch_args ps) ≡ any (in_branch t) ps
unfolding any
any-exact t [] k h = refl
any-exact t (p ∷ ps) k h = ground (arith, branch-exact t p, any-exact t ps)

clause_complete :
    (s : Scope) (ps : List Text) (t : Text)
    → (s.everything || prefix_match ps t) ≡ true
    → satisfies (clause_for s ps) (some t) ≡ true
unfolding satisfies clause_for prefix_match
clause_complete s [] t h = ground arith
clause_complete s (p ∷ ps) t h = ground (arith, any_complete t (p ∷ ps))

clause-exact :
    (s : Scope) (ps : List Text) (t : Text)
    → All IsFolded t
    → All (All IsPlain) ps
    → satisfies (clause_for s ps) (some t) ≡ (s.everything || prefix_match ps t)
unfolding satisfies clause_for prefix_match
clause-exact s [] t k h = ground arith
clause-exact s (p ∷ ps) t k h = ground (arith, any-exact t (p ∷ ps))

prefix_match-append :
    (ps qs : List Text) (t : Text)
    → prefix_match (ps ++ qs) t ≡ (prefix_match ps t || prefix_match qs t)
unfolding prefix_match
prefix_match-append ps qs t = any-append (in_branch t) ps qs

-- Every row whose taxonomy the scope may read passes the read fragment, and every row whose title
-- it may see passes the title fragment: no query loses a row that the predicates admit.
clauses_complete :
    (s : Scope) (t : Text)
    → (can_read s t ≡ true → satisfies (read_clause s) (some t) ≡ true)
      × (title_visible s t ≡ true → satisfies (title_clause s) (some t) ≡ true)
unfolding can_read title_visible read_clause title_clause
clauses_complete s t = (
  clause_complete s s.read t,
  λ h. ground (
    arith,
    clause_complete s (s.read ++ s.titles_visible) t,
    prefix_match-append s.read s.titles_visible t,
  ),
)

-- Where the taxonomy has no upper-case letter and no prefix of the scope has one, nor `%` or `_`,
-- the fragments admit exactly the rows that the predicates do.
pub clauses_exact :
    (s : Scope) (t : Text)
    → All IsFolded t
    → All (All IsPlain) s.read
    → All (All IsPlain) s.titles_visible
    → (satisfies (read_clause s) (some t) ≡ can_read s t)
      × (satisfies (title_clause s) (some t) ≡ title_visible s t)
unfolding can_read title_visible read_clause title_clause
clauses_exact s t k h g = (
  clause-exact s s.read t k h,
  ground (
    arith,
    clause-exact s (s.read ++ s.titles_visible) t k
        ((All-append (All IsPlain) s.read s.titles_visible).1 (h, g)),
    prefix_match-append s.read s.titles_visible t,
  ),
)

append-cancel : (a x y : Text) → a ++ x ≡ a ++ y → x ≡ y
append-cancel [] x y h = h
append-cancel (c ∷ cs) x y h = append-cancel cs x y (cc)

append_regroup : (a b c : Text) → (a ++ b) ++ c ≡ a ++ (b ++ c)
append_regroup [] b c = refl
append_regroup (x ∷ a) b c = ap (λ (l : Text). x ∷ l) (append_regroup a b c)

like-wildcard :
    (a b : Text) (c : ℕ) (rest : Text)
    → like ((a ++ b'_' ∷ b) ++ b'%' ∷ []) ((a ++ c ∷ b) ++ rest) ≡ true
unfolding like
like-wildcard [] b c rest = like-append b rest
like-wildcard (x ∷ a) b c rest = ground (
  arith,
  like-wildcard a b c rest,
  like-percent-cons ((a ++ b'_' ∷ b) ++ b'%' ∷ []) ((a ++ c ∷ b) ++ rest),
)

-- a path below the other branch, with its prefix split off
below-other :
    (a b : Text) (c : ℕ) (rest : Text) → dotted (a ++ c ∷ b) ++ rest ≡ a ++ (c ∷ (dotted b ++ rest))
below-other a b c rest =
    ap (λ (l : Text). l ++ rest) (append_regroup a (c ∷ b) (b'.' ∷ []))
    ∙ append_regroup a (c ∷ dotted b) rest

not-Under-other :
    (a b : Text) (c : ℕ) (rest : Text)
    → c ≢ b'_'
    → ¬ Under (a ++ b'_' ∷ b) (dotted (a ++ c ∷ b) ++ rest)
not-Under-other a b c rest ne (itself e) =
    let q =
      append-cancel a (c ∷ (dotted b ++ rest)) (b'_' ∷ b) (sym (below-other a b c rest) ∙ e) in
    ne (cc)
not-Under-other a b c rest ne (below more e) =
    let q =
      append-cancel a (c ∷ (dotted b ++ rest)) (b'_' ∷ (dotted b ++ more))
        (sym (below-other a b c rest) ∙ e ∙ below-other a b b'_' more) in
    ne (cc)

-- A grant on a branch with an underscore in its name reads rows of other branches: the read
-- fragment admits every taxonomy below a branch that has any other character at that place, and
-- `can_read` refuses each of them.
pub underscore_leaks :
    (a b : Text) (c : ℕ) (rest : Text)
    → c ≢ b'_'
    → (satisfies
          (read_clause (new_scope ((a ++ b'_' ∷ b) ∷ []) [] []))
          (some (dotted (a ++ c ∷ b) ++ rest))
        ≡ true)
      × (can_read (new_scope ((a ++ b'_' ∷ b) ∷ []) [] []) (dotted (a ++ c ∷ b) ++ rest) ≡ false)
unfolding read_clause clause_for satisfies branch_holds any can_read prefix_match new_scope
underscore_leaks a b c rest ne = (
  let m : like (dotted (a ++ b'_' ∷ b) ++ b'%' ∷ []) (dotted (a ++ c ∷ b) ++ rest) ≡ true =
        rw (append_regroup a (b'_' ∷ b) (b'.' ∷ []), append_regroup a (c ∷ b) (b'.' ∷ []))
          (like-wildcard a (dotted b) c rest) in
      ground arith,
  elim (Bool-cases (in_branch (dotted (a ++ c ∷ b) ++ rest) (a ++ b'_' ∷ b))) [
    | inl y ↦ absurd (not-Under-other a b c rest ne ((in_branch_iff _ _).0 y))
    | inr n ↦ ground arith
  ],
)
