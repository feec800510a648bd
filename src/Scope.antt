-- ===== src/Scope.antt =====
-- internal/db/scope.go: the taxonomy authorization that an identity carries into a corpus, and the
-- SQL fragments by which queries enforce it. A fragment is modelled by what it is made of, with the
-- truth of the WHERE clause that it stands for; `like` is the LIKE operator of SQL.
pub mod Branch
pub mod Enforce
use rekam.Prelude.{
  ℕ, zero, suc, Text, Bool, true, false, ◌&&◌, ◌||◌, not, List, [], ◌∷◌, ◌++◌, map, Option, none,
  some, ◌==◌, nat_beq, text_eq, nat_eq, starts_with, to_lower, any, if◌then◌else◌, is_empty,
  text_beq,
}

pub record Scope : Type 0 where
  pub everything : Bool
  pub read : List Text
  pub write : List Text
  pub titles_visible : List Text

unfoldable pub full_scope : Scope
full_scope = record { everything = true; read = []; write = []; titles_visible = [] }

unfoldable pub new_scope : List Text → List Text → List Text → Scope
new_scope read write titles_visible = record {
  everything = false;
  read = read;
  write = write;
  titles_visible = titles_visible;
}

unfoldable pub unrestricted : Scope → Bool
unrestricted s = s.everything

abbrev pub dotted : Text → Text
dotted p = p ++ b'.' ∷ []

-- the body of the loop in `prefixMatch`, which other files of the package repeat
abbrev pub in_branch : Text → Text → Bool
in_branch taxonomy p = taxonomy == p || starts_with taxonomy (dotted p)

unfoldable pub prefix_match : List Text → Text → Bool
unfolding any text_beq starts_with
prefix_match prefixes taxonomy = any (in_branch taxonomy) prefixes

unfoldable pub can_read : Scope → Text → Bool
unfolding prefix_match
can_read s taxonomy = s.everything || prefix_match s.read taxonomy

unfoldable pub can_write : Scope → Text → Bool
unfolding prefix_match
can_write s taxonomy = s.everything || prefix_match s.write taxonomy

unfoldable pub title_visible : Scope → Text → Bool
unfolding prefix_match
title_visible s taxonomy =
    s.everything || prefix_match s.read taxonomy || prefix_match s.titles_visible taxonomy

-- The LIKE operator: `%` stands for any text, `_` for any character, letters of ASCII match in
-- either case. The pattern comes first.
unfoldable pub like : Text → Text → Bool
like [] [] = true
like [] (c ∷ cs) = false
like (p ∷ ps) [] = nat_beq p b'%' && like ps []
like (p ∷ ps) (c ∷ cs) = elim (nat_beq p b'%') [
  | true ↦ elim (like ps (c ∷ cs)) [ true ↦ true | false ↦ like (p ∷ ps) cs ]
  | false ↦ elim (nat_beq p b'_' || nat_beq (to_lower p) (to_lower c)) [
    | true ↦ like ps cs
    | false ↦ false
  ]
]

-- A fragment: the empty text, the constant 0, or a disjunction with the arguments of each part.
pub data Clause : Type 0 where
  no_clause never : Clause
  branches : List (Text × Text) → Clause

abbrev pub branch_args : Text → Text × Text
branch_args p = (p, dotted p ++ b'%' ∷ [])

unfoldable pub clause_for : Scope → List Text → Clause
clause_for s prefixes =
    if s.everything
    then no_clause
    else if is_empty prefixes
    then never
    else branches (map branch_args prefixes)

unfoldable pub read_clause : Scope → Clause
unfolding clause_for
read_clause s = clause_for s s.read

unfoldable pub title_clause : Scope → Clause
unfolding clause_for
title_clause s = if s.everything then no_clause else clause_for s (s.read ++ s.titles_visible)

-- `col = ? OR col LIKE ?`, which is not true of NULL
unfoldable pub branch_holds : Option Text → Text × Text → Bool
unfolding like text_beq
branch_holds none args = false
branch_holds (some t) (p, pattern) = t == p || like pattern t

-- whether a row passes `WHERE` with the fragment on a nullable column
unfoldable pub satisfies : Clause → Option Text → Bool
unfolding any branch_holds
satisfies no_clause col = true
satisfies never col = false
satisfies (branches parts) col = any (branch_holds col) parts

-- `(taxonomy = ? OR taxonomy LIKE ?)`, as the queries on one branch write it
unfoldable pub under_branch : Text → Option Text → Bool
unfolding branch_holds
under_branch prefix col = branch_holds col (branch_args prefix)
