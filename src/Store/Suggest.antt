-- ===== src/Store/Suggest.antt =====
-- internal/db/suggest.go: pairs of memories that look related and are not linked. The full-text index
-- is a parameter, as for `Search`; a score is the negated rank.
pub mod Fresh
use rekam.Prelude.{
  ℕ, zero, suc, ◌+◌, Text, Bool, true, false, ◌&&◌, ◌||◌, not, List, [], ◌∷◌, ◌++◌, map, Option,
  none, some, ◌==◌, text_eq, text_beq, nat_eq, ltb, leb, find, any, select, take, is_empty,
  if◌then◌else◌,
}
use rekam.Scope.{Scope, satisfies, read_clause}
use rekam.Store.{Row, Edge, Store}
use rekam.Store.Read.{ScopedMemory, scoped, text_ltb, sort_desc, Index}
use rekam.Store.Health.{sort_by}
use rekam.Store.Words.{fts_or_query}

pub record LinkSuggestion : Type 0 where
  pub source : Row
  pub target : Row
  pub score : ℕ

abbrev pub candidates_per_source : ℕ
candidates_per_source = 5

unfoldable pub pair_key : Text → Text → Text
unfolding text_ltb
pair_key a b = if text_ltb b a then b ++ (0 ∷ a) else a ++ (0 ∷ b)

unfoldable pub edge_key : Edge → Option Text → Option Text
unfolding pair_key
edge_key e none = none
edge_key e (some d) = some (pair_key e.src d)

unfoldable pub is_key : Text → Option Text → Bool
unfolding text_beq
is_key key none = false
is_key key (some k) = k == key

-- `linkedPairs`, as a test on keys
unfoldable pub linked : List Edge → Text → Bool
unfolding any edge_key is_key
linked edges key = any (λ e. is_key key (edge_key e e.dst)) edges

abbrev pub add_candidate : Row → Option ℕ → List (Row × ℕ) → List (Row × ℕ)
add_candidate r none rest = rest
add_candidate r (some n) rest = (r, n) ∷ rest

unfoldable pub scored : Index → List Row → Text → List Row → List (Row × ℕ)
scored index table match [] = []
scored index table match (r ∷ rows) =
    add_candidate r (index table match r) (scored index table match rows)

unfoldable pub readable : Scope → List Row → List Row
unfolding select satisfies read_clause
readable scope rows = select (λ r. satisfies (read_clause scope) r.taxonomy) rows

-- the query for one source: the best matches, 5 at most, other than the source
unfoldable pub candidates : Index → List Row → Scope → Row → List (Row × ℕ)
unfolding scored readable select sort_desc fts_or_query text_beq
candidates index table scope s =
    let match = fts_or_query s.title in
    if is_empty match
    then []
    else take candidates_per_source (
        sort_desc (λ c. c.1)
          (scored index table match (select (λ r. not (r.id == s.id)) (readable scope table))))

-- the map from keys to the best suggestion of each pair
unfoldable pub keep_best :
    Text → LinkSuggestion → List (Text × LinkSuggestion) → List (Text × LinkSuggestion)
unfolding text_beq
keep_best key x [] = (key, x) ∷ []
keep_best key x ((k, y) ∷ best) =
    let rest = keep_best key x best in
    if k == key
    then (if leb x.score y.score then (k, y) ∷ best else (k, x) ∷ best)
    else (k, y) ∷ rest

unfoldable pub consider :
    List Edge → Row → List (Row × ℕ) → List (Text × LinkSuggestion) → List (Text × LinkSuggestion)
unfolding linked pair_key keep_best
consider edges s [] best = best
consider edges s ((t, score) ∷ cs) best = consider edges s cs (
    if linked edges (pair_key s.id t.id)
    then best
    else keep_best (pair_key s.id t.id) (record { source = s; target = t; score = score }) best)

unfoldable pub suggest_from :
    Index → Store → Scope → List Row → List (Text × LinkSuggestion) → List (Text × LinkSuggestion)
unfolding consider candidates
suggest_from index s scope [] best = best
suggest_from index s scope (r ∷ rows) best =
    suggest_from index s scope rows (consider s.edges r (candidates index s.memories scope r) best)

abbrev pub limit_or_20 : ℕ → ℕ
limit_or_20 limit = if limit == 0 then 20 else limit

-- A limit that is not positive is 0 here. What sort.Slice leaves in any order keeps the map's.
unfoldable pub suggest_links : Index → Store → Scope → ℕ → List LinkSuggestion
unfolding suggest_from readable sort_by text_ltb
suggest_links index s scope limit =
    let best = suggest_from index s scope (readable scope s.memories) [] in
    take (limit_or_20 limit) (
      sort_by
        (λ x y. ltb y.score x.score || (x.score == y.score && text_ltb x.source.id y.source.id))
        (map (λ p. p.1) best))
