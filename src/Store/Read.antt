-- ===== src/Store/Read.antt =====
-- internal/db/memory.go: the reads of a memory file, `List`, `Scope`, `Tombstones`, `Catalog` and
-- `Search`, and the history of a memory. Rows that a query leaves in any order keep the table's.
pub mod Budget
pub mod Hidden
pub mod Counted
use rekam.Prelude.{
  ℕ, ◌+◌, ◌-◌, ◌*◌, Text, codes, Bool, true, false, ◌&&◌, ◌||◌, not, List, [], ◌∷◌, ◌++◌, map,
  Option, none, some, ◌==◌, text_eq, text_beq, nat_eq, ltb, leb, find, select, count, is_empty,
  if◌then◌else◌, take, drop, length,
}
use rekam.Scope.{Scope, Clause, satisfies, read_clause, title_clause, under_branch}
use rekam.Store.{
  Row, Memory, Edge, RevisionRow, Revision, TombstoneRow, Tombstone, Store, Error, not_found,
  Result, ok, err, string, count_tokens, memory_tokens, scan_memory, scan_revision, scan_tombstone,
  title_key,
}
use rekam.Store.Words.{sanitize_fts_query}
use rekam.Graph.{authority_of, superseded_in}

-- ORDER BY key DESC
unfoldable pub insert_desc : {A : Type 0} → (A → ℕ) → A → List A → List A
insert_desc key x [] = x ∷ []
insert_desc key x (y ∷ ys) =
    let rest = insert_desc key x ys in if leb (key y) (key x) then x ∷ y ∷ ys else y ∷ rest

unfoldable pub sort_desc : {A : Type 0} → (A → ℕ) → List A → List A
unfolding insert_desc
sort_desc key [] = []
sort_desc key (x ∷ xs) = insert_desc key x (sort_desc key xs)

-- the condition on a branch, which an empty prefix leaves out
unfoldable pub in_prefix : Text → Option Text → Bool
unfolding under_branch
in_prefix prefix col = is_empty prefix || under_branch prefix col

-- LIMIT, which a limit of 0 leaves out
abbrev pub limited : {A : Type 0} → ℕ → List A → List A
limited limit xs = if limit == 0 then xs else take limit xs

-- The loop over rows under a budget of tokens: what is returned, and the number of rows left out.
unfoldable pub fill : {A : Type 0} → (A → ℕ) → ℕ → ℕ → List A → List A × ℕ
fill cost budget used [] = ([], 0)
fill cost budget used (x ∷ xs) =
    let without = fill cost budget used xs in
    let taken = fill cost budget (used + cost x) xs in
    if ltb 0 budget && ltb budget (used + cost x)
    then (without.0, without.1 + 1)
    else (x ∷ taken.0, taken.1)

unfoldable pub revisions : Store → Text → List Revision
unfolding sort_desc select text_beq scan_revision
revisions s id =
    map scan_revision (sort_desc (λ r. r.version) (select (λ r. r.memory_id == id) s.revisions))

unfoldable pub tombstones : Store → Scope → Text → ℕ → List Tombstone
unfolding sort_desc select in_prefix satisfies title_clause scan_tombstone
tombstones s scope prefix limit = limited limit (
    map scan_tombstone (
      sort_desc (λ t. t.deleted_at)
        (select (λ t. in_prefix prefix t.taxonomy)
          (select (λ t. satisfies (title_clause scope) t.taxonomy) s.tombstones))))

-- the rows of one branch that a caller may read; the order of the two conditions does not matter
unfoldable pub readable_rows : Store → Scope → Text → List Row
unfolding select in_prefix satisfies read_clause
readable_rows s scope prefix =
    select (λ r. in_prefix prefix r.taxonomy)
      (select (λ r. satisfies (read_clause scope) r.taxonomy) s.memories)

-- A limit of 0 stands for one that is not positive; then there is no offset.
unfoldable pub list : Store → Scope → Text → ℕ → ℕ → List Memory × ℕ
unfolding sort_desc readable_rows scan_memory
list s scope taxonomy limit offset =
    let rows = readable_rows s scope taxonomy in
    let sorted = map scan_memory (sort_desc (λ r. r.updated_at) rows) in
    (if limit == 0 then sorted else take limit (drop offset sorted), length rows)

pub record ScopedMemory : Type 0 where
  pub id : Text
  pub title : Text
  pub taxonomy : Text
  pub rel : Text

unfoldable pub scoped : Row → Text → ScopedMemory
scoped r rel = record { id = r.id; title = r.title; taxonomy = string r.taxonomy; rel = rel }

unfoldable pub scoped_tokens : ScopedMemory → ℕ
unfolding count_tokens
scoped_tokens m = count_tokens m.id + count_tokens m.title + count_tokens m.taxonomy

-- `Scope`
unfoldable pub browse : Store → Scope → Text → ℕ → List ScopedMemory × ℕ
unfolding fill sort_desc select under_branch satisfies title_clause scoped scoped_tokens
browse s scope taxonomy budget = fill scoped_tokens budget 0 (
    map (λ r. scoped r [])
      (sort_desc (λ r. r.updated_at)
        (select (λ r. under_branch taxonomy r.taxonomy)
          (select (λ r. satisfies (title_clause scope) r.taxonomy) s.memories))))

pub record TaxonomyEntry : Type 0 where
  pub path : Text
  pub count : ℕ

-- the order of texts, byte by byte
unfoldable pub text_ltb : Text → Text → Bool
text_ltb [] [] = false
text_ltb [] (b ∷ t) = true
text_ltb (a ∷ s) [] = false
text_ltb (a ∷ s) (b ∷ t) = let rest = text_ltb s t in ltb a b || (a == b && rest)

-- GROUP BY taxonomy ORDER BY taxonomy, one row at a time
unfoldable pub tally : Text → List TaxonomyEntry → List TaxonomyEntry
unfolding text_beq text_ltb
tally path [] = record { path = path; count = 1 } ∷ []
tally path (e ∷ es) =
    let rest = tally path es in
    if path == e.path
    then record e { count = e.count + 1 } ∷ es
    else if text_ltb path e.path
    then record { path = path; count = 1 } ∷ e ∷ es
    else e ∷ rest

unfoldable pub tally_rows : List Row → List TaxonomyEntry
unfolding tally
tally_rows [] = []
tally_rows (r ∷ rows) = tally (string r.taxonomy) (tally_rows rows)

unfoldable pub catalog : Store → Scope → List TaxonomyEntry
unfolding tally_rows select satisfies title_clause
catalog s scope = tally_rows (
    select (λ r. not (is_empty (string r.taxonomy)))
      (select (λ r. satisfies (title_clause scope) r.taxonomy) s.memories))

-- A result of `Search`. The query does not select the version, which stays 0.
pub record Hit : Type 0 where
  pub memory : Memory
  pub backlinks : ℕ
  pub superseded : Bool

unfoldable pub hit : List Edge → Row → Hit
unfolding scan_memory authority_of superseded_in
hit edges r = record {
  memory = record (scan_memory r) { version = 0 };
  backlinks = authority_of edges r.id;
  superseded = superseded_in edges r.id;
}

-- The order of the results, best first. With ranks in hundredths it is the opposite of the key of
-- ORDER BY, moved up by the penalty: 5 links at most count, at 30 each, and a penalty of 500.
unfoldable pub ranking : ℕ → Hit → ℕ
ranking relevance h =
    relevance
    + ((if ltb 5 h.backlinks then 5 else h.backlinks) * 30 + (if h.superseded then 0 else 500))

-- What the full-text index says of a row: whether it matches the expression, and how well.
abbrev pub Index : Type 0
Index = List Row → Text → Row → Option ℕ

unfoldable pub add_hit : Option ℕ → Hit → List (ℕ × Hit) → List (ℕ × Hit)
unfolding ranking
add_hit none h rest = rest
add_hit (some n) h rest = (ranking n h, h) ∷ rest

unfoldable pub hits : Index → List Edge → List Row → Text → List Row → List (ℕ × Hit)
unfolding hit add_hit
hits index edges table match [] = []
hits index edges table match (r ∷ rows) =
    add_hit (index table match r) (hit edges r) (hits index edges table match rows)

-- what follows once the expression is made; it is empty if the query has no word
unfoldable pub search_matching : Index → Store → Scope → Text → Text → ℕ → List Hit × ℕ
unfolding fill sort_desc hits readable_rows memory_tokens
search_matching index s scope match prefix budget =
    if is_empty match
    then ([], 0)
    else fill (λ h. memory_tokens h.memory) budget 0
        (map (λ x. x.1)
          (sort_desc (λ x. x.0)
            (hits index s.edges s.memories match (readable_rows s scope prefix))))

unfoldable pub search : Index → Store → Scope → Text → Text → ℕ → List Hit × ℕ
unfolding search_matching sanitize_fts_query
search index s scope query prefix budget =
    search_matching index s scope (sanitize_fts_query query) prefix budget

unfoldable pub title_taxonomy : Store → Text → Option Text
unfolding find text_beq
title_taxonomy s raw = elim (find (λ r. title_key r.title == raw) s.memories) [
  | none ↦ none
  | some r ↦ some (string r.taxonomy)
]
