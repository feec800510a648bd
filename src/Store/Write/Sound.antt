-- ===== src/Store/Write/Sound.antt =====
-- The invariant of a *.memory file that the writes of internal/db/memory.go keep.
use rekam.Prelude.{
  ℕ, Text, Bool, true, false, ◌&&◌, not, List, [], ◌∷◌, ◌++◌, Option, none, some, ◌==◌, ◌≡◌, refl,
  inl, inr, leb, text_eq, nat_eq, select, update_where, Bool-cases, All, All-append,
}
use rekam.Links.{ParsedLink, normalize_link, parse_links}
use rekam.Store.{
  Row, Edge, RevisionRow, Store, row_of, tombstone_of, string, null_str, format_or_default,
}
use rekam.Store.Edges.{heal, is_null}
use rekam.Store.Edges.Sync.{bound_edges, was_deleted, other_edges, bind_link-key, synced_edges}
use rekam.Store.Write.{revision_at}

abbrev pub is_some {ℓ} : {A : Type ℓ} → Option A → Bool
is_some none = false
is_some (some a) = true

-- A revision holds what the row holds.
pub record IsSnapshot (rev : RevisionRow) (r : Row) : Type 0 where
  pub title : rev.title ≡ r.title
  pub content : string rev.content ≡ string r.content
  pub taxonomy : string rev.taxonomy ≡ string r.taxonomy
  pub format : rev.format ≡ format_or_default r.format

abbrev pub IsLive : List Row → Text → Type 0
IsLive rows id = (r : Row) × (row_of rows id ≡ some r)

pub record IsSound (s : Store) : Type 0 where
  -- a live memory has exactly the revisions 1 to its version
  pub history :
      (id : Text) (v : ℕ) (r : Row)
      → row_of s.memories id ≡ some r
      → is_some (revision_at s id v) ≡ (leb 1 v && leb v r.version)
  -- an id that is not live has none
  pub orphan : (id : Text) (v : ℕ) → row_of s.memories id ≡ none → revision_at s id v ≡ none
  -- the newest revision is a snapshot of the row
  pub current :
      (id : Text) (r : Row)
      → row_of s.memories id ≡ some r
      → (rev : RevisionRow) × (revision_at s id r.version ≡ some rev) × IsSnapshot rev r
  -- an id is never both live and burned
  pub burned :
      (id : Text) (r : Row) → row_of s.memories id ≡ some r → tombstone_of s.tombstones id ≡ none
  pub sources : All (λ e. IsLive s.memories e.src) s.edges

pub string-null_str : (t : Text) → string (null_str t) ≡ t
unfolding null_str
string-null_str [] = refl
string-null_str (c ∷ cs) = refl

pub format_or_default_idem :
    (t : Text) → format_or_default (format_or_default t) ≡ format_or_default t
unfolding format_or_default
format_or_default_idem [] = refl
format_or_default_idem (c ∷ cs) = refl

module _ (P : Text → Type 0) where
  pub All-sources-select :
      (p : Edge → Bool) (es : List Edge) → All (λ e. P e.src) es → All (λ e. P e.src) (select p es)
  unfolding select
  All-sources-select p [] h = tt
  All-sources-select p (e ∷ es) h = elim (Bool-cases (p e)) [
    | inl y ↦ rw y (h.0, All-sources-select p es h.1)
    | inr n ↦ rw n (All-sources-select p es h.1)
  ]

  All-sources-update :
      (p : Edge → Bool) (d : Option Text) (es : List Edge)
      → All (λ e. P e.src) es
      → All (λ e. P e.src) (update_where p (λ e. record e { dst = d }) es)
  unfolding update_where
  All-sources-update p d [] h = tt
  All-sources-update p d (e ∷ es) h = elim (Bool-cases (p e)) [
    | inl y ↦ rw y (h.0, All-sources-update p d es h.1)
    | inr n ↦ rw n (h.0, All-sources-update p d es h.1)
  ]

  All-bound_edges :
      (rows : List Row) (deleted : List (Text × Text)) (src : Text) (ls : List ParsedLink)
      → P src
      → All (λ e. P e.src) (bound_edges rows deleted src ls)
  All-bound_edges rows deleted src [] h = tt
  All-bound_edges rows deleted src (l ∷ ls) h =
      (rw (bind_link-key rows deleted src l).0 h, All-bound_edges rows deleted src ls h)

  pub All-synced_edges :
      (s : Store) (src title content : Text)
      → P src
      → All (λ e. P e.src) s.edges
      → All (λ e. P e.src) (synced_edges s src title content)
  unfolding heal
  All-synced_edges s src title content h k =
      let own =
        bound_edges s.memories (was_deleted s src title content) src (parse_links content) in
      All-sources-update
        (λ e. is_null e.dst && (e.raw == normalize_link title && not (e.src == src))) (some src)
        (other_edges s src title content ++ own)
        ((All-append (λ e. P e.src) (other_edges s src title content) own).1 (
          All-sources-select (λ e. not (e.src == src)) s.edges k,
          All-bound_edges s.memories (was_deleted s src title content) src (parse_links content) h,
        ))

pub weaken-sources :
    (rows rows' : List Row) (es : List Edge)
    → ((id : Text) → IsLive rows id → IsLive rows' id)
    → All (λ e. IsLive rows e.src) es
    → All (λ e. IsLive rows' e.src) es
weaken-sources rows rows' [] k h = tt
weaken-sources rows rows' (e ∷ es) k h = (k e.src h.0, weaken-sources rows rows' es k h.1)
