-- ===== src/Engine.antt =====
-- internal/engine/engine.go: the operations on memories as a caller meets them, with the checks of a
-- scope in front of those of internal/db/memory.go. The identity and its scope are arguments: they
-- are what `resolve` finds for the bearer.
pub mod Replies
pub mod Access
pub mod Absent
use rekam.Prelude.{
  ℕ, ◌^◌, Text, codes, Bool, true, false, ◌&&◌, ◌||◌, not, List, [], ◌∷◌, map, Option, none, some,
  ◌==◌, text_eq, text_beq, nat_eq, nat_beq, leb, ltb, any, lower, trim_space, is_empty,
  if◌then◌else◌,
}
use rekam.Scope.{Scope, unrestricted, can_read, can_write, title_visible}
use rekam.Store.{
  Memory, LinkStatus, RevisionRow, Store, Error, not_found, Result, ok, err, get, scan_revision,
}
use rekam.Store.Write.{Input, Updates, insert, update, delete, revision_at}
use rekam.Store.Read.{title_taxonomy, ScopedMemory}
use rekam.Store.Health.{inbound_link_count, backlinks}
use rekam.Review.{in_review}

pub data Refusal : Type 0 where
  absent : Text → Refusal
  missing_fields : Bool → Bool → Refusal
  invalid_taxonomy taxonomy_forbidden invalid_format : Text → Refusal
  invalid_field no_changes storage_limit no_revision : Refusal
  has_inbound_links : ℕ → Refusal
  -- an error of the store, which keeps what it carries
  stored : Error → Refusal

pub data Reply (A : Type 0) : Type 0 where
  reply : A → Reply A
  refuse : Refusal → Reply A

infixl 5 ◌>>=◌ ◌>>◌
abbrev pub ◌>>=◌ : {A B : Type 0} → Reply A → (A → Reply B) → Reply B
reply a >>= f = f a
refuse e >>= f = refuse e

abbrev pub ◌>>◌ : {B : Type 0} → Reply (Unit {0}) → Reply B → Reply B
m >> k = m >>= λ _. k

abbrev pub refuse_if : Bool → Refusal → Reply (Unit {0})
refuse_if true e = refuse e
refuse_if false e = reply tt

abbrev pub from_store : {A : Type 0} → Result A → Reply A
from_store (ok a) = reply a
from_store (err e) = refuse (stored e)

-- the class [a-zA-Z0-9_] of the regular expression
abbrev pub is_word_char : ℕ → Bool
is_word_char c =
    (leb b'a' c && leb c b'z')
    || ((leb b'A' c && leb c b'Z') || ((leb b'0' c && leb c b'9') || nat_beq c b'_'))

-- `taxonomyRE` after some characters; the test says whether a word has begun
unfoldable pub valid_from : Bool → Text → Bool
valid_from began [] = began
valid_from began (c ∷ cs) =
    let word = valid_from true cs in
    let next = valid_from false cs in
    if nat_beq c b'.' then began && next else is_word_char c && word

unfoldable pub valid_taxonomy : Text → Bool
unfolding valid_from
valid_taxonomy t = valid_from false t

abbrev pub allowed_formats : List Text
allowed_formats = codes "markdown" ∷ codes "mermaid" ∷ codes "code" ∷ codes "table" ∷ []

unfoldable pub normalize_format : Text → Text × Bool
unfolding any text_beq
normalize_format s =
    let t = lower (trim_space s) in
    if is_empty t then (codes "markdown", true) else (t, any (λ f. f == t) allowed_formats)

-- 2 GiB
abbrev pub max_tenant_bytes : ℕ
max_tenant_bytes = 2 ^ 31

unfoldable pub check_storage_ceiling : ℕ → Reply (Unit {0})
check_storage_ceiling size = refuse_if (leb max_tenant_bytes size) storage_limit

-- what an operation does with the answer of `Get`
abbrev pub found : Text → Result Memory → Reply Memory
found id (ok m) = reply m
found id (err (not_found x)) = refuse (absent id)
found id (err e) = refuse (stored e)

-- the memory, if the scope may read it
unfoldable pub readable_memory : Store → Scope → Text → Reply Memory
unfolding get can_read
readable_memory s scope id = do
  m ← found id (get s id)
  refuse_if (not (can_read scope m.taxonomy)) (absent id)
  reply m

-- the memory, if the scope may read it and write where it is
unfoldable pub writable_memory : Store → Scope → Text → Reply Memory
unfolding readable_memory can_write
writable_memory s scope id = do
  m ← readable_memory s scope id
  refuse_if (not (can_write scope m.taxonomy)) (taxonomy_forbidden m.taxonomy)
  reply m

pub record MemoryView : Type 0 where
  pub memory : Memory
  pub linked_from : List ScopedMemory
  pub is_in_review : Bool

unfoldable pub get_memory : Store → Scope → Text → Reply MemoryView
unfolding readable_memory backlinks in_review
get_memory s scope id = do
  m ← readable_memory s scope id
  reply (record { memory = m; linked_from = backlinks s scope id; is_in_review = in_review s id })

unfoldable pub is_hidden_title : Scope → Option Text → Bool
unfolding title_visible
is_hidden_title scope none = false
is_hidden_title scope (some taxonomy) = not (title_visible scope taxonomy)

unfoldable pub redact_link : Store → Scope → LinkStatus → LinkStatus
unfolding title_taxonomy is_hidden_title
redact_link s scope l =
    if l.resolved && is_hidden_title scope (title_taxonomy s l.target)
    then record l { resolved = false }
    else l

unfoldable pub redact_link_resolution : Store → Scope → List LinkStatus → List LinkStatus
unfolding redact_link unrestricted
redact_link_resolution s scope links =
    if unrestricted scope then links else map (redact_link s scope) links

abbrev pub Written : Type 0
Written = Memory × List LinkStatus × Store

unfoldable pub redacted : Scope → Written → Written
unfolding redact_link_resolution
redacted scope (m, links, s) = (m, redact_link_resolution s scope links, s)

unfoldable pub write_memory : Text → ℕ → ℕ → Store → Scope → Text → Input → Text → Reply Written
unfolding valid_taxonomy can_write normalize_format check_storage_ceiling insert redacted
write_memory uuid now size s scope identity input agent = do
  refuse_if (is_empty input.title || is_empty input.taxonomy)
      (missing_fields (is_empty input.title) (is_empty input.taxonomy))
  refuse_if (not (valid_taxonomy input.taxonomy)) (invalid_taxonomy input.taxonomy)
  refuse_if (not (can_write scope input.taxonomy)) (taxonomy_forbidden input.taxonomy)
  refuse_if (not (normalize_format input.format).1) (invalid_format input.format)
  check_storage_ceiling size
  written ← from_store (
      insert uuid now s (record input { format = (normalize_format input.format).0 }) identity
        agent)
  reply (redacted scope written)

unfoldable pub check_title : Option Text → Reply (Unit {0})
check_title none = reply tt
check_title (some t) = refuse_if (is_empty (trim_space t)) invalid_field

-- a move needs a valid branch that the scope may write
unfoldable pub check_move : Scope → Option Text → Reply (Unit {0})
unfolding valid_taxonomy can_write
check_move scope none = reply tt
check_move scope (some t) = do
  refuse_if (not (valid_taxonomy t)) (invalid_taxonomy t)
  refuse_if (not (can_write scope t)) (taxonomy_forbidden t)

unfoldable pub checked_format : Option Text → Reply (Option Text)
unfolding normalize_format
checked_format none = reply none
checked_format (some f) = do
  refuse_if (not (normalize_format f).1) (invalid_format f)
  reply (some (normalize_format f).0)

abbrev pub is_none : Option Text → Bool
is_none none = true
is_none (some t) = false

unfoldable pub update_memory :
    ℕ → ℕ → Store → Scope → Text → Text → Updates → Text → Option ℕ → Reply Written
unfolding writable_memory check_title check_move checked_format check_storage_ceiling update
    redacted
update_memory now size s scope identity id u agent base = do
  existing ← writable_memory s scope id
  check_title u.title
  check_move scope u.taxonomy
  format ← checked_format u.format
  refuse_if (is_none u.title && (is_none u.content && (is_none u.taxonomy && is_none u.format)))
      no_changes
  check_storage_ceiling size
  written ← from_store (update now s id (record u { format = format }) identity agent base)
  reply (redacted scope written)

unfoldable pub revision_updates : RevisionRow → Updates
unfolding scan_revision
revision_updates row = record {
  title = some (scan_revision row).title;
  content = some (scan_revision row).content;
  taxonomy = some (scan_revision row).taxonomy;
  format = some (scan_revision row).format;
}

abbrev pub found_revision : Option RevisionRow → Reply RevisionRow
found_revision none = refuse no_revision
found_revision (some r) = reply r

unfoldable pub restore_revision : ℕ → Store → Scope → Text → Text → ℕ → Reply Written
unfolding writable_memory revision_at update revision_updates
restore_revision now s scope identity id version = do
  existing ← writable_memory s scope id
  rev ← found_revision (revision_at s id version)
  from_store (update now s id (revision_updates rev) identity [] none)

unfoldable pub delete_memory : ℕ → Store → Scope → Text → Text → Bool → Reply Store
unfolding writable_memory inbound_link_count delete
delete_memory now s scope identity id force = do
  m ← writable_memory s scope id
  refuse_if (not force && ltb 0 (inbound_link_count s id))
      (has_inbound_links (inbound_link_count s id))
  from_store (delete now s id identity)
