-- ===== src/Store.antt =====
-- internal/db/memory.go: the tables of one *.memory file, the records that are read from them, and
-- the errors of its operations. Times are seconds; an id is a text. Each operation runs in one
-- transaction, so an error leaves the file as it was: a result carries a new state only if it is ok.
pub mod Edges
pub mod Read
pub mod Health
pub mod Words
pub mod Suggest
pub mod Write
use rekam.Prelude.{
  ℕ, ◌+◌, ◌-◌, ◌*◌, ◌/◌, Text, codes, Bool, true, false, ◌&&◌, ◌||◌, not, List, [], ◌∷◌, ◌++◌, map,
  Option, none, some, ◌==◌, text_eq, text_beq, nat_eq, lower, trim, trim_space, find, any, select,
  is_empty, if◌then◌else◌, nat_beq, length,
}

-- a row of `memories`; a column that may be NULL is an `Option`
pub record Row : Type 0 where
  pub id : Text
  pub title : Text
  pub content : Option Text
  pub taxonomy : Option Text
  pub format : Text
  pub created_at : ℕ
  pub updated_at : ℕ
  pub version : ℕ

-- the durable fields of `Memory`
pub record Memory : Type 0 where
  pub id : Text
  pub title : Text
  pub content : Text
  pub taxonomy : Text
  pub format : Text
  pub created_at : ℕ
  pub updated_at : ℕ
  pub version : ℕ

-- a row of `edges`; the target of a dangling link is NULL
pub record Edge : Type 0 where
  pub src : Text
  pub dst : Option Text
  pub raw : Text
  pub rel : Text

pub record LinkStatus : Type 0 where
  pub target : Text
  pub rel : Text
  pub resolved : Bool
  pub deleted : Bool

-- a row of `revisions`
pub record RevisionRow : Type 0 where
  pub memory_id : Text
  pub version : ℕ
  pub title : Text
  pub content : Option Text
  pub taxonomy : Option Text
  pub format : Text
  pub author_id : Option Text
  pub agent : Option Text
  pub created_at : ℕ

pub record Revision : Type 0 where
  pub memory_id : Text
  pub version : ℕ
  pub title : Text
  pub content : Text
  pub taxonomy : Text
  pub format : Text
  pub author_id : Text
  pub agent : Text
  pub created_at : ℕ

-- a row of `tombstones`
pub record TombstoneRow : Type 0 where
  pub memory_id : Text
  pub title : Text
  pub taxonomy : Option Text
  pub created_at : ℕ
  pub deleted_at : ℕ
  pub deleted_by : Option Text
  pub final_version : ℕ

pub record Tombstone : Type 0 where
  pub memory_id : Text
  pub title : Text
  pub taxonomy : Text
  pub created_at : ℕ
  pub deleted_at : ℕ
  pub deleted_by : Text
  pub final_version : ℕ

-- a row of `srs`; the ease is in hundredths
pub record SrsRow : Type 0 where
  pub memory_id : Text
  pub ease : ℕ
  pub interval_days : ℕ
  pub reps : ℕ
  pub due_at : ℕ
  pub last_reviewed : Option ℕ

pub record Store : Type 0 where
  pub memories : List Row
  pub edges : List Edge
  pub revisions : List RevisionRow
  pub tombstones : List TombstoneRow
  pub srs : List SrsRow

pub data Error : Type 0 where
  not_found : Text → Error
  deleted : Tombstone → Error
  version_conflict : Text → ℕ → ℕ → Error
  title_conflict : Text → Text → Error
  bad_grade : ℕ → Error
  -- SQLite refused a row that breaks a primary or a foreign key
  constraint_failed : Error

pub data Result {ℓ} (A : Type ℓ) : Type ℓ where
  ok : A → Result A
  err : Error → Result A

infixl 5 ◌>>=◌ ◌>>◌
abbrev pub ◌>>=◌ {ℓ m} : {A : Type ℓ} {B : Type m} → Result A → (A → Result B) → Result B
ok a >>= k = k a
err e >>= k = err e

abbrev pub ◌>>◌ {ℓ} : {B : Type ℓ} → Result (Unit {0}) → Result B → Result B
m >> k = m >>= λ _. k

-- fails the transaction if a row breaks a key
abbrev pub reject_if : Bool → Result (Unit {0})
reject_if true = err constraint_failed
reject_if false = ok tt

unfoldable pub null_str : Text → Option Text
null_str s = if is_empty s then none else some s

-- the field String of a sql.NullString
abbrev pub string : Option Text → Text
string none = []
string (some s) = s

unfoldable pub format_or_default : Text → Text
format_or_default s = if is_empty s then codes "markdown" else s

unfoldable pub count_tokens : Text → ℕ
count_tokens text = if is_empty text then 0 else (length text + 3) / 4

unfoldable pub memory_tokens : Memory → ℕ
unfolding count_tokens
memory_tokens m =
    count_tokens m.id + count_tokens m.title + count_tokens m.taxonomy + count_tokens m.content

unfoldable pub scan_memory : Row → Memory
scan_memory r = record {
  id = r.id;
  title = r.title;
  content = string r.content;
  taxonomy = string r.taxonomy;
  format = r.format;
  created_at = r.created_at;
  updated_at = r.updated_at;
  version = r.version;
}

unfoldable pub scan_revision : RevisionRow → Revision
scan_revision r = record {
  memory_id = r.memory_id;
  version = r.version;
  title = r.title;
  content = string r.content;
  taxonomy = string r.taxonomy;
  format = r.format;
  author_id = string r.author_id;
  agent = string r.agent;
  created_at = r.created_at;
}

unfoldable pub scan_tombstone : TombstoneRow → Tombstone
scan_tombstone t = record {
  memory_id = t.memory_id;
  title = t.title;
  taxonomy = string t.taxonomy;
  created_at = t.created_at;
  deleted_at = t.deleted_at;
  deleted_by = string t.deleted_by;
  final_version = t.final_version;
}

-- `WHERE id = ?` on `memories`
unfoldable pub row_of : List Row → Text → Option Row
unfolding find text_beq
row_of rows id = find (λ r. r.id == id) rows

-- `WHERE memory_id = ?` on `tombstones`
unfoldable pub tombstone_of : List TombstoneRow → Text → Option Tombstone
unfolding find text_beq scan_tombstone
tombstone_of rows id = elim (find (λ t. t.memory_id == id) rows) [
  | none ↦ none
  | some t ↦ some (scan_tombstone t)
]

-- What the operations return for an id that `memories` does not hold.
unfoldable pub missing : Store → Text → Error
unfolding tombstone_of
missing s id = elim (tombstone_of s.tombstones id) [ none ↦ not_found id | some t ↦ deleted t ]

unfoldable pub get : Store → Text → Result Memory
unfolding row_of scan_memory missing
get s id = elim (row_of s.memories id) [ none ↦ err (missing s id) | some r ↦ ok (scan_memory r) ]

unfoldable pub tombstone : Store → Text → Option Tombstone
unfolding tombstone_of
tombstone s id = tombstone_of s.tombstones id

-- lower(trim(title)) of SQL, where trim takes blanks alone
abbrev pub title_key : Text → Text
title_key title = lower (trim (λ c. nat_beq c b' ') title)

-- the id of another memory that holds the title
unfoldable pub title_holder : List Row → Text → Text → Option Text
unfolding find text_beq trim
title_holder rows title exclude_id =
    elim (find (λ r. title_key r.title == lower (trim_space title) && not (r.id == exclude_id))
      rows) [ none ↦ none | some r ↦ some r.id ]
