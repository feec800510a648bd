-- ===== src/Store/Read/Hidden.antt =====
-- What the reads of internal/db/memory.go disclose of a row that a scope hides.
use rekam.Prelude.{Text, false, List, some, ◌≡◌, All}
use rekam.Scope.{Scope, title_visible}
use rekam.Scope.Enforce.{IsFolded, IsPlain}
use rekam.Store.{Row, Store}

-- A memory is invisible to a scope: its taxonomy is neither readable nor title-visible, and it has
-- no letter that the database would fold.
pub data IsHidden (scope : Scope) (r : Row) : Type 0 where
  hidden_at :
      (t : Text)
      → r.taxonomy ≡ some t
      → title_visible scope t ≡ false
      → All IsFolded t
      → IsHidden scope r

-- no prefix of the scope has a character that LIKE reads as a wildcard or folds
pub data IsPlainScope (scope : Scope) : Type 0 where
  plain_scope :
      All (All IsPlain) scope.read → All (All IsPlain) scope.titles_visible → IsPlainScope scope

abbrev pub with_memories : Store → List Row → Store
with_memories s rows = record s { memories = rows }
