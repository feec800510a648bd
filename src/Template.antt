-- ===== src/Template.antt =====
-- internal/db/taxonomy_template.go: the branches that a corpus declares.
pub mod Saved
use rekam.Prelude.{
  ℕ, suc, zero, ◌+◌, Text, Bool, true, false, ◌&&◌, ◌||◌, not, List, [], ◌∷◌, ◌++◌, map, ◌==◌,
  text_eq, text_beq, nat_eq, ltb, any, update_where, is_empty, length, if◌then◌else◌,
}
use rekam.Store.Read.{text_ltb}
use rekam.Store.Health.{sort_by}

pub record TemplateBranch : Type 0 where
  pub path : Text
  pub description : Text
  pub sort : ℕ

-- ORDER BY sort, path
unfoldable pub taxonomy_template : List TemplateBranch → List TemplateBranch
unfolding sort_by text_ltb
taxonomy_template rows =
    sort_by (λ a b. ltb a.sort b.sort || (a.sort == b.sort && text_ltb a.path b.path)) rows

unfoldable pub has_taxonomy_template : List TemplateBranch → Bool
has_taxonomy_template rows = ltb 0 (length rows)

-- INSERT … ON CONFLICT(path) DO UPDATE
unfoldable pub upsert : List TemplateBranch → TemplateBranch → List TemplateBranch
unfolding any update_where text_beq
upsert rows b =
    if any (λ r. r.path == b.path) rows
    then update_where (λ r. r.path == b.path) (λ r. b) rows
    else rows ++ b ∷ []

-- the loop over the branches from a position on
unfoldable pub save_from : ℕ → List TemplateBranch → List TemplateBranch → List TemplateBranch
unfolding upsert
save_from i [] rows = rows
save_from i (b ∷ bs) rows =
    save_from (suc i) bs (if is_empty b.path then rows else upsert rows (record b { sort = i }))

unfoldable pub set_taxonomy_template : List TemplateBranch → List TemplateBranch
unfolding save_from
set_taxonomy_template branches = save_from 0 branches []
