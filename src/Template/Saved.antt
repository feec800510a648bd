-- ===== src/Template/Saved.antt =====
-- internal/db/taxonomy_template.go: which branches a saved template holds.
use rekam.Prelude.{
  ℕ, suc, Text, Bool, true, false, ◌&&◌, ◌||◌, not, List, [], ◌∷◌, ◌++◌, ◌≡◌, refl, sym, ap, ◌∙◌,
  subst, arith, ◌==◌, text_eq, text_beq, text_beq_iff, any, any-append, count, ◌+◌, ◌≤◌,
  update_where, is_empty, if◌then◌else◌, Bool-cases, inl, inr,
}
use rekam.Template.{TemplateBranch, upsert, save_from, set_taxonomy_template}

has_path : Text → List TemplateBranch → Bool
unfolding any text_beq
has_path p rows = any (λ r. r.path == p) rows

any-replaced :
    (p : Text) (b : TemplateBranch) (rows : List TemplateBranch)
    → has_path p (update_where (λ r. r.path == b.path) (λ r. b) rows) ≡ has_path p rows
unfolding has_path update_where any
any-replaced p b [] = refl
any-replaced p b (r ∷ rs) = ground (arith, any-replaced p b rs, text_beq_iff r.path b.path)

has_path-known :
    (p : Text) (b : TemplateBranch) (rows : List TemplateBranch)
    → has_path b.path rows ≡ true
    → has_path p rows ≡ (has_path p rows || (b.path == p))
unfolding has_path
has_path-known p b rows h = elim (Bool-cases (b.path == p)) [
  | inl y ↦
      rw (y, subst (λ q. any (λ r. r.path == q) rows ≡ true) ((text_beq_iff b.path p).0 y) h) refl
  | inr n ↦ rw n (ground arith)
]

any-upsert :
    (p : Text) (b : TemplateBranch) (rows : List TemplateBranch)
    → has_path p (upsert rows b) ≡ (has_path p rows || (b.path == p))
unfolding upsert has_path
any-upsert p b rows = elim (Bool-cases (any (λ r. r.path == b.path) rows)) [
  | inl y ↦ rw y (any-replaced p b rows ∙ has_path-known p b rows y)
  | inr n ↦ rw n (ground (arith, any-append (λ r. r.path == p) rows (b ∷ [])))
]

path_count : Text → List TemplateBranch → ℕ
unfolding count text_beq
path_count p rows = count (λ r. r.path == p) rows

count-replaced :
    (p : Text) (b : TemplateBranch) (rows : List TemplateBranch)
    → path_count p (update_where (λ r. r.path == b.path) (λ r. b) rows) ≡ path_count p rows
unfolding path_count update_where count
count-replaced p b [] = refl
count-replaced p b (r ∷ rs) = elim (Bool-cases (r.path == b.path)) [
  | inl y ↦
      rw (y, sym ((text_beq_iff r.path b.path).0 y))
        (ap (λ n. (if r.path == p then 1 else 0) + n) (count-replaced p b rs))
  | inr n ↦ rw n (ap (λ m. (if r.path == p then 1 else 0) + m) (count-replaced p b rs))
]

count-append_one :
    (p : Text) (b : TemplateBranch) (rows : List TemplateBranch)
    → path_count p (rows ++ b ∷ []) ≡ path_count p rows + (if b.path == p then 1 else 0)
unfolding path_count count
count-append_one p b [] = ground arith
count-append_one p b (r ∷ rs) = ground (arith, count-append_one p b rs)

count-absent :
    (p : Text) (rows : List TemplateBranch) → has_path p rows ≡ false → path_count p rows ≡ 0
unfolding path_count count has_path any
count-absent p [] h = refl
count-absent p (r ∷ rs) h = ground (arith, count-absent p rs)

count-appended :
    (p : Text) (b : TemplateBranch) (rows : List TemplateBranch)
    → has_path b.path rows ≡ false
    → path_count p rows ≤ 1
    → path_count p (rows ++ b ∷ []) ≤ 1
count-appended p b rows h k = elim (Bool-cases (b.path == p)) [
  | inl y ↦
      let z : path_count p rows ≡ 0 =
        count-absent p rows
          (subst (λ q. has_path q rows ≡ false) ((text_beq_iff b.path p).0 y) h) in
      rw (count-append_one p b rows, y, z) (ground arith)
  | inr n ↦ rw (count-append_one p b rows, n) (ground (arith, k))
]

count-upsert :
    (p : Text) (b : TemplateBranch) (rows : List TemplateBranch)
    → path_count p rows ≤ 1
    → path_count p (upsert rows b) ≤ 1
unfolding upsert has_path
count-upsert p b rows k = elim (Bool-cases (any (λ r. r.path == b.path) rows)) [
  | inl y ↦ rw y (subst (λ n. n ≤ 1) (sym (count-replaced p b rows)) k)
  | inr n ↦ rw n (count-appended p b rows n k)
]

count-save_from :
    (p : Text) (i : ℕ) (bs rows : List TemplateBranch)
    → path_count p rows ≤ 1
    → path_count p (save_from i bs rows) ≤ 1
unfolding save_from
count-save_from p i [] rows k = k
count-save_from p i (b ∷ bs) rows k = elim (Bool-cases (is_empty b.path)) [
  | inl y ↦ rw y (count-save_from p (suc i) bs rows k)
  | inr n ↦ rw n (
      count-save_from p (suc i) bs (upsert rows (record b { sort = i }))
        (count-upsert p (record b { sort = i }) rows k))
]

empty-path : (p q : Text) → (q == p) ≡ true → is_empty q ≡ is_empty p
empty-path p q h = ap is_empty ((text_beq_iff q p).0 h)

has_path-save_from :
    (p : Text) (i : ℕ) (bs rows : List TemplateBranch)
    → has_path p (save_from i bs rows) ≡ (has_path p rows || (not (is_empty p) && has_path p bs))
unfolding save_from has_path any
has_path-save_from p i [] rows = ground arith
has_path-save_from p i (b ∷ bs) rows = elim (Bool-cases (is_empty b.path)) [
  | inl y ↦ rw y (has_path-save_from p (suc i) bs rows ∙ ground (arith, y, empty-path p b.path))
  | inr n ↦ rw n (
      has_path-save_from p (suc i) bs (upsert rows (record b { sort = i }))
      ∙ ground (arith, n, any-upsert p (record b { sort = i }) rows, empty-path p b.path))
]

-- A saved template holds a path exactly if it is not empty and one of the given branches has it, and
-- holds each path at most once.
pub set_template_lem :
    (p : Text) (branches : List TemplateBranch)
    → (any (λ r. r.path == p) (set_taxonomy_template branches)
        ≡ (not (is_empty p) && any (λ r. r.path == p) branches))
      × (count (λ r. r.path == p) (set_taxonomy_template branches) ≤ 1)
unfolding set_taxonomy_template has_path path_count
set_template_lem p branches =
    (has_path-save_from p 0 branches [], count-save_from p 0 branches [] (ground arith))
