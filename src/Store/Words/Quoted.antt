-- ===== src/Store/Words/Quoted.antt =====
-- internal/db/memory.go: what a full-text expression is made of.
use rekam.Prelude.{
  Text, codes, Bool, true, false, not, ◌&&◌, List, [], ◌∷◌, ◌++◌, map, is_empty, ◌≡◌, refl, ◌∙◌,
  All, All-append, any, Bool-cases, inl, inr,
}
use rekam.Store.Words.{
  is_letter_or_number, add_word, fields_from, fields, quoted, join, sanitize_fts_query,
}

abbrev pub IsWord : Text → Type 0
IsWord w = (is_empty w ≡ false) × All (λ c. is_letter_or_number c ≡ true) w

add_word-IsWord :
    (w : Text) (ws : List Text)
    → All (λ c. is_letter_or_number c ≡ true) w
    → All IsWord ws
    → All IsWord (add_word w ws)
add_word-IsWord [] ws h k = k
add_word-IsWord (c ∷ cs) ws h k = ((refl, h), k)

fields_from-IsWord :
    (w s : Text) → All (λ c. is_letter_or_number c ≡ true) w → All IsWord (fields_from w s)
unfolding fields_from
fields_from-IsWord w [] h = add_word-IsWord w [] h tt
fields_from-IsWord w (c ∷ cs) h = elim (Bool-cases (is_letter_or_number c)) [
  | inl y ↦ rw y (
      fields_from-IsWord (w ++ c ∷ []) cs
        ((All-append (λ x. is_letter_or_number x ≡ true) w (c ∷ [])).1 (h, (y, tt))))
  | inr n ↦ rw n (add_word-IsWord w (fields_from [] cs) h (fields_from-IsWord [] cs tt))
]

-- some character of a text is a letter or a number
unfoldable pub has_word : Text → Bool
unfolding any
has_word s = any (λ c. is_letter_or_number c) s

fields_from-empty : (w s : Text) → is_empty (fields_from w s) ≡ (is_empty w && not (has_word s))
unfolding fields_from has_word any
fields_from-empty [] [] = refl
fields_from-empty (x ∷ w) [] = refl
fields_from-empty [] (c ∷ cs) = elim (Bool-cases (is_letter_or_number c)) [
  | inl y ↦ rw y (fields_from-empty (c ∷ []) cs)
  | inr n ↦ rw n (fields_from-empty [] cs)
]
fields_from-empty (x ∷ w) (c ∷ cs) = elim (Bool-cases (is_letter_or_number c)) [
  | inl y ↦ rw y (fields_from-empty (x ∷ (w ++ c ∷ [])) cs)
  | inr n ↦ rw n refl
]

join-empty : (sep : Text) (ws : List Text) → is_empty (join sep (map quoted ws)) ≡ is_empty ws
unfolding join
join-empty sep [] = refl
join-empty sep (w ∷ []) = refl
join-empty sep (w ∷ v ∷ ws) = refl

-- The words of a query are quoted one by one and joined by blanks: each is not empty and has
-- only letters and numbers, so no operator and no quote, and the expression is empty exactly if the
-- query has neither a letter nor a number.
pub query_is_quoted_words :
    (q : Text)
    → (sanitize_fts_query q ≡ join (codes " ") (map quoted (fields q)))
      × (All IsWord (fields q) × (is_empty (sanitize_fts_query q) ≡ not (has_word q)))
unfolding sanitize_fts_query fields
query_is_quoted_words q = (
  refl,
  (fields_from-IsWord [] q tt, join-empty (codes " ") (fields_from [] q) ∙ fields_from-empty [] q),
)
