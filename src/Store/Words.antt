-- ===== src/Store/Words.antt =====
-- internal/db/memory.go and suggest.go: the full-text expressions `sanitizeFTSQuery` and `ftsOrQuery`.
-- The letters and numbers are those of ASCII.
pub mod Quoted
use rekam.Prelude.{
  ℕ, Text, codes, Bool, true, false, ◌&&◌, ◌||◌, List, [], ◌∷◌, ◌++◌, map, leb, is_empty,
  if◌then◌else◌,
}

abbrev pub is_letter_or_number : ℕ → Bool
is_letter_or_number c =
    (leb b'a' c && leb c b'z') || ((leb b'A' c && leb c b'Z') || (leb b'0' c && leb c b'9'))

abbrev pub add_word : Text → List Text → List Text
add_word w ws = if is_empty w then ws else w ∷ ws

-- strings.FieldsFunc, with the word that is being read
unfoldable pub fields_from : Text → Text → List Text
fields_from w [] = add_word w []
fields_from w (c ∷ cs) =
    let inside = fields_from (w ++ c ∷ []) cs in
    let outside = fields_from [] cs in if is_letter_or_number c then inside else add_word w outside

unfoldable pub fields : Text → List Text
unfolding fields_from
fields s = fields_from [] s

abbrev pub quoted : Text → Text
quoted w = b'"' ∷ (w ++ b'"' ∷ [])

-- strings.Join
unfoldable pub join : Text → List Text → Text
join sep [] = []
join sep (w ∷ []) = w
join sep (w ∷ v ∷ ws) = w ++ (sep ++ join sep (v ∷ ws))

unfoldable pub sanitize_fts_query : Text → Text
unfolding join fields
sanitize_fts_query q = join (codes " ") (map quoted (fields q))

unfoldable pub fts_or_query : Text → Text
unfolding join fields
fts_or_query s = join (codes " OR ") (map quoted (fields s))
