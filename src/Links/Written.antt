-- ===== src/Links/Written.antt =====
-- A link that is written out in a text is read back by `parseLinks` of internal/db/links.go.
use rekam.Prelude.{
  ℕ, zero, ◌+◌, Text, codes, false, List, [], ◌∷◌, ◌++◌, ◌≡◌, ◌≢◌, refl, sym, ap, ◌∙◌, subst, inl,
  inr, arith, Option, none, some, text_eq, any, In, All, All-append, is_empty, drop,
}
use rekam.Links.{
  ParsedLink, relates, depends_on, supersedes, contradicts, valid_rels, remove_all, fenced_code,
  inline_code, is_bracket, unbracketed, length_of, wiki_link, find_links, split_rel, collect,
  parse_links,
}
use rekam.Links.Normal.{IsNormal, normalize_link_fixed}
use rekam.Links.Parsed.{IsLink}

-- Characters with no role in the syntax of links and of code.
abbrev pub IsProse : ℕ → Type 0
IsProse c = (is_bracket c ≡ false) × (c ≢ b'`')

abbrev pub written : ParsedLink → Text
written l = codes "[[" ++ l.rel ++ (codes "::" ++ (l.raw ++ codes "]]"))

-- the first character of a fence or of a code span
abbrev StartsAtBacktick : (Text → Option ℕ) → Type 0
StartsAtBacktick match = (c : ℕ) (cs : Text) → c ≢ b'`' → match (c ∷ cs) ≡ none

fenced_code_start : StartsAtBacktick fenced_code
unfolding fenced_code
fenced_code_start c cs h = ground arith

inline_code_start : StartsAtBacktick inline_code
unfolding inline_code
inline_code_start c cs h = ground arith

remove_all_none :
    (match : Text → Option ℕ)
    → StartsAtBacktick match
    → (s : Text) → All (λ c. c ≢ b'`') s
    → remove_all match zero s ≡ s
unfolding remove_all
remove_all_none match h [] k = refl
remove_all_none match h (c ∷ cs) k =
    rw (h c cs k.0, remove_all) (ap (λ (l : Text). c ∷ l) (remove_all_none match h cs k.1))

find_links-prose : (a s : Text) → All IsProse a → find_links zero (a ++ s) ≡ find_links zero s
unfolding find_links wiki_link
find_links-prose [] s h = refl
find_links-prose (c ∷ a) s h = ground (arith, find_links-prose a s)

find_links-skip : (w s : Text) → find_links (length_of w) (w ++ s) ≡ find_links zero s
unfolding find_links
find_links-skip [] s = refl
find_links-skip (c ∷ w) s = find_links-skip w s

unbracketed-append :
    (w s : Text) → All (λ c. is_bracket c ≡ false) w → unbracketed (w ++ b']' ∷ s) ≡ w
unfolding unbracketed
unbracketed-append [] s h = refl
unbracketed-append (c ∷ w) s h = rw h.0 (ap (λ (l : Text). c ∷ l) (unbracketed-append w s h.1))

drop-append : (w s : Text) → drop (length_of w) (w ++ s) ≡ s
drop-append [] s = refl
drop-append (c ∷ w) s = drop-append w s

wiki_link-written :
    (w s : Text)
    → All (λ c. is_bracket c ≡ false) w
    → w ≢ []
    → wiki_link (codes "[[" ++ (w ++ (codes "]]" ++ s))) ≡ some w
unfolding wiki_link
wiki_link-written w s h ne = rw (unbracketed-append w (b']' ∷ s) h, drop-append) (ground arith)

abbrev SplitsAt : Text → Text → Type 0
SplitsAt rel raw = split_rel (rel ++ (codes "::" ++ raw)) ≡ record { rel = rel; raw = raw }

split_rel-written : (rel raw : Text) → In rel valid_rels → IsNormal raw → SplitsAt rel raw
unfolding split_rel
split_rel-written rel raw (inl e) h =
    subst (λ r. SplitsAt r raw) (sym e)
      (ap (λ r. record { rel = relates; raw = r }) (normalize_link_fixed raw h))
split_rel-written rel raw (inr (inl e)) h =
    subst (λ r. SplitsAt r raw) (sym e)
      (ap (λ r. record { rel = depends_on; raw = r }) (normalize_link_fixed raw h))
split_rel-written rel raw (inr (inr (inl e))) h =
    subst (λ r. SplitsAt r raw) (sym e)
      (ap (λ r. record { rel = supersedes; raw = r }) (normalize_link_fixed raw h))
split_rel-written rel raw (inr (inr (inr (inl e)))) h =
    subst (λ r. SplitsAt r raw) (sym e)
      (ap (λ r. record { rel = contradicts; raw = r }) (normalize_link_fixed raw h))
split_rel-written rel raw (inr (inr (inr (inr e)))) h = absurd e

-- A relation name is prose.
known-IsProse : (rel : Text) → In rel valid_rels → All IsProse rel
known-IsProse rel (inl e) = rw e (ground arith)
known-IsProse rel (inr (inl e)) = rw e (ground arith)
known-IsProse rel (inr (inr (inl e))) = rw e (ground arith)
known-IsProse rel (inr (inr (inr (inl e)))) = rw e (ground arith)
known-IsProse rel (inr (inr (inr (inr e)))) = absurd e

append_assoc_text : (a b c : Text) → (a ++ b) ++ c ≡ a ++ (b ++ c)
append_assoc_text [] b c = refl
append_assoc_text (x ∷ a) b c = ap (λ (l : Text). x ∷ l) (append_assoc_text a b c)

length_of-append : (a b : Text) → length_of (a ++ b) ≡ length_of a + length_of b
length_of-append [] b = omega arith
length_of-append (x ∷ a) b = omega (arith, length_of-append a b)

without_brackets : (s : Text) → All IsProse s → All (λ c. is_bracket c ≡ false) s
without_brackets [] h = tt
without_brackets (c ∷ cs) h = (h.0.0, without_brackets cs h.1)

without_backticks : (s : Text) → All IsProse s → All (λ c. c ≢ b'`') s
without_backticks [] h = tt
without_backticks (c ∷ cs) h = (h.0.1, without_backticks cs h.1)

find_links-written :
    (w b : Text)
    → All (λ c. is_bracket c ≡ false) w
    → w ≢ []
    → find_links zero (codes "[[" ++ (w ++ (codes "]]" ++ b))) ≡ w ∷ find_links zero b
unfolding find_links
find_links-written w b h ne =
    let skipped = (b'[' ∷ w) ++ codes "]]" in
    let n : length_of skipped ≡ length_of w + 3 = omega (arith, length_of-append w (codes "]]")) in
    let e : find_links (length_of w + 3) (skipped ++ b) ≡ find_links zero b =
      rw (← n) (find_links-skip skipped b) in
    let g = append_assoc_text (b'[' ∷ w) (codes "]]") b in
    rw (wiki_link-written w b h ne, find_links)
      (ap (λ (r : List Text). w ∷ r) (ap (find_links (length_of w + 3)) (sym g) ∙ e))

find_links-prose_only : (b : Text) → All IsProse b → find_links zero b ≡ []
unfolding find_links wiki_link
find_links-prose_only [] h = refl
find_links-prose_only (c ∷ b) h = ground (arith, find_links-prose_only b)

collect_one :
    (l : ParsedLink) (inner : Text)
    → split_rel inner ≡ l
    → l.raw ≢ []
    → collect [] (inner ∷ []) ≡ l ∷ []
unfolding collect any
collect_one l inner e ne = rw (e, named l.raw ne)
  where
    named : (r : Text) → r ≢ [] → is_empty r ≡ false
    named [] k = absurd (k refl)
    named (c ∷ cs) k = refl

written_regroup :
    (l : ParsedLink) (b : Text)
    → written l ++ b ≡ codes "[[" ++ ((l.rel ++ (codes "::" ++ l.raw)) ++ (codes "]]" ++ b))
written_regroup l b = simp append_assoc_text

written-IsProse :
    (l : ParsedLink) → IsLink l → All IsProse l.raw → All IsProse (l.rel ++ (codes "::" ++ l.raw))
written-IsProse l h hr =
    (All-append IsProse l.rel (codes "::" ++ l.raw)).1
      (known-IsProse l.rel h.known, (All-append IsProse (codes "::") l.raw).1 (ground arith, hr))

whole_quiet :
    (a b w : Text)
    → All (λ c. c ≢ b'`') a
    → All (λ c. c ≢ b'`') b
    → All (λ c. c ≢ b'`') w
    → All (λ c. c ≢ b'`') (a ++ (codes "[[" ++ (w ++ (codes "]]" ++ b))))
whole_quiet a b w ha hb hw =
    let Q = λ (c : ℕ). c ≢ b'`' in
    (All-append Q a (codes "[[" ++ (w ++ (codes "]]" ++ b)))).1 (
      ha,
      (
        ground arith,
        (
          ground arith,
          (All-append Q w (codes "]]" ++ b)).1 (hw, (ground arith, (ground arith, hb))),
        ),
      ),
    )

inner_named : (l : ParsedLink) → IsLink l → l.rel ++ (codes "::" ++ l.raw) ≢ []
inner_named l h e = not_nil l.rel l.raw e
  where
    not_nil : (rel raw : Text) → rel ++ (codes "::" ++ raw) ≢ []
    not_nil [] raw k = cc
    not_nil (c ∷ cs) raw k = cc

-- A link of a known relation with a target in normal form, written between two texts without
-- brackets and backticks, is the one link that is read from the whole.
pub parse_links-written :
    (a b : Text) (l : ParsedLink)
    → IsLink l
    → All IsProse l.raw
    → All IsProse a
    → All IsProse b
    → parse_links (a ++ (written l ++ b)) ≡ l ∷ []
unfolding parse_links
parse_links-written a b l h hr ha hb =
    let inner = l.rel ++ (codes "::" ++ l.raw) in
    let prose = written-IsProse l h hr in
    let rest = codes "[[" ++ (inner ++ (codes "]]" ++ b)) in
    let whole = a ++ rest in
    let quiet : All (λ c. c ≢ b'`') whole =
      whole_quiet a b inner (without_backticks a ha) (without_backticks b hb)
        (without_backticks inner prose) in
    let read : find_links zero whole ≡ inner ∷ [] =
      find_links-prose a rest ha
      ∙ find_links-written inner b (without_brackets inner prose) (inner_named l h)
      ∙ ap (λ (r : List Text). inner ∷ r) (find_links-prose_only b hb) in
    ap (λ (t : Text). parse_links (a ++ t)) (written_regroup l b)
    ∙ ap (λ (t : Text). collect [] (find_links zero (remove_all inline_code zero t)))
        (remove_all_none fenced_code fenced_code_start whole quiet)
    ∙ ap (λ (t : Text). collect [] (find_links zero t))
        (remove_all_none inline_code inline_code_start whole quiet)
    ∙ ap (collect []) read
    ∙ collect_one l inner (split_rel-written l.rel l.raw h.known h.normal) h.named
