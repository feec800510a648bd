-- ===== src/Links.antt =====
-- internal/db/links.go: the typed wiki-links of a markdown text. A regular expression is a function
-- that gives the length of its match at the start of a text; the loops that replace or collect all
-- matches step over a match character by character, so they recur on the text and need no fuel.
pub mod Normal
pub mod Parsed
pub mod Written
use rekam.Prelude.{
  ℕ, zero, suc, ◌+◌, ◌-◌, Text, codes, Bool, true, false, ◌&&◌, ◌||◌, not, List, [], ◌∷◌, ◌++◌,
  Option, none, some, ◌==◌, nat_beq, text_eq, nat_eq, text_beq, starts_with, index_of, lower, trim,
  trim_space, take, drop, is_empty, any, if◌then◌else◌, leb,
}

abbrev pub relates : Text
relates = codes "relates"

abbrev pub depends_on : Text
depends_on = codes "depends-on"

abbrev pub supersedes : Text
supersedes = codes "supersedes"

abbrev pub contradicts : Text
contradicts = codes "contradicts"

abbrev pub valid_rels : List Text
valid_rels = relates ∷ depends_on ∷ supersedes ∷ contradicts ∷ []

pub record ParsedLink : Type 0 where
  pub rel : Text
  pub raw : Text

-- ReplaceAllString(s, "") for a match that is not empty. The number is what is left of a match.
unfoldable pub remove_all : (Text → Option ℕ) → ℕ → Text → Text
remove_all match skip [] = []
remove_all match (suc skip) (c ∷ cs) = remove_all match skip cs
remove_all match zero (c ∷ cs) = elim (match (c ∷ cs)) [
  | none ↦ c ∷ remove_all match zero cs
  | some n ↦ remove_all match (n - 1) cs
]

abbrev pub fence : Text
fence = codes "```"

-- (?s)```.*?```
unfoldable pub fenced_code : Text → Option ℕ
unfolding starts_with index_of
fenced_code s =
    if starts_with s fence
    then elim (index_of fence (drop 3 s)) [ none ↦ none | some n ↦ some (n + 6) ]
    else none

-- `[^`]*`
unfoldable pub inline_code : Text → Option ℕ
unfolding starts_with index_of
inline_code s =
    if starts_with s (codes "`")
    then elim (index_of (codes "`") (drop 1 s)) [ none ↦ none | some n ↦ some (n + 2) ]
    else none

abbrev pub is_bracket : ℕ → Bool
is_bracket c = nat_beq c b'[' || nat_beq c b']'

-- [^\[\]]*, the longest match
unfoldable pub unbracketed : Text → Text
unbracketed [] = []
unbracketed (c ∷ cs) = if is_bracket c then [] else c ∷ unbracketed cs

abbrev pub length_of : Text → ℕ
length_of [] = 0
length_of (c ∷ cs) = suc (length_of cs)

-- \[\[([^\[\]]+)\]\], the text of its group
unfoldable pub wiki_link : Text → Option Text
unfolding starts_with unbracketed
wiki_link s =
    let inner = unbracketed (drop 2 s) in
    if starts_with s (codes "[[")
      && not (is_empty inner)
      && starts_with (drop (length_of inner) (drop 2 s)) (codes "]]")
    then some inner
    else none

-- FindAllStringSubmatch, the groups in order
unfoldable pub find_links : ℕ → Text → List Text
unfolding wiki_link
find_links skip [] = []
find_links (suc skip) (c ∷ cs) = find_links skip cs
find_links zero (c ∷ cs) = elim (wiki_link (c ∷ cs)) [
  | none ↦ find_links zero cs
  | some inner ↦ inner ∷ find_links (length_of inner + 3) cs
]

-- \s, which knows ASCII only
abbrev pub is_ascii_space : ℕ → Bool
is_ascii_space c = nat_beq c 9 || nat_beq c 10 || nat_beq c 12 || nat_beq c 13 || nat_beq c 32

-- whitespaceRE.ReplaceAllString(s, " "); the flag says whether the last character was a space
unfoldable pub collapse : Bool → Text → Text
collapse spaced [] = []
collapse spaced (c ∷ cs) =
    let rest = collapse (is_ascii_space c) cs in
    if is_ascii_space c then (if spaced then rest else b' ' ∷ rest) else c ∷ rest

unfoldable pub normalize_link : Text → Text
unfolding collapse trim
normalize_link s = lower (trim_space (collapse false s))

-- strings.Cut(s, "::")
unfoldable pub cut : Text → Option (Text × Text)
unfolding index_of
cut s = elim (index_of (codes "::") s) [ none ↦ none | some n ↦ some (take n s, drop (n + 2) s) ]

unfoldable pub is_valid_rel : Text → Bool
unfolding any text_beq
is_valid_rel rel = any (λ r. rel == r) valid_rels

-- `splitRel` behind its call of `strings.Cut`
unfoldable pub split_at : Text → Option (Text × Text) → ParsedLink
unfolding normalize_link is_valid_rel
split_at inner none = record { rel = relates; raw = normalize_link inner }
split_at inner (some (prefix, rest)) =
    let candidate = lower (trim_space prefix) in
    if is_valid_rel candidate
    then record { rel = candidate; raw = normalize_link rest }
    else record { rel = relates; raw = normalize_link inner }

unfoldable pub split_rel : Text → ParsedLink
unfolding split_at cut
split_rel inner = split_at inner (cut inner)

abbrev pub link_key : ParsedLink → Text
link_key l = l.rel ++ (0 ∷ l.raw)

-- The loop of `parseLinks` over the groups; `seen` holds the keys of the links found so far.
unfoldable pub collect : List Text → List Text → List ParsedLink
unfolding split_rel any text_beq
collect seen [] = []
collect seen (inner ∷ rest) =
    let link = split_rel inner in
    let skipped = collect seen rest in
    let kept = collect (link_key link ∷ seen) rest in
    if is_empty link.raw
    then skipped
    else if any (λ k. link_key link == k) seen
    then skipped
    else link ∷ kept

unfoldable pub parse_links : Text → List ParsedLink
unfolding remove_all fenced_code inline_code find_links collect
parse_links content =
    let stripped = remove_all fenced_code zero content in
    collect [] (find_links zero (remove_all inline_code zero stripped))
