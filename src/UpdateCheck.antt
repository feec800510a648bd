-- ===== src/UpdateCheck.antt =====
-- internal/updatecheck/updatecheck.go: versions and the local comparison with the manifest.
pub mod Order
use rekam.Prelude.{
  ℕ, zero, suc, ◌+◌, ◌-◌, ◌*◌, ◌^◌, Text, codes, Bool, true, false, ◌&&◌, ◌||◌, not, List, [], ◌∷◌,
  ◌++◌, Option, none, some, ◌==◌, text_eq, text_beq, nat_eq, ltb, leb, nat_beq, find, is_empty,
  trim_space, if◌then◌else◌,
}

-- strings.TrimPrefix of "v"
abbrev pub trim_v : Text → Text
trim_v [] = []
trim_v (c ∷ cs) = if nat_beq c b'v' then cs else c ∷ cs

-- the text in front of the first `-` or `+`
unfoldable pub base : Text → Text
base [] = []
base (c ∷ cs) = let rest = base cs in if nat_beq c b'-' || nat_beq c b'+' then [] else c ∷ rest

abbrev pub cons_part : ℕ → List Text → List Text
cons_part c [] = (c ∷ []) ∷ []
cons_part c (p ∷ ps) = (c ∷ p) ∷ ps

-- strings.Split at dots
unfoldable pub split_dots : Text → List Text
split_dots [] = [] ∷ []
split_dots (c ∷ cs) =
    let rest = split_dots cs in if nat_beq c b'.' then [] ∷ rest else cons_part c rest

unfoldable pub digits : ℕ → Text → Option ℕ
digits n [] = some n
digits n (c ∷ cs) =
    let rest = digits (n * 10 + (c - b'0')) cs in if leb b'0' c && leb c b'9' then rest else none

-- an int of 64 bits
abbrev pub in_range : Option ℕ → Option ℕ
in_range none = none
in_range (some n) = if ltb n (2 ^ 63) then some n else none

-- strconv.Atoi of a text without a sign: `base` has cut off what begins with one
unfoldable pub atoi : Text → Option ℕ
unfolding digits
atoi s = if is_empty s then none else in_range (digits 0 s)

pub record Version : Type 0 where
  pub major : ℕ
  pub minor : ℕ
  pub patch : ℕ

abbrev pub version_of : Option ℕ → Option ℕ → Option ℕ → Option Version
version_of (some x) (some y) (some z) = some (record { major = x; minor = y; patch = z })
version_of _ _ _ = none

unfoldable pub of_parts : List Text → Option Version
unfolding atoi
of_parts (a ∷ b ∷ c ∷ []) = version_of (atoi a) (atoi b) (atoi c)
of_parts _ = none

unfoldable pub parse : Text → Option Version
unfolding of_parts split_dots base
parse v = of_parts (split_dots (base (trim_v (trim_space v))))

pub data Ordering : Type 0 where
  older same newer : Ordering

abbrev pub compare_numbers : ℕ → ℕ → Ordering → Ordering
compare_numbers a b next = if a == b then next else if ltb a b then older else newer

-- the loop over the three numbers
unfoldable pub compare_parsed : Version → Version → Ordering
compare_parsed a b =
    compare_numbers a.major b.major
      (compare_numbers a.minor b.minor (compare_numbers a.patch b.patch same))

unfoldable pub both : Option Version → Option Version → Option Ordering
unfolding compare_parsed
both (some a) (some b) = some (compare_parsed a b)
both _ _ = none

unfoldable pub compare_versions : Text → Text → Option Ordering
unfolding parse both
compare_versions a b = both (parse a) (parse b)

abbrev pub is_older : Option Ordering → Bool
is_older (some older) = true
is_older _ = false

pub record Release : Type 0 where
  pub latest : Text
  pub min_supported : Text
  pub security : Bool
  pub notes : Text

pub record Report : Type 0 where
  pub available : Bool
  pub security : Bool
  pub unsupported : Bool
  pub current : Text
  pub latest : Text
  pub notes : Text

abbrev pub silent : Report
silent = record {
  available = false;
  security = false;
  unsupported = false;
  current = [];
  latest = [];
  notes = [];
}

unfoldable pub report : Release → Text → Report
unfolding compare_versions
report rel current =
    let old = is_older (compare_versions current rel.latest) in
    record {
      available = old;
      security = old && rel.security;
      unsupported =
          not (is_empty rel.min_supported) && is_older (compare_versions current rel.min_supported);
      current = current;
      latest = rel.latest;
      notes = rel.notes;
    }

unfoldable pub release_of : List (Text × Release) → Text → Option (Text × Release)
unfolding find text_beq
release_of m edition = find (λ r. r.0 == edition) m

unfoldable pub compare_release : Option (Text × Release) → Text → Report
unfolding report
compare_release none current = silent
compare_release (some (edition, rel)) current =
    if is_empty rel.latest then silent else report rel current

-- `Compare`
unfoldable pub compare_manifest : List (Text × Release) → Text → Text → Report
unfolding release_of compare_release
compare_manifest m edition current = compare_release (release_of m edition) current
