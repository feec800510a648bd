-- ===== src/Links/Parsed.antt =====
-- What `parseLinks` of internal/db/links.go returns, for any text and for one written link.
use rekam.Prelude.{
  zero, Text, true, false, List, [], ◌∷◌, ◌≡◌, ◌≢◌, refl, inl, inr, arith, Option, none, some, ◌==◌,
  text_eq, text_beq_iff, any, In, All, Bool-cases, is_empty, any_witness, lower, trim_space,
}
use rekam.Links.{
  ParsedLink, valid_rels, remove_all, fenced_code, inline_code, find_links, cut, is_valid_rel,
  split_rel, split_at, link_key, collect, parse_links,
}
use rekam.Links.Normal.{IsNormal, normalize_link-IsNormal}

pub record IsLink (l : ParsedLink) : Type 0 where
  pub known : In l.rel valid_rels
  pub normal : IsNormal l.raw
  pub named : l.raw ≢ []

-- No two links of the list have the same relation and target.
abbrev pub Differs : ParsedLink → ParsedLink → Type 0
Differs l m = ¬ ((l.rel ≡ m.rel) × (l.raw ≡ m.raw))

abbrev pub AllDiffer : List ParsedLink → Type 0
AllDiffer [] = Unit
AllDiffer (l ∷ ls) = All (Differs l) ls × AllDiffer ls

is_valid_rel-In : (rel : Text) → is_valid_rel rel ≡ true → In rel valid_rels
unfolding is_valid_rel
is_valid_rel-In rel h =
    let (r, i, e) = any_witness (λ r. rel == r) valid_rels h in
    let q : rel ≡ r = (text_beq_iff rel r).0 e in ground arith

module _ (inner : Text) where
  split_at-known : (o : Option (Text × Text)) → In (split_at inner o).rel valid_rels
  unfolding split_at
  split_at-known none = inl refl
  split_at-known (some (prefix, rest)) =
      elim (Bool-cases (is_valid_rel (lower (trim_space prefix)))) [
        | inl y ↦ rw y (is_valid_rel-In (lower (trim_space prefix)) y)
        | inr n ↦ rw n (inl refl)
      ]

  split_at-IsNormal : (o : Option (Text × Text)) → IsNormal (split_at inner o).raw
  unfolding split_at
  split_at-IsNormal none = normalize_link-IsNormal inner
  split_at-IsNormal (some (prefix, rest)) =
      elim (Bool-cases (is_valid_rel (lower (trim_space prefix)))) [
        | inl y ↦ rw y (normalize_link-IsNormal rest)
        | inr n ↦ rw n (normalize_link-IsNormal inner)
      ]

  split_rel-known : In (split_rel inner).rel valid_rels
  unfolding split_rel
  split_rel-known = split_at-known (cut inner)

  split_rel-IsNormal : IsNormal (split_rel inner).raw
  unfolding split_rel
  split_rel-IsNormal = split_at-IsNormal (cut inner)

named_of_not_empty : (s : Text) → is_empty s ≡ false → s ≢ []
named_of_not_empty [] h = absurd (cc)
named_of_not_empty (c ∷ cs) h = λ e. cc

collect-IsLink : (seen inners : List Text) → All IsLink (collect seen inners)
unfolding collect
collect-IsLink seen [] = tt
collect-IsLink seen (i ∷ is) = elim (Bool-cases (is_empty (split_rel i).raw)) [
  | inl y ↦ rw y (collect-IsLink seen is)
  | inr n ↦ rw n (elim (Bool-cases (any (λ k. link_key (split_rel i) == k) seen)) [
    | inl y ↦ rw y (collect-IsLink seen is)
    | inr m ↦ rw m (
      record {
        known = split_rel-known i;
        normal = split_rel-IsNormal i;
        named = named_of_not_empty _ n;
      },
      collect-IsLink (link_key (split_rel i) ∷ seen) is,
    )
  ])
]

-- the keys of what is collected are new
Unseen : List Text → ParsedLink → Type 0
Unseen seen l = any (λ k. link_key l == k) seen ≡ false

Unseen-tail :
    (k : Text) (seen : List Text) (ls : List ParsedLink)
    → All (Unseen (k ∷ seen)) ls
    → All (Unseen seen) ls
unfolding Unseen any
Unseen-tail k seen [] h = tt
Unseen-tail k seen (l ∷ ls) h = (ground arith, Unseen-tail k seen ls h.1)

collect-Unseen : (seen inners : List Text) → All (Unseen seen) (collect seen inners)
unfolding collect Unseen
collect-Unseen seen [] = tt
collect-Unseen seen (i ∷ is) = elim (Bool-cases (is_empty (split_rel i).raw)) [
  | inl y ↦ rw y (collect-Unseen seen is)
  | inr n ↦ rw n (elim (Bool-cases (any (λ k. link_key (split_rel i) == k) seen)) [
    | inl y ↦ rw y (collect-Unseen seen is)
    | inr m ↦ rw m (
      m,
      Unseen-tail (link_key (split_rel i)) seen _
          (collect-Unseen (link_key (split_rel i) ∷ seen) is),
    )
  ])
]

Unseen-Differs :
    (l : ParsedLink) (seen : List Text) (ls : List ParsedLink)
    → All (Unseen (link_key l ∷ seen)) ls
    → All (Differs l) ls
unfolding Unseen any
Unseen-Differs l seen [] h = tt
Unseen-Differs l seen (m ∷ ms) h = (
  λ (er, ew).
      let e : link_key m ≡ link_key l = cc in
      ground (arith, text_beq_iff (link_key m) (link_key l)),
  Unseen-Differs l seen ms h.1,
)

collect-AllDiffer : (seen inners : List Text) → AllDiffer (collect seen inners)
unfolding collect
collect-AllDiffer seen [] = tt
collect-AllDiffer seen (i ∷ is) = elim (Bool-cases (is_empty (split_rel i).raw)) [
  | inl y ↦ rw y (collect-AllDiffer seen is)
  | inr n ↦ rw n (elim (Bool-cases (any (λ k. link_key (split_rel i) == k) seen)) [
    | inl y ↦ rw y (collect-AllDiffer seen is)
    | inr m ↦ rw m (
      Unseen-Differs (split_rel i) seen _ (collect-Unseen (link_key (split_rel i) ∷ seen) is),
      collect-AllDiffer (link_key (split_rel i) ∷ seen) is,
    )
  ])
]

-- Every link that a text yields has one of the four relations and a target in normal form that is
-- not empty, and no two of them have the same relation and target.
pub parse_links_sound :
    (content : Text) → All IsLink (parse_links content) × AllDiffer (parse_links content)
unfolding parse_links
parse_links_sound content =
    let stripped = remove_all fenced_code zero content in
    let groups = find_links zero (remove_all inline_code zero stripped) in
    (collect-IsLink [] groups, collect-AllDiffer [] groups)
