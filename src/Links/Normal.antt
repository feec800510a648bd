-- ===== src/Links/Normal.antt =====
-- `normalizeLink` of internal/db/links.go gives a normal form.
use rekam.Prelude.{
  ℕ, Text, Bool, true, false, ◌&&◌, [], ◌∷◌, ◌≡◌, refl, ◌∙◌, inl, inr, arith, to_lower, lower,
  is_space, trim, trim_left, trim_right, is_empty, Bool-cases, All,
}
use rekam.Links.{is_ascii_space, collapse, normalize_link}

-- Every white space of ASCII is a single blank; the flag says whether a blank stands in front.
abbrev pub IsCollapsed : Bool → Text → Type 0
IsCollapsed spaced [] = Unit
IsCollapsed spaced (c ∷ cs) =
    (is_ascii_space c ≡ true → (c ≡ b' ') × (spaced ≡ false)) × IsCollapsed (is_ascii_space c) cs

abbrev pub IsLower : ℕ → Type 0
IsLower c = to_lower c ≡ c

to_lower_idem : (c : ℕ) → to_lower (to_lower c) ≡ to_lower c
to_lower_idem c = ground arith

is_space-to_lower : (c : ℕ) → is_space (to_lower c) ≡ is_space c
is_space-to_lower c = ground arith

is_ascii_space-to_lower : (c : ℕ) → is_ascii_space (to_lower c) ≡ is_ascii_space c
is_ascii_space-to_lower c = ground arith

space_of_ascii : (c : ℕ) → is_ascii_space c ≡ true → (is_space c ≡ true) × (to_lower c ≡ c)
space_of_ascii c h = ground arith

lower-IsLower : (s : Text) → All IsLower (lower s)
lower-IsLower [] = tt
lower-IsLower (c ∷ cs) = (to_lower_idem c, lower-IsLower cs)

lower_fixed : (s : Text) → All IsLower s → lower s ≡ s
lower_fixed [] h = refl
lower_fixed (c ∷ cs) h = cc (h.0, lower_fixed cs h.1)

collapse-IsCollapsed : (b : Bool) (s : Text) → IsCollapsed b (collapse b s)
unfolding collapse
collapse-IsCollapsed b [] = tt
collapse-IsCollapsed true (c ∷ cs) = elim (Bool-cases (is_ascii_space c)) [
  | inl y ↦ rw y (collapse-IsCollapsed true cs)
  | inr n ↦ rw n ((λ h. absurd (cc)), rw n (collapse-IsCollapsed false cs))
]
collapse-IsCollapsed false (c ∷ cs) = elim (Bool-cases (is_ascii_space c)) [
  | inl y ↦ rw y ((λ _. (refl, refl)), collapse-IsCollapsed true cs)
  | inr n ↦ rw n ((λ h. absurd (cc)), rw n (collapse-IsCollapsed false cs))
]

collapse_fixed : (b : Bool) (s : Text) → IsCollapsed b s → collapse b s ≡ s
unfolding collapse
collapse_fixed b [] h = refl
collapse_fixed b (c ∷ cs) h = ground (arith, collapse_fixed (is_ascii_space c) cs h.1)

IsCollapsed-weaken : (s : Text) → IsCollapsed true s → IsCollapsed false s
IsCollapsed-weaken [] h = tt
IsCollapsed-weaken (c ∷ cs) h = ground arith

IsCollapsed-trim_left :
    (b : Bool) (s : Text) → IsCollapsed b s → IsCollapsed false (trim_left is_space s)
unfolding trim_left
IsCollapsed-trim_left b [] h = tt
IsCollapsed-trim_left b (c ∷ cs) h = elim (Bool-cases (is_space c)) [
  | inl y ↦ rw y (IsCollapsed-trim_left (is_ascii_space c) cs h.1)
  | inr n ↦ rw n ((λ q. ((h.0 q).0, refl)), h.1)
]

IsCollapsed-trim_right :
    (b : Bool) (s : Text) → IsCollapsed b s → IsCollapsed b (trim_right is_space s)
unfolding trim_right
IsCollapsed-trim_right b [] h = tt
IsCollapsed-trim_right b (c ∷ cs) h =
    elim (Bool-cases (is_space c && is_empty (trim_right is_space cs))) [
      | inl y ↦ rw y tt
      | inr n ↦ rw n (h.0, IsCollapsed-trim_right (is_ascii_space c) cs h.1)
    ]

IsCollapsed-lower : (b : Bool) (s : Text) → IsCollapsed b s → IsCollapsed b (lower s)
IsCollapsed-lower b [] h = tt
IsCollapsed-lower b (c ∷ cs) h = rw is_ascii_space-to_lower (
  (λ q. ((space_of_ascii c q).1 ∙ (h.0 q).0, (h.0 q).1)),
  IsCollapsed-lower (is_ascii_space c) cs h.1,
)

-- No white space at either end.
abbrev pub HeadIsSolid : Text → Type 0
HeadIsSolid [] = Unit
HeadIsSolid (c ∷ cs) = is_space c ≡ false

abbrev pub LastIsSolid : Text → Type 0
LastIsSolid [] = Unit
LastIsSolid (c ∷ []) = is_space c ≡ false
LastIsSolid (c ∷ d ∷ cs) = LastIsSolid (d ∷ cs)

trim_left-HeadIsSolid : (s : Text) → HeadIsSolid (trim_left is_space s)
unfolding trim_left
trim_left-HeadIsSolid [] = tt
trim_left-HeadIsSolid (c ∷ cs) = elim (Bool-cases (is_space c)) [
  | inl y ↦ rw y (trim_left-HeadIsSolid cs)
  | inr n ↦ rw n n
]

trim_right-HeadIsSolid : (s : Text) → HeadIsSolid s → HeadIsSolid (trim_right is_space s)
unfolding trim_right
trim_right-HeadIsSolid [] h = tt
trim_right-HeadIsSolid (c ∷ cs) h = rw h h

LastIsSolid-cons :
    (c : ℕ) (s : Text) → LastIsSolid s → (is_space c && is_empty s) ≡ false → LastIsSolid (c ∷ s)
LastIsSolid-cons c [] h k = ground arith
LastIsSolid-cons c (d ∷ s) h k = h

trim_right-LastIsSolid : (s : Text) → LastIsSolid (trim_right is_space s)
unfolding trim_right
trim_right-LastIsSolid [] = tt
trim_right-LastIsSolid (c ∷ cs) =
    elim (Bool-cases (is_space c && is_empty (trim_right is_space cs))) [
      | inl y ↦ rw y tt
      | inr n ↦ rw n (LastIsSolid-cons c (trim_right is_space cs) (trim_right-LastIsSolid cs) n)
    ]

trim_right_fixed : (s : Text) → LastIsSolid s → trim_right is_space s ≡ s
unfolding trim_right
trim_right_fixed [] h = refl
trim_right_fixed (c ∷ []) h = rw h
trim_right_fixed (c ∷ d ∷ cs) h = ground (arith, trim_right_fixed (d ∷ cs) h)

trim_left_fixed : (s : Text) → HeadIsSolid s → trim_left is_space s ≡ s
unfolding trim_left
trim_left_fixed [] h = refl
trim_left_fixed (c ∷ cs) h = rw h

HeadIsSolid-lower : (s : Text) → HeadIsSolid s → HeadIsSolid (lower s)
HeadIsSolid-lower [] h = tt
HeadIsSolid-lower (c ∷ cs) h = is_space-to_lower c ∙ h

LastIsSolid-lower : (s : Text) → LastIsSolid s → LastIsSolid (lower s)
LastIsSolid-lower [] h = tt
LastIsSolid-lower (c ∷ []) h = is_space-to_lower c ∙ h
LastIsSolid-lower (c ∷ d ∷ cs) h = LastIsSolid-lower (d ∷ cs) h

-- The form of a link target: lower case, single blanks, none at an end.
pub record IsNormal (s : Text) : Type 0 where
  pub lowered : All IsLower s
  pub collapsed : IsCollapsed false s
  pub head : HeadIsSolid s
  pub last : LastIsSolid s

pub normalize_link-IsNormal : (s : Text) → IsNormal (normalize_link s)
unfolding normalize_link trim
normalize_link-IsNormal s =
    let c = collapse false s in
    let l = trim_left is_space c in
    let r = trim_right is_space l in
    record {
      lowered = lower-IsLower r;
      collapsed = IsCollapsed-lower false r (
          IsCollapsed-trim_right false l
            (IsCollapsed-trim_left false c (collapse-IsCollapsed false s)));
      head = HeadIsSolid-lower r (trim_right-HeadIsSolid l (trim_left-HeadIsSolid c));
      last = LastIsSolid-lower r (trim_right-LastIsSolid l);
    }

pub normalize_link_fixed : (s : Text) → IsNormal s → normalize_link s ≡ s
unfolding normalize_link trim
normalize_link_fixed s h =
    rw (collapse_fixed false s h.collapsed, trim_left_fixed s h.head, trim_right_fixed s h.last)
      (lower_fixed s h.lowered)

-- A link target is in normal form, a text in normal form is left as it is, and so normalizing twice
-- changes nothing.
pub normalize_link_idem :
    (s : Text)
    → IsNormal (normalize_link s) × (normalize_link (normalize_link s) ≡ normalize_link s)
normalize_link_idem s =
    (normalize_link-IsNormal s, normalize_link_fixed (normalize_link s) (normalize_link-IsNormal s))
