-- ===== src/UpdateCheck/Order.antt =====
-- internal/updatecheck/updatecheck.go: the order of versions, and when a report speaks.
use rekam.Prelude.{
  Text, true, false, List, Option, none, some, ◌≡◌, refl, sym, ap, ◌∙◌, subst, arith, nat_eq,
  Bool-cases, inl, inr, is_empty,
}
use rekam.UpdateCheck.{
  Version, parse, Ordering, older, same, newer, compare_parsed, both, compare_versions, is_older,
  Release, report, release_of, compare_release, compare_manifest,
}

compare_parsed_trans :
    (a b c : Version)
    → compare_parsed a b ≡ older
    → compare_parsed b c ≡ older
    → compare_parsed a c ≡ older
unfolding compare_parsed
compare_parsed_trans a b c p q = ground (arith, p, q)

compare_parsed-flip : (a b : Version) → compare_parsed a b ≡ older → compare_parsed b a ≡ newer
unfolding compare_parsed
compare_parsed-flip a b p = ground (arith, p)

both-older :
    (a b : Option Version)
    → both a b ≡ some older
    → (x : Version) × ((y : Version) × ((a ≡ some x)
          × ((b ≡ some y) × (compare_parsed x y ≡ older))))
unfolding both
both-older (some x) (some y) h = (x, (y, (refl, (refl, ordering x y h))))
  where
    ordering_or : Option Ordering → Ordering
    ordering_or none = same
    ordering_or (some o) = o

    ordering : (x y : Version) → some (compare_parsed x y) ≡ some older → compare_parsed x y ≡ older
    ordering x y q = ap ordering_or q
both-older none b h = absurd (cc)
both-older (some x) none h = absurd (cc)

both_trans :
    (a b c : Option Version) → both a b ≡ some older → both b c ≡ some older → both a c ≡ some older
unfolding both
both_trans a b c p q =
    let (x, (y, (ea, (eb, h)))) = both-older a b p in
    let (y', (z, (eb', (ec, k)))) = both-older b c q in
    let same_middle : y' ≡ y = version_injective y' y (sym eb' ∙ eb) in
    rw (ea, ec)
      (ap (λ o. some o)
        (compare_parsed_trans x y z h (subst (λ v. compare_parsed v z ≡ older) same_middle k)))
  where
    version_injective : (u v : Version) → some u ≡ some v → u ≡ v
    version_injective u v r = cc

both-flip : (a b : Option Version) → both a b ≡ some older → both b a ≡ some newer
unfolding both
both-flip a b p =
    let (x, (y, (ea, (eb, h)))) = both-older a b p in
    rw (ea, eb) (ap (λ o. some o) (compare_parsed-flip x y h))

-- The comparison orders the texts that parse: being older is transitive, and where one version is
-- older than another, the other is newer than it.
pub versions_ordered :
    (a b c : Text)
    → (compare_versions a b ≡ some older
        → compare_versions b c ≡ some older
        → compare_versions a c ≡ some older)
      × (compare_versions a b ≡ some older → compare_versions b a ≡ some newer)
unfolding compare_versions
versions_ordered a b c = (both_trans (parse a) (parse b) (parse c), both-flip (parse a) (parse b))

is_older-some : (o : Option Ordering) → is_older o ≡ true → o ≡ some older
is_older-some (some older) h = refl
is_older-some (some same) h = ground arith
is_older-some (some newer) h = ground arith
is_older-some none h = ground arith

-- A report calls an update available only if the manifest names a release of the edition that is
-- newer than the running version, and a security fix only with an update; about a version that does
-- not parse, such as a development build, it calls nothing available or unsupported.
pub reports_only_newer :
    (m : List (Text × Release)) (edition current : Text)
    → ((compare_manifest m edition current).available ≡ true
        → (r : Text × Release) × ((release_of m edition ≡ some r)
            × (compare_versions r.1.latest current ≡ some newer)))
      × (((compare_manifest m edition current).security ≡ true
            → (compare_manifest m edition current).available ≡ true)
          × (parse current ≡ none
              → ((compare_manifest m edition current).available ≡ false)
                × ((compare_manifest m edition current).unsupported ≡ false)))
unfolding compare_manifest compare_release report compare_versions both
reports_only_newer m edition current = of_release (release_of m edition)
  where
    of_release :
        (o : Option (Text × Release))
        → ((compare_release o current).available ≡ true
            → (r : Text × Release) × ((o ≡ some r)
                × (compare_versions r.1.latest current ≡ some newer)))
          × (((compare_release o current).security ≡ true
                → (compare_release o current).available ≡ true)
              × (parse current ≡ none
                  → ((compare_release o current).available ≡ false)
                    × ((compare_release o current).unsupported ≡ false)))
    of_release none = (λ h. ground arith, (λ h. h, λ h. (refl, refl)))
    of_release (some r) = elim (Bool-cases (is_empty r.1.latest)) [
      | inl y ↦ rw y (λ h. ground arith, (λ h. h, λ h. (refl, refl)))
      | inr n ↦ rw n (
        λ h. (
          r,
          (
            refl,
            both-flip (parse current) (parse r.1.latest)
                (is_older-some (compare_versions current r.1.latest) h),
          ),
        ),
        (λ h. ground arith, λ h. rw h (refl, ground arith)),
      )
    ]
