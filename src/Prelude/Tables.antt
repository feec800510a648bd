-- ===== src/Prelude/Tables.antt =====
-- How the rows of a table that meet a test change with the statements on it.
use Prim.Native.Nat.{◌+◌, ◌≤◌}
use mathlib.Core.Path.{◌≡◌, refl}
use mathlib.Core.Logic.{inl, inr}
use mathlib.Core.Bool.{Bool, true, false}
use mathlib.Core.Option.{none, some}
use mathlib.Core.List.{List, [], ◌∷◌, ◌++◌}
use native.Mathlib.Omega.{arith}
use rekam.Prelude.Tests.{if◌then◌else◌, Bool-cases}
use rekam.Prelude.Lists.{any, find, count, select, update_where}

module _ {A : Type 0} (p : A → Bool) where
  pub count-of-any-false : (xs : List A) → any p xs ≡ false → count p xs ≡ 0
  unfolding any count
  count-of-any-false [] h = refl
  count-of-any-false (x ∷ xs) h = ground (arith, count-of-any-false xs)

  pub find-of-count_zero : (xs : List A) → count p xs ≡ 0 → find p xs ≡ none
  unfolding find count
  find-of-count_zero [] h = refl
  find-of-count_zero (x ∷ xs) h = ground (arith, find-of-count_zero xs)

  pub count-select : (q : A → Bool) (xs : List A) → count p (select q xs) ≤ count p xs
  unfolding select count
  count-select q [] = omega arith
  count-select q (x ∷ xs) = ground (arith, count-select q xs)

  pub count-snoc :
      (xs : List A) (y : A) → count p (xs ++ y ∷ []) ≡ count p xs + (if p y then 1 else 0)
  unfolding count
  count-snoc [] y = omega arith
  count-snoc (x ∷ xs) y = omega (arith, count-snoc xs y)

pub any-select-false :
    {A : Type 0} (f p : A → Bool) (xs : List A) → any f xs ≡ false → any f (select p xs) ≡ false
unfolding any select
any-select-false f p [] h = refl
any-select-false f p (x ∷ xs) h = ground (arith, any-select-false f p xs)

pub any-snoc :
    {A : Type 0} (f : A → Bool) (xs : List A) (y : A)
    → any f xs ≡ false
    → f y ≡ false
    → any f (xs ++ y ∷ []) ≡ false
unfolding any
any-snoc f [] y h q = rw q refl
any-snoc f (x ∷ xs) y h q = ground (arith, any-snoc f xs y)

pub any-update_where :
    {A : Type 0} (p q : A → Bool) (f : A → A)
    → ((x : A) → p x ≡ false → p (f x) ≡ false)
    → (xs : List A) → any p xs ≡ false
    → any p (update_where q f xs) ≡ false
unfolding any update_where
any-update_where p q f keeps [] h = refl
any-update_where p q f keeps (x ∷ xs) h = ground (arith, keeps x, any-update_where p q f keeps xs)

pub count-of-find :
    {A : Type 0} (p q : A → Bool) (xs : List A) (a : A)
    → find p xs ≡ some a
    → q a ≡ true
    → 1 ≤ count q xs
unfolding find count
count-of-find p q [] a h y = absurd (cc)
count-of-find p q (x ∷ xs) a h y = elim (Bool-cases (p x)) [
  | inl s ↦ let e : x ≡ a = ground arith in ground arith
  | inr n ↦ ground (arith, count-of-find p q xs a)
]

pub find-none_of_any :
    {A : Type 0} (p : A → Bool) (xs : List A) → any p xs ≡ false → find p xs ≡ none
unfolding any find
find-none_of_any p [] h = refl
find-none_of_any p (x ∷ xs) h = ground (arith, find-none_of_any p xs)
