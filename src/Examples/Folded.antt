-- ===== src/Examples/Folded.antt =====
-- Texts that SQL folds nothing of, by tests.
use rekam.Prelude.{Text, true, not, ◌&&◌, [], ◌∷◌, ◌≡◌, arith, all, All, nat_beq, to_lower}
use rekam.Scope.Enforce.{IsFolded, IsPlain}

pub plain :
    (s : Text)
    → all (λ c. nat_beq (to_lower c) c) s ≡ true
    → all (λ c. not (nat_beq c b'%') && not (nat_beq c b'_')) s ≡ true
    → All IsPlain s
unfolding all
plain [] h k = tt
plain (c ∷ cs) h k = (ground (arith, h, k), plain cs (ground (arith, h)) (ground (arith, k)))

pub folded : (s : Text) → all (λ c. nat_beq (to_lower c) c) s ≡ true → All IsFolded s
unfolding all
folded [] h = tt
folded (c ∷ cs) h = (ground (arith, h), folded cs (ground (arith, h)))
