-- ===== src/Registry/Answers.antt =====
-- internal/db/registry.go: what an answer that is given says of the steps before it.
use rekam.Prelude.{Bool, true, false, ◌≡◌, refl}
use rekam.Registry.{Registry, Answer, gives, fails, RegistryError, ◌>>=◌, fail_if}
use rekam.Registry.Events.{settle}

pub >>=-gives :
    {A B : Type 0} (m : Answer A) (f : A → Answer B) (b : B)
    → (m >>= f) ≡ gives b
    → (a : A) × (m ≡ gives a) × (f a ≡ gives b)
>>=-gives (gives a) f b h = (a, refl, h)
>>=-gives (fails e) f b h = absurd (cc)

pub fail_if-gives :
    {B : Type 0} (c : Bool) (e : RegistryError) (k : Answer B) (b : B)
    → (fail_if c e >>= λ _. k) ≡ gives b
    → (c ≡ false) × (k ≡ gives b)
fail_if-gives true e k b h = absurd (cc)
fail_if-gives false e k b h = (refl, h)

-- what holds of the registry and of all that an operation gives holds afterwards
pub settle_rule :
    (P : Registry → Type 0) (r : Registry) (o : Answer Registry)
    → P r
    → ((r' : Registry) → o ≡ gives r' → P r')
    → P (settle r o)
settle_rule P r (gives r') p f = f r' refl
settle_rule P r (fails e) p f = p
