-- ===== src/Registry/Passwords.antt =====
-- internal/db/users.go: the stored form of a password. PBKDF2 and base64 are parameters.
pub mod Verified
use rekam.Prelude.{
  ℕ, suc, ◌≡◌, Text, codes, Bool, false, ◌&&◌, ◌||◌, List, [], ◌∷◌, ◌++◌, Option, none, some, ◌==◌,
  text_eq, text_beq, nat_beq, ltb, length, All, if◌then◌else◌,
}
use rekam.Registry.{Answer, gives, fails, ◌>>◌, fail_if, password_length}
use rekam.UpdateCheck.{atoi, cons_part}

-- package crypto/pbkdf2 with SHA-256, and base64.RawStdEncoding
pub record Pbkdf2 : Type 0 where
  pub key : Text → Text → ℕ → ℕ → Option Text
  pub encode : Text → Text
  pub decode : Text → Option Text
  pub key_total :
      (password salt : Text) (iterations size : ℕ)
      → (k : Text) × (key password salt (suc iterations) (suc size) ≡ some k)
        × (length k ≡ suc size)
  pub decode-encode : (b : Text) → decode (encode b) ≡ some b
  pub encode_plain : (b : Text) → All (λ c. nat_beq c b'$' ≡ false) (encode b)

abbrev pub pbkdf2_iter : ℕ
pbkdf2_iter = 210000

abbrev pub pbkdf2_key_len : ℕ
pbkdf2_key_len = 32

abbrev pub min_password : ℕ
min_password = 8

abbrev pub max_password : ℕ
max_password = 1024

abbrev pub encoded_with : Pbkdf2 → Text → Option Text → Answer Text
encoded_with p salt none = fails password_length
encoded_with p salt (some dk) =
    gives (codes "pbkdf2_sha256$210000$" ++ (p.encode salt ++ b'$' ∷ p.encode dk))

-- the random salt is an argument
unfoldable pub hash_password : Pbkdf2 → Text → Text → Answer Text
hash_password p salt password = do
  fail_if (ltb (length password) min_password || ltb max_password (length password)) password_length
  encoded_with p salt (p.key password salt pbkdf2_iter pbkdf2_key_len)

-- strings.Split at `$`
unfoldable pub split_dollars : Text → List Text
split_dollars [] = [] ∷ []
split_dollars (c ∷ cs) =
    let rest = split_dollars cs in if nat_beq c b'$' then [] ∷ rest else cons_part c rest

-- strconv.Atoi, where only what is above 0 counts
abbrev pub unsigned : Text → Text
unsigned [] = []
unsigned (c ∷ cs) = if nat_beq c b'+' then cs else c ∷ cs

abbrev pub positive : Option ℕ → Option ℕ
positive none = none
positive (some n) = if ltb 0 n then some n else none

abbrev pub same_bytes : Text → Option Text → Bool
same_bytes want none = false
same_bytes want (some got) = got == want

abbrev pub verify_key : Pbkdf2 → Text → Option ℕ → Option Text → Option Text → Bool
verify_key p password (some iter) (some salt) (some want) =
    same_bytes want (p.key password salt iter (length want))
verify_key p password _ _ _ = false

abbrev pub verify_parts : Pbkdf2 → Text → List Text → Bool
verify_parts p password (scheme ∷ iter ∷ salt ∷ want ∷ []) =
    scheme == codes "pbkdf2_sha256"
    && verify_key p password (positive (atoi (unsigned iter))) (p.decode salt) (p.decode want)
verify_parts p password _ = false

unfoldable pub verify_password : Pbkdf2 → Text → Text → Bool
unfolding split_dollars text_beq atoi
verify_password p encoded password = verify_parts p password (split_dollars encoded)
