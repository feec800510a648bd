-- ===== src/Registry/Passwords/Verified.antt =====
-- internal/db/users.go: `verifyPassword` on what `HashPassword` made.
use rekam.Prelude.{
  ℕ, ◌≤◌, Text, codes, true, false, ◌||◌, [], ◌∷◌, ◌++◌, Option, none, some, ◌≡◌, refl, ◌∙◌, ap,
  ◌↔◌, arith, text_eq, text_beq, text_beq_iff, nat_beq, ltb, length, All,
}
use rekam.UpdateCheck.{atoi, digits}
use rekam.Registry.{gives}
use rekam.Registry.Passwords.{
  Pbkdf2, hash_password, verify_password, verify_parts, verify_key, split_dollars, pbkdf2_iter,
  pbkdf2_key_len, min_password, max_password, same_bytes, positive, unsigned,
}

-- a text without a dollar is one part
split-plain : (s : Text) → All (λ c. nat_beq c b'$' ≡ false) s → split_dollars s ≡ s ∷ []
unfolding split_dollars
split-plain [] h = refl
split-plain (c ∷ s) h = rw (h.0, split-plain s h.1) refl

split-dollar :
    (s t : Text)
    → All (λ c. nat_beq c b'$' ≡ false) s
    → split_dollars (s ++ b'$' ∷ t) ≡ s ∷ split_dollars t
unfolding split_dollars
split-dollar [] t h = refl
split-dollar (c ∷ s) t h = rw (h.0, split-dollar s t h.1) refl

abbrev scheme : Text
scheme = codes "pbkdf2_sha256"

abbrev rounds : Text
rounds = codes "210000"

split-encoded :
    (p : Pbkdf2) (salt dk : Text)
    → split_dollars (codes "pbkdf2_sha256$210000$" ++ (p.encode salt ++ b'$' ∷ p.encode dk))
      ≡ scheme ∷ rounds ∷ p.encode salt ∷ p.encode dk ∷ []
split-encoded p salt dk =
    split-dollar scheme (rounds ++ b'$' ∷ (p.encode salt ++ b'$' ∷ p.encode dk)) (ground arith)
    ∙ ap (λ l. scheme ∷ l)
        (split-dollar rounds (p.encode salt ++ b'$' ∷ p.encode dk) (ground arith)
          ∙ ap (λ l. rounds ∷ l)
              (split-dollar (p.encode salt) (p.encode dk) (p.encode_plain salt)
                ∙ ap (λ l. p.encode salt ∷ l) (split-plain (p.encode dk) (p.encode_plain dk))))

iterations-read : positive (atoi (unsigned rounds)) ≡ some 210000
unfolding atoi digits
iterations-read = refl

verify-four :
    (p : Pbkdf2) (salt dk other : Text)
    → length dk ≡ pbkdf2_key_len
    → verify_parts p other (scheme ∷ rounds ∷ p.encode salt ∷ p.encode dk ∷ [])
      ≡ same_bytes dk (p.key other salt pbkdf2_iter pbkdf2_key_len)
unfolding text_beq
verify-four p salt dk other n =
    ap (λ (o : Option ℕ). verify_key p other o (p.decode (p.encode salt)) (p.decode (p.encode dk)))
      iterations-read
    ∙ rw (p.decode-encode salt, p.decode-encode dk) (rw n refl)

verify-encoded :
    (p : Pbkdf2) (salt dk other : Text)
    → length dk ≡ pbkdf2_key_len
    → verify_password p
        (codes "pbkdf2_sha256$210000$" ++ (p.encode salt ++ b'$' ∷ p.encode dk))
        other
      ≡ same_bytes dk (p.key other salt pbkdf2_iter pbkdf2_key_len)
unfolding verify_password
verify-encoded p salt dk other n =
    ap (verify_parts p other) (split-encoded p salt dk) ∙ verify-four p salt dk other n

same_bytes_iff :
    (p : Pbkdf2) (salt dk other : Text)
    → (same_bytes dk (p.key other salt pbkdf2_iter pbkdf2_key_len) ≡ true)
      ↔ (p.key other salt pbkdf2_iter pbkdf2_key_len ≡ some dk)
same_bytes_iff p salt dk other = go (p.key other salt pbkdf2_iter pbkdf2_key_len)
  where
    go : (o : Option Text) → (same_bytes dk o ≡ true) ↔ (o ≡ some dk)
    go none = (λ h. absurd (cc), λ h. absurd (cc))
    go (some k) = (λ h. ap some ((text_beq_iff k dk).0 h), λ h. (text_beq_iff k dk).1 (cc))

-- A password of 8 to 1024 bytes has a stored form, under any salt, and exactly the passwords with the
-- same derived key verify against it, the password itself included.
pub verify-hash :
    (p : Pbkdf2) (salt password : Text)
    → min_password ≤ length password
    → length password ≤ max_password
    → (encoded : Text) × (hash_password p salt password ≡ gives encoded)
      × ((other : Text)
          → (verify_password p encoded other ≡ true) ↔ (
              p.key other salt pbkdf2_iter pbkdf2_key_len
              ≡ p.key password salt pbkdf2_iter pbkdf2_key_len))
unfolding hash_password
verify-hash p salt password low high =
    let (dk, k, n) = p.key_total password salt 209999 31 in
    let derived : p.key password salt pbkdf2_iter pbkdf2_key_len ≡ some dk = k in
    let test : (ltb (length password) min_password || ltb max_password (length password)) ≡ false =
      ground arith in
    (
      codes "pbkdf2_sha256$210000$" ++ (p.encode salt ++ b'$' ∷ p.encode dk),
      rw (test, derived) refl,
      λ other. rw (derived, verify-encoded p salt dk other n) (same_bytes_iff p salt dk other),
    )
