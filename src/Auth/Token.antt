-- ===== src/Auth/Token.antt =====
-- internal/engine/engine.go: session tokens, which name an identity and a team under a signature.
use rekam.Prelude.{
  ℕ, ◌+◌, ◌*◌, ◌/◌, ◌%◌, ◌<◌, Text, true, false, ◌||◌, not, [], ◌∷◌, ◌++◌, Option, none, some, ◌≡◌,
  ◌≢◌, refl, ◌∙◌, ap, ◌⊎◌, inl, inr, arith, text_eq, text_beq_iff, nat_beq, nat_beq_iff, ltb,
  ltb→lt, starts_with, drop, length, is_empty, All, Bool-cases,
}
use rekam.Auth.{
  Crypto, hex_encode, hex_decode, hex_digit, hex_value, hex_byte, last_dot, dot_or_later, first_bar,
  bar_or_later, session_token_prefix, session_token_for, token_body, signed_by, same_mac,
  identity_from_session_token,
}

abbrev pub Lacks : ℕ → Text → Type 0
Lacks k s = All (λ c. nat_beq c k ≡ false) s

hex_digit-value : (n : ℕ) → n < 16 → hex_value (hex_digit n) ≡ some n
hex_digit-value n h = ground arith

hex_digit-no_dot : (n : ℕ) → n < 16 → nat_beq (hex_digit n) b'.' ≡ false
hex_digit-no_dot n h = ground arith

hex_byte-join :
    (b : ℕ) (bs : Text) → hex_byte (some (b / 16)) (some (b % 16)) (some bs) ≡ some (b ∷ bs)
hex_byte-join b bs =
    let e : b / 16 * 16 + b % 16 ≡ b = omega arith in ap (λ (x : ℕ). some (x ∷ bs)) e

decode-encode : (s : Text) → All (λ c. ltb c 256 ≡ true) s → hex_decode (hex_encode s) ≡ some s
unfolding hex_encode hex_decode
decode-encode [] h = refl
decode-encode (b ∷ bs) h =
    let small : b < 256 = ltb→lt b 256 h.0 in
    rw
      (
        hex_digit-value (b / 16) (omega arith),
        hex_digit-value (b % 16) (omega arith),
        decode-encode bs h.1,
      )
      (hex_byte-join b bs)

encode-Lacks : (s : Text) → All (λ c. ltb c 256 ≡ true) s → Lacks b'.' (hex_encode s)
unfolding hex_encode
encode-Lacks [] h = tt
encode-Lacks (b ∷ bs) h =
    let small : b < 256 = ltb→lt b 256 h.0 in
    (
      hex_digit-no_dot (b / 16) (omega arith),
      (hex_digit-no_dot (b % 16) (omega arith), encode-Lacks bs h.1),
    )

last_dot-none : (s : Text) → Lacks b'.' s → last_dot s ≡ none
unfolding last_dot
last_dot-none [] h = refl
last_dot-none (c ∷ s) h = rw (last_dot-none s h.1, h.0) refl

last_dot-at : (s t : Text) → Lacks b'.' t → last_dot (s ++ b'.' ∷ t) ≡ some (s, t)
unfolding last_dot
last_dot-at [] t h = rw (last_dot-none t h) refl
last_dot-at (c ∷ s) t h = rw (last_dot-at s t h) refl

first_bar-at : (s t : Text) → Lacks b'|' s → first_bar (s ++ b'|' ∷ t) ≡ (s, t)
unfolding first_bar
first_bar-at [] t h = refl
first_bar-at (c ∷ s) t h = rw (first_bar-at s t h.1, h.0) refl

first_bar-plain : (s : Text) → Lacks b'|' s → first_bar s ≡ (s, [])
unfolding first_bar
first_bar-plain [] h = refl
first_bar-plain (c ∷ s) h = rw (first_bar-plain s h.1, h.0) refl

token_body-bar : (id team : Text) → Lacks b'|' id → first_bar (token_body id team) ≡ (id, team)
token_body-bar id [] h = first_bar-plain id h
token_body-bar id (c ∷ team) h = first_bar-at id (c ∷ team) h

token_body-not_empty : (id team : Text) → id ≢ [] → is_empty (token_body id team) ≡ false
token_body-not_empty [] team n = absurd (n refl)
token_body-not_empty (c ∷ id) [] n = refl
token_body-not_empty (c ∷ id) (d ∷ team) n = refl

signed_by_self :
    (c : Crypto) (body : Text)
    → is_empty body ≡ false
    → signed_by c (some (body, hex_encode (c.mac body))) ≡ some (first_bar body)
signed_by_self c body n =
    rw
      (
        n,
        decode-encode (c.mac body) (c.mac_bytes body),
        (text_beq_iff (c.mac body) (c.mac body)).1 refl,
      )
      refl

prefixed :
    (c : Crypto) (rest : Text)
    → identity_from_session_token c (session_token_prefix ++ rest) ≡ signed_by c (last_dot rest)
unfolding identity_from_session_token starts_with
prefixed c rest = refl

-- A token that the engine mints for an identity and a team is read back as that identity and that
-- team, for every identity that is not empty and has no bar in it, and for every team.
pub session_token_roundtrip :
    (c : Crypto) (id team : Text)
    → id ≢ []
    → Lacks b'|' id
    → identity_from_session_token c (session_token_for c id team) ≡ some (id, team)
unfolding session_token_for
session_token_roundtrip c id team n l =
    let body : Text = token_body id team in
    prefixed c (body ++ b'.' ∷ hex_encode (c.mac body))
    ∙ ap (signed_by c)
        (last_dot-at body (hex_encode (c.mac body)) (encode-Lacks (c.mac body) (c.mac_bytes body)))
    ∙ signed_by_self c body (token_body-not_empty id team n)
    ∙ ap some (token_body-bar id team l)

last_dot-step :
    (c : ℕ) (s a b : Text) (o : Option (Text × Text))
    → ((x y : Text) → o ≡ some (x, y) → s ≡ x ++ b'.' ∷ y)
    → dot_or_later c s o ≡ some (a, b)
    → c ∷ s ≡ a ++ b'.' ∷ b
last_dot-step c s a b (some (x, y)) ih q =
    let ex : c ∷ x ≡ a = cc in
    let ey : y ≡ b = cc in rw (← ex, ← ey) (ap (λ (l : Text). c ∷ l) (ih x y refl))
last_dot-step c s a b none ih q = elim (Bool-cases (nat_beq c b'.')) [
  | inl y ↦
      let dot : c ≡ b'.' = (nat_beq_iff c b'.').0 y in
      let ea : [] ≡ a = ground arith in
      let eb : s ≡ b = ground arith in rw (← ea, ← eb) (ap (λ (x : ℕ). x ∷ s) dot)
  | inr m ↦ absurd (ground arith)
]

last_dot-split : (s a b : Text) → last_dot s ≡ some (a, b) → s ≡ a ++ b'.' ∷ b
unfolding last_dot
last_dot-split [] a b h = absurd (cc)
last_dot-split (c ∷ s) a b h = last_dot-step c s a b (last_dot s) (last_dot-split s) h

-- what a signed text says: an identity alone, or an identity and a team
abbrev pub Says : Text → Text → Text → Type 0
Says signed id team = (signed ≡ id ++ b'|' ∷ team) ⊎ ((signed ≡ id) × (team ≡ []))

first_bar-step :
    (c : ℕ) (s a b : Text) (o : Text × Text)
    → Says s o.0 o.1
    → bar_or_later c s o ≡ (a, b)
    → Says (c ∷ s) a b
first_bar-step c s a b (x, y) says q = elim (Bool-cases (nat_beq c b'|')) [
  | inl t ↦
      let bar : c ≡ b'|' = (nat_beq_iff c b'|').0 t in
      let ea : [] ≡ a = ground arith in
      let eb : s ≡ b = ground arith in inl (rw (← ea, ← eb) (ap (λ (k : ℕ). k ∷ s) bar))
  | inr m ↦
      let ea : c ∷ x ≡ a = ground arith in
      let eb : y ≡ b = ground arith in
      rw (← ea, ← eb)
        (elim says [
          | inl u ↦ inl (ap (λ (l : Text). c ∷ l) u)
          | inr u ↦ inr (ap (λ (l : Text). c ∷ l) u.0, u.1)
        ])
]

first_bar-Says : (s a b : Text) → first_bar s ≡ (a, b) → Says s a b
unfolding first_bar
first_bar-Says [] a b h = inr (cc, cc)
first_bar-Says (c ∷ s) a b h =
    first_bar-step c s a b (first_bar s) (first_bar-Says s (first_bar s).0 (first_bar s).1 refl) h

starts-drop : (s p : Text) → starts_with s p ≡ true → s ≡ p ++ drop (length p) s
unfolding starts_with
starts-drop s [] h = refl
starts-drop [] (c ∷ p) h = absurd (cc)
starts-drop (d ∷ s) (c ∷ p) h =
    let e : d ≡ c = ground arith in
    rw (← e) (ap (λ (l : Text). d ∷ l) (starts-drop s p (ground arith)))

same_mac-eq : (o : Option Text) (mac : Text) → same_mac o mac ≡ true → o ≡ some mac
same_mac-eq none mac h = absurd (cc)
same_mac-eq (some want) mac h = ap some ((text_beq_iff want mac).0 h)

signed_by-Says :
    (c : Crypto) (o : Option (Text × Text)) (id team : Text)
    → signed_by c o ≡ some (id, team)
    → (signed : Text) × (sig : Text) × (o ≡ some (signed, sig))
      × (hex_decode sig ≡ some (c.mac signed))
      × Says signed id team
signed_by-Says c none id team h = absurd (cc)
signed_by-Says c (some (signed, sig)) id team h =
    elim (Bool-cases (is_empty signed || not (same_mac (hex_decode sig) (c.mac signed)))) [
      | inl bad ↦ absurd (ground arith)
      | inr fine ↦
          let bar : first_bar signed ≡ (id, team) = ground arith in
          let same : same_mac (hex_decode sig) (c.mac signed) ≡ true = ground arith in
          (
            signed,
            sig,
            refl,
            same_mac-eq (hex_decode sig) (c.mac signed) same,
            first_bar-Says signed id team bar,
          )
    ]

-- Any token that the engine accepts is the prefix, a signed text, a dot and the hexadecimal form of
-- the signature of exactly that text, and the text says the identity and the team that are read.
pub session_token_sound :
    (c : Crypto) (token id team : Text)
    → identity_from_session_token c token ≡ some (id, team)
    → (signed : Text) × (sig : Text) × (token ≡ session_token_prefix ++ (signed ++ b'.' ∷ sig))
      × (hex_decode sig ≡ some (c.mac signed))
      × Says signed id team
unfolding identity_from_session_token
session_token_sound c token id team h = elim (Bool-cases (starts_with token session_token_prefix)) [
  | inl y ↦
      let (signed, sig, o, mac, says) =
        signed_by-Says c (last_dot (drop 5 token)) id team (ground arith) in
      (
        signed,
        sig,
        starts-drop token session_token_prefix y
            ∙ ap (λ (l : Text). session_token_prefix ++ l)
                (last_dot-split (drop 5 token) signed sig o),
        mac,
        says,
      )
  | inr n ↦ absurd (ground arith)
]
