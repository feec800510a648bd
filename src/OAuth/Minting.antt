-- ===== src/OAuth/Minting.antt =====
-- internal/db/registry.go: the key of a grant that is minted resolves to its identity and its team.
use rekam.Prelude.{
  ℕ, Text, true, false, ◌||◌, List, [], ◌∷◌, ◌++◌, Option, none, some, ◌≡◌, refl, sym, arith, ◌==◌,
  text_eq, text_beq_iff, any, find, Bool-cases, inl, inr, find-none_of_any, find-snoc,
}
use rekam.Store.{null_str, string}
use rekam.Registry.{Registry, Identity, Grant, gives, equals, resolve_by_id, account_by_id}
use rekam.Registry.Grants.{
  mint_delegated_grant, insert_grant, new_grant, same_key, holds_key, granted_to, resolve_grant,
}

string-null_str : (s : Text) → string (null_str s) ≡ s
unfolding null_str
string-null_str [] = refl
string-null_str (c ∷ s) = refl

text_beq-flip : (s t : Text) → (s == t) ≡ false → (t == s) ≡ false
text_beq-flip s t h = elim (Bool-cases (t == s)) [
  | inl y ↦ absurd (cc (h, (text_beq_iff s t).1 (sym ((text_beq_iff t s).0 y))))
  | inr n ↦ n
]

equals-flip : (key : Text) (o : Option Text) → same_key (some key) o ≡ false → equals o key ≡ false
equals-flip key none h = refl
equals-flip key (some k) h = text_beq-flip key k h

-- what the unique index of the keys excludes
no_holder :
    (key id : Text) (rows : List Grant)
    → any (λ h. id == h.id || same_key (some key) h.api_key) rows ≡ false
    → any (holds_key key) rows ≡ false
unfolding any
no_holder key id [] h = refl
no_holder key id (x ∷ rows) h =
    let other : same_key (some key) x.api_key ≡ false = ground arith in
    ground (arith, equals-flip key x.api_key other, no_holder key id rows)

-- a grant that is minted resolves to its identity and its team
pub minted-resolves :
    (hash : Text → Text) (r r' : Registry) (id raw client identity team : Text) (now : ℕ)
    (who : Identity)
    → mint_delegated_grant hash r id raw client identity team now ≡ gives r'
    → resolve_by_id r identity ≡ gives who
    → resolve_grant hash r' raw ≡ some (who, team)
unfolding mint_delegated_grant insert_grant resolve_grant resolve_by_id account_by_id
minted-resolves hash r r' id raw client identity team now who h w =
    let g : Grant = new_grant id client identity (some (hash raw)) (null_str team) now in
    elim (Bool-cases (any (λ x. g.id == x.id || same_key g.api_key x.api_key) r.grants)) [
      | inl y ↦ absurd (ground arith)
      | inr n ↦
          let rows : r'.grants ≡ r.grants ++ g ∷ [] = ground arith in
          let accounts : r'.accounts ≡ r.accounts = ground arith in
          let none_there =
            find-none_of_any (holds_key (hash raw)) r.grants (no_holder (hash raw) id r.grants n) in
          let own : holds_key (hash raw) g ≡ true =
            rw ((text_beq_iff (hash raw) (hash raw)).1 refl) refl in
          let found : find (holds_key (hash raw)) r'.grants ≡ some g =
            rw (rows, find-snoc (holds_key (hash raw)) r.grants g, none_there, own) refl in
          let there : resolve_by_id r' identity ≡ gives who =
            unfold resolve_by_id account_by_id in rw accounts w in
          rw (found, granted_to, there, string-null_str team) refl
    ]

-- what an exchange that gives a token has checked
