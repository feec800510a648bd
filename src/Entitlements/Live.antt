-- ===== src/Entitlements/Live.antt =====
-- internal/db/entitlements.go: the live row after a change.
use rekam.Prelude.{
  ℕ, Text, true, false, ◌&&◌, List, [], ◌∷◌, none, some, ◌≡◌, refl, ap, arith, ◌==◌, text_eq,
  text_beq_iff, find, update_where, if◌then◌else◌, Bool-cases, inl, inr,
}
use rekam.Entitlements.{Entitlement, cancelled, entitles, is_live, entitlement, cancel_entitlement}

cancelled-not_live :
    (identity kind : Text) (now : ℕ) (e : Entitlement)
    → is_live identity kind (record e { status = cancelled; updated_at = now }) ≡ false
unfolding is_live
cancelled-not_live identity kind now e = ground arith

-- whether a row is live for one pair is known for another: the pairs differ
live-elsewhere :
    (i k j l : Text) (e : Entitlement)
    → ((i == j) && (k == l)) ≡ false
    → is_live i k e ≡ true
    → is_live j l e ≡ false
unfolding is_live
live-elsewhere i k j l e h y = ground (
  arith,
  h,
  y,
  text_beq_iff e.identity_id i,
  text_beq_iff e.kind k,
  text_beq_iff e.identity_id j,
  text_beq_iff e.kind l,
  text_beq_iff i j,
  text_beq_iff k l,
)

cancel-gone :
    (now : ℕ) (identity kind : Text) (rows : List Entitlement)
    → entitlement (cancel_entitlement now rows identity kind) identity kind ≡ none
unfolding entitlement cancel_entitlement update_where find
cancel-gone now identity kind [] = refl
cancel-gone now identity kind (e ∷ es) = elim (Bool-cases (is_live identity kind e)) [
  | inl y ↦ rw (y, cancelled-not_live identity kind now e) (cancel-gone now identity kind es)
  | inr n ↦ rw (n, n) (cancel-gone now identity kind es)
]

cancel-elsewhere :
    (now : ℕ) (identity kind j l : Text)
    → ((identity == j) && (kind == l)) ≡ false
    → (rows : List Entitlement)
    → entitlement (cancel_entitlement now rows identity kind) j l ≡ entitlement rows j l
unfolding entitlement cancel_entitlement update_where find
cancel-elsewhere now identity kind j l h [] = refl
cancel-elsewhere now identity kind j l h (e ∷ es) = elim (Bool-cases (is_live identity kind e)) [
  | inl y ↦
      rw (y, cancelled-not_live j l now e, live-elsewhere identity kind j l e h y)
        (cancel-elsewhere now identity kind j l h es)
  | inr n ↦
      rw n (
        ap (λ o. if is_live j l e then some e else o) (cancel-elsewhere now identity kind j l h es))
]

-- A cancelled entitlement is live no more, and entitles nobody to anything; what other identities
-- have, and the same identity of another kind, stays as it was.
pub cancel_lem :
    (now at : ℕ) (rows : List Entitlement) (identity kind : Text)
    → (entitlement (cancel_entitlement now rows identity kind) identity kind ≡ none)
      × ((entitles at (entitlement (cancel_entitlement now rows identity kind) identity kind)
            ≡ false)
          × ((j l : Text)
              → ((identity == j) && (kind == l)) ≡ false
              → entitlement (cancel_entitlement now rows identity kind) j l ≡ entitlement rows j l))
unfolding entitles
cancel_lem now at rows identity kind =
    let gone = cancel-gone now identity kind rows in
    (gone, (ap (entitles at) gone, λ j l h. cancel-elsewhere now identity kind j l h rows))
