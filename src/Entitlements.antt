-- ===== src/Entitlements.antt =====
-- internal/db/entitlements.go: what a person has bought. Times are seconds.
pub mod Live
use rekam.Prelude.{
  ℕ, Text, codes, Bool, true, false, ◌&&◌, ◌||◌, not, List, [], ◌∷◌, ◌++◌, Option, none, some, ◌==◌,
  text_eq, text_beq, ltb, find, update_where, is_empty, if◌then◌else◌,
}

pub record Entitlement : Type 0 where
  pub id : Text
  pub identity_id : Text
  pub kind : Text
  pub status : Text
  pub seats : ℕ
  pub expires_at : Option ℕ
  pub external_ref : Text
  pub created_at : ℕ
  pub updated_at : ℕ

abbrev pub active : Text
active = codes "active"

abbrev pub cancelled : Text
cancelled = codes "cancelled"

abbrev pub has_expired : ℕ → Option ℕ → Bool
has_expired now none = false
has_expired now (some t) = ltb t now

unfoldable pub entitles : ℕ → Option Entitlement → Bool
unfolding text_beq
entitles now none = false
entitles now (some e) = not (e.status == cancelled) && not (has_expired now e.expires_at)

-- WHERE identity_id = ? AND kind = ? AND status != ?
unfoldable pub is_live : Text → Text → Entitlement → Bool
unfolding text_beq
is_live identity kind e =
    e.identity_id == identity && (e.kind == kind && not (e.status == cancelled))

unfoldable pub entitlement : List Entitlement → Text → Text → Option Entitlement
unfolding find is_live
entitlement rows identity kind = find (is_live identity kind) rows

abbrev pub status_or_active : Text → Text
status_or_active s = if is_empty s then active else s

-- the columns that PutEntitlement sets
abbrev pub renewed : Entitlement → ℕ → Entitlement → Entitlement
renewed e now r = record r {
  status = status_or_active e.status;
  seats = e.seats;
  expires_at = e.expires_at;
  external_ref = e.external_ref;
  updated_at = now;
}

unfoldable pub put_in :
    List Entitlement → Text → ℕ → Entitlement → Option Entitlement → List Entitlement
unfolding update_where text_beq
put_in rows uuid now e (some existing) =
    update_where (λ r. r.id == existing.id) (renewed e now) rows
put_in rows uuid now e none =
    rows
    ++ record e {
      id = uuid;
      status = status_or_active e.status;
      created_at = now;
      updated_at = now;
    }
      ∷ []

-- `none` without an identity or a kind; otherwise the rows, and the live row that is read back
unfoldable pub put_entitlement :
    Text → ℕ → List Entitlement → Entitlement → Option (List Entitlement × Option Entitlement)
unfolding put_in entitlement
put_entitlement uuid now rows e =
    if is_empty e.identity_id || is_empty e.kind
    then none
    else (let rows' = put_in rows uuid now e (entitlement rows e.identity_id e.kind) in
        some (rows', entitlement rows' e.identity_id e.kind))

unfoldable pub cancel_entitlement : ℕ → List Entitlement → Text → Text → List Entitlement
unfolding update_where is_live
cancel_entitlement now rows identity kind =
    update_where (is_live identity kind) (λ e. record e { status = cancelled; updated_at = now })
      rows
