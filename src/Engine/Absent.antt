-- ===== src/Engine/Absent.antt =====
-- internal/engine/engine.go: what a caller is told of a memory that it may not read, and of a
-- deleted one.
use rekam.Prelude.{
  Text, true, false, Option, some, ◌≡◌, ◌≢◌, sym, ap, ◌∙◌, arith, if◌then◌else◌, ◌&&◌, subst,
  Bool-cases, inl, inr, List, map, In,
}
use rekam.Scope.{Scope, unrestricted, can_read, title_visible}
use rekam.Store.{Memory, LinkStatus, Store, not_found, ok, err, get}
use rekam.Store.Read.{title_taxonomy}
use rekam.Store.Read.Budget.{In-map}
use rekam.Engine.{redact_link, redact_link_resolution, is_hidden_title}

-- no memory has the id, or one has it that the scope may not read
pub data IsOutOfSight (s : Store) (scope : Scope) (id : Text) : Type 0 where
  nowhere : get s id ≡ err (not_found id) → IsOutOfSight s scope id
  unreadable :
      (m : Memory) → get s id ≡ ok m → can_read scope m.taxonomy ≡ false → IsOutOfSight s scope id

unrestricted-visible :
    (scope : Scope) (t : Text) → unrestricted scope ≡ true → title_visible scope t ≡ true
unfolding unrestricted title_visible
unrestricted-visible scope t h = ground arith

hidden-visible :
    (scope : Scope) (o : Option Text) (t : Text)
    → is_hidden_title scope o ≡ false
    → o ≡ some t
    → title_visible scope t ≡ true
unfolding is_hidden_title
hidden-visible scope o t h e =
    let q : is_hidden_title scope (some t) ≡ false =
      subst (λ x. is_hidden_title scope x ≡ false) e h in
    ground (arith, q)

redact_link-visible :
    (s : Store) (scope : Scope) (l : LinkStatus) (t : Text)
    → (redact_link s scope l).resolved ≡ true
    → title_taxonomy s (redact_link s scope l).target ≡ some t
    → title_visible scope t ≡ true
unfolding redact_link
redact_link-visible s scope l t h e =
    elim (Bool-cases (l.resolved && is_hidden_title scope (title_taxonomy s l.target))) [
      | inl y ↦ absurd (
          false≢true
            (subst (λ b. (if b then record l { resolved = false } else l).resolved ≡ true) y h))
      | inr n ↦
          let r : l.resolved ≡ true =
            subst (λ b. (if b then record l { resolved = false } else l).resolved ≡ true) n h in
          let q : title_taxonomy s l.target ≡ some t =
            subst
              (λ b.
                title_taxonomy s (if b then record l { resolved = false } else l).target ≡ some t)
              n e in
          hidden-visible scope (title_taxonomy s l.target) t (ground (arith, n, r)) q
    ]
  where
    false≢true : false ≢ true
    false≢true q = ground arith

-- A writer is told that a link is resolved only if the title that the link resolves to is one that
-- the writer's scope may see.
pub feedback_hides_titles :
    (s : Store) (scope : Scope) (links : List LinkStatus) (l : LinkStatus) (t : Text)
    → In l (redact_link_resolution s scope links)
    → l.resolved ≡ true
    → title_taxonomy s l.target ≡ some t
    → title_visible scope t ≡ true
unfolding redact_link_resolution
feedback_hides_titles s scope links l t i h e = elim (Bool-cases (unrestricted scope)) [
  | inl y ↦ unrestricted-visible scope t y
  | inr n ↦
      let j : In l (map (redact_link s scope) links) =
        subst (λ b. In l (if b then links else map (redact_link s scope) links)) n i in
      let (k, (m, q)) = In-map (redact_link s scope) l links j in
      redact_link-visible s scope k t (ap (λ x. x.resolved) (sym q) ∙ h)
        (ap (λ x. title_taxonomy s x.target) (sym q) ∙ e)
]
