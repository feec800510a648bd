-- ===== src/Scope/Branch.antt =====
-- internal/db/scope.go: which taxonomies the predicates admit.
use rekam.Prelude.{
  Text, true, List, [], ◌∷◌, ◌++◌, ◌≡◌, refl, ◌⊎◌, inl, inr, ◌↔◌, In, arith, starts_with,
  text_beq_iff, any_witness, any-of-In, ||_iff,
}
use rekam.Scope.{new_scope, prefix_match, can_read, can_write, title_visible, dotted, in_branch}

-- A taxonomy path lies on a branch if it is the branch or goes on behind a dot.
pub data Under (p : Text) : Text → Type 0 where
  itself : {t : Text} → t ≡ p → Under p t
  below : {t : Text} (rest : Text) → t ≡ dotted p ++ rest → Under p t

pub starts_with_iff : (s p : Text) → (starts_with s p ≡ true) ↔ ((rest : Text) × (s ≡ p ++ rest))
unfolding starts_with
starts_with_iff s [] = (λ _. (s, refl), λ _. refl)
starts_with_iff [] (p ∷ ps) = (λ h. absurd (cc), λ h. absurd (cc (h.1)))
starts_with_iff (c ∷ cs) (p ∷ ps) =
    let ih = starts_with_iff cs ps in
    (
      λ h.
          let e : starts_with cs ps ≡ true = ground arith in
          let (rest, q) = ih.0 e in (rest, ground arith),
      λ h. let e : starts_with cs ps ≡ true = ih.1 (h.0, ground arith) in ground arith,
    )

pub in_branch_iff : (t p : Text) → (in_branch t p ≡ true) ↔ Under p t
in_branch_iff t p = (
  λ h. elim ((||_iff _ _).0 h) [
    | inl e ↦ itself ((text_beq_iff t p).0 e)
    | inr s ↦ let (rest, e) = (starts_with_iff t (dotted p)).0 s in below rest e
  ],
  to_bool,
)
  where
    to_bool : Under p t → in_branch t p ≡ true
    to_bool (itself e) = (||_iff _ _).1 (inl ((text_beq_iff t p).1 e))
    to_bool (below rest e) = (||_iff _ _).1 (inr ((starts_with_iff t (dotted p)).1 (rest, e)))

pub prefix_match_iff :
    (ps : List Text) (t : Text) → (prefix_match ps t ≡ true) ↔ ((p : Text) × In p ps × Under p t)
unfolding prefix_match
prefix_match_iff ps t = (
  λ h. let (p, i, m) = any_witness (in_branch t) ps h in (p, i, (in_branch_iff t p).0 m),
  λ (p, i, u). any-of-In (in_branch t) p ps i ((in_branch_iff t p).1 u),
)

-- A restricted scope reads a taxonomy exactly when it lies on a branch of the read list, writes it
-- exactly when it lies on one of the write list, and shows its title exactly when it lies on one of
-- the read list or of the title list.
pub new_scope_exact :
    (read write titles : List Text) (t : Text)
    → ((can_read (new_scope read write titles) t ≡ true) ↔ ((p : Text) × In p read × Under p t))
      × ((can_write (new_scope read write titles) t ≡ true) ↔ ((p : Text) × In p write × Under p t))
      × ((title_visible (new_scope read write titles) t ≡ true)
          ↔ (((p : Text) × In p read × Under p t) ⊎ ((p : Text) × In p titles × Under p t)))
unfolding can_read can_write title_visible new_scope
new_scope_exact read write titles t =
    ground (arith, prefix_match_iff read t, prefix_match_iff write t, prefix_match_iff titles t)
