-- ===== src/Examples/Texts.antt =====
-- internal/db/links.go, scope.go and memory.go: small texts.
use rekam.Prelude.{
  Text, codes, true, false, ◌&&◌, not, [], ◌∷◌, ◌++◌, some, ◌≡◌, ◌↔◌, ◌⊎◌, inl, inr, refl, subst,
  arith, all, All, In, nat_beq,
}
use rekam.Links.{ParsedLink, parse_links, depends_on, normalize_link, is_bracket}
use rekam.Links.Normal.{normalize_link-IsNormal, IsNormal}
use rekam.Links.Parsed.{IsLink}
use rekam.Links.Written.{parse_links-written, written, IsProse}
use rekam.Scope.{
  Scope, new_scope, can_read, can_write, title_visible, satisfies, read_clause, title_clause,
  dotted,
}
use rekam.Scope.Branch.{new_scope_exact, Under}
use rekam.Scope.Enforce.{clauses_exact, underscore_leaks}
use rekam.Examples.Folded.{plain, folded}

abbrev depends : ParsedLink
depends = record { rel = depends_on; raw = codes "go style" }

prose : (s : Text) → all (λ c. not (is_bracket c) && not (nat_beq c b'`')) s ≡ true → All IsProse s
unfolding all
prose [] h = tt
prose (c ∷ cs) h = (ground (arith, h), prose cs (ground (arith, h)))

normal : normalize_link (codes "go style") ≡ codes "go style"
unfolding normalize_link
normal = refl

depends-IsLink : IsLink depends
depends-IsLink = record {
  known = inr (inl refl);
  normal = subst IsNormal normal (normalize_link-IsNormal (codes "go style"));
  named = λ e. absurd (cc);
}

abbrev work_scope : Scope
work_scope = record {
  everything = false;
  read = codes "work" ∷ [];
  write = [];
  titles_visible = [];
}

parse_links-written_example :
    parse_links ((codes "see ") ++ (written depends ++ (codes " too"))) ≡ depends ∷ []
unfolding all
parse_links-written_example =
    parse_links-written (codes "see ") (codes " too") depends depends-IsLink
      (prose (codes "go style") refl) (prose (codes "see ") refl) (prose (codes " too") refl)

new_scope_exact_example :
    ((can_read (new_scope (codes "work" ∷ []) [] (codes "home" ∷ [])) (codes "work.go") ≡ true)
      ↔ ((p : Text) × In p (codes "work" ∷ []) × Under p (codes "work.go")))
    × ((can_write (new_scope (codes "work" ∷ []) [] (codes "home" ∷ [])) (codes "work.go") ≡ true)
        ↔ ((p : Text) × In p [] × Under p (codes "work.go")))
    × ((title_visible (new_scope (codes "work" ∷ []) [] (codes "home" ∷ [])) (codes "work.go")
          ≡ true)
        ↔ (((p : Text) × In p (codes "work" ∷ []) × Under p (codes "work.go"))
            ⊎ ((p : Text) × In p (codes "home" ∷ []) × Under p (codes "work.go"))))
new_scope_exact_example =
    new_scope_exact (codes "work" ∷ []) [] (codes "home" ∷ []) (codes "work.go")

clauses_exact_example :
    (satisfies (read_clause work_scope) (some (codes "work.go"))
      ≡ can_read work_scope (codes "work.go"))
    × (satisfies (title_clause work_scope) (some (codes "work.go"))
        ≡ title_visible work_scope (codes "work.go"))
unfolding all
clauses_exact_example =
    clauses_exact work_scope (codes "work.go") (folded (codes "work.go") refl)
      (plain (codes "work") refl refl, tt) tt

underscore_leaks_example :
    (satisfies
        (read_clause (new_scope (((codes "a") ++ b'_' ∷ (codes "b")) ∷ []) [] []))
        (some (dotted ((codes "a") ++ b'x' ∷ (codes "b")) ++ (codes "secret")))
      ≡ true)
    × (can_read
          (new_scope (((codes "a") ++ b'_' ∷ (codes "b")) ∷ []) [] [])
          (dotted ((codes "a") ++ b'x' ∷ (codes "b")) ++ (codes "secret"))
        ≡ false)
underscore_leaks_example =
    underscore_leaks (codes "a") (codes "b") b'x' (codes "secret") (λ e. absurd (omega arith))
