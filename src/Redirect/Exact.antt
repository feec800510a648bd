-- ===== src/Redirect/Exact.antt =====
-- internal/api/redirect_uri.go: which requests are allowed.
use rekam.Prelude.{
  Text, Bool, true, false, ◌&&◌, ◌||◌, ◌↔◌, List, [], ◌∷◌, Option, some, ◌≡◌, refl, sym, ap, ◌∙◌,
  subst, arith, ◌⊎◌, inl, inr, ◌==◌, text_eq, text_beq_iff, Bool-cases, Option-cases, In,
}
use rekam.Redirect.{Url, is_loopback, allowed_by, any_allows, parsed_allowed, redirect_uri_allowed}

module _ (url_parse : Text → Option Url) (loopback_ip : Text → Bool) where
  -- a registered address of this machine with the same scheme, host and path
  pub record SameButPort (registered : List Text) (req : Url) : Type 0 where
    pub candidate : Text
    pub url : Url
    pub is_registered : In candidate registered
    pub parsed : url_parse candidate ≡ some url
    pub local : is_loopback loopback_ip url ≡ true
    pub scheme : url.scheme ≡ req.scheme
    pub hostname : url.hostname ≡ req.hostname
    pub path : url.path ≡ req.path

  SameButPort-more :
      (c : Text) (registered : List Text) (req : Url)
      → SameButPort registered req
      → SameButPort (c ∷ registered) req
  SameButPort-more c registered req p = record {
    candidate = p.candidate;
    url = p.url;
    is_registered = inr p.is_registered;
    parsed = p.parsed;
    local = p.local;
    scheme = p.scheme;
    hostname = p.hostname;
    path = p.path;
  }

  module _ (requested : Text) (req : Url) where
    any_allows-exact :
        (registered : List Text)
        → is_loopback loopback_ip req ≡ false
        → any_allows url_parse loopback_ip requested req registered ≡ true
        → In requested registered
    unfolding any_allows allowed_by
    any_allows-exact [] l h = ground arith
    any_allows-exact (c ∷ cs) l h = elim (Option-cases (url_parse c)) [
      | inl e ↦ inr (
          any_allows-exact cs l (
            subst
              (λ o.
                (allowed_by loopback_ip requested req c o
                  || any_allows url_parse loopback_ip requested req cs)
                ≡ true)
              e h))
      | inr (u, e) ↦
          let k =
            subst
              (λ o.
                (allowed_by loopback_ip requested req c o
                  || any_allows url_parse loopback_ip requested req cs)
                ≡ true)
              e h in
          elim (Bool-cases (c == requested)) [
            | inl y ↦ inl (sym ((text_beq_iff c requested).0 y))
            | inr n ↦ inr (any_allows-exact cs l (ground (arith, k, n, l)))
          ]
    ]

    any_allows-local :
        (registered : List Text)
        → is_loopback loopback_ip req ≡ true
        → any_allows url_parse loopback_ip requested req registered ≡ true
        → In requested registered ⊎ SameButPort registered req
    unfolding any_allows allowed_by
    any_allows-local [] l h = ground arith
    any_allows-local (c ∷ cs) l h = elim (Option-cases (url_parse c)) [
      | inl e ↦ more c cs (
          any_allows-local cs l (
            subst
              (λ o.
                (allowed_by loopback_ip requested req c o
                  || any_allows url_parse loopback_ip requested req cs)
                ≡ true)
              e h))
      | inr (u, e) ↦
          let k =
            subst
              (λ o.
                (allowed_by loopback_ip requested req c o
                  || any_allows url_parse loopback_ip requested req cs)
                ≡ true)
              e h in
          elim (Bool-cases (is_loopback loopback_ip u)) [
            | inl v ↦
                elim (Bool-cases
                  (u.scheme == req.scheme && (u.path == req.path && u.hostname == req.hostname))) [
                    | inl y ↦ inr (record {
                      candidate = c;
                      url = u;
                      is_registered = inl refl;
                      parsed = e;
                      local = v;
                      scheme = (text_beq_iff u.scheme req.scheme).0 (ground (arith, y));
                      hostname = (text_beq_iff u.hostname req.hostname).0 (ground (arith, y));
                      path = (text_beq_iff u.path req.path).0 (ground (arith, y));
                    })
                    | inr n ↦ more c cs (any_allows-local cs l (ground (arith, k, v, l, n)))
                  ]
            | inr v ↦ elim (Bool-cases (c == requested)) [
              | inl y ↦ inl (inl (sym ((text_beq_iff c requested).0 y)))
              | inr n ↦ more c cs (any_allows-local cs l (ground (arith, k, v, n)))
            ]
          ]
    ]
      where
        more :
            (c : Text) (cs : List Text)
            → In requested cs ⊎ SameButPort cs req
            → In requested (c ∷ cs) ⊎ SameButPort (c ∷ cs) req
        more c cs (inl i) = inl (inr i)
        more c cs (inr p) = inr (SameButPort-more c cs req p)

    allowed_by-same :
        (c : Text) (u : Url)
        → is_loopback loopback_ip req ≡ true
        → is_loopback loopback_ip u ≡ true
        → u.scheme ≡ req.scheme
        → u.hostname ≡ req.hostname
        → u.path ≡ req.path
        → allowed_by loopback_ip requested req c (some u) ≡ true
    unfolding allowed_by
    allowed_by-same c u l v a b d =
        rw
          (
            v,
            l,
            (text_beq_iff u.scheme req.scheme).1 a,
            (text_beq_iff u.path req.path).1 d,
            (text_beq_iff u.hostname req.hostname).1 b,
          )
          refl

    any_allows-registered :
        is_loopback loopback_ip req ≡ true
        → (cs : List Text) (c : Text) (u : Url) → In c cs
        → url_parse c ≡ some u
        → is_loopback loopback_ip u ≡ true
        → u.scheme ≡ req.scheme
        → u.hostname ≡ req.hostname
        → u.path ≡ req.path
        → any_allows url_parse loopback_ip requested req cs ≡ true
    unfolding any_allows
    any_allows-registered l [] c u i q v a b d = absurd i
    any_allows-registered l (x ∷ cs) c u (inl e) q v a b d =
        let k : allowed_by loopback_ip requested req x (url_parse x) ≡ true =
          subst (λ o. allowed_by loopback_ip requested req x o ≡ true) (sym q ∙ ap url_parse e)
            (allowed_by-same x u l v a b d) in
        rw k refl
    any_allows-registered l (x ∷ cs) c u (inr i) q v a b d =
        ground (arith, any_allows-registered l cs c u i q v a b d)

    allowed_by_self :
        (c : Text) → requested ≡ c → allowed_by loopback_ip requested req c (some req) ≡ true
    unfolding allowed_by
    allowed_by_self c q =
        let same : (c == requested) ≡ true = (text_beq_iff c requested).1 (sym q) in
        elim (Bool-cases (is_loopback loopback_ip req)) [
          | inl l ↦ allowed_by-same c req l l refl refl refl
          | inr l ↦ rw (l, same) refl
        ]

    any_allows-In :
        (cs : List Text)
        → url_parse requested ≡ some req
        → In requested cs
        → any_allows url_parse loopback_ip requested req cs ≡ true
    unfolding any_allows
    any_allows-In [] e i = absurd i
    any_allows-In (x ∷ cs) e (inl q) =
        let k : allowed_by loopback_ip requested req x (url_parse x) ≡ true =
          subst (λ o. allowed_by loopback_ip requested req x o ≡ true) (sym e ∙ ap url_parse q)
            (allowed_by_self x q) in
        rw k refl
    any_allows-In (x ∷ cs) e (inr i) = ground (arith, any_allows-In cs e i)

  redirect_lem :
      (registered : List Text) (requested : Text)
      → redirect_uri_allowed url_parse loopback_ip registered requested ≡ true
      → (req : Url) × ((url_parse requested ≡ some req)
          × ((is_loopback loopback_ip req ≡ false → In requested registered)
              × (is_loopback loopback_ip req ≡ true
                  → In requested registered ⊎ SameButPort registered req)))
  unfolding redirect_uri_allowed parsed_allowed
  redirect_lem registered requested h = elim (Option-cases (url_parse requested)) [
    | inl e ↦ absurd (
        false_is_true
          (subst (λ o. parsed_allowed url_parse loopback_ip registered requested o ≡ true) e h))
    | inr (req, e) ↦
        let k =
          subst (λ o. parsed_allowed url_parse loopback_ip registered requested o ≡ true) e h in
        (
          req,
          (
            e,
            (
              λ l. any_allows-exact requested req registered l k,
              λ l. any_allows-local requested req registered l k,
            ),
          ),
        )
  ]
    where
      false_is_true : ¬ (false ≡ true)
      false_is_true q = ground arith

  -- whatever its port, its query, its fragment and its user are
  loopback_ignores_query :
      (registered : List Text) (requested : Text) (req : Url)
      → url_parse requested ≡ some req
      → is_loopback loopback_ip req ≡ true
      → SameButPort registered req
      → redirect_uri_allowed url_parse loopback_ip registered requested ≡ true
  unfolding redirect_uri_allowed parsed_allowed
  loopback_ignores_query registered requested req e l p =
      subst (λ o. parsed_allowed url_parse loopback_ip registered requested o ≡ true) (sym e)
        (any_allows-registered requested req l registered p.candidate p.url p.is_registered p.parsed
          p.local p.scheme p.hostname p.path)

  registered-allowed :
      (registered : List Text) (requested : Text) (req : Url)
      → url_parse requested ≡ some req
      → In requested registered
      → redirect_uri_allowed url_parse loopback_ip registered requested ≡ true
  unfolding redirect_uri_allowed parsed_allowed
  registered-allowed registered requested req e i =
      subst (λ o. parsed_allowed url_parse loopback_ip registered requested o ≡ true) (sym e)
        (any_allows-In requested req registered e i)

  -- An authorization code is sent to exactly the addresses that parse and that are registered
  -- character by character, or are literal loopback addresses that agree with a registered loopback
  -- address in scheme, host and path, whatever their port and their query are.
  pub redirect_iff :
      (registered : List Text) (requested : Text)
      → (redirect_uri_allowed url_parse loopback_ip registered requested ≡ true) ↔ (
          (req : Url) × ((url_parse requested ≡ some req)
            × (In requested registered
                ⊎ ((is_loopback loopback_ip req ≡ true) × SameButPort registered req))))
  redirect_iff registered requested = (
    λ h.
        let (req, (e, (exact, local))) = redirect_lem registered requested h in
        (
          req,
          (
            e,
            elim (Bool-cases (is_loopback loopback_ip req)) [
              | inl l ↦ elim (local l) [ inl i ↦ inl i | inr p ↦ inr (l, p) ]
              | inr l ↦ inl (exact l)
            ],
          ),
        ),
    λ (req, (e, or)). elim or [
      | inl i ↦ registered-allowed registered requested req e i
      | inr (l, p) ↦ loopback_ignores_query registered requested req e l p
    ],
  )
