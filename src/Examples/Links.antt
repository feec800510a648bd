-- ===== src/Examples/Links.antt =====
-- internal/db/links.go on small texts.
use rekam.Prelude.{codes, [], ◌∷◌, ◌≡◌, refl}
use rekam.Links.{parse_links, depends_on, relates}

parse_links_typed :
    parse_links (codes "see [[Depends-On :: Go  Style]] and [[Go style]], [[ go style ]]; `[[x]]`")
    ≡ record { rel = depends_on; raw = codes "go style" }
      ∷ record { rel = relates; raw = codes "go style" }
      ∷ []
unfolding parse_links
parse_links_typed = refl

parse_links_fenced :
    parse_links (codes "```[[a]]``` [[ [[b::c]]")
    ≡ record { rel = relates; raw = codes "b::c" } ∷ []
unfolding parse_links
parse_links_fenced = refl
