-- ===== src/Sources/Tests.antt =====
-- src/src_common.c: the theorem at the sources of a build with files, unix sockets and UDP.
use putv.Prelude.{◌≡◌, ◌⊎◌, true, false, none, some, List, ℕ, ◌∷◌, [], get_elem?, take}
use putv.Media.Mime.{codes}
use putv.Text.{split}
use putv.Sources.{src_find, any_starts, any_matches, src_find_lem}

abbrev protocols : List (List ℕ)
protocols = codes "file://" ∷ codes "unix://|file://" ∷ codes "udp://|rtp://" ∷ []

src_find_lem_example :
    ((src_find protocols (codes "rtp://h") ≡ none)
      × (any_matches (codes "rtp://h") protocols ≡ false))
    ⊎ ((i : ℕ) × (p : List ℕ) × (src_find protocols (codes "rtp://h") ≡ some i)
        × (get_elem? protocols i ≡ some p)
        × (any_starts (codes "rtp://h") (split b'|' p) ≡ true)
        × (any_matches (codes "rtp://h") (take i protocols) ≡ false))
src_find_lem_example = src_find_lem protocols (codes "rtp://h")
