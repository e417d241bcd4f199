-- ===== src/HideFill/Collect.antt =====
-- The page collectors and the bounce lookup of serving/hide_fill.hpp.
use cxl_anns_kx.Base.{
  ℕ, ◌+◌, if◌then◌else◌, ltb, ◌==◌, not, ◌&&◌, List, [], ◌∷◌, ◌++◌, Option, none, some,
}
use cxl_anns_kx.Base.Lists.{contains}
use cxl_anns_kx.DramWindow.Promote.{pages_of}
use cxl_anns_kx.Placement.{Header, Placement, entry, vec}

-- `if (seen && !seen->insert(p).second) continue; pages.push_back(p)`
unfoldable pub add_pages : List ℕ → List ℕ → Option (List ℕ) → List ℕ × Option (List ℕ)
add_pages [] pages seen = (pages, seen)
add_pages (p ∷ ps) pages none = add_pages ps (pages ++ p ∷ []) none
add_pages (p ∷ ps) pages (some s) =
    add_pages ps (if contains p s then pages else pages ++ p ∷ [])
      (some (if contains p s then s else p ∷ s))

-- The pages of the record of `id`: a packed record has its stride as its length.
unfoldable pub hide_collect_vec_pages :
    Header → Placement → ℕ → ℕ → ℕ → List ℕ → Option (List ℕ) → List ℕ × Option (List ℕ)
unfolding add_pages
hide_collect_vec_pages h pl vb pb id pages seen =
    let off = if pl.diskann_layout then entry h id pl else vec h id pl in
    let len = if pl.diskann_layout && not (pl.vec_stride == 0) then pl.vec_stride else vb in
    add_pages (pages_of pb off len) pages seen

-- The bytes at `in_page` of the host copy of a page; none where the page is missing or the range
-- would cross it.
unfoldable hide_bounce_lookup : List (ℕ × (ℕ → ℕ)) → ℕ → ℕ → ℕ → ℕ → Option (ℕ → ℕ)
hide_bounce_lookup [] page_off in_page len pb = none
hide_bounce_lookup ((p, host) ∷ rest) page_off in_page len pb =
    let later = hide_bounce_lookup rest page_off in_page len pb in
    if ltb pb (in_page + len)
    then none
    else if p == page_off
    then some (λ a. host (in_page + a))
    else later
