-- ===== src/ScoreCache.antt =====
-- serving/score_cache.hpp: the ids of an expansion, split by whether their page was a hit in the
-- software cache.
use cxl_anns_kx.Base.{
  ℕ, ◌+◌, ◌≡◌, refl, if◌then◌else◌, ltb, Bool, Bool-cases, inl, inr, ◌&&◌, List, [], ◌∷◌, arith,
}
use cxl_anns_kx.Base.Lists.{length}

-- The pairs of an id and its page, in order; the ids to score now and those to score later.
unfoldable score_cache_split : List (ℕ × ℕ) → (ℕ → Bool) → ℕ → List ℕ × List ℕ
score_cache_split [] hit n_pages = ([], [])
score_cache_split ((id, p) ∷ rest) hit n_pages =
    let (now, later) = score_cache_split rest hit n_pages in
    if ltb p n_pages && hit p then (id ∷ now, later) else (now, id ∷ later)

-- Each id goes to one of the two sides.
length-score_cache_split :
    (ids : List (ℕ × ℕ)) (hit : ℕ → Bool) (n_pages : ℕ)
    → length (score_cache_split ids hit n_pages).0 + length (score_cache_split ids hit n_pages).1
      ≡ length ids
unfolding score_cache_split
length-score_cache_split [] hit n_pages = refl
length-score_cache_split ((id, p) ∷ rest) hit n_pages = elim (Bool-cases (ltb p n_pages && hit p)) [
  | inl found ↦ rw found (omega (arith, length-score_cache_split rest hit n_pages))
  | inr missed ↦ rw missed (omega (arith, length-score_cache_split rest hit n_pages))
]
