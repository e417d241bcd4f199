-- ===== src/HideFill/Stripes.antt =====
-- hide_stripe_fill of serving/hide_fill.hpp: the pages of an issue that lie in one stripe of 2 MiB are
-- rounded out to a run.
use cxl_anns_kx.Base.{
  ℕ, zero, suc, ◌+◌, ◌-◌, ◌/◌, ◌≤◌, ◌≡◌, refl, ap, if◌then◌else◌, ltb, leb, ◌==◌, ◌||◌, ◌&&◌, List,
  [], ◌∷◌, ◌++◌, arith,
}
use cxl_anns_kx.Base.Lists.{length}
use cxl_anns_kx.HideFill.Extents.{sort_pages, unique, page_steps}

abbrev pub stripe : ℕ
stripe = 2097152

-- while (j < pages.size() && pages[j] / stripe == s0): the last page of the stripe, after `hi`.
unfoldable pub run_end : ℕ → ℕ → List ℕ → ℕ
run_end s0 hi [] = hi
run_end s0 hi (p ∷ ps) = let later = run_end s0 p ps in if p / stripe == s0 then later else hi

unfoldable pub run_rest : ℕ → List ℕ → List ℕ
run_rest s0 [] = []
run_rest s0 (p ∷ ps) = let later = run_rest s0 ps in if p / stripe == s0 then later else p ∷ ps

-- The loop over the stripes, with a round for each page: `extra`.
unfoldable pub stripe_extras : ℕ → ℕ → ℕ → List ℕ → List ℕ
unfolding run_end run_rest page_steps
stripe_extras pb max_span zero pages = []
stripe_extras pb max_span (suc rounds) [] = []
stripe_extras pb max_span (suc rounds) (lo ∷ ps) =
    let s0 = lo / stripe in
    let span = (run_end s0 lo ps - lo) / pb + 1 in
    let later = stripe_extras pb max_span rounds (run_rest s0 ps) in
    (if ltb 1 span && leb span max_span then page_steps span lo pb else []) ++ later

unfoldable pub hide_stripe_fill : ℕ → ℕ → List ℕ → List ℕ
unfolding unique sort_pages stripe_extras
hide_stripe_fill pb max_span pages =
    let sorted = unique (sort_pages pages) in
    let extra = stripe_extras pb max_span (length sorted) sorted in
    if ltb (length pages) 2 || pb == 0
    then pages
    else if length extra == 0
    then sorted
    else unique (sort_pages (sorted ++ extra))

pub length-run_rest : (s0 : ℕ) (ps : List ℕ) → length (run_rest s0 ps) ≤ length ps
unfolding run_rest
length-run_rest s0 [] = omega arith
length-run_rest s0 (p ∷ ps) = ground (arith, length-run_rest s0 ps)

-- A round for each page is enough: more rounds find the same pages.
pub stripe_extras-enough :
    (pb max_span rounds more : ℕ) (pages : List ℕ)
    → length pages ≤ rounds
    → stripe_extras pb max_span (rounds + more) pages ≡ stripe_extras pb max_span rounds pages
unfolding stripe_extras
stripe_extras-enough pb max_span zero zero [] enough = refl
stripe_extras-enough pb max_span zero (suc more) [] enough =
    let e : 0 + suc more ≡ suc more = omega arith in rw e refl
stripe_extras-enough pb max_span zero more (p ∷ ps) enough = absurd (omega arith)
stripe_extras-enough pb max_span (suc rounds) more [] enough =
    let e : suc rounds + more ≡ suc (rounds + more) = omega arith in rw e refl
stripe_extras-enough pb max_span (suc rounds) more (lo ∷ ps) enough =
    let e : suc rounds + more ≡ suc (rounds + more) = omega arith in
    let s0 = lo / stripe in
    let span = (run_end s0 lo ps - lo) / pb + 1 in
    let own = if ltb 1 span && leb span max_span then page_steps span lo pb else [] in
    rw e (
      ap (λ l. own ++ l)
        (stripe_extras-enough pb max_span rounds more (run_rest s0 ps)
          (omega (arith, length-run_rest s0 ps))))
