-- ===== src/Query/Needs.antt =====
-- The pages that pqq_issue of serving/search_beam.cpp asks for.
use cxl_anns_kx.Base.{
  ℕ, ◌+◌, ◌≤◌, ◌≡◌, refl, if◌then◌else◌, ◌==◌, true, Bool-cases, inl, inr, not, ◌&&◌, List, [], ◌∷◌,
  ◌++◌, none, some, arith, eq-or-ne,
}
use cxl_anns_kx.Base.Words.{u64_mod, IsPageSize}
use cxl_anns_kx.Base.Lists.{contains, contains-append, All}
use cxl_anns_kx.Placement.{vec}
use cxl_anns_kx.DramWindow.Promote.{pages_of}
use cxl_anns_kx.DramWindow.Copies.{pages_of-contains}
use cxl_anns_kx.HideFill.Collect.{add_pages, hide_collect_vec_pages}
use cxl_anns_kx.HideFill.Ranges.{Needs}
use cxl_anns_kx.Beam.{Cand}
use cxl_anns_kx.Query.{PrefetchHub, PqQ, Image, Pages, collect, collect_cands, pqq_issue}

-- The pages seen are among those collected.
abbrev IsSub : Pages → Type 0
IsSub (pages, none) = ⊥
IsSub (pages, some s) = (p : ℕ) → contains p s ≡ true → contains p pages ≡ true

abbrev Grows : List ℕ → Pages → Pages → Type 0
Grows ps from to =
    IsSub to
    × ((p : ℕ) → contains p from.0 ≡ true → contains p to.0 ≡ true)
    × ((p : ℕ) → contains p ps ≡ true → contains p to.0 ≡ true)

add_pages-Grows :
    (ps : List ℕ) (found : Pages) → IsSub found → Grows ps found (add_pages ps (found.0) (found.1))
unfolding add_pages contains
add_pages-Grows ps (pages, none) sub = absurd sub
add_pages-Grows [] (pages, some s) sub = (sub, λ p h. h, λ p h. absurd (ground arith))
add_pages-Grows (q ∷ qs) (pages, some s) sub = elim (Bool-cases (contains q s)) [
  | inl old ↦
      let r = add_pages-Grows qs (pages, some s) sub in
      simp old (
        r.0,
        r.1,
        λ p h. elim (eq-or-ne p q) [
          | inl same ↦ rw same (r.1 q (sub q old))
          | inr other ↦ r.2 p (ground arith)
        ],
      )
  | inr new ↦
      let grown : (p : ℕ) → contains p (q ∷ s) ≡ true → contains p (pages ++ q ∷ []) ≡ true =
        λ p h. ground (arith, contains-append p pages (q ∷ []), sub p) in
      let r = add_pages-Grows qs (pages ++ q ∷ [], some (q ∷ s)) grown in
      simp new (
        r.0,
        λ p h. r.1 p (ground (arith, contains-append p pages (q ∷ []))),
        λ p h. elim (eq-or-ne p q) [
          | inl same ↦ r.1 p (ground (arith, contains-append p pages (q ∷ [])))
          | inr other ↦ r.2 p (ground arith)
        ],
      )
]

-- The bytes of a record that are asked for.
abbrev pub record_len : Image → ℕ
record_len im =
    if im.pl.diskann_layout && not (im.pl.vec_stride == 0) then im.pl.vec_stride else im.vb

abbrev pub vec_at : Image → ℕ → ℕ
vec_at im id = vec im.hdr id im.pl

collect-Grows :
    (im : Image) (pb id : ℕ) (found : Pages)
    → IsSub found
    → Grows (pages_of pb (vec_at im id) (record_len im)) found (collect im pb id found)
unfolding hide_collect_vec_pages vec
collect-Grows im pb id found sub = elim (Bool-cases im.pl.diskann_layout) [
  | inl packed ↦ simp packed (add_pages-Grows _ found sub)
  | inr apart ↦ simp apart (add_pages-Grows _ found sub)
]

collect_cands-Grows :
    {D : Type 0} (im : Image) (pb : ℕ) (cs : List (Cand D)) (found : Pages)
    → IsSub found
    → let r = collect_cands im pb cs found in
      ((p : ℕ) → contains p found.0 ≡ true → contains p r.0 ≡ true)
      × All
          (λ (c : Cand D).
            (p : ℕ)
            → contains p (pages_of pb (vec_at im c.id) (record_len im)) ≡ true
            → contains p r.0 ≡ true)
          cs
unfolding collect_cands
collect_cands-Grows im pb [] found sub = (λ p h. h, tt)
collect_cands-Grows im pb (c ∷ cs) found sub =
    let (sub', keeps, adds) = collect-Grows im pb c.id found sub in
    let (kept, later) = collect_cands-Grows im pb cs (collect im pb c.id found) sub' in
    (λ p h. kept p (keeps p h), (λ p h. kept p (adds p h), later))

-- Where the records asked for hold the vectors, and lie below 2^64.
abbrev pub Fits : {D : Type 0} → Image → List (Cand D) → Type 0
Fits im cs = (im.vb ≤ record_len im) × All (λ c. vec_at im c.id + record_len im ≤ u64_mod) cs

-- The pages of each candidate's vector are among those named.
abbrev pub Named : {D : Type 0} → Image → ℕ → List ℕ → List (Cand D) → Type 0
Named im pb need cs = All (λ c. Needs pb (vec_at im c.id) im.vb need) cs

Fits-Named :
    {D : Type 0} (im : Image) (pb : ℕ) (need : List ℕ) (cs : List (Cand D))
    → IsPageSize pb
    → Fits im cs
    → All
        (λ (c : Cand D).
          (p : ℕ)
          → contains p (pages_of pb (vec_at im c.id) (record_len im)) ≡ true
          → contains p need ≡ true)
        cs
    → Named im pb need cs
Fits-Named im pb need [] page fits all = tt
Fits-Named im pb need (c ∷ cs) page (holds, low) (now, later) = (
  λ k lt. now _ (pages_of-contains (vec_at im c.id) (record_len im) k page low.0 (omega arith)),
  Fits-Named im pb need cs page (holds, low.1) later,
)

-- After an issue, the pages that the query needs hold the vector of each of its candidates.
pub pqq_issue-Named :
    {D : Type 0} (ids_on : ℕ → List ℕ) (im : Image) (q : PqQ D) (hub : PrefetchHub)
    → IsPageSize hub.pipe.win.page_bytes
    → Fits im q.cand
    → let r = (pqq_issue ids_on im q hub).0 in
      (r.cand ≡ q.cand) × Named im hub.pipe.win.page_bytes r.need r.cand
unfolding pqq_issue contains
pqq_issue-Named ids_on im q hub page fits =
    let none_yet : IsSub ([], some []) = λ p h. h in
    (
      refl,
      Fits-Named im _ _ q.cand page fits
          (collect_cands-Grows im hub.pipe.win.page_bytes q.cand ([], some []) none_yet).1,
    )
