-- ===== src/HideFill/StripeFill.antt =====
-- The issue that hide_stripe_fill of serving/hide_fill.hpp leaves.
use cxl_anns_kx.Base.{
  ℕ, ◌*◌, ◌<◌, ◌≡◌, ◌∙◌, ◌⊎◌, ◌↔◌, refl, ap, sym, ltb, ◌==◌, true, false, Bool-cases, inl, inr,
  ◌||◌, List, [], ◌∷◌, ◌++◌, arith,
}
use cxl_anns_kx.Base.Lists.{length, contains, contains-append}
use cxl_anns_kx.HideFill.Extents.{
  sort_pages, unique, contains-sort_pages, contains-unique, IsSorted-sort_pages, IsSorted-unique,
}
use cxl_anns_kx.HideFill.Stripes.{stripe_extras, hide_stripe_fill}
use cxl_anns_kx.HideFill.Rounded.{IsRounded, IsRounded-same}
use cxl_anns_kx.HideFill.Rounding.{extras-IsRounded, IsRounded-extras}

-- Fewer than two pages reach no other.
few_pages :
    (pb max_span : ℕ) (pages : List ℕ) (p : ℕ)
    → length pages < 2
    → IsRounded pb max_span pages p
    → contains p pages ≡ true
unfolding contains
few_pages pb max_span [] p few r = absurd (ground (arith, r.lo_in))
few_pages pb max_span (q ∷ []) p few r =
    let low : r.lo ≡ q = ground (arith, r.lo_in) in
    let high : r.hi ≡ q = ground (arith, r.hi_in) in
    let step = r.step in let within = r.within in let same : p ≡ q = omega arith in ground arith
few_pages pb max_span (q ∷ s ∷ qs) p few r = absurd (omega arith)

-- The issue after hide_stripe_fill has a page exactly if it had it before, or rounding reaches
-- it: it is a step of pb from the first page of the issue in some stripe of 2 MiB and no
-- farther than the last one there, and the run between these has at most max_span pages.
pub hide_stripe_fill_lem :
    (pb max_span p : ℕ) (pages : List ℕ)
    → (contains p (hide_stripe_fill pb max_span pages) ≡ true)
      ↔ ((contains p pages ≡ true) ⊎ IsRounded pb max_span pages p)
unfolding hide_stripe_fill
hide_stripe_fill_lem pb max_span p pages =
    let sorted = unique (sort_pages pages) in
    let extra = stripe_extras pb max_span (length sorted) sorted in
    let same : (q : ℕ) → contains q sorted ≡ contains q pages =
      λ q. contains-unique q (sort_pages pages) ∙ contains-sort_pages q pages in
    let order = IsSorted-unique (sort_pages pages) (IsSorted-sort_pages pages) in
    let all =
      contains-unique p (sort_pages (sorted ++ extra))
      ∙ contains-sort_pages p (sorted ++ extra)
      ∙ contains-append p sorted extra in
    let found : contains p extra ≡ true → IsRounded pb max_span pages p = λ h.
      IsRounded-same pb max_span sorted pages p same
        (extras-IsRounded pb max_span (length sorted) p sorted order h) in
    let reached : 0 < pb
        → IsRounded pb max_span pages p
        → (contains p sorted || contains p extra) ≡ true =
      λ pos r.
        IsRounded-extras pb max_span (length sorted) p sorted pos (omega arith) order
          (IsRounded-same pb max_span pages sorted p (λ q. sym (same q)) r) in
    let old = same p in
    elim (Bool-cases (ltb (length pages) 2 || pb == 0)) [
      | inl few ↦ simp few (
        λ h. inl h,
        λ one. elim one [
          | inl h ↦ h
          | inr r ↦ elim (Bool-cases (pb == 0)) [
            | inl zero_pb ↦
                let none_at_all : r.k * pb ≡ 0 =
                  let e : pb ≡ 0 = ground arith in rw e (omega arith) in
                let at_lo : p ≡ r.lo = omega (arith, r.step) in
                ap (λ q. contains q pages) at_lo ∙ r.lo_in
            | inr some_pb ↦ few_pages pb max_span pages p (ground arith) r
          ]
        ],
      )
      | inr more ↦ elim (Bool-cases (length extra == 0)) [
        | inl spare ↦
            let empty : contains p extra ≡ false = nothing extra (ground arith) in
            simp (more, spare)
              (
                λ h. inl (sym old ∙ h),
                λ one. elim one [
                  | inl h ↦ old ∙ h
                  | inr r ↦ let h = reached (ground arith) r in ground arith
                ],
              )
        | inr some_extra ↦
            simp (more, some_extra)
              (
                λ h. elim (Bool-cases (contains p sorted)) [
                  | inl there ↦ inl (sym old ∙ there)
                  | inr other ↦ inr (found (ground (arith, all, h)))
                ],
                λ one. elim one [
                  | inl h ↦ ground (arith, all, old, h)
                  | inr r ↦ let h = reached (ground arith) r in ground (arith, all, h)
                ],
              )
      ]
    ]
  where
    nothing : (xs : List ℕ) → length xs ≡ 0 → contains p xs ≡ false
    nothing [] e = unfold contains in refl
    nothing (x ∷ xs) e = absurd (omega arith)
