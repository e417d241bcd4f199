-- ===== src/HideFill/Rounding.antt =====
-- The runs that the loop of hide_stripe_fill of serving/hide_fill.hpp adds.
use cxl_anns_kx.Base.{
  ℕ, zero, suc, ◌+◌, ◌-◌, ◌*◌, ◌/◌, ◌≤◌, ◌<◌, ◌≡◌, ◌∙◌, ◌⊎◌, refl, ap, sym, subst, if◌then◌else◌,
  ltb, leb, ◌==◌, true, false, Bool-cases, inl, inr, ◌||◌, ◌&&◌, List, [], ◌∷◌, arith, eq-or-ne,
}
use native.Mathlib.Nat.{le-div_iff_mul-le}
use cxl_anns_kx.Base.Lists.{length, contains, contains-append}
use cxl_anns_kx.HideFill.Extents.{page_steps, spaced, IsSorted}
use cxl_anns_kx.HideFill.Stripes.{stripe, run_end, run_rest, stripe_extras, length-run_rest}
use cxl_anns_kx.HideFill.Rounded.{
  IsRounded, All-contains, run_end-last, run_rest-old, run_rest-kept, run_rest-IsSorted,
  run_rest-out,
}

page_steps-step :
    (n lo pb p : ℕ) → contains p (page_steps n lo pb) ≡ true → (k : ℕ) × (k < n) × (p ≡ lo + k * pb)
unfolding page_steps contains
page_steps-step zero lo pb p h = absurd (ground (arith, h))
page_steps-step (suc n) lo pb p h = elim (eq-or-ne p lo) [
  | inl first ↦ (0, omega arith, omega arith)
  | inr later ↦
      let (k, lt, e) = page_steps-step n (lo + pb) pb p (ground arith) in
      (suc k, omega arith, omega arith)
]

-- The steps of a run do not pass its last page.
step-within : (lo hi pb k : ℕ) → lo ≤ hi → k < (hi - lo) / pb + 1 → lo + k * pb ≤ hi
step-within lo hi pb k le lt = elim (eq-or-ne pb 0) [
  | inl none_at_all ↦ let e : k * pb ≡ 0 = grind arith in omega arith
  | inr some_bytes ↦
      let pos : 0 < pb = ground arith in
      let few : k ≤ (hi - lo) / pb = omega arith in
      let far : k * pb ≤ hi - lo = (le-div_iff_mul-le pos).0 few in omega arith
]

module _ (pb max_span : ℕ) where
  -- The rest of a sorted list is rounded out as it would be in the whole list.
  IsRounded-rest :
      (lo : ℕ) (ps : List ℕ) (p : ℕ)
      → IsSorted (lo ∷ ps)
      → IsRounded pb max_span (run_rest (lo / stripe) ps) p
      → IsRounded pb max_span (lo ∷ ps) p
  unfolding contains
  IsRounded-rest lo ps p sorted r =
      let s0 = lo / stripe in
      let old = run_rest-old s0 r.lo ps r.lo_in in
      let old_hi = run_rest-old s0 r.hi ps r.hi_in in
      let out = run_rest-out s0 lo r.lo ps refl sorted r.lo_in in
      record {
        lo = r.lo;
        hi = r.hi;
        k = r.k;
        lo_in = ground arith;
        hi_in = ground arith;
        one_stripe = r.one_stripe;
        ends = λ q there e.
            let away : (q / stripe == s0) ≡ false = ground (arith, e, out) in
            let not_lo : (q == lo) ≡ false = elim (eq-or-ne q lo) [
              | inl same ↦ let f = ap (λ x. x / stripe) same in absurd (ground arith)
              | inr other ↦ other
            ] in
            r.ends q (run_rest-kept s0 q ps (ground (arith, there)) away) e;
        step = r.step;
        within = r.within;
        short = r.short;
      }

  -- And the other way round, for a run that is not the first.
  IsRounded-later :
      (lo : ℕ) (ps : List ℕ) (p : ℕ) (r : IsRounded pb max_span (lo ∷ ps) p)
      → (r.lo / stripe == lo / stripe) ≡ false
      → IsRounded pb max_span (run_rest (lo / stripe) ps) p
  unfolding contains
  IsRounded-later lo ps p r away =
      let s0 = lo / stripe in
      let later : (q : ℕ)
          → contains q (lo ∷ ps) ≡ true
          → q / stripe ≡ r.lo / stripe
          → contains q (run_rest s0 ps) ≡ true =
        λ q there e.
          let out : (q / stripe == s0) ≡ false = ground (arith, e, away) in
          let not_lo : (q == lo) ≡ false = elim (eq-or-ne q lo) [
            | inl same ↦ let f = ap (λ x. x / stripe) same in absurd (ground arith)
            | inr other ↦ other
          ] in
          run_rest-kept s0 q ps (ground (arith, there)) out in
      record {
        lo = r.lo;
        hi = r.hi;
        k = r.k;
        lo_in = later r.lo r.lo_in refl;
        hi_in = later r.hi r.hi_in r.one_stripe;
        one_stripe = r.one_stripe;
        ends = λ q there e. let old = run_rest-old s0 q ps there in r.ends q (ground arith) e;
        step = r.step;
        within = r.within;
        short = r.short;
      }

  abbrev own_run : ℕ → List ℕ → List ℕ
  own_run lo ps =
      let span = (run_end (lo / stripe) lo ps - lo) / pb + 1 in
      if ltb 1 span && leb span max_span then page_steps span lo pb else []

  own_run-IsRounded :
      (lo : ℕ) (ps : List ℕ) (p : ℕ)
      → IsSorted (lo ∷ ps)
      → contains p (own_run lo ps) ≡ true
      → IsRounded pb max_span (lo ∷ ps) p
  unfolding contains
  own_run-IsRounded lo ps p sorted h =
      let s0 = lo / stripe in
      let hi = run_end s0 lo ps in
      let span = (hi - lo) / pb + 1 in
      let (hi_in, at, top) = run_end-last s0 lo ps refl sorted in
      let le = top lo (ground arith) refl in
      elim (Bool-cases (ltb 1 span && leb span max_span)) [
        | inr spare ↦ absurd (unfold contains in ground (arith, simp spare at h))
        | inl fills ↦
            let (k, lt, e) = page_steps-step span lo pb p (simp fills at h) in
            let reach = step-within lo hi pb k le lt in
            record {
              lo = lo;
              hi = hi;
              k = k;
              lo_in = ground arith;
              hi_in = hi_in;
              one_stripe = at;
              ends = λ q there same. (
                elim (eq-or-ne q lo) [
                  | inl first ↦ omega arith
                  | inr other ↦ All-contains lo q ps sorted.0 (ground (arith, there))
                ],
                top q there same,
              );
              step = e;
              within = omega arith;
              short = ground arith;
            }
      ]

  pub extras-IsRounded :
      (rounds p : ℕ) (pages : List ℕ)
      → IsSorted pages
      → contains p (stripe_extras pb max_span rounds pages) ≡ true
      → IsRounded pb max_span pages p
  unfolding stripe_extras
  extras-IsRounded zero p pages sorted h = absurd (unfold contains in ground (arith, h))
  extras-IsRounded (suc rounds) p [] sorted h = absurd (unfold contains in ground (arith, h))
  extras-IsRounded (suc rounds) p (lo ∷ ps) sorted h =
      let rest = run_rest (lo / stripe) ps in
      let later = stripe_extras pb max_span rounds rest in
      elim (Bool-cases (contains p (own_run lo ps))) [
        | inl here ↦ own_run-IsRounded lo ps p sorted here
        | inr other ↦
            let there : contains p later ≡ true =
              ground (arith, contains-append p (own_run lo ps) later, h) in
            IsRounded-rest lo ps p sorted
              (extras-IsRounded rounds p rest (run_rest-IsSorted (lo / stripe) ps sorted.1) there)
      ]

  -- A page that the first run reaches is its first page or one of its steps.
  first_run :
      (lo : ℕ) (ps : List ℕ) (p : ℕ)
      → 0 < pb
      → IsSorted (lo ∷ ps)
      → (r : IsRounded pb max_span (lo ∷ ps) p) → r.lo / stripe ≡ lo / stripe
      → (p ≡ lo) ⊎ (contains p (own_run lo ps) ≡ true)
  unfolding contains
  first_run lo ps p pos sorted r here =
      let s0 = lo / stripe in
      let hi = run_end s0 lo ps in
      let span = (hi - lo) / pb + 1 in
      let (hi_in, at, top) = run_end-last s0 lo ps refl sorted in
      let low = (r.ends lo (ground arith) (sym here)).0 in
      let high = (r.ends hi hi_in (at ∙ sym here)).1 in
      let up = top r.hi r.hi_in (r.one_stripe ∙ here) in
      let is_lo : r.lo ≡ lo = elim (eq-or-ne r.lo lo) [
        | inl same ↦ ground arith
        | inr other ↦
            let le = All-contains lo r.lo ps sorted.0 (ground (arith, r.lo_in)) in omega arith
      ] in
      let is_hi : r.hi ≡ hi = omega arith in
      let short : span ≤ max_span =
        subst (λ a. (hi - a) / pb + 1 ≤ max_span) is_lo
          (subst (λ b. (b - r.lo) / pb + 1 ≤ max_span) is_hi r.short) in
      let step : p ≡ lo + r.k * pb = r.step ∙ ap (λ a. a + r.k * pb) is_lo in
      let within : p ≤ hi = omega (arith, r.within) in
      let there = spaced pb lo p hi r.k pos within step in
      elim (Bool-cases (ltb 1 span)) [
        | inl long ↦
            let fills : (ltb 1 span && leb span max_span) ≡ true = ground arith in
            inr (simp fills there)
        | inr one ↦
            let single : span ≡ 1 = ground arith in
            let alone = page_steps-step span lo pb p there in
            let zeroth : alone.0 ≡ 0 = omega (arith, alone.1) in
            inl (alone.2 ∙ (rw zeroth (omega arith)))
      ]

  pub IsRounded-extras :
      (rounds p : ℕ) (pages : List ℕ)
      → 0 < pb
      → length pages ≤ rounds
      → IsSorted pages
      → IsRounded pb max_span pages p
      → (contains p pages || contains p (stripe_extras pb max_span rounds pages)) ≡ true
  unfolding stripe_extras contains
  IsRounded-extras rounds p [] pos enough sorted r = absurd (ground (arith, r.lo_in))
  IsRounded-extras zero p (lo ∷ ps) pos enough sorted r = absurd (omega arith)
  IsRounded-extras (suc rounds) p (lo ∷ ps) pos enough sorted r =
      let s0 = lo / stripe in
      let rest = run_rest s0 ps in
      let later = stripe_extras pb max_span rounds rest in
      let both = contains-append p (own_run lo ps) later in
      elim (Bool-cases (r.lo / stripe == s0)) [
        | inl here ↦ elim (first_run lo ps p pos sorted r (ground arith)) [
          | inl first ↦ ground arith
          | inr own ↦ ground (arith, both, own)
        ]
        | inr away ↦
            let tail =
              IsRounded-extras rounds p rest pos (omega (arith, length-run_rest s0 ps))
                (run_rest-IsSorted s0 ps sorted.1) (IsRounded-later lo ps p r away) in
            let old = run_rest-old s0 p ps in ground (arith, both, tail, old)
      ]
