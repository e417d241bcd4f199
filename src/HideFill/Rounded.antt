-- ===== src/HideFill/Rounded.antt =====
-- What hide_stripe_fill of serving/hide_fill.hpp adds to an issue.
use cxl_anns_kx.Base.{
  ℕ, ◌+◌, ◌-◌, ◌*◌, ◌/◌, ◌≤◌, ◌≡◌, ◌∙◌, ap, sym, ◌==◌, true, false, Bool-cases, inl, inr, List, [],
  ◌∷◌, arith, eq-or-ne,
}
use cxl_anns_kx.Base.Lists.{contains, All}
use cxl_anns_kx.HideFill.Extents.{IsSorted}
use cxl_anns_kx.HideFill.Stripes.{stripe, run_end, run_rest}

-- A page that rounding out the pages of a stripe reaches: a step of pb from the first of them, no
-- farther than the last, where the run has at most max_span pages.
pub record IsRounded (pb max_span : ℕ) (pages : List ℕ) (p : ℕ) : Type 0 where
  pub lo : ℕ
  pub hi : ℕ
  pub k : ℕ
  pub lo_in : contains lo pages ≡ true
  pub hi_in : contains hi pages ≡ true
  pub one_stripe : hi / stripe ≡ lo / stripe
  pub ends : (q : ℕ) → contains q pages ≡ true → q / stripe ≡ lo / stripe → (lo ≤ q) × (q ≤ hi)
  pub step : p ≡ lo + k * pb
  pub within : p ≤ hi
  pub short : (hi - lo) / pb + 1 ≤ max_span

pub IsRounded-same :
    (pb max_span : ℕ) (xs ys : List ℕ) (p : ℕ)
    → ((q : ℕ) → contains q xs ≡ contains q ys)
    → IsRounded pb max_span xs p
    → IsRounded pb max_span ys p
IsRounded-same pb max_span xs ys p same r = record {
  lo = r.lo;
  hi = r.hi;
  k = r.k;
  lo_in = sym (same r.lo) ∙ r.lo_in;
  hi_in = sym (same r.hi) ∙ r.hi_in;
  one_stripe = r.one_stripe;
  ends = λ q there e. r.ends q (same q ∙ there) e;
  step = r.step;
  within = r.within;
  short = r.short;
}

pub All-contains : (x q : ℕ) (ys : List ℕ) → All (λ y. x ≤ y) ys → contains q ys ≡ true → x ≤ q
unfolding contains
All-contains x q [] a h = absurd (ground (arith, h))
All-contains x q (y ∷ ys) a h = elim (eq-or-ne q y) [
  | inl same ↦ omega (arith, a.0)
  | inr other ↦ All-contains x q ys a.1 (ground arith)
]

module _ (s0 : ℕ) where
  pub run_end-last :
      (hi : ℕ) (ps : List ℕ)
      → hi / stripe ≡ s0
      → IsSorted (hi ∷ ps)
      → (contains (run_end s0 hi ps) (hi ∷ ps) ≡ true)
        × (run_end s0 hi ps / stripe ≡ s0)
        × ((q : ℕ) → contains q (hi ∷ ps) ≡ true → q / stripe ≡ s0 → q ≤ run_end s0 hi ps)
  unfolding run_end contains
  run_end-last hi [] e sorted = (ground arith, e, λ q there same. ground (arith, there))
  run_end-last hi (p ∷ ps) e sorted = elim (Bool-cases (p / stripe == s0)) [
    | inl more ↦
        let (there, at, top) = run_end-last p ps (ground arith) sorted.1 in
        let up = top p (ground arith) (ground arith) in
        simp more (
          ground (arith, there),
          at,
          λ q here same. elim (eq-or-ne q hi) [
            | inl is_hi ↦ omega (arith, sorted.0.0)
            | inr other ↦ top q (ground (arith, here)) same
          ],
        )
    | inr stop ↦ simp stop (
      ground arith,
      e,
      λ q here same. elim (eq-or-ne q hi) [
        | inl is_hi ↦ omega arith
        | inr other ↦
            let beyond : p ≤ q = elim (eq-or-ne q p) [
              | inl is_p ↦ omega arith
              | inr later ↦ All-contains p q ps sorted.1.0 (ground (arith, here))
            ] in
            let first : hi ≤ p = sorted.0.0 in
            let apart : p / stripe ≡ s0 → ⊥ = λ k. absurd (ground arith) in
            absurd (apart (omega arith))
      ],
    )
  ]

  pub run_rest-old :
      (q : ℕ) (ps : List ℕ) → contains q (run_rest s0 ps) ≡ true → contains q ps ≡ true
  unfolding run_rest contains
  run_rest-old q [] h = h
  run_rest-old q (p ∷ ps) h = elim (Bool-cases (p / stripe == s0)) [
    | inl more ↦ let old = run_rest-old q ps (simp more at h) in ground arith
    | inr stop ↦ simp stop at h
  ]

  pub run_rest-kept :
      (q : ℕ) (ps : List ℕ)
      → contains q ps ≡ true
      → (q / stripe == s0) ≡ false
      → contains q (run_rest s0 ps) ≡ true
  unfolding run_rest contains
  run_rest-kept q [] h out = h
  run_rest-kept q (p ∷ ps) h out = elim (Bool-cases (p / stripe == s0)) [
    | inr stop ↦ simp stop h
    | inl more ↦
        let other : (q == p) ≡ false = elim (eq-or-ne q p) [
          | inl same ↦ let e = ap (λ x. x / stripe) same in absurd (ground arith)
          | inr apart ↦ apart
        ] in
        simp more (run_rest-kept q ps (ground arith) out)
  ]

  pub run_rest-IsSorted : (ps : List ℕ) → IsSorted ps → IsSorted (run_rest s0 ps)
  unfolding run_rest
  run_rest-IsSorted [] sorted = tt
  run_rest-IsSorted (p ∷ ps) sorted = elim (Bool-cases (p / stripe == s0)) [
    | inl more ↦ simp more (run_rest-IsSorted ps sorted.1)
    | inr stop ↦ simp stop sorted
  ]

  -- What is left of a sorted list lies in other stripes.
  pub run_rest-out :
      (lo q : ℕ) (ps : List ℕ)
      → lo / stripe ≡ s0
      → IsSorted (lo ∷ ps)
      → contains q (run_rest s0 ps) ≡ true
      → (q / stripe == s0) ≡ false
  unfolding run_rest contains
  run_rest-out lo q [] e sorted h = absurd (ground (arith, h))
  run_rest-out lo q (p ∷ ps) e sorted h = elim (Bool-cases (p / stripe == s0)) [
    | inl more ↦ run_rest-out p q ps (ground arith) sorted.1 (simp more at h)
    | inr stop ↦
        let there : contains q (p ∷ ps) ≡ true = simp stop at h in
        let beyond : p ≤ q = elim (eq-or-ne q p) [
          | inl is_p ↦ omega arith
          | inr later ↦ All-contains p q ps sorted.1.0 (ground (arith, there))
        ] in
        let first : lo ≤ p = sorted.0.0 in
        elim (Bool-cases (q / stripe == s0)) [
          | inr out ↦ out
          | inl same ↦
              let apart : p / stripe ≡ s0 → ⊥ = λ k. absurd (ground arith) in
              let at : q / stripe ≡ s0 = ground arith in absurd (apart (omega arith))
        ]
  ]
