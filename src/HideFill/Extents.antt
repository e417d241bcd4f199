-- ===== src/HideFill/Extents.antt =====
-- hide_extent_run of serving/hide_fill.hpp: an issue whose pages lie close together is rounded out to
-- the whole run between its first and its last page.
use cxl_anns_kx.Base.{
  ℕ, zero, suc, ◌+◌, ◌-◌, ◌*◌, ◌/◌, ◌%◌, ◌<◌, ◌≤◌, ◌≡◌, refl, ap, true, false, Bool-cases, inl, inr,
  ◌==◌, ◌||◌, if◌then◌else◌, List, [], ◌∷◌, arith, leb, ltb, ◌∙◌, sym,
}
use native.Mathlib.Nat.{le-div_iff_mul-le, mod-add-div'}
use cxl_anns_kx.Base.Lists.{length, contains, All}

unfoldable pub insert_sorted : ℕ → List ℕ → List ℕ
insert_sorted x [] = x ∷ []
insert_sorted x (y ∷ ys) = let rest = insert_sorted x ys in if leb x y then x ∷ y ∷ ys else y ∷ rest

-- std::sort
unfoldable pub sort_pages : List ℕ → List ℕ
unfolding insert_sorted
sort_pages [] = []
sort_pages (x ∷ xs) = insert_sorted x (sort_pages xs)

-- `erase(unique(...), end)`: of equal neighbours one is left.
unfoldable pub unique : List ℕ → List ℕ
unique [] = []
unique (x ∷ []) = x ∷ []
unique (x ∷ y ∷ ys) = let rest = unique (y ∷ ys) in if x == y then rest else x ∷ rest

abbrev pub last_or : ℕ → List ℕ → ℕ
last_or d [] = d
last_or d (x ∷ xs) = last_or x xs

-- for (p = lo; p <= hi; p += pb), with (hi - lo) / pb + 1 rounds.
unfoldable pub page_steps : ℕ → ℕ → ℕ → List ℕ
page_steps zero p pb = []
page_steps (suc n) p pb = p ∷ page_steps n (p + pb) pb

abbrev extent : ℕ → ℕ → List ℕ → List ℕ
extent pb max_span [] = []
extent pb max_span (lo ∷ ps) =
    let span = (last_or lo ps - lo) / pb + 1 in
    if leb span 1 || ltb max_span span
    then lo ∷ ps
    else if ltb (length (lo ∷ ps) * 2) span
    then lo ∷ ps
    else page_steps span lo pb

unfoldable pub hide_extent_run : ℕ → ℕ → List ℕ → List ℕ
unfolding unique sort_pages page_steps
hide_extent_run pb max_span pages =
    if ltb (length pages) 2 || pb == 0
    then pages
    else extent pb max_span (unique (sort_pages pages))

module _ where
  length-insert_sorted : (x : ℕ) (ys : List ℕ) → length (insert_sorted x ys) ≡ suc (length ys)
  unfolding insert_sorted
  length-insert_sorted x [] = refl
  length-insert_sorted x (y ∷ ys) = ground (arith, length-insert_sorted x ys)

  length-sort_pages : (xs : List ℕ) → length (sort_pages xs) ≡ length xs
  unfolding sort_pages
  length-sort_pages [] = refl
  length-sort_pages (x ∷ xs) =
      length-insert_sorted x (sort_pages xs) ∙ ap suc (length-sort_pages xs)

  length-unique : (xs : List ℕ) → length (unique xs) ≤ length xs
  unfolding unique
  length-unique [] = omega arith
  length-unique (x ∷ []) = omega arith
  length-unique (x ∷ y ∷ ys) = ground (arith, length-unique (y ∷ ys))

  length-page_steps : (n p pb : ℕ) → length (page_steps n p pb) ≡ n
  unfolding page_steps
  length-page_steps zero p pb = refl
  length-page_steps (suc n) p pb = ap suc (length-page_steps n (p + pb) pb)

  length-extent : (pb max_span : ℕ) (ps : List ℕ) → length (extent pb max_span ps) ≤ length ps * 2
  length-extent pb max_span [] = omega arith
  length-extent pb max_span (lo ∷ ps) =
      let span = (last_or lo ps - lo) / pb + 1 in ground (arith, length-page_steps span lo pb)

-- Rounding out asks for at most twice as many pages as the issue did.
pub length-hide_extent_run :
    (pb max_span : ℕ) (pages : List ℕ)
    → length (hide_extent_run pb max_span pages) ≤ length pages * 2
unfolding hide_extent_run
length-hide_extent_run pb max_span pages =
    let sorted = sort_pages pages in
    ground (
      arith,
      length-extent pb max_span (unique sorted),
      length-unique sorted,
      length-sort_pages pages,
    )

module _ where
  contains_ap : (p q : ℕ) (xs : List ℕ) → p ≡ q → contains p xs ≡ contains q xs
  contains_ap p q xs e = ap (λ x. contains x xs) e

  contains-insert_sorted :
      (p x : ℕ) (ys : List ℕ) → contains p (insert_sorted x ys) ≡ (p == x || contains p ys)
  unfolding insert_sorted contains
  contains-insert_sorted p x [] = refl
  contains-insert_sorted p x (y ∷ ys) = ground (arith, contains-insert_sorted p x ys)

  pub contains-sort_pages : (p : ℕ) (xs : List ℕ) → contains p (sort_pages xs) ≡ contains p xs
  unfolding sort_pages contains
  contains-sort_pages p [] = refl
  contains-sort_pages p (x ∷ xs) =
      ground (arith, contains-insert_sorted p x (sort_pages xs), contains-sort_pages p xs)

  pub contains-unique : (p : ℕ) (xs : List ℕ) → contains p (unique xs) ≡ contains p xs
  unfolding unique contains
  contains-unique p [] = refl
  contains-unique p (x ∷ []) = refl
  contains-unique p (x ∷ y ∷ ys) = ground (arith, contains-unique p (y ∷ ys))

  -- Every page stands between the first and the last of a sorted list.
  abbrev pub IsSorted : List ℕ → Type 0
  IsSorted [] = Unit
  IsSorted (x ∷ xs) = All (λ y. x ≤ y) xs × IsSorted xs

  All-insert_sorted :
      (b x : ℕ) (ys : List ℕ) → b ≤ x → All (λ y. b ≤ y) ys → All (λ y. b ≤ y) (insert_sorted x ys)
  unfolding insert_sorted
  All-insert_sorted b x [] h a = (h, tt)
  All-insert_sorted b x (y ∷ ys) h a = elim (Bool-cases (leb x y)) [
    | inl le ↦ rw le (h, a)
    | inr gt ↦ rw gt (a.0, All-insert_sorted b x ys h a.1)
  ]

  All-lower : (b c : ℕ) (ys : List ℕ) → b ≤ c → All (λ y. c ≤ y) ys → All (λ y. b ≤ y) ys
  All-lower b c [] h a = tt
  All-lower b c (y ∷ ys) h a = (omega (arith, a.0), All-lower b c ys h a.1)

  IsSorted-insert_sorted : (x : ℕ) (ys : List ℕ) → IsSorted ys → IsSorted (insert_sorted x ys)
  unfolding insert_sorted
  IsSorted-insert_sorted x [] s = (tt, tt)
  IsSorted-insert_sorted x (y ∷ ys) s = elim (Bool-cases (leb x y)) [
    | inl le ↦ rw le ((ground arith, All-lower x y ys (ground arith) s.0), s)
    | inr gt ↦ rw gt (All-insert_sorted y x ys (ground arith) s.0, IsSorted-insert_sorted x ys s.1)
  ]

  pub IsSorted-sort_pages : (xs : List ℕ) → IsSorted (sort_pages xs)
  unfolding sort_pages
  IsSorted-sort_pages [] = tt
  IsSorted-sort_pages (x ∷ xs) = IsSorted-insert_sorted x _ (IsSorted-sort_pages xs)

  All-unique : (b : ℕ) (xs : List ℕ) → All (λ y. b ≤ y) xs → All (λ y. b ≤ y) (unique xs)
  unfolding unique
  All-unique b [] a = tt
  All-unique b (x ∷ []) a = a
  All-unique b (x ∷ y ∷ ys) a = elim (Bool-cases (x == y)) [
    | inl same ↦ rw same (All-unique b (y ∷ ys) a.1)
    | inr other ↦ rw other (a.0, All-unique b (y ∷ ys) a.1)
  ]

  pub IsSorted-unique : (xs : List ℕ) → IsSorted xs → IsSorted (unique xs)
  unfolding unique
  IsSorted-unique [] s = tt
  IsSorted-unique (x ∷ []) s = s
  IsSorted-unique (x ∷ y ∷ ys) s = elim (Bool-cases (x == y)) [
    | inl same ↦ rw same (IsSorted-unique (y ∷ ys) s.1)
    | inr other ↦ rw other (All-unique x (y ∷ ys) s.0, IsSorted-unique (y ∷ ys) s.1)
  ]

  between :
      (p lo : ℕ) (ps : List ℕ)
      → IsSorted (lo ∷ ps)
      → contains p (lo ∷ ps) ≡ true
      → (lo ≤ p) × (p ≤ last_or lo ps)
  unfolding contains
  between p lo [] s h = (ground arith, ground arith)
  between p lo (x ∷ xs) s h =
      let top = (between x x xs s.1 (ground arith)).1 in
      elim (Bool-cases (contains p (x ∷ xs))) [
        | inl later ↦ let r = between p x xs s.1 later in (omega (arith, s.0.0, r.0), r.1)
        | inr first ↦ (ground arith, omega (arith, s.0.0, top, same_head p lo (x ∷ xs) h first))
      ]
    where
      same_head :
          (p lo : ℕ) (xs : List ℕ) → contains p (lo ∷ xs) ≡ true → contains p xs ≡ false → p ≡ lo
      same_head p lo xs h f = unfold contains in ground arith

  contains-page_steps :
      (n p pb q k : ℕ) → k < n → q ≡ p + k * pb → contains q (page_steps n p pb) ≡ true
  unfolding page_steps contains
  contains-page_steps zero p pb q k lt e = absurd (omega arith)
  contains-page_steps (suc n) p pb q zero lt e = ground arith
  contains-page_steps (suc n) p pb q (suc k) lt e =
      ground (arith, contains-page_steps n (p + pb) pb q k (omega arith) (omega arith))

  distributes : (r k pb : ℕ) → (r + k) * pb ≡ r * pb + k * pb
  distributes r k pb = omega arith

  pub spaced :
      (pb lo p hi k : ℕ)
      → 0 < pb
      → p ≤ hi
      → p ≡ lo + k * pb
      → contains p (page_steps ((hi - lo) / pb + 1) lo pb) ≡ true
  spaced pb lo p hi k pos high e =
      let few : k ≤ (hi - lo) / pb = (le-div_iff_mul-le pos).1 (omega arith) in
      contains-page_steps ((hi - lo) / pb + 1) lo pb p k (omega arith) e

  -- An aligned page between two aligned ends is one of the steps.
  step_of :
      (pb lo p hi : ℕ)
      → 0 < pb
      → lo % pb ≡ 0
      → p % pb ≡ 0
      → lo ≤ p
      → p ≤ hi
      → contains p (page_steps ((hi - lo) / pb + 1) lo pb) ≡ true
  step_of pb lo p hi pos a b low high =
      let k = p / pb - lo / pb in
      let e0 : lo ≡ lo / pb * pb = omega (arith, mod-add-div' lo pb) in
      let e1 : p ≡ p / pb * pb = omega (arith, mod-add-div' p pb) in
      let le : lo / pb ≤ p / pb = (le-div_iff_mul-le pos).1 (omega arith) in
      let sum : p / pb ≡ lo / pb + k = omega arith in
      let split : p / pb * pb ≡ lo / pb * pb + k * pb =
        ap (λ t. t * pb) sum ∙ distributes (lo / pb) k pb in
      spaced pb lo p hi k pos high (omega arith)

  contains-extent :
      (pb max_span p : ℕ) (ps : List ℕ)
      → 0 < pb
      → ((q : ℕ) → contains q ps ≡ true → q % pb ≡ 0)
      → IsSorted ps
      → contains p ps ≡ true
      → contains p (extent pb max_span ps) ≡ true
  unfolding contains
  contains-extent pb max_span p [] pos aligned s h = h
  contains-extent pb max_span p (lo ∷ ps) pos aligned s h =
      let ends = between p lo ps s h in
      let inside =
        step_of pb lo p (last_or lo ps) pos (aligned lo (ground arith)) (aligned p h) ends.0
          ends.1 in
      ground arith

-- If the pages of an issue are aligned, rounding the issue out to a run loses none of them.
pub contains-hide_extent_run :
    (pb max_span p : ℕ) (pages : List ℕ)
    → ((q : ℕ) → contains q pages ≡ true → q % pb ≡ 0)
    → contains p pages ≡ true
    → contains p (hide_extent_run pb max_span pages) ≡ true
unfolding hide_extent_run
contains-hide_extent_run pb max_span p pages aligned h =
    elim (Bool-cases (ltb (length pages) 2 || pb == 0)) [
      | inl small ↦ rw small h
      | inr long ↦
          let same =
            λ (q : ℕ). contains-unique q (sort_pages pages) ∙ contains-sort_pages q pages in
          rw long (
            contains-extent pb max_span p (unique (sort_pages pages)) (ground arith)
              (λ q k. aligned q (sym (same q) ∙ k)) (IsSorted-unique _ (IsSorted-sort_pages pages))
              (same p ∙ h))
    ]
