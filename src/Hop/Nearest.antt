-- ===== src/Hop/Nearest.antt =====
-- The pick of the search of serving/search_beam.cpp: no candidate that is not expanded is nearer.
use cxl_anns_kx.Base.{
  ℕ, suc, ◌≡◌, ◌⊎◌, refl, ap, sym, ◌∙◌, true, false, Bool-cases, inl, inr, List, [], ◌∷◌, Option,
  none, some, arith,
}
use cxl_anns_kx.Base.Lists.{contains, get_elem?, All}
use cxl_anns_kx.Beam.{Cand, Search, cand_ids, closer, pick_best}
use cxl_anns_kx.Beam.Insert.{IsOrder}
use cxl_anns_kx.Beam.Ends.{some-inj, none≢some}

module _ {D : Type 0} (s : Search D) where
  -- A candidate that no candidate outside of `ex` is nearer than.
  abbrev pub NoneNearer : List ℕ → List (Cand D) → Cand D → Type 0
  NoneNearer ex cs c = All (λ b. contains b.id ex ≡ false → s.lt b.dist c.dist ≡ false) cs

  abbrev pub IsListed : Cand D → List (Cand D) → Type 0
  IsListed c cs = (i : ℕ) × (get_elem? cs i ≡ some c)

  pick_best-some :
      (ex : List ℕ) (a : Cand D) (cs : List (Cand D)) → pick_best s ex (some a) cs ≡ none → ⊥
  unfolding pick_best
  pick_best-some ex a [] e = none≢some a (sym e)
  pick_best-some ex a (b ∷ bs) e = elim (Bool-cases (contains b.id ex)) [
    | inl old ↦ pick_best-some ex a bs (rw old at e)
    | inr new ↦ elim (Bool-cases (s.lt b.dist a.dist)) [
      | inl less ↦ pick_best-some ex b bs (rw less at (rw new at e))
      | inr more ↦ pick_best-some ex a bs (rw more at (rw new at e))
    ]
  ]

  -- Without a pick every candidate is expanded.
  pub pick_best-none :
      (ex : List ℕ) (cs : List (Cand D))
      → pick_best s ex none cs ≡ none
      → (x : ℕ) → contains x (cand_ids cs) ≡ true
      → contains x ex ≡ true
  unfolding pick_best contains
  pick_best-none ex [] e x h = absurd (ground (arith, h))
  pick_best-none ex (b ∷ bs) e x h = elim (Bool-cases (contains b.id ex)) [
    | inr new ↦ absurd (pick_best-some ex b bs (rw new at e))
    | inl old ↦
        let rest = pick_best-none ex bs (rw old at e) x in
        let same : x ≡ b.id → contains x ex ≡ true = λ k. ap (λ y. contains y ex) k ∙ old in
        ground (arith, rest, same)
  ]

module _ {D : Type 0} (s : Search D) (o : IsOrder s) where
  not_self : (d : D) → s.lt d d ≡ false
  not_self d = elim (Bool-cases (s.lt d d)) [ inl t ↦ o.asym d d t | inr f ↦ f ]

  closer_lem :
      (best : Option (Cand D)) (b : Cand D)
      → (d : Cand D) × (closer s best b ≡ some d)
        × (s.lt b.dist d.dist ≡ false)
        × ((a : Cand D) → best ≡ some a → s.lt a.dist d.dist ≡ false)
        × ((d ≡ b) ⊎ (best ≡ some d))
  closer_lem none b = (b, refl, not_self b.dist, λ a e. absurd (none≢some a e), inl refl)
  closer_lem (some a) b = elim (Bool-cases (s.lt b.dist a.dist)) [
    | inl less ↦ (
      b,
      rw less refl,
      not_self b.dist,
      λ x e.
          ap (λ (c : Cand D). s.lt c.dist b.dist) (sym (some-inj a a x e))
          ∙ o.asym b.dist a.dist less,
      inl refl,
    )
    | inr more ↦ (
      a,
      rw more refl,
      more,
      λ x e. ap (λ (c : Cand D). s.lt c.dist a.dist) (sym (some-inj a a x e)) ∙ not_self a.dist,
      inr refl,
    )
  ]

  pick_best-NoneNearer :
      (ex : List ℕ) (best : Option (Cand D)) (cs : List (Cand D)) (c : Cand D)
      → pick_best s ex best cs ≡ some c
      → ((a : Cand D) → best ≡ some a → s.lt a.dist c.dist ≡ false)
        × NoneNearer s ex cs c
        × ((best ≡ some c) ⊎ IsListed s c cs)
  unfolding pick_best
  pick_best-NoneNearer ex best [] c e = (
    λ a k. ap (λ (x : Cand D). s.lt x.dist c.dist) (some-inj a a c (sym k ∙ e)) ∙ not_self c.dist,
    tt,
    inl e,
  )
  pick_best-NoneNearer ex best (b ∷ bs) c e = elim (Bool-cases (contains b.id ex)) [
    | inl old ↦
        let (near, all, from) = pick_best-NoneNearer ex best bs c (rw old at e) in
        (
          near,
          (λ new. absurd (ground (arith, old, new)), all),
          elim from [ inl kept ↦ inl kept | inr (i, at) ↦ inr (suc i, at) ],
        )
    | inr new ↦
        let (d, is_d, no_b, no_a, which) = closer_lem best b in
        let (near, all, from) = pick_best-NoneNearer ex (closer s best b) bs c (rw new at e) in
        let last = near d is_d in
        (
          λ a k. o.trans a.dist d.dist c.dist (no_a a k) last,
          (λ fresh. o.trans b.dist d.dist c.dist no_b last, all),
          elim from [
            | inr (i, at) ↦ inr (suc i, at)
            | inl kept ↦
                let same = some-inj d d c (sym is_d ∙ kept) in
                elim which [
                  | inl is_b ↦ inr (0, ap some (sym is_b ∙ same))
                  | inr is_best ↦ inl (is_best ∙ ap some same)
                ]
          ],
        )
  ]

  -- The pick is a candidate, and none that is not expanded is nearer.
  pub pick_best_nearest :
      (ex : List ℕ) (cs : List (Cand D)) (c : Cand D)
      → pick_best s ex none cs ≡ some c
      → IsListed s c cs × NoneNearer s ex cs c
  pick_best_nearest ex cs c e =
      let (near, all, from) = pick_best-NoneNearer ex none cs c e in
      elim from [ inl kept ↦ absurd (none≢some c kept) | inr there ↦ (there, all) ]
