-- ===== src/Hop/Picks.antt =====
-- p3q_pick of serving/search_beam.cpp: a batch of records to expand.
use cxl_anns_kx.Base.{
  ℕ, zero, suc, ◌+◌, ◌<◌, ◌≤◌, ◌≡◌, ◌⊎◌, ◌∙◌, refl, ap, sym, subst, true, false, Bool-cases, inl,
  inr, ◌==◌, ◌||◌, List, [], ◌∷◌, none, some, Option-cases, arith, eq-or-ne,
}
use cxl_anns_kx.Base.Words.{u32_mod, add32, add32_small}
use cxl_anns_kx.Base.Lists.{length, contains, IsDistinct}
use cxl_anns_kx.Beam.{Cand, Beam, Search, cand_ids, at_limit, next_pick, pick_best}
use cxl_anns_kx.Beam.Insert.{IsOrder}
use cxl_anns_kx.Beam.Ends.{IsFresh, next_pick_lem}
use cxl_anns_kx.Hop.{p3q_pick}
use cxl_anns_kx.Hop.Nearest.{NoneNearer, IsListed, pick_best-none, pick_best_nearest}

module _ {D : Type 0} (s : Search D) where
  -- Each id of a batch is that of a candidate, and no candidate that was not expanded before it is
  -- nearer.
  abbrev pub PicksNearest : List (Cand D) → List ℕ → List ℕ → Type 0
  PicksNearest cs ex [] = Unit
  PicksNearest cs ex (x ∷ batch) =
      ((c : Cand D) × (c.id ≡ x) × IsListed s c cs × NoneNearer s ex cs c)
      × PicksNearest cs (x ∷ ex) batch

  -- The batch: candidates that were not expanded and are now, each once, the nearest first. Only the
  -- size asked for, the bound on expansions and the end of the candidates stop it.
  pub record IsBatch (rounds : ℕ) (q : Beam D) (batch : List ℕ) (q1 : Beam D) : Type 0 where
    pub same_cand : q1.cand ≡ q.cand
    pub fresh : (x : ℕ) → contains x batch ≡ true → contains x q.expanded ≡ false
    pub known : (x : ℕ) → contains x batch ≡ true → contains x (cand_ids q.cand) ≡ true
    pub distinct : IsDistinct batch
    pub marked : (x : ℕ) → contains x q1.expanded ≡ (contains x batch || contains x q.expanded)
    pub nearest : PicksNearest q.cand q.expanded batch
    pub counted : q1.expands ≡ q.expands + length batch
    pub bounded : length batch ≤ rounds
    pub within : (s.iters ≡ 0) ⊎ (batch ≡ []) ⊎ (q1.expands ≤ s.iters)
    pub whole :
        (length batch ≡ rounds)
        ⊎ (((s.iters == 0) ≡ false) × (s.iters ≤ q1.expands))
        ⊎ ((x : ℕ) → contains x (cand_ids q.cand) ≡ true → contains x q1.expanded ≡ true)

  -- Why a batch ends.
  abbrev Stops : ℕ → Beam D → Type 0
  Stops rounds q =
      (0 ≡ rounds)
      ⊎ (((s.iters == 0) ≡ false) × (s.iters ≤ q.expands))
      ⊎ ((x : ℕ) → contains x (cand_ids q.cand) ≡ true → contains x q.expanded ≡ true)

  nothing_more : (rounds : ℕ) (q : Beam D) → Stops rounds q → IsBatch rounds q [] q
  unfolding contains
  nothing_more rounds q e = record {
    same_cand = refl;
    fresh = λ x h. absurd (ground arith);
    known = λ x h. absurd (ground arith);
    distinct = tt;
    marked = λ x. refl;
    nearest = tt;
    counted = omega arith;
    bounded = omega arith;
    within = inr (inl refl);
    whole = e;
  }

  abbrev marked_as : ℕ → Beam D → Beam D
  marked_as id q = record q { expanded = id ∷ q.expanded; expands = add32 q.expands 1 }

  -- A record picked before the rest of the batch.
  more :
      (rounds : ℕ) (q q1 : Beam D) (batch : List ℕ) (c : Cand D)
      → q.expands + suc rounds < u32_mod
      → at_limit s q ≡ false
      → IsFresh s q.expanded q.cand c
      → IsListed s c q.cand × NoneNearer s q.expanded q.cand c
      → IsBatch rounds (marked_as c.id q) batch q1
      → IsBatch (suc rounds) q (c.id ∷ batch) q1
  unfolding contains IsFresh
  more rounds q q1 batch c small on (new, there) (listed, near) r =
      let one : add32 q.expands 1 ≡ q.expands + 1 = add32_small q.expands 1 (omega arith) in
      let total = r.counted in
      record {
        same_cand = r.same_cand;
        fresh = λ x h. elim (eq-or-ne x c.id) [
          | inl same ↦ ap (λ y. contains y q.expanded) same ∙ new
          | inr other ↦ ground (arith, r.fresh x)
        ];
        known = λ x h. elim (eq-or-ne x c.id) [
          | inl same ↦ ap (λ y. contains y (cand_ids q.cand)) same ∙ there
          | inr other ↦ r.known x (ground arith)
        ];
        distinct = (ground (arith, r.fresh c.id), r.distinct);
        marked = λ x. ground (arith, r.marked x);
        nearest = ((c, refl, listed, near), r.nearest);
        counted = omega (arith, total, one);
        bounded = omega (arith, r.bounded);
        within = elim (Bool-cases (s.iters == 0)) [
          | inl free ↦ inl (ground arith)
          | inr bound ↦ inr (
              inr (elim r.within [
                | inl zero_now ↦ absurd (ground arith)
                | inr (inl empty) ↦
                    let none_left : length batch ≡ 0 = ap (λ (l : List ℕ). length l) empty in
                    let below : q.expands < s.iters = ground arith in omega (arith, total, one)
                | inr (inr le) ↦ le
              ]))
        ];
        whole = elim r.whole [
          | inl all ↦ inl (omega arith)
          | inr (inl stop) ↦ inr (inl stop)
          | inr (inr all) ↦ inr (inr all)
        ];
      }

module _ {D : Type 0} (s : Search D) (o : IsOrder s) where
  -- With distances that are ordered, and counts that fit 32 bits, a pick keeps the
  -- candidates. Its batch has no more records than asked for: each once, each a candidate
  -- that was not expanded, with no nearer candidate that was not expanded before it; and
  -- these are the records that are expanded and counted in addition. It does not pass the
  -- bound on expansions. The batch has the size asked for, or the bound is reached, or every
  -- candidate is expanded.
  pub p3q_pick-IsBatch :
      (rounds : ℕ) (q : Beam D)
      → q.expands + rounds < u32_mod
      → IsBatch s rounds q (p3q_pick s rounds q).0 (p3q_pick s rounds q).1
  unfolding p3q_pick
  p3q_pick-IsBatch zero q small = nothing_more s zero q (inl refl)
  p3q_pick-IsBatch (suc rounds) q small = elim (Option-cases (pick_best s q.expanded none q.cand)) [
    | inl stop ↦
        let e : p3q_pick s (suc rounds) q ≡ ([], q) = rw (stop, p3q_pick) refl in
        subst (λ r. IsBatch s (suc rounds) q r.0 r.1) (sym e)
          (nothing_more s (suc rounds) q (inr (inr (pick_best-none s q.expanded q.cand stop))))
    | inr (c, e) ↦ elim (Bool-cases (at_limit s q)) [
      | inl over ↦
          let step : p3q_pick s (suc rounds) q ≡ ([], q) = rw (e, p3q_pick) (simp over refl) in
          subst (λ r. IsBatch s (suc rounds) q r.0 r.1) (sym step)
            (nothing_more s (suc rounds) q (inr (inl (ground arith, ground arith))))
      | inr on ↦
          let next = marked_as s c.id q in
          let r = p3q_pick s rounds next in
          let picked : next_pick s q ≡ some c = simp on e in
          let step : p3q_pick s (suc rounds) q ≡ (c.id ∷ r.0, r.1) =
            rw (e, p3q_pick) (simp on refl) in
          let one : add32 q.expands 1 ≡ q.expands + 1 = add32_small q.expands 1 (omega arith) in
          subst (λ t. IsBatch s (suc rounds) q t.0 t.1) (sym step)
            (more s rounds q r.1 r.0 c small on (next_pick_lem s q c picked)
              (pick_best_nearest s o q.expanded q.cand c e)
              (p3q_pick-IsBatch rounds next (omega arith)))
    ]
  ]
