-- ===== src/Beam/Nearest.antt =====
-- What the candidate list of serving/search_beam.cpp holds of the records that the search has seen.
use cxl_anns_kx.Base.{
  ℕ, zero, suc, ◌<◌, ◌≤◌, ◌≡◌, ◌⊎◌, refl, sym, subst, leb, true, false, Bool-cases, inl, inr, ◌||◌,
  List, [], ◌∷◌, Option-cases, arith, eq-or-ne,
}
use cxl_anns_kx.Base.Lists.{length, contains, All, IsDistinct}
use cxl_anns_kx.Beam.{
  Cand, Beam, Search, insert_cand, pqq_insert, see, see_all, expand, beam_loop, pqq_beam, pqq_init,
  next_pick, cand_ids, blank,
}
use cxl_anns_kx.Beam.Insert.{IsOrder, IsBeyond, insert_cand-Inserted}

module _ {D : Type 0} (s : Search D) where
  -- A record seen is a candidate, or at least as far as each of a full list of candidates.
  abbrev pub IsKept : ℕ → List (Cand D) → Type 0
  IsKept x cand =
      (contains x (cand_ids cand) ≡ true)
      ⊎ ((length cand ≡ s.list_size) × IsBeyond s (s.dist x) cand)

  -- The candidates are distinct records of the table of codes that were seen, at their distances,
  -- and no more than the list size; each other record seen of the table is no nearer than any.
  pub record IsNearest (q : Beam D) : Type 0 where
    pub fits : length q.cand ≤ s.list_size
    pub exact : All (λ c. c.dist ≡ s.dist c.id) q.cand
    pub low : (x : ℕ) → contains x (cand_ids q.cand) ≡ true → x < s.pq_n
    pub found : (x : ℕ) → contains x (cand_ids q.cand) ≡ true → contains x q.seen ≡ true
    pub distinct : IsDistinct (cand_ids q.cand)
    pub nearest : (x : ℕ) → contains x q.seen ≡ true → x < s.pq_n → IsKept x q.cand

module _ {D : Type 0} (s : Search D) (o : IsOrder s) (pos : 0 < s.list_size) where
  pqq_insert-IsNearest :
      (id : ℕ) (q : Beam D)
      → IsNearest s q
      → contains id q.seen ≡ false
      → IsNearest s (pqq_insert s id (record q { seen = id ∷ q.seen }))
  unfolding pqq_insert contains
  pqq_insert-IsNearest id q v new = elim (Bool-cases (leb s.pq_n id)) [
    | inl high ↦ rw high (record {
      fits = v.fits;
      exact = v.exact;
      low = v.low;
      found = λ x h. ground (arith, v.found x h);
      distinct = v.distinct;
      nearest = λ x h lt. v.nearest x (ground (arith, h)) lt;
    })
    | inr low ↦
        let fresh : contains id (cand_ids q.cand) ≡ false = ground (arith, v.found id) in
        let new_cand : Cand D = record { dist = s.dist id; id = id } in
        let r = insert_cand-Inserted s o new_cand q.cand pos v.fits refl v.exact v.distinct fresh in
        rw low (record {
          fits = r.size;
          exact = r.exact;
          low =
              λ x h. elim (r.only x h) [ inl same ↦ ground (arith, same) | inr old ↦ v.low x old ];
          found = λ x h. elim (r.only x h) [
            | inl same ↦ ground (arith, same)
            | inr old ↦ ground (arith, v.found x old)
          ];
          distinct = r.distinct;
          nearest = λ x h lt. elim (eq-or-ne x id) [
            | inl same ↦ subst (λ y. IsKept s y (insert_cand s new_cand q.cand)) (sym same) r.taken
            | inr other ↦ elim (v.nearest x (ground (arith, h)) lt) [
              | inl here ↦ r.kept x here
              | inr (full, far) ↦ inr (r.beyond (s.dist x) full far)
            ]
          ];
        })
  ]

  see-IsNearest : (nb : ℕ) (q : Beam D) → IsNearest s q → IsNearest s (see s nb q)
  unfolding see
  see-IsNearest nb q v = elim (Bool-cases (leb s.n nb || contains nb q.seen)) [
    | inl skip ↦ rw skip v
    | inr new ↦ rw new (pqq_insert-IsNearest nb q v (ground arith))
  ]

  see_all-IsNearest : (nbs : List ℕ) (q : Beam D) → IsNearest s q → IsNearest s (see_all s nbs q)
  unfolding see_all
  see_all-IsNearest [] q v = v
  see_all-IsNearest (nb ∷ nbs) q v = see_all-IsNearest nbs (see s nb q) (see-IsNearest nb q v)

  pub expand-IsNearest : (cur : ℕ) (q : Beam D) → IsNearest s q → IsNearest s (expand s cur q)
  unfolding expand
  expand-IsNearest cur q v = see_all-IsNearest (s.nbrs cur) _ (record {
    fits = v.fits;
    exact = v.exact;
    low = v.low;
    found = v.found;
    distinct = v.distinct;
    nearest = v.nearest;
  })

  beam_loop-IsNearest : (fuel : ℕ) (q : Beam D) → IsNearest s q → IsNearest s (beam_loop s fuel q)
  unfolding beam_loop
  beam_loop-IsNearest zero q v = v
  beam_loop-IsNearest (suc fuel) q v = elim (Option-cases (next_pick s q)) [
    | inl stop ↦ rw (stop, beam_loop) v
    | inr (c, e) ↦
        rw (e, beam_loop) (beam_loop-IsNearest fuel (expand s c.id q) (expand-IsNearest c.id q v))
  ]

  pub pqq_init-IsNearest : (entry_id : ℕ) → IsNearest s (pqq_init s entry_id)
  unfolding pqq_init
  pqq_init-IsNearest entry_id =
      pqq_insert-IsNearest entry_id blank
        (record {
          fits = omega arith;
          exact = tt;
          low = λ x h. absurd (unfold contains in ground (arith, h));
          found = λ x h. absurd (unfold contains in ground (arith, h));
          distinct = tt;
          nearest = λ x h lt. absurd (unfold contains in ground (arith, h));
        })
        (unfold contains in refl)

  -- With distances that are ordered and a list size above 0, the search from any entry ends
  -- with distinct candidates of the table of codes that were seen, at their distances, and no
  -- more than the list size; each other record seen that the table has is no nearer than any
  -- candidate of a full list.
  pub pqq_beam-IsNearest : (entry_id : ℕ) → IsNearest s (pqq_beam s (pqq_init s entry_id))
  unfolding pqq_beam
  pqq_beam-IsNearest entry_id = beam_loop-IsNearest s.pq_n _ (pqq_init-IsNearest entry_id)
