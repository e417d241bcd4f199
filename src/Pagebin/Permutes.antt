-- ===== src/Pagebin/Permutes.antt =====
-- The order of tools/pack_layout_pagebin.cpp is a permutation, and its search ends.
use cxl_anns_kx.Base.{
  ℕ, zero, suc, ◌+◌, ◌-◌, ◌<◌, ◌≤◌, ◌≡◌, refl, if◌then◌else◌, leb, ◌==◌, Bool, true, false,
  Bool-cases, inl, inr, List, [], ◌∷◌, ◌++◌, some, arith,
}
use cxl_anns_kx.Base.Lists.{length, length-append, All, All-append}
use cxl_anns_kx.Base.Dict.{update}
use cxl_anns_kx.Base.Counts.{taken, taken-update, taken-all, taken-lt}
use cxl_anns_kx.Reorder.{Order, unset, is_set, assign, assign_rest, no_order}
use cxl_anns_kx.Reorder.Permutation.{
  IsPartial, IsPermutation, assign-IsPartial, assign_rest-all, no_order-IsPartial,
}
use cxl_anns_kx.Bundle.Orders.{assign_rest-IsPermutation}
use cxl_anns_kx.Pagebin.{try_push, visit_row, visit_all, visited, pagebin_order}

-- Only records are queued.
abbrev AreReal : ℕ → List ℕ → Type 0
AreReal n queue = All (λ u. u < n) queue

-- The records that may still enter the queue, and those in it.
abbrev to_come : ℕ → List ℕ → (ℕ → Bool) → ℕ
to_come n queue inq = length queue + (n - taken inq n)

module _ (n : ℕ) (small : n ≤ unset) where
  visit_row-IsPartial :
      (row : ℕ → ℕ) (rounds k : ℕ) (queue : List ℕ) (inq : ℕ → Bool) (o : Order)
      → IsPartial n o
      → AreReal n queue
      → let r = visit_row row n rounds k queue inq o in
        IsPartial n r.2 × AreReal n r.0 × (to_come n r.0 r.1 ≡ to_come n queue inq)
  unfolding visit_row try_push
  visit_row-IsPartial row zero k queue inq o v real = (v, real, refl)
  visit_row-IsPartial row (suc rounds) k queue inq o v real = elim (Bool-cases (leb n (row k))) [
    | inl out ↦ simp out (visit_row-IsPartial row rounds (suc k) queue inq o v real)
    | inr inside ↦
        let lt : row k < n = ground arith in
        let v1 = assign-IsPartial n small (row k) o lt v in
        elim (Bool-cases (inq (row k))) [
          | inl old ↦
              simp (inside, old)
                (visit_row-IsPartial row rounds (suc k) queue inq (assign (row k) o) v1 real)
          | inr new ↦
              let grown = taken-update inq n (row k) lt new in
              let room = taken-lt inq n (row k) lt new in
              let longer = length-append queue (row k ∷ []) in
              let (v2, real2, same) =
                visit_row-IsPartial row rounds (suc k) (queue ++ row k ∷ [])
                  (update inq (row k) true) (assign (row k) o) v1
                  (All-append (λ u. u < n) queue (row k ∷ []) real (lt, tt)) in
              simp (inside, new) (v2, real2, omega (arith, same, grown, room, longer))
        ]
  ]

  visit_all-ends :
      (graph : ℕ → ℕ → ℕ) (degree fuel : ℕ) (queue : List ℕ) (inq : ℕ → Bool) (o : Order)
      → IsPartial n o
      → AreReal n queue
      → to_come n queue inq ≤ fuel
      → let r = visit_all graph n degree fuel queue inq o in IsPartial n r.1 × (r.0 ≡ [])
  unfolding visit_all
  visit_all-ends graph degree zero [] inq o v real enough = (v, refl)
  visit_all-ends graph degree zero (u ∷ queue) inq o v real enough = absurd (omega arith)
  visit_all-ends graph degree (suc fuel) [] inq o v real enough = (v, refl)
  visit_all-ends graph degree (suc fuel) (u ∷ queue) inq o v real enough =
      let (v1, real1, same) =
        visit_row-IsPartial (graph u) degree 0 queue inq (assign u o)
          (assign-IsPartial n small u o real.0 v) real.1 in
      visit_all-ends graph degree fuel _ _ _ v1 real1 (omega (arith, same, enough))

taken-none : (n : ℕ) → taken (λ u. false) n ≡ 0
unfolding taken
taken-none zero = refl
taken-none (suc n) = taken-none n

-- For 1 to 2^32 - 1 records the search ends with an empty queue within its fuel, the program
-- does not die, and the order is a permutation of the records.
pub pagebin_order-IsPermutation :
    (graph : ℕ → ℕ → ℕ) (n degree entry_id : ℕ)
    → 0 < n
    → n ≤ unset
    → (o : Order) × (pagebin_order graph n degree entry_id ≡ some o)
      × IsPermutation n o
      × ((visited graph n degree entry_id).0 ≡ [])
unfolding pagebin_order visited try_push
pagebin_order-IsPermutation graph n degree entry_id pos small =
    let entry = if leb n entry_id then 0 else entry_id in
    let lt : entry < n = ground arith in
    let inside : leb n entry ≡ false = ground arith in
    let marked : ℕ → Bool = update (λ u. false) entry true in
    let one = taken-update (λ u. false) n entry lt refl in
    let none_yet = taken-none n in
    let (v, ends) =
      visit_all-ends n small graph degree n (entry ∷ []) marked no_order
        (no_order-IsPartial n small) (lt, tt) (omega (arith, one, none_yet)) in
    let r = visit_all graph n degree n (entry ∷ []) marked no_order in
    let o = assign_rest n 0 r.1 in
    let (part, kept, all) = assign_rest-all n small n 0 r.1 (omega arith) v in
    let full : o.assigned ≡ n =
      omega (arith, part.counted, taken-all (λ u. is_set u o) n (λ u lu. all u (omega arith) lu)) in
    let whole : (o.assigned == n) ≡ true = ground arith in
    (o, simp inside (rw whole refl), assign_rest-IsPermutation n small r.1 v, simp inside ends)
