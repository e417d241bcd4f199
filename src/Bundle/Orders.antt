-- ===== src/Bundle/Orders.antt =====
-- The orders of tools/pack_layout_bundle.cpp: each is a permutation of the records.
use cxl_anns_kx.Base.{
  ℕ, zero, suc, ◌-◌, ◌<◌, ◌≤◌, ◌≡◌, ◌∙◌, ◌⊎◌, refl, ap, sym, ltb, leb, ◌==◌, Bool, Bool-cases, inl,
  inr, ◌||◌, ◌&&◌, List, [], ◌∷◌, Option, none, some, arith, subst,
}
use cxl_anns_kx.Base.Lists.{All}
use cxl_anns_kx.Base.Counts.{taken-all}
use cxl_anns_kx.Reorder.{Order, unset, is_set, assign, assign_rest, no_order}
use cxl_anns_kx.Reorder.Permutation.{
  IsPartial, IsPermutation, assign-IsPartial, assign_rest-all, no_order-IsPartial,
}
use cxl_anns_kx.Bundle.{assign_one, trace_query, trace_queries, trace_pack}
use cxl_anns_kx.Bundle.Edges.{Inverted}
use cxl_anns_kx.Bundle.Buckets.{
  Packing, hot_bit, is_empty, seek, Popped, best, nothing, unfinished, pop_best, take_back,
}
use cxl_anns_kx.Bundle.Blocks.{
  block_ids, assign_block, lower, lower_parents, lower_block, place_block, after_pop, pack_blocks,
}

some_inj : {s t : Packing} → some s ≡ some t → s ≡ t
some_inj {s} e = ap (λ (o : Option Packing). elim o [ none ↦ s | some x ↦ x ]) e

after_pop_lem :
    (p : Popped) (s t : Packing) (next : ℕ → Option Packing)
    → after_pop p s next ≡ some t
    → (t ≡ s) ⊎ ((u : ℕ) × (next u ≡ some t))
unfolding after_pop
after_pop_lem nothing s t next e = inl (sym (some_inj e))
after_pop_lem unfinished s t next e = absurd (ground (arith, e))
after_pop_lem (best u) s t next e = inr (u, e)

module _ (n : ℕ) (small : n ≤ unset) where
  -- The loop over the rest makes a partial order whole.
  pub assign_rest-IsPermutation : (o : Order) → IsPartial n o → IsPermutation n (assign_rest n 0 o)
  assign_rest-IsPermutation o v =
      let (part, kept, all) = assign_rest-all n small n 0 o (omega arith) v in
      let full : (assign_rest n 0 o).assigned ≡ n = omega (
        arith,
        part.counted,
        taken-all (λ u. is_set u (assign_rest n 0 o)) n (λ u lu. all u (omega arith) lu),
      ) in
      record {
        new_low = λ u lu. omega (arith, full, part.low u lu (all u (omega arith) lu));
        old_low = λ i li. part.real i (omega arith);
        back = λ u lu. part.back u lu (all u (omega arith) lu);
        forth = λ i li. part.forth i (omega arith);
      }

  trace_query-IsPartial :
      (ids : List ℕ) (touch : ℕ) (o : Order)
      → IsPartial n o
      → IsPartial n (trace_query n ids touch o).1
  unfolding trace_query assign_one
  trace_query-IsPartial [] touch o v = v
  trace_query-IsPartial (id ∷ ids) touch o v = elim (Bool-cases (ltb id n)) [
    | inl real ↦
        simp real (
          trace_query-IsPartial ids _ (assign id o)
            (assign-IsPartial n small id o (ground arith) v))
    | inr out ↦ simp out (trace_query-IsPartial ids touch o v)
  ]

  trace_queries-IsPartial :
      (qs : List (List ℕ)) (touch : ℕ) (o : Order)
      → IsPartial n o
      → IsPartial n (trace_queries n qs touch o).1
  unfolding trace_queries
  trace_queries-IsPartial [] touch o v = v
  trace_queries-IsPartial (q ∷ qs) touch o v =
      trace_queries-IsPartial qs (trace_query n q touch o).0 (trace_query n q touch o).1
        (trace_query-IsPartial q touch o v)

  block_ids-All :
      (row : ℕ → ℕ) (o : Order) (rounds k : ℕ) → All (λ v. v < n) (block_ids row n o rounds k)
  unfolding block_ids
  block_ids-All row o zero k = tt
  block_ids-All row o (suc rounds) k = elim (Bool-cases (leb n (row k) || is_set (row k) o)) [
    | inl skip ↦ simp skip (block_ids-All row o rounds (suc k))
    | inr new ↦ simp new (ground arith, block_ids-All row o rounds (suc k))
  ]

  assign_block-IsPartial :
      (vs : List ℕ) (o : Order)
      → All (λ v. v < n) vs
      → IsPartial n o
      → IsPartial n (assign_block vs o)
  unfolding assign_block assign_one
  assign_block-IsPartial [] o h v = v
  assign_block-IsPartial (x ∷ xs) o h v =
      assign_block-IsPartial xs (assign x o) h.1 (assign-IsPartial n small x o h.0 v)

  module _ (is_hot : ℕ → Bool) where
    take_back-order : (h1 r1 : ℕ) (s : Packing) → (take_back h1 r1 s).1.order ≡ s.order
    unfolding take_back
    take_back-order h1 r1 s = refl

    pop_best-order : (rounds : ℕ) (s : Packing) → (pop_best is_hot rounds s).1.order ≡ s.order
    unfolding pop_best
    pop_best-order zero s = refl
    pop_best-order (suc rounds) s =
        let (h1, r1) = seek s.buckets s.cur_h1 s.cur_r1 in
        let (u, popped) = take_back h1 r1 s in
        let again = pop_best-order rounds popped ∙ take_back-order h1 r1 s in
        elim (Bool-cases (h1 == 0)) [
          | inl none_left ↦ simp none_left refl
          | inr some_left ↦ elim (Bool-cases (hot_bit is_hot u == h1 - 1 && s.left u == r1 - 1)) [
            | inl fresh ↦ simp (some_left, fresh) (take_back-order h1 r1 s)
            | inr stale ↦ simp (some_left, stale) again
          ]
        ]

    lower-order : (w : ℕ) (s : Packing) → (lower is_hot w s).order ≡ s.order
    unfolding lower
    lower-order w s = ground arith

    lower_parents-order :
        (inadj : ℕ → ℕ) (rounds e : ℕ) (s : Packing)
        → (lower_parents is_hot inadj rounds e s).order ≡ s.order
    unfolding lower_parents
    lower_parents-order inadj zero e s = refl
    lower_parents-order inadj (suc rounds) e s =
        lower_parents-order inadj rounds (suc e) (lower is_hot (inadj e) s)
        ∙ lower-order (inadj e) s

    lower_block-order :
        (inv : Inverted) (vs : List ℕ) (s : Packing) → (lower_block is_hot inv vs s).order ≡ s.order
    unfolding lower_block
    lower_block-order inv [] s = refl
    lower_block-order inv (v ∷ vs) s =
        lower_block-order inv vs _
        ∙ lower_parents-order inv.inadj (inv.inoff (suc v) - inv.inoff v) (inv.inoff v) s

    place_block-IsPartial :
        (inv : Inverted) (graph : ℕ → ℕ → ℕ) (degree u : ℕ) (s : Packing)
        → IsPartial n s.order
        → IsPartial n (place_block is_hot inv graph n degree u s).order
    unfolding place_block
    place_block-IsPartial inv graph degree u s v =
        let block = block_ids (graph u) n s.order degree 0 in
        elim (Bool-cases (s.left u == 0)) [
          | inl none_left ↦ simp none_left v
          | inr some_left ↦ elim (Bool-cases (is_empty block)) [
            | inl empty ↦ simp (some_left, empty) v
            | inr more ↦
                let placed = record s { order = assign_block block s.order } in
                simp (some_left, more)
                  (subst (λ o. IsPartial n o) (sym (lower_block-order inv block placed))
                    (assign_block-IsPartial block s.order (block_ids-All (graph u) s.order degree 0)
                      v))
          ]
        ]

    -- Where the blocks end, the order is partial.
    pub pack_blocks-IsPartial :
        (inv : Inverted) (graph : ℕ → ℕ → ℕ) (degree pops rounds : ℕ) (s t : Packing)
        → IsPartial n s.order
        → pack_blocks is_hot inv graph n degree pops rounds s ≡ some t
        → IsPartial n t.order
    unfolding pack_blocks
    pack_blocks-IsPartial inv graph degree pops zero s t v e = absurd (ground (arith, e))
    pack_blocks-IsPartial inv graph degree pops (suc rounds) s t v e =
        let s1 = (pop_best is_hot pops s).1 in
        let kept : IsPartial n s1.order =
          subst (λ o. IsPartial n o) (sym (pop_best-order pops s)) v in
        elim (Bool-cases (leb n s.order.assigned)) [
          | inl full ↦ subst (λ x. IsPartial n x.order) (some_inj (simp full at e)) v
          | inr room ↦ elim (after_pop_lem (pop_best is_hot pops s).0 s1 t _ (simp room at e)) [
            | inl same ↦ subst (λ x. IsPartial n x.order) (sym same) kept
            | inr (u, next) ↦
                pack_blocks-IsPartial inv graph degree pops rounds _ t
                  (place_block-IsPartial inv graph degree u s1 kept) next
          ]
        ]

-- --from-trace orders at most 2^32 - 1 records by a permutation, whatever the trace names.
pub trace_pack-IsPermutation :
    (n : ℕ) (qs : List (List ℕ)) → n ≤ unset → IsPermutation n (trace_pack n qs)
unfolding trace_pack
trace_pack-IsPermutation n qs small =
    assign_rest-IsPermutation n small (trace_queries n qs 0 no_order).1
      (trace_queries-IsPartial n small qs 0 no_order (no_order-IsPartial n small))
