-- ===== src/Reorder/Permutation.antt =====
-- The two maps of the order of tools/reorder_layout_bfs.cpp, and the words of the graph.
use cxl_anns_kx.Base.{
  ℕ, zero, suc, ◌+◌, ◌-◌, ◌<◌, ◌≤◌, ◌≡◌, ◌⊎◌, ◌∙◌, refl, ap, sym, if◌then◌else◌, ltb, leb, ◌==◌,
  true, false, Bool-cases, inl, inr, ◌||◌, List, [], ◌∷◌, ◌++◌, some, arith, eq-or-ne,
}
use cxl_anns_kx.Base.Lists.{length, length-append}
use cxl_anns_kx.Base.Dict.{update}
use cxl_anns_kx.Base.Counts.{taken, taken-update, taken-lt, taken-all, taken-same}
use cxl_anns_kx.Reorder.{
  Order, unset, is_set, assign, pack_row, star_pack, assign_rest, no_order, packed, reorder,
  remapped,
}

-- The two maps are inverse to each other on the records assigned, which are counted.
pub record IsPartial (n : ℕ) (o : Order) : Type 0 where
  pub low : (u : ℕ) → u < n → is_set u o ≡ true → o.old_to_new u < o.assigned
  pub back : (u : ℕ) → u < n → is_set u o ≡ true → o.new_to_old (o.old_to_new u) ≡ u
  pub real : (i : ℕ) → i < o.assigned → o.new_to_old i < n
  pub forth : (i : ℕ) → i < o.assigned → o.old_to_new (o.new_to_old i) ≡ i
  pub counted : o.assigned ≡ taken (λ u. is_set u o) n

abbrev pub added : ℕ → Order → Order
added u o = record {
  new_to_old = update o.new_to_old o.assigned u;
  old_to_new = update o.old_to_new u o.assigned;
  assigned = o.assigned + 1;
}

none_taken : (m : ℕ) → taken (λ u. is_set u no_order) m ≡ 0
unfolding taken
none_taken zero = refl
none_taken (suc m) = none_taken m

module _ (n : ℕ) (small : n ≤ unset) where
  added-back :
      (u x : ℕ) (o : Order)
      → x < n
      → is_set x (added u o) ≡ true
      → IsPartial n o
      → update o.new_to_old o.assigned u (update o.old_to_new u o.assigned x) ≡ x
  added-back u x o lx h v = elim (eq-or-ne x u) [
    | inl same ↦
        let e : update o.old_to_new u o.assigned x ≡ o.assigned = ground arith in
        rw e (ground arith)
    | inr other ↦
        let e : update o.old_to_new u o.assigned x ≡ o.old_to_new x = ground arith in
        let old : is_set x o ≡ true = ground arith in
        rw e (ground (arith, v.low x lx old, v.back x lx old))
  ]

  added-forth :
      (u i : ℕ) (o : Order)
      → is_set u o ≡ false
      → o.assigned < n
      → i < o.assigned + 1
      → IsPartial n o
      → update o.old_to_new u o.assigned (update o.new_to_old o.assigned u i) ≡ i
  added-forth u i o new room li v = elim (eq-or-ne i o.assigned) [
    | inl same ↦
        let e : update o.new_to_old o.assigned u i ≡ u = ground arith in rw e (ground arith)
    | inr other ↦
        let e : update o.new_to_old o.assigned u i ≡ o.new_to_old i = ground arith in
        let at = v.forth i (ground arith) in
        let ne : (o.new_to_old i == u) ≡ false = elim (eq-or-ne (o.new_to_old i) u) [
          | inl same ↦ let f = ap o.old_to_new same in absurd (ground arith)
          | inr apart ↦ apart
        ] in
        rw e (ground arith)
  ]

  pub added-IsPartial :
      (u : ℕ) (o : Order) → u < n → is_set u o ≡ false → IsPartial n o → IsPartial n (added u o)
  added-IsPartial u o lt new v =
      let room : o.assigned < n = omega (arith, v.counted, taken-lt (λ x. is_set x o) n u lt new) in
      let grown = taken-update (λ x. is_set x o) n u lt new in
      let same : taken (update (λ x. is_set x o) u true) n ≡ taken (λ x. is_set x (added u o)) n =
        taken-same (update (λ x. is_set x o) u true) (λ x. is_set x (added u o)) n
          (λ x lx. ground arith) in
      record {
        low = λ x lx h. ground (arith, v.low x);
        back = λ x lx h. added-back u x o lx h v;
        real = λ i li. ground (arith, v.real i);
        forth = λ i li. added-forth u i o new room li v;
        counted = omega (arith, v.counted, grown, same);
      }

  pub assign-IsPartial : (u : ℕ) (o : Order) → u < n → IsPartial n o → IsPartial n (assign u o)
  unfolding assign
  assign-IsPartial u o lt v = elim (Bool-cases (is_set u o)) [
    | inl old ↦ simp old v
    | inr new ↦ simp new (added-IsPartial u o lt new v)
  ]

  pack_row-IsPartial :
      (row : ℕ → ℕ) (rounds k : ℕ) (queue : List ℕ) (o : Order)
      → IsPartial n o
      → IsPartial n (pack_row row n rounds k queue o).1
  unfolding pack_row
  pack_row-IsPartial row zero k queue o v = v
  pack_row-IsPartial row (suc rounds) k queue o v =
      elim (Bool-cases (leb n (row k) || is_set (row k) o)) [
        | inl skip ↦ simp skip (pack_row-IsPartial row rounds (suc k) queue o v)
        | inr new ↦ simp new (
            pack_row-IsPartial row rounds (suc k) _ _ (assign-IsPartial (row k) o (ground arith) v))
      ]

  star_pack-IsPartial :
      (graph : ℕ → ℕ → ℕ) (degree fuel : ℕ) (queue : List ℕ) (o : Order)
      → IsPartial n o
      → IsPartial n (star_pack graph n degree fuel queue o).1
  unfolding star_pack
  star_pack-IsPartial graph degree zero queue o v = v
  star_pack-IsPartial graph degree (suc fuel) [] o v = v
  star_pack-IsPartial graph degree (suc fuel) (u ∷ queue) o v =
      star_pack-IsPartial graph degree fuel _ _ (pack_row-IsPartial (graph u) degree 0 queue o v)

  assign_sets :
      (u x : ℕ) (o : Order)
      → u < n
      → IsPartial n o
      → (is_set x o ≡ true) ⊎ (x ≡ u)
      → is_set x (assign u o) ≡ true
  unfolding assign
  assign_sets u x o lt v one = elim (Bool-cases (is_set u o)) [
    | inl old ↦ simp old (elim one [ inl h ↦ h | inr same ↦ ap (λ y. is_set y o) same ∙ old ])
    | inr new ↦
        let room : o.assigned < n =
          omega (arith, v.counted, taken-lt (λ x. is_set x o) n u lt new) in
        simp new (ground arith)
  ]

  -- The loop over the rest assigns every record from `u` on, and keeps those assigned before.
  pub assign_rest-all :
      (rounds u : ℕ) (o : Order)
      → u + rounds ≡ n
      → IsPartial n o
      → IsPartial n (assign_rest rounds u o)
        × ((x : ℕ) → is_set x o ≡ true → is_set x (assign_rest rounds u o) ≡ true)
        × ((x : ℕ) → u ≤ x → x < n → is_set x (assign_rest rounds u o) ≡ true)
  unfolding assign_rest
  assign_rest-all zero u o e v = (v, λ x h. h, λ x lo hi. absurd (omega arith))
  assign_rest-all (suc rounds) u o e v =
      let (part, kept, all) =
        assign_rest-all rounds (suc u) (assign u o) (omega arith)
          (assign-IsPartial u o (omega arith) v) in
      (
        part,
        λ x h. kept x (assign_sets u x o (omega arith) v (inl h)),
        λ x lo hi. elim (eq-or-ne x u) [
          | inl same ↦ kept x (assign_sets u x o (omega arith) v (inr same))
          | inr other ↦ all x (ground arith) hi
        ],
      )

  pack_row-length :
      (row : ℕ → ℕ) (rounds k : ℕ) (queue : List ℕ) (o : Order)
      → IsPartial n o
      → let r = pack_row row n rounds k queue o in
        length r.0 + (n - r.1.assigned) ≡ length queue + (n - o.assigned)
  unfolding pack_row
  pack_row-length row zero k queue o v = refl
  pack_row-length row (suc rounds) k queue o v =
      elim (Bool-cases (leb n (row k) || is_set (row k) o)) [
        | inl skip ↦ simp skip (pack_row-length row rounds (suc k) queue o v)
        | inr new ↦
            let lt : row k < n = ground arith in
            let fresh : is_set (row k) o ≡ false = ground arith in
            let room : o.assigned < n =
              omega (arith, v.counted, taken-lt (λ x. is_set x o) n (row k) lt fresh) in
            let one : (assign (row k) o).assigned ≡ o.assigned + 1 =
              unfold assign in simp fresh refl in
            let rest =
              pack_row-length row rounds (suc k) (queue ++ row k ∷ []) (assign (row k) o)
                (assign-IsPartial (row k) o lt v) in
            simp new (omega (arith, rest, one, length-append queue (row k ∷ [])))
      ]

  star_pack-ends :
      (graph : ℕ → ℕ → ℕ) (degree fuel : ℕ) (queue : List ℕ) (o : Order)
      → IsPartial n o
      → length queue + (n - o.assigned) ≤ fuel
      → (star_pack graph n degree fuel queue o).0 ≡ []
  unfolding star_pack
  star_pack-ends graph degree zero [] o v enough = refl
  star_pack-ends graph degree zero (u ∷ queue) o v enough = absurd (omega arith)
  star_pack-ends graph degree (suc fuel) [] o v enough = refl
  star_pack-ends graph degree (suc fuel) (u ∷ queue) o v enough =
      star_pack-ends graph degree fuel _ _ (pack_row-IsPartial (graph u) degree 0 queue o v)
        (omega (arith, enough, pack_row-length (graph u) degree 0 queue o v))

  pub no_order-IsPartial : IsPartial n no_order
  no_order-IsPartial = record {
    low = λ u lt h. absurd (ground (arith, h));
    back = λ u lt h. absurd (ground (arith, h));
    real = λ i li. absurd (omega arith);
    forth = λ i li. absurd (omega arith);
    counted = sym (none_taken n);
  }

-- The two maps of an order are inverse permutations of the records.
pub record IsPermutation (n : ℕ) (o : Order) : Type 0 where
  pub new_low : (u : ℕ) → u < n → o.old_to_new u < n
  pub old_low : (i : ℕ) → i < n → o.new_to_old i < n
  pub back : (u : ℕ) → u < n → o.new_to_old (o.old_to_new u) ≡ u
  pub forth : (i : ℕ) → i < n → o.old_to_new (o.new_to_old i) ≡ i

-- For 1 to 2^32 - 1 records the search ends with an empty queue within its fuel, the program
-- does not die, and the order is a permutation of the records: its two maps are inverse to each
-- other.
pub reorder-IsPermutation :
    (graph : ℕ → ℕ → ℕ) (n degree entry_id : ℕ)
    → 0 < n
    → n ≤ unset
    → (o : Order) × (reorder graph n degree entry_id ≡ some o)
      × IsPermutation n o
      × ((packed graph n degree (if leb n entry_id then 0 else entry_id)).0 ≡ [])
unfolding reorder packed
reorder-IsPermutation graph n degree entry_id pos small =
    let entry = if leb n entry_id then 0 else entry_id in
    let lt : entry < n = ground arith in
    let first = assign-IsPartial n small entry no_order lt (no_order-IsPartial n small) in
    let v = star_pack-IsPartial n small graph degree n (entry ∷ []) _ first in
    let (part, kept, all) = assign_rest-all n small n 0 _ (omega arith) v in
    let o : Order = assign_rest n 0 (packed graph n degree entry).1 in
    let full : o.assigned ≡ n =
      omega (arith, part.counted, taken-all (λ u. is_set u o) n (λ u lu. all u (omega arith) lu)) in
    let whole : (o.assigned == n) ≡ true = ground arith in
    let one : (assign entry no_order).assigned ≡ 1 = refl in
    (
      o,
      rw whole refl,
      record {
        new_low = λ u lu. omega (arith, full, part.low u lu (all u (omega arith) lu));
        old_low = λ i li. part.real i (omega arith);
        back = λ u lu. part.back u lu (all u (omega arith) lu);
        forth = λ i li. part.forth i (omega arith);
      },
      star_pack-ends n small graph degree n (entry ∷ []) _ first (omega arith),
    )

-- The graph written in an order that is a permutation of at least one record is the graph read,
-- with its records renamed: each word is in range, and names the record that the word read
-- names, or the first record of the order where the word read names none.
pub remapped_lem :
    (graph : ℕ → ℕ → ℕ) (n ni k : ℕ) (o : Order)
    → IsPermutation n o
    → 0 < n
    → let ov = graph (o.new_to_old ni) k in
      (remapped graph n o ni k < n)
      × (o.new_to_old (remapped graph n o ni k) ≡ (if ltb ov n then ov else o.new_to_old 0))
unfolding remapped
remapped_lem graph n ni k o v pos =
    let ov = graph (o.new_to_old ni) k in
    elim (Bool-cases (ltb ov n)) [
      | inl inside ↦ simp inside (v.new_low ov (ground arith), v.back ov (ground arith))
      | inr out ↦ simp out (pos, refl)
    ]
