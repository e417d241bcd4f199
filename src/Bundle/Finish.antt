-- ===== src/Bundle/Finish.antt =====
-- The rounds of tools/pack_layout_bundle.cpp: no block adds to the entries of the buckets and the
-- neighbours left, so that the loop ends and the order is a permutation.
use cxl_anns_kx.Base.{
  ℕ, zero, suc, ◌+◌, ◌-◌, ◌*◌, ◌%◌, ◌<◌, ◌≤◌, ◌≡◌, refl, ap, ltb, leb, ◌==◌, Bool, Bool-cases, inl,
  inr, List, [], ◌∷◌, Option, some, arith,
}
use cxl_anns_kx.Base.Dict.{update}
use cxl_anns_kx.Base.Sums.{sum, sum-same, sum-update, sum-le}
use cxl_anns_kx.Reorder.{Order, unset, assign_rest}
use cxl_anns_kx.Reorder.Permutation.{IsPermutation, no_order-IsPartial}
use cxl_anns_kx.Bundle.Edges.{
  fill_row, fill_rows, Filling, Inverted, invert, count_rem, initial_rem,
}
use cxl_anns_kx.Bundle.Buckets.{
  Packing, kranks, hot_bit, push_bucket, fill_buckets, is_empty, Popped, best, nothing, unfinished,
  pop_best,
}
use cxl_anns_kx.Bundle.Blocks.{
  block_ids, assign_block, lower, lower_parents, lower_block, place_block, after_pop, pack_blocks,
  start_packing, rounds_for, with_rest, bundle_pack,
}
use cxl_anns_kx.Bundle.Ends.{nbuckets, entries, IsRanked, entries-update, Pops, pop_best-Pops}
use cxl_anns_kx.Bundle.Orders.{assign_rest-IsPermutation, pack_blocks-IsPartial}

abbrev measure : ℕ → Packing → ℕ
measure n s = entries s.buckets + sum s.left n

-- The state is ranked, and the measure is at most that of before.
abbrev Lowers : ℕ → Packing → Packing → Type 0
Lowers n s t = IsRanked t × (measure n t ≤ measure n s)

after_pop-some :
    (p : Popped) (s : Packing) (next : ℕ → Option Packing) (before after : ℕ)
    → Pops before after p
    → ((u : ℕ) → after < before → (t : Packing) × (next u ≡ some t))
    → (t : Packing) × (after_pop p s next ≡ some t)
unfolding after_pop
after_pop-some nothing s next before after h go = (s, refl)
after_pop-some unfinished s next before after h go = absurd h
after_pop-some (best u) s next before after h go = go u h

module _ (n : ℕ) (is_hot : ℕ → Bool) where
  lower-Lowers : (w : ℕ) (s : Packing) → w < n → IsRanked s → Lowers n s (lower is_hot w s)
  unfolding lower push_bucket
  lower-Lowers w s lt v = elim (Bool-cases (s.left w == 0)) [
    | inl gone ↦ simp gone (v, omega arith)
    | inr some_left ↦
        let at = v.left w in
        let i = hot_bit is_hot w * kranks + (s.left w - 1) in
        let inside : i < nbuckets = ground arith in
        let longer = entries-update s.buckets i (w ∷ s.buckets i) inside in
        let fewer = sum-update s.left n w (s.left w - 1) lt in
        let pos : 0 < s.left w = ground arith in
        simp some_left (
          record {
            hot = ground (arith, v.hot);
            rank = ground (arith, v.rank, at);
            left = λ u. let old = v.left u in ground (arith, old, at);
          },
          omega (arith, longer, fewer, pos),
        )
  ]

  lower_parents-Lowers :
      (inadj : ℕ → ℕ) (rounds e : ℕ) (s : Packing)
      → ((x : ℕ) → inadj x < n)
      → IsRanked s
      → Lowers n s (lower_parents is_hot inadj rounds e s)
  unfolding lower_parents
  lower_parents-Lowers inadj zero e s low v = (v, omega arith)
  lower_parents-Lowers inadj (suc rounds) e s low v =
      let (v1, le1) = lower-Lowers (inadj e) s (low e) v in
      let (v2, le2) = lower_parents-Lowers inadj rounds (suc e) (lower is_hot (inadj e) s) low v1 in
      (v2, omega (arith, le1, le2))

  lower_block-Lowers :
      (inv : Inverted) (vs : List ℕ) (s : Packing)
      → ((x : ℕ) → inv.inadj x < n)
      → IsRanked s
      → Lowers n s (lower_block is_hot inv vs s)
  unfolding lower_block
  lower_block-Lowers inv [] s low v = (v, omega arith)
  lower_block-Lowers inv (x ∷ xs) s low v =
      let (v1, le1) =
        lower_parents-Lowers inv.inadj (inv.inoff (suc x) - inv.inoff x) (inv.inoff x) s low v in
      let (v2, le2) = lower_block-Lowers inv xs _ low v1 in (v2, omega (arith, le1, le2))

  cleared-Lowers :
      (u : ℕ) (s : Packing) → IsRanked s → Lowers n s (record s { left = update s.left u 0 })
  cleared-Lowers u s v = (
    record { hot = v.hot; rank = v.rank; left = λ w. let old = v.left w in ground (arith, old) },
    elim (Bool-cases (ltb u n)) [
      | inl lt ↦ omega (arith, sum-update s.left n u 0 (ground arith))
      | inr out ↦
          let same : sum (update s.left u 0) n ≡ sum s.left n =
            sum-same _ _ n (λ j lj. ground arith) in
          omega (arith, same)
    ],
  )

  place_block-Lowers :
      (inv : Inverted) (graph : ℕ → ℕ → ℕ) (degree u : ℕ) (s : Packing)
      → ((x : ℕ) → inv.inadj x < n)
      → IsRanked s
      → Lowers n s (place_block is_hot inv graph n degree u s)
  unfolding place_block
  place_block-Lowers inv graph degree u s low v =
      let block = block_ids (graph u) n s.order degree 0 in
      elim (Bool-cases (s.left u == 0)) [
        | inl none_left ↦ simp none_left (v, omega arith)
        | inr some_left ↦ elim (Bool-cases (is_empty block)) [
          | inl empty ↦ simp (some_left, empty) (cleared-Lowers u s v)
          | inr more ↦
              let placed = record s { order = assign_block block s.order } in
              let kept : IsRanked placed = record { hot = v.hot; rank = v.rank; left = v.left } in
              simp (some_left, more) (lower_block-Lowers inv block placed low kept)
        ]
      ]

  pack_blocks-ends :
      (inv : Inverted) (graph : ℕ → ℕ → ℕ) (degree pops rounds : ℕ) (s : Packing)
      → ((x : ℕ) → inv.inadj x < n)
      → IsRanked s
      → measure n s < pops
      → measure n s < rounds
      → (t : Packing) × (pack_blocks is_hot inv graph n degree pops rounds s ≡ some t)
  unfolding pack_blocks
  pack_blocks-ends inv graph degree pops zero s low v more enough = absurd (omega arith)
  pack_blocks-ends inv graph degree pops (suc rounds) s low v more enough =
      let (v1, same, popped) = pop_best-Pops is_hot pops s v (omega arith) in
      let s1 = (pop_best is_hot pops s).1 in
      let left : sum s1.left n ≡ sum s.left n = sum-same _ _ n (λ j lj. same j) in
      elim (Bool-cases (leb n s.order.assigned)) [
        | inl full ↦ (s, simp full refl)
        | inr room ↦
            let (t, e) = after_pop-some (pop_best is_hot pops s).0 s1 _ _ _ popped (λ u fewer.
              let (v2, le) = place_block-Lowers inv graph degree u s1 low v1 in
              pack_blocks-ends inv graph degree pops rounds
                (place_block is_hot inv graph n degree u s1) low v2
                (omega (arith, le, left, fewer, more)) (omega (arith, le, left, fewer, enough))) in
            (t, simp room e)
      ]

fill_row-low :
    (row : ℕ → ℕ) (n u rounds k : ℕ) (f : Filling)
    → u < n
    → ((e : ℕ) → f.inadj e < n)
    → (e : ℕ) → (fill_row row n u rounds k f).inadj e < n
unfolding fill_row
fill_row-low row n u zero k f lt low e = low e
fill_row-low row n u (suc rounds) k f lt low e = elim (Bool-cases (ltb (row k) n)) [
  | inl edge ↦
      simp edge
        (fill_row-low row n u rounds (suc k) _ lt (λ x. let old = low x in ground (arith, old)) e)
  | inr out ↦ simp out (fill_row-low row n u rounds (suc k) f lt low e)
]

fill_rows-low :
    (graph : ℕ → ℕ → ℕ) (n degree rounds u : ℕ) (f : Filling)
    → u + rounds ≤ n
    → ((e : ℕ) → f.inadj e < n)
    → (e : ℕ) → (fill_rows graph n degree rounds u f).inadj e < n
unfolding fill_rows
fill_rows-low graph n degree zero u f fits low e = low e
fill_rows-low graph n degree (suc rounds) u f fits low e =
    fill_rows-low graph n degree rounds (suc u) (fill_row (graph u) n u degree 0 f) (omega arith)
      (fill_row-low (graph u) n u degree 0 f (omega arith) low) e

-- Who points at a record is a record.
invert-low : (graph : ℕ → ℕ → ℕ) (n degree e : ℕ) → 0 < n → (invert graph n degree).inadj e < n
unfolding invert
invert-low graph n degree e pos = fill_rows-low graph n degree n 0 _ (omega arith) (λ x. pos) e

count_rem-le : (row : ℕ → ℕ) (n rounds k r : ℕ) → count_rem row n rounds k r ≤ r + rounds
unfolding count_rem
count_rem-le row n zero k r = omega arith
count_rem-le row n (suc rounds) k r =
    let one = count_rem-le row n rounds (suc k) ((r + 1) % 256) in
    let other = count_rem-le row n rounds (suc k) r in
    elim (Bool-cases (ltb (row k) n)) [
      | inl edge ↦ simp edge (omega (arith, one))
      | inr out ↦ simp out (omega (arith, other))
    ]

initial_rem-le : (graph : ℕ → ℕ → ℕ) (n degree u : ℕ) → initial_rem graph n degree u ≤ degree
unfolding initial_rem
initial_rem-le graph n degree u = let least = count_rem-le (graph u) n degree 0 0 in ground arith

fill_buckets-entries :
    (is_hot : ℕ → Bool) (left : ℕ → ℕ) (rounds u : ℕ) (b : ℕ → List ℕ)
    → ((x : ℕ) → left x < kranks)
    → entries (fill_buckets is_hot left rounds u b) ≡ entries b + rounds
unfolding fill_buckets push_bucket
fill_buckets-entries is_hot left zero u b low = omega arith
fill_buckets-entries is_hot left (suc rounds) u b low =
    let i = hot_bit is_hot u * kranks + left u in
    let at = low u in
    let inside : i < nbuckets = ground arith in
    let longer = entries-update b i (u ∷ b i) inside in
    let rest = fill_buckets-entries is_hot left rounds (suc u) (update b i (u ∷ b i)) low in
    omega (arith, longer, rest)

start_packing-Ranked :
    (is_hot : ℕ → Bool) (graph : ℕ → ℕ → ℕ) (n degree : ℕ)
    → degree < kranks
    → let s = start_packing is_hot graph n degree in IsRanked s × (measure n s ≤ n + n * degree)
unfolding start_packing
start_packing-Ranked is_hot graph n degree small =
    let low = λ (u : ℕ). initial_rem-le graph n degree u in
    let left : (u : ℕ) → initial_rem graph n degree u < kranks =
      λ u. let least = low u in omega arith in
    let all = fill_buckets-entries is_hot (initial_rem graph n degree) n 0 (λ i. []) left in
    let most = sum-le (initial_rem graph n degree) n degree (λ u lu. low u) in
    let none_yet : entries (λ i. []) ≡ 0 = unfold sum in refl in
    (
      record { hot = omega arith; rank = omega arith; left = left },
      omega (arith, all, most, none_yet),
    )

-- For 1 to 2^32 - 1 records with at most 32 neighbours each, whichever records are hot, the
-- main loop ends within the rounds that it is given, and so does each search for the best
-- record; the order is a permutation of the records.
pub bundle_pack-IsPermutation :
    (is_hot : ℕ → Bool) (graph : ℕ → ℕ → ℕ) (n degree : ℕ)
    → 0 < n
    → n ≤ unset
    → degree ≤ 32
    → (o : Order) × (bundle_pack is_hot graph n degree ≡ some o) × IsPermutation n o
unfolding bundle_pack with_rest
bundle_pack-IsPermutation is_hot graph n degree pos small narrow =
    let start = start_packing is_hot graph n degree in
    let inv = invert graph n degree in
    let limit = rounds_for n degree in
    let (v, most) = start_packing-Ranked is_hot graph n degree (omega arith) in
    let (t, e) =
      pack_blocks-ends n is_hot inv graph degree limit limit start
        (λ x. invert-low graph n degree x pos) v (omega (arith, most)) (omega (arith, most)) in
    let part =
      pack_blocks-IsPartial n small is_hot inv graph degree limit limit start t
        (unfold start_packing in no_order-IsPartial n small) e in
    (
      assign_rest n 0 t.order,
      ap (λ r. with_rest n r) e,
      assign_rest-IsPermutation n small t.order part,
    )
