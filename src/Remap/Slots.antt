-- ===== src/Remap/Slots.antt =====
-- The slots of tools/remap_diskann_pages.cpp: a permutation, in which a pair has one page.
use cxl_anns_kx.Base.{
  ℕ, zero, suc, ◌+◌, ◌/◌, ◌%◌, ◌<◌, ◌≤◌, ◌≡◌, ◌∙◌, refl, ap, sym, ltb, ◌==◌, true, false,
  Bool-cases, inl, inr, ◌||◌, some, arith, eq-or-ne, subst, ◌⊎◌,
}
use cxl_anns_kx.Base.Counts.{taken-lt, taken-all}
use cxl_anns_kx.Reorder.{Order, unset, is_set, assign, assign_rest, no_order}
use cxl_anns_kx.Reorder.Permutation.{
  IsPartial, IsPermutation, added-IsPartial, assign_rest-all, no_order-IsPartial,
}
use cxl_anns_kx.Bundle.Orders.{assign_rest-IsPermutation}
use cxl_anns_kx.Remap.{Matching, place, place_pairs, leftover, place_all, assign_slots}
use cxl_anns_kx.Remap.Pairs.{IsMatching}

-- A slot for u changes those of no other record.
place_other : (u x : ℕ) (o : Order) → (x == u) ≡ false → (place u o).old_to_new x ≡ o.old_to_new x
unfolding place
place_other u x o apart = rw apart refl

place_self : (u : ℕ) (o : Order) → (place u o).old_to_new u ≡ o.assigned
unfolding place
place_self u o = ground arith

place_count : (u : ℕ) (o : Order) → (place u o).assigned ≡ o.assigned + 1
unfolding place
place_count u o = refl

-- The records that are left over get their slots as in the loop over all.
leftover-place :
    (u rounds k : ℕ) (o : Order) → u < k → leftover rounds k (place u o) ≡ leftover rounds k o
unfolding leftover
leftover-place u zero k o lt = refl
leftover-place u (suc rounds) k o lt =
    let apart : (k == u) ≡ false = ground arith in
    let same = place_other u k o apart in
    rw (same, leftover-place u rounds (suc k) o (omega arith)) refl

place_all-leftover :
    (rounds u : ℕ) (o : Order) → place_all (leftover rounds u o) o ≡ assign_rest rounds u o
unfolding leftover place_all assign_rest assign
place_all-leftover zero u o = refl
place_all-leftover (suc rounds) u o = elim (Bool-cases (is_set u o)) [
  | inl old ↦ simp old (place_all-leftover rounds (suc u) o)
  | inr new ↦ simp new (
      ap (λ us. place_all us (place u o)) (sym (leftover-place u rounds (suc u) o (omega arith)))
      ∙ place_all-leftover rounds (suc u) (place u o)
      ∙ unfold place in refl)
]

-- A record that has a slot keeps it.
assign_keeps :
    (u x : ℕ) (o : Order) → is_set x o ≡ true → (assign u o).old_to_new x ≡ o.old_to_new x
unfolding assign
assign_keeps u x o h = elim (Bool-cases (is_set u o)) [
  | inl old ↦ simp old refl
  | inr new ↦ elim (eq-or-ne x u) [
    | inl same ↦ absurd (ground (arith, h, new, ap o.old_to_new same))
    | inr apart ↦ simp (new, apart) refl
  ]
]

assign_rest-keeps :
    (rounds u x : ℕ) (o : Order)
    → is_set x o ≡ true
    → (assign_rest rounds u o).old_to_new x ≡ o.old_to_new x
unfolding assign_rest
assign_rest-keeps zero u x o h = refl
assign_rest-keeps (suc rounds) u x o h =
    let same = assign_keeps u x o h in
    let still : is_set x (assign u o) ≡ true = rw same h in
    assign_rest-keeps rounds (suc u) x (assign u o) still ∙ same

differs : (o : Order) (x u : ℕ) → is_set x o ≡ true → is_set u o ≡ false → (x == u) ≡ false
differs o x u s f = elim (eq-or-ne x u) [
  | inl same ↦ let e = ap o.old_to_new same in absurd (ground (arith, e, s, f))
  | inr apart ↦ apart
]

module _ (n : ℕ) (small : n ≤ unset) (m : Matching) (v : IsMatching n m) where
  place-IsPartial :
      (u : ℕ) (o : Order)
      → u < n
      → is_set u o ≡ false
      → IsPartial n o
      → IsPartial n (place u o) × (o.assigned < n)
  unfolding place
  place-IsPartial u o lt new part = (
    added-IsPartial n small u o lt new part,
    omega (arith, part.counted, taken-lt (λ x. is_set x o) n u lt new),
  )

  is_set-place :
      (u x : ℕ) (o : Order) → o.assigned < n → is_set x (place u o) ≡ (x == u || is_set x o)
  unfolding place
  is_set-place u x o room = ground arith

  -- The pair of x has come up by record u.
  abbrev HasCome : ℕ → ℕ → Type 0
  HasCome u x = (x < u) ⊎ (m.mate x < u)

  abbrev SharesPage : ℕ → Order → Type 0
  SharesPage x o =
      (is_set x o ≡ true)
      × (is_set (m.mate x) o ≡ true)
      × (o.old_to_new x / 2 ≡ o.old_to_new (m.mate x) / 2)

  record Inv (u : ℕ) (o : Order) : Type 0 where
    part : IsPartial n o
    even : o.assigned % 2 ≡ 0
    early : (x : ℕ) → x < n → is_set x o ≡ true → (m.used x ≡ true) × HasCome u x
    done : (x : ℕ) → m.used x ≡ true → HasCome u x → SharesPage x o

  -- A used record whose pair comes up at record u, and not before, is u or its mate.
  come_now :
      (u x : ℕ) → m.used x ≡ true → HasCome (suc u) x → HasCome u x ⊎ ((x ≡ u) ⊎ (x ≡ m.mate u))
  come_now u x used come = elim (eq-or-ne x u) [
    | inl same ↦ inr (inl same)
    | inr apart ↦ elim (eq-or-ne (m.mate x) u) [
      | inl mate_u ↦ inr (inr (sym (v.back x used).1 ∙ ap m.mate mate_u))
      | inr other ↦ inl (elim come [ inl a ↦ inl (ground arith) | inr b ↦ inr (ground arith) ])
    ]
  ]

  -- A record without a pair, or whose pair came up at its mate.
  skip-Inv :
      (u : ℕ) (o : Order)
      → (m.mate u == unset || m.mate u == u || ltb (m.mate u) u) ≡ true
      → Inv u o
      → Inv (suc u) o
  skip-Inv u o skip inv = record {
    part = inv.part;
    even = inv.even;
    early = λ x lt h.
        let (used, come) = inv.early x lt h in
        (used, elim come [ inl a ↦ inl (omega arith) | inr b ↦ inr (omega arith) ]);
    done = λ x used come. inv.done x used (elim (come_now u x used come) [
      | inl old ↦ old
      | inr one ↦ elim one [
        | inl same ↦
            let s = ap m.mate same in
            let low = v.low x used in let other = v.other x used in inr (ground arith)
        | inr at_mate ↦
            let low = v.low x used in
            let other = v.other x used in
            let (used_mate, back) = v.back x used in inl (met x at_mate low.0 skip other)
      ]
    ]);
  }
    where
      met :
          (x : ℕ)
          → x ≡ m.mate u
          → x < n
          → (m.mate u == unset || m.mate u == u || ltb (m.mate u) u) ≡ true
          → (m.mate x == x) ≡ false
          → x < u
      met x e lt skip other = elim (eq-or-ne x u) [
        | inl same ↦ let f : m.mate x ≡ x = ap m.mate same ∙ sym e in absurd (ground arith)
        | inr apart ↦ ground arith
      ]

  -- The pair of u and its greater mate.
  pair-Inv :
      (u : ℕ) (o : Order)
      → u < n
      → (m.mate u == unset || m.mate u == u || ltb (m.mate u) u) ≡ false
      → Inv u o
      → Inv (suc u) (place (m.mate u) (place u o))
  pair-Inv u o lt good inv =
      let w = m.mate u in
      let used : m.used u ≡ true = elim (Bool-cases (m.used u)) [
        | inl yes_used ↦ yes_used
        | inr free ↦ let alone = v.alone u free in absurd (ground arith)
      ] in
      let (low, low_w) = v.low u used in
      let (used_w, back) = v.back u used in
      let new : is_set u o ≡ false = elim (Bool-cases (is_set u o)) [
        | inr fresh ↦ fresh
        | inl old ↦
            absurd (elim (inv.early u lt old).1 [ inl a ↦ omega arith | inr b ↦ ground arith ])
      ] in
      let new_w : is_set w o ≡ false = elim (Bool-cases (is_set w o)) [
        | inr fresh ↦ fresh
        | inl old ↦
            absurd (elim (inv.early w low_w old).1 [ inl a ↦ ground arith | inr b ↦ ground arith ])
      ] in
      let (part1, room) = place-IsPartial u o lt new inv.part in
      let set1 = λ (x : ℕ). is_set-place u x o room in
      let new1 : is_set w (place u o) ≡ false = set1 w ∙ ground arith in
      let (part2, room1) = place-IsPartial w (place u o) low_w new1 part1 in
      let set2 = λ (x : ℕ). is_set-place w x (place u o) room1 in
      let more = place_count u o in
      let more2 = place_count w (place u o) in
      let apart : (u == w) ≡ false = ground arith in
      let at_u : (place w (place u o)).old_to_new u ≡ o.assigned =
        place_other w u (place u o) apart ∙ place_self u o in
      let at_w : (place w (place u o)).old_to_new w ≡ o.assigned + 1 =
        place_self w (place u o) ∙ more in
      let page : o.assigned / 2 ≡ (o.assigned + 1) / 2 = omega (arith, inv.even) in
      let set_u : is_set u (place w (place u o)) ≡ true =
        let a = set1 u in let b = set2 u in ground (arith, a, b) in
      let set_w : is_set w (place w (place u o)) ≡ true = let b = set2 w in ground (arith, b) in
      let half = λ (k : ℕ). k / 2 in
      let page_u : SharesPage u (place w (place u o)) =
        (set_u, set_w, ap half at_u ∙ page ∙ sym (ap half at_w)) in
      let page_w : SharesPage w (place w (place u o)) = (
        set_w,
        rw back set_u,
        ap half at_w
            ∙ sym page
            ∙ sym (ap half at_u)
            ∙ ap (λ y. (place w (place u o)).old_to_new y / 2) (sym back),
      ) in
      record {
        part = part2;
        even = omega (arith, inv.even, more, more2);
        early = λ x lx h. elim (eq-or-ne x u) [
          | inl same ↦
              subst (λ y. (m.used y ≡ true) × HasCome (suc u) y) (sym same)
                (used, inl (omega arith))
          | inr not_u ↦ elim (eq-or-ne x w) [
            | inl at_mate ↦
                subst (λ y. (m.used y ≡ true) × HasCome (suc u) y) (sym at_mate)
                  (used_w, inr (omega (arith, back)))
            | inr not_w ↦
                let a = set1 x in
                let b = set2 x in
                let (old, come) = inv.early x lx (ground (arith, a, b)) in
                (old, elim come [ inl c ↦ inl (omega arith) | inr c ↦ inr (omega arith) ])
          ]
        ];
        done = λ x used_x come. elim (come_now u x used_x come) [
          | inl old ↦
              let (s1, s2, same_page) = inv.done x used_x old in
              let x_u = differs o x u s1 new in
              let x_w = differs o x w s1 new_w in
              let y_u = differs o (m.mate x) u s2 new in
              let y_w = differs o (m.mate x) w s2 new_w in
              let a = place_other w x (place u o) x_w ∙ place_other u x o x_u in
              let b = place_other w (m.mate x) (place u o) y_w ∙ place_other u (m.mate x) o y_u in
              (rw a s1, rw b s2, rw (a, b) same_page)
          | inr one ↦ elim one [
            | inl same ↦ subst (λ y. SharesPage y (place w (place u o))) (sym same) page_u
            | inr at_mate ↦ subst (λ y. SharesPage y (place w (place u o))) (sym at_mate) page_w
          ]
        ];
      }

  place_pairs-Inv :
      (rounds u : ℕ) (o : Order) → u + rounds ≡ n → Inv u o → Inv n (place_pairs m.mate rounds u o)
  unfolding place_pairs
  place_pairs-Inv zero u o e inv = let same : u ≡ n = omega arith in subst (λ k. Inv k o) same inv
  place_pairs-Inv (suc rounds) u o e inv =
      elim (Bool-cases (m.mate u == unset || m.mate u == u || ltb (m.mate u) u)) [
        | inl skip ↦
            simp skip (place_pairs-Inv rounds (suc u) o (omega arith) (skip-Inv u o skip inv))
        | inr good ↦ simp good (
            place_pairs-Inv rounds (suc u) (place (m.mate u) (place u o)) (omega arith)
              (pair-Inv u o (omega arith) good inv))
      ]

  start-Inv : Inv 0 no_order
  start-Inv = record {
    part = no_order-IsPartial n small;
    even = refl;
    early = λ x lt h. absurd (ground (arith, h));
    done = λ x used come. absurd (elim come [ inl a ↦ omega arith | inr b ↦ omega arith ]);
  }

-- For a matching of at most 2^32 - 1 records the program does not end with "slot assign", the
-- slots are a permutation of the records, and two records that are mates have slots on one page
-- of two.
pub assign_slots-IsPermutation :
    (n : ℕ) (m : Matching)
    → n ≤ unset
    → IsMatching n m
    → (o : Order) × (assign_slots n m.mate ≡ some o)
      × IsPermutation n o
      × ((u : ℕ) → m.used u ≡ true → o.old_to_new u / 2 ≡ o.old_to_new (m.mate u) / 2)
unfolding assign_slots
assign_slots-IsPermutation n m small v =
    let o = place_pairs m.mate n 0 no_order in
    let inv = place_pairs-Inv n small m v n 0 no_order (omega arith) (start-Inv n small m v) in
    let same = place_all-leftover n 0 o in
    let (part, kept, all) = assign_rest-all n small n 0 o (omega arith) inv.part in
    let full : (assign_rest n 0 o).assigned ≡ n = omega (
      arith,
      part.counted,
      taken-all (λ u. is_set u (assign_rest n 0 o)) n (λ u lu. all u (omega arith) lu),
    ) in
    let whole : ((assign_rest n 0 o).assigned == n) ≡ true = ground arith in
    (
      assign_rest n 0 o,
      rw same (rw whole refl),
      assign_rest-IsPermutation n small o inv.part,
      λ u used.
          let (s1, s2, page) = inv.done u used (inl (v.low u used).0) in
          ap (λ k. k / 2) (assign_rest-keeps n 0 u o s1)
          ∙ page
          ∙ sym (ap (λ k. k / 2) (assign_rest-keeps n 0 (m.mate u) o s2)),
    )
