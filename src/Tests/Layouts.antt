-- ===== src/Tests/Layouts.antt =====
-- Orders of the layout tools.
use cxl_anns_kx.Base.{
  ℕ, ◌+◌, ◌/◌, ◌%◌, ◌<◌, ◌≡◌, refl, Bool, true, ◌==◌, if◌then◌else◌, List, [], ◌∷◌, Option, none,
  some, arith, ◌↔◌,
}
use cxl_anns_kx.Base.Lists.{length, get_or, All}
use cxl_anns_kx.Reorder.{Order}
use cxl_anns_kx.Reorder.Permutation.{IsPermutation}
use cxl_anns_kx.Bundle.Edges.{invert}
use cxl_anns_kx.Bundle.Inverse.{pointers_to}
use cxl_anns_kx.Bundle.Segments.{invert-pointers}
use cxl_anns_kx.Bundle.Blocks.{bundle_pack}
use cxl_anns_kx.Bundle.Finish.{bundle_pack-IsPermutation}
use cxl_anns_kx.Pagebin.{pagebin_order, visited}
use cxl_anns_kx.Pagebin.Permutes.{pagebin_order-IsPermutation}
use cxl_anns_kx.Remap.{
  Matching, unmatched, pair_neighbors, coexpand, cooccur, assign_slots, pack_run, pack_runs, emit,
  emit_rest, has_bad_slot, extent_slots,
}
use cxl_anns_kx.Remap.Pairs.{IsMatching, IsEdge, every_mode-IsMatching}
use cxl_anns_kx.Remap.Slots.{assign_slots-IsPermutation}
use cxl_anns_kx.Remap.Extent.{extent_slots_lem}

-- Record u of five points at u + 1 and u + 2; a third word names no record.
abbrev graph : ℕ → ℕ → ℕ
graph u k = if k == 2 then 9 else (u + k + 1) % 5

abbrev is_hot : ℕ → Bool
is_hot u = u == 3

bundle_pack-IsPermutation_example :
    (o : Order) × (bundle_pack is_hot graph 5 3 ≡ some o) × IsPermutation 5 o
bundle_pack-IsPermutation_example =
    bundle_pack-IsPermutation is_hot graph 5 3 (omega arith) (omega arith) (omega arith)

invert-pointers_example :
    ((invert graph 5 3).inoff 3 ≡ (invert graph 5 3).inoff 2 + length (pointers_to graph 3 2 5 0))
    × ((i : ℕ)
        → i < length (pointers_to graph 3 2 5 0)
        → (invert graph 5 3).inadj ((invert graph 5 3).inoff 2 + i)
          ≡ get_or (pointers_to graph 3 2 5 0) i 0)
invert-pointers_example = invert-pointers graph 5 3 2 (omega arith) (omega arith)

pointers_test : pointers_to graph 3 2 5 0 ≡ 0 ∷ 1 ∷ []
unfolding pointers_to
pointers_test = refl

pagebin_order-IsPermutation_example :
    (o : Order) × (pagebin_order graph 5 3 2 ≡ some o)
    × IsPermutation 5 o
    × ((visited graph 5 3 2).0 ≡ [])
pagebin_order-IsPermutation_example =
    pagebin_order-IsPermutation graph 5 3 2 (omega arith) (omega arith)

-- Record u of five points at u + 1 and u + 2.
abbrev row : ℕ → List ℕ
row u = (u + 1) % 5 ∷ (u + 2) % 5 ∷ []

abbrev matched : Matching
matched = pair_neighbors 5 row 5 0 unmatched

abbrev edges : List (ℕ × ℕ)
edges = (1, 4) ∷ (0, 3) ∷ (0, 4) ∷ []

edges-AreEdges : All (IsEdge 5) edges
edges-AreEdges = (
  (omega arith, omega arith, refl),
  ((omega arith, omega arith, refl), ((omega arith, omega arith, refl), tt)),
)

every_mode-IsMatching_example :
    IsMatching 5 matched
    × IsMatching 5 (coexpand 5 row 5 0 unmatched)
    × IsMatching 5 (cooccur 5 row edges)
every_mode-IsMatching_example = every_mode-IsMatching 5 row edges (omega arith) edges-AreEdges

assign_slots-IsPermutation_example :
    (o : Order) × (assign_slots 5 matched.mate ≡ some o)
    × IsPermutation 5 o
    × ((u : ℕ) → matched.used u ≡ true → o.old_to_new u / 2 ≡ o.old_to_new (matched.mate u) / 2)
assign_slots-IsPermutation_example =
    assign_slots-IsPermutation 5 matched (omega arith) every_mode-IsMatching_example.0

-- The last of six records shares a page with record 4.
extent_slots_lem_example :
    (f : ℕ → ℕ) × (extent_slots 6 ((2 ∷ 0 ∷ []) ∷ []) (λ s. s) ≡ some f)
    × ((x : ℕ) → x < 6 → f x < 6)
    × ((x y : ℕ) → x < 6 → y < 6 → f x ≡ f y → x ≡ y)
    × ((x y : ℕ) → x < 6 → y < 6 → (f x / 2 ≡ f y / 2) ↔ (x / 2 ≡ y / 2))
extent_slots_lem_example =
    extent_slots_lem 6 3 ((2 ∷ 0 ∷ []) ∷ []) (λ s. s) refl (omega arith) (λ x lt. lt)

abbrev slot_of_one : Option (ℕ → ℕ) → ℕ
slot_of_one none = 0
slot_of_one (some f) = f 1

-- With an odd number of records whose last page is placed first, record 1 has no slot below 3.
odd_test : slot_of_one (extent_slots 3 ((1 ∷ []) ∷ []) (λ s. s)) ≡ 3
unfolding extent_slots pack_runs pack_run emit emit_rest has_bad_slot
odd_test = refl
