-- ===== src/Remap/Extent.antt =====
-- --mode extent of tools/remap_diskann_pages.cpp: whole pages move, and what shares a page still does.
use cxl_anns_kx.Base.{
  ℕ, zero, suc, ◌+◌, ◌*◌, ◌/◌, ◌%◌, ◌<◌, ◌≤◌, ◌≡◌, ◌∙◌, refl, ap, sym, if◌then◌else◌, leb, ◌==◌,
  true, false, Bool-cases, inl, inr, List, [], ◌∷◌, some, arith, ◌↔◌,
}
use cxl_anns_kx.Base.Counts.{taken-all}
use cxl_anns_kx.Reorder.{Order, unset, is_set, assign, assign_rest, no_order}
use cxl_anns_kx.Reorder.Permutation.{
  IsPartial, assign-IsPartial, assign_rest-all, no_order-IsPartial,
}
use cxl_anns_kx.Bundle.Orders.{assign_rest-IsPermutation}
use cxl_anns_kx.Remap.{emit, pack_run, pack_runs, emit_rest, pages_for, has_bad_slot, extent_slots}

-- A page that is one of the pages is emitted as a record is assigned.
emit_lem :
    (n_pages p : ℕ) (o : Order) → emit n_pages p o ≡ (if leb n_pages p then o else assign p o)
unfolding emit assign
emit_lem n_pages p o = elim (Bool-cases (leb n_pages p)) [
  | inl out ↦ simp out refl
  | inr inside ↦ elim (Bool-cases (is_set p o)) [
    | inl old ↦ simp (inside, old) refl
    | inr new ↦ simp (inside, new) refl
  ]
]

module _ (n : ℕ) (small : n ≤ unset) where
  emit-IsPartial : (p : ℕ) (o : Order) → IsPartial n o → IsPartial n (emit n p o)
  emit-IsPartial p o v = elim (Bool-cases (leb n p)) [
    | inl out ↦ rw (emit_lem n p o) (simp out v)
    | inr inside ↦ rw (emit_lem n p o) (simp inside (assign-IsPartial n small p o (ground arith) v))
  ]

  pack_run-IsPartial : (ps : List ℕ) (o : Order) → IsPartial n o → IsPartial n (pack_run n ps o)
  unfolding pack_run
  pack_run-IsPartial [] o v = v
  pack_run-IsPartial (p ∷ ps) o v = pack_run-IsPartial ps (emit n p o) (emit-IsPartial p o v)

  pack_runs-IsPartial :
      (rs : List (List ℕ)) (o : Order) → IsPartial n o → IsPartial n (pack_runs n rs o)
  unfolding pack_runs
  pack_runs-IsPartial [] o v = v
  pack_runs-IsPartial (r ∷ rs) o v =
      pack_runs-IsPartial rs (pack_run n r o) (pack_run-IsPartial r o v)

  emit_rest_lem :
      (rounds p : ℕ) (o : Order) → p + rounds ≤ n → emit_rest n rounds p o ≡ assign_rest rounds p o
  unfolding emit_rest assign_rest
  emit_rest_lem zero p o fits = refl
  emit_rest_lem (suc rounds) p o fits =
      let inside : leb n p ≡ false = ground arith in
      let same : emit n p o ≡ assign p o = emit_lem n p o ∙ simp inside refl in
      rw same (emit_rest_lem rounds (suc p) (assign p o) (omega arith))

no_bad_slot :
    (n : ℕ) (id_to_slot : ℕ → ℕ) (rounds id : ℕ)
    → id + rounds ≤ n
    → ((x : ℕ) → x < n → id_to_slot x < n)
    → has_bad_slot n id_to_slot rounds id ≡ false
unfolding has_bad_slot
no_bad_slot n id_to_slot zero id fits low = refl
no_bad_slot n id_to_slot (suc rounds) id fits low =
    let here = low id (omega arith) in
    ground (arith, no_bad_slot n id_to_slot rounds (suc id) (omega arith) low, here)

-- Two slots and the page numbers that they get.
slot_page : (a s : ℕ) → (a * 2 + s % 2) / 2 ≡ a
slot_page a s = omega arith

same_slot : (s t : ℕ) → s / 2 ≡ t / 2 → s % 2 ≡ t % 2 → s ≡ t
same_slot s t e f = omega arith

-- For an even number of at most 2^32 - 2 records whose slots are in range, whatever pages the
-- runs name, the program finds new slots; each is in range, two records get the same slot only
-- if they had the same, and they share a page exactly if they did.
pub extent_slots_lem :
    (n half : ℕ) (runs : List (List ℕ)) (id_to_slot : ℕ → ℕ)
    → n ≡ half * 2
    → n ≤ unset
    → ((x : ℕ) → x < n → id_to_slot x < n)
    → (f : ℕ → ℕ) × (extent_slots n runs id_to_slot ≡ some f)
      × ((x : ℕ) → x < n → f x < n)
      × ((x y : ℕ) → x < n → y < n → f x ≡ f y → id_to_slot x ≡ id_to_slot y)
      × ((x y : ℕ) → x < n → y < n → (f x / 2 ≡ f y / 2) ↔ (id_to_slot x / 2 ≡ id_to_slot y / 2))
unfolding extent_slots
extent_slots_lem n half runs id_to_slot even small low =
    let pages : pages_for n ≡ half = omega arith in
    let few : pages_for n ≤ unset = omega arith in
    let packed = pack_runs (pages_for n) runs no_order in
    let part0 =
      pack_runs-IsPartial (pages_for n) few runs no_order (no_order-IsPartial (pages_for n) few) in
    let same = emit_rest_lem (pages_for n) few (pages_for n) 0 packed (omega arith) in
    let o = assign_rest (pages_for n) 0 packed in
    let (part, kept, all) =
      assign_rest-all (pages_for n) few (pages_for n) 0 packed (omega arith) part0 in
    let perm = assign_rest-IsPermutation (pages_for n) few packed part0 in
    let full : o.assigned ≡ pages_for n = omega (
      arith,
      part.counted,
      taken-all (λ u. is_set u o) (pages_for n) (λ u lu. all u (omega arith) lu),
    ) in
    let whole : (o.assigned == pages_for n) ≡ true = ground arith in
    let good = no_bad_slot n id_to_slot n 0 (omega arith) low in
    let page = λ (x : ℕ). id_to_slot x / 2 in
    let inside : (x : ℕ) → x < n → page x < pages_for n = λ x lt. let s = low x lt in omega arith in
    let apart : (x y : ℕ)
        → x < n
        → y < n
        → o.old_to_new (page x) ≡ o.old_to_new (page y)
        → page x ≡ page y =
      λ x y lx ly e.
        sym (perm.back (page x) (inside x lx))
        ∙ ap o.new_to_old e
        ∙ perm.back (page y) (inside y ly) in
    (
      λ id. o.old_to_new (id_to_slot id / 2) * 2 + id_to_slot id % 2,
      rw same (rw (good, whole) refl),
      λ x lt. let p = perm.new_low (page x) (inside x lt) in omega arith,
      λ x y lx ly e.
          same_slot (id_to_slot x) (id_to_slot y) (apart x y lx ly (omega (arith, e)))
            (omega (arith, e)),
      λ x y lx ly. (
        λ e. apart x y lx ly (omega (arith, e)),
        λ e. let a = ap o.old_to_new e in omega (arith, a),
      ),
    )
