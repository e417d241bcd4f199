-- ===== src/Remap.antt =====
-- tools/remap_diskann_pages.cpp: two records to a page. A matching pairs records that are read together,
-- and the slots put each pair on one page. `row u` is the list of the words of u that the loops read,
-- at most its number of neighbours and at most R.
pub mod Pairs
pub mod Slots
pub mod Extent
use cxl_anns_kx.Base.{
  ℕ, zero, suc, ◌+◌, ◌-◌, ◌*◌, ◌/◌, ◌%◌, if◌then◌else◌, ltb, leb, ◌==◌, Bool, true, false, not,
  ◌||◌, ◌&&◌, List, [], ◌∷◌, ◌++◌, Option, none, some,
}
use cxl_anns_kx.Base.Lists.{length, get_or}
use cxl_anns_kx.Base.Dict.{update}
use cxl_anns_kx.Reorder.{Order, unset, is_set, assign_rest, no_order}

pub record Matching : Type 0 where
  pub used : ℕ → Bool
  pub mate : ℕ → ℕ
  pub paired : ℕ

abbrev pub unmatched : Matching
unmatched = record { used = λ u. false; mate = λ u. unset; paired = 0 }

unfoldable pub pair : ℕ → ℕ → Matching → Matching
pair a b m = record {
  used = update (update m.used a true) b true;
  mate = update (update m.mate a b) b a;
  paired = m.paired + 1;
}

-- The first word that names another record that is not used.
unfoldable pub find_mate : ℕ → ℕ → (ℕ → Bool) → List ℕ → Option ℕ
find_mate n u used [] = none
find_mate n u used (v ∷ vs) =
    let later = find_mate n u used vs in
    if ltb v n && not (v == u) && not (used v) then some v else later

abbrev pub pair_with : ℕ → Option ℕ → Matching → Matching
pair_with u none m = m
pair_with u (some v) m = pair u v m

-- --mode neighbor, and the last loop of --mode cooccur.
unfoldable pub pair_neighbors : ℕ → (ℕ → List ℕ) → ℕ → ℕ → Matching → Matching
unfolding find_mate pair
pair_neighbors n row zero u m = m
pair_neighbors n row (suc rounds) u m =
    pair_neighbors n row rounds (suc u)
      (if m.used u then m else pair_with u (find_mate n u m.used (row u)) m)

-- The row of --mode coexpand; `pending` is UINT32_MAX where no record waits.
unfoldable pub coexpand_row : ℕ → ℕ → ℕ → List ℕ → Matching → Matching
unfolding pair
coexpand_row n u pending [] m = m
coexpand_row n u pending (v ∷ vs) m =
    let skip = leb n v || v == u || m.used v || v == pending in
    let waits = pending == unset in
    coexpand_row n u (if skip then pending else if waits then v else unset) vs
      (if skip || waits then m else pair pending v m)

unfoldable pub coexpand : ℕ → (ℕ → List ℕ) → ℕ → ℕ → Matching → Matching
unfolding coexpand_row
coexpand n row zero u m = m
coexpand n row (suc rounds) u m = coexpand n row rounds (suc u) (coexpand_row n u unset (row u) m)

-- The pairs of --mode cooccur in the order of their weights.
unfoldable pub match_edges : List (ℕ × ℕ) → Matching → Matching
unfolding pair
match_edges [] m = m
match_edges ((a, b) ∷ es) m = match_edges es (if m.used a || m.used b then m else pair a b m)

unfoldable pub cooccur : ℕ → (ℕ → List ℕ) → List (ℕ × ℕ) → Matching
unfolding match_edges pair_neighbors
cooccur n row edges = pair_neighbors n row n 0 (match_edges edges unmatched)

-- `id_to_slot[u] = slot++`, in an order whose old_to_new is id_to_slot and whose count is slot.
-- Its new_to_old is slot_to_id, which the program fills when it writes the image.
unfoldable pub place : ℕ → Order → Order
place u o = record {
  new_to_old = update o.new_to_old o.assigned u;
  old_to_new = update o.old_to_new u o.assigned;
  assigned = o.assigned + 1;
}

-- The pairs, each at its lesser record.
unfoldable pub place_pairs : (ℕ → ℕ) → ℕ → ℕ → Order → Order
unfolding place
place_pairs mate zero u o = o
place_pairs mate (suc rounds) u o =
    let v = mate u in
    let skip = v == unset || v == u || ltb v u in
    place_pairs mate rounds (suc u) (if skip then o else place v (place u o))

-- The records without a slot.
unfoldable pub leftover : ℕ → ℕ → Order → List ℕ
leftover zero u o = []
leftover (suc rounds) u o =
    let rest = leftover rounds (suc u) o in if is_set u o then rest else u ∷ rest

unfoldable pub place_all : List ℕ → Order → Order
unfolding place
place_all [] o = o
place_all (u ∷ us) o = place_all us (place u o)

-- none where the program ends with "slot assign".
unfoldable pub assign_slots : ℕ → (ℕ → ℕ) → Option Order
unfolding place_pairs leftover place_all
assign_slots n mate =
    let o = place_pairs mate n 0 no_order in
    let whole = place_all (leftover n 0 o) o in if whole.assigned == n then some whole else none

-- --mode extent: the pages in the order of the runs, and then the others.
unfoldable pub emit : ℕ → ℕ → Order → Order
emit n_pages p o = if leb n_pages p || is_set p o then o else record {
  new_to_old = update o.new_to_old o.assigned p;
  old_to_new = update o.old_to_new p o.assigned;
  assigned = o.assigned + 1;
}

unfoldable pub pack_run : ℕ → List ℕ → Order → Order
unfolding emit
pack_run n_pages [] o = o
pack_run n_pages (p ∷ ps) o = pack_run n_pages ps (emit n_pages p o)

unfoldable pub pack_runs : ℕ → List (List ℕ) → Order → Order
unfolding pack_run
pack_runs n_pages [] o = o
pack_runs n_pages (r ∷ rs) o = pack_runs n_pages rs (pack_run n_pages r o)

unfoldable pub emit_rest : ℕ → ℕ → ℕ → Order → Order
unfolding emit
emit_rest n_pages zero p o = o
emit_rest n_pages (suc rounds) p o = emit_rest n_pages rounds (suc p) (emit n_pages p o)

abbrev pub pages_for : ℕ → ℕ
pages_for n = (n + 1) / 2

-- "bad map-in slot": some record's slot is out of range.
unfoldable pub has_bad_slot : ℕ → (ℕ → ℕ) → ℕ → ℕ → Bool
has_bad_slot n id_to_slot zero id = false
has_bad_slot n id_to_slot (suc rounds) id =
    leb n (id_to_slot id) || has_bad_slot n id_to_slot rounds (suc id)

-- The new slot of each record, from its old slot; none with "bad map-in slot" or "extent placed".
unfoldable pub extent_slots : ℕ → List (List ℕ) → (ℕ → ℕ) → Option (ℕ → ℕ)
unfolding pack_runs emit_rest has_bad_slot
extent_slots n runs id_to_slot =
    let n_pages = pages_for n in
    let o = emit_rest n_pages n_pages 0 (pack_runs n_pages runs no_order) in
    if not (has_bad_slot n id_to_slot n 0) && o.assigned == n_pages
    then some (λ id. o.old_to_new (id_to_slot id / 2) * 2 + id_to_slot id % 2)
    else none
