-- ===== src/Reorder.antt =====
-- tools/reorder_layout_bfs.cpp: the new order of the records, the layout of the image, and the graph
-- in the new order. `graph u k` is word k of row u; sizes in the image are not wrapped.
pub mod Permutation
pub mod Regions
use cxl_anns_kx.Base.{
  ℕ, zero, suc, ◌+◌, ◌-◌, ◌*◌, ◌/◌, ◌^◌, if◌then◌else◌, ltb, leb, ◌==◌, Bool, true, false, not,
  ◌||◌, List, [], ◌∷◌, ◌++◌, Option, none, some,
}
use cxl_anns_kx.Base.Dict.{update}
use cxl_anns_kx.Placement.{Header}

-- UINT32_MAX.
abbrev pub unset : ℕ
unset = 2 ^ 32 - 1

pub record Order : Type 0 where
  pub new_to_old : ℕ → ℕ
  pub old_to_new : ℕ → ℕ
  pub assigned : ℕ

abbrev pub is_set : ℕ → Order → Bool
is_set u o = not (o.old_to_new u == unset)

unfoldable pub assign : ℕ → Order → Order
assign u o = if is_set u o then o else record {
  new_to_old = update o.new_to_old o.assigned u;
  old_to_new = update o.old_to_new u o.assigned;
  assigned = o.assigned + 1;
}

-- The words of a row from word k on, in turn: the queue grows by each record that is assigned.
unfoldable pub pack_row : (ℕ → ℕ) → ℕ → ℕ → ℕ → List ℕ → Order → List ℕ × Order
unfolding assign
pack_row row n zero k queue o = (queue, o)
pack_row row n (suc rounds) k queue o =
    let v = row k in
    let skip = leb n v || is_set v o in
    pack_row row n rounds (suc k) (if skip then queue else queue ++ v ∷ [])
      (if skip then o else assign v o)

-- The loop over the queue, with fuel.
unfoldable pub star_pack : (ℕ → ℕ → ℕ) → ℕ → ℕ → ℕ → List ℕ → Order → List ℕ × Order
unfolding pack_row
star_pack graph n degree zero queue o = (queue, o)
star_pack graph n degree (suc fuel) [] o = ([], o)
star_pack graph n degree (suc fuel) (u ∷ queue) o =
    let (grown, o1) = pack_row (graph u) n degree 0 queue o in
    star_pack graph n degree fuel grown o1

-- for (u = first; u < n; ++u): the records that the search did not meet.
unfoldable pub assign_rest : ℕ → ℕ → Order → Order
unfolding assign
assign_rest zero u o = o
assign_rest (suc rounds) u o = assign_rest rounds (suc u) (assign u o)

abbrev pub no_order : Order
no_order = record { new_to_old = λ i. 0; old_to_new = λ u. unset; assigned = 0 }

-- Each record enters the queue once, so that n rounds are enough.
unfoldable pub packed : (ℕ → ℕ → ℕ) → ℕ → ℕ → ℕ → List ℕ × Order
unfolding star_pack
packed graph n degree entry_id =
    star_pack graph n degree n (entry_id ∷ []) (assign entry_id no_order)

-- The order, where the program does not die with "permute incomplete".
unfoldable pub reorder : (ℕ → ℕ → ℕ) → ℕ → ℕ → ℕ → Option Order
unfolding packed assign_rest
reorder graph n degree entry_id =
    let entry = if leb n entry_id then 0 else entry_id in
    let o = assign_rest n 0 (packed graph n degree entry).1 in
    if o.assigned == n then some o else none

-- Word k of row `ni` of the graph that is written.
unfoldable pub remapped : (ℕ → ℕ → ℕ) → ℕ → Order → ℕ → ℕ → ℕ
remapped graph n o ni k =
    let ov = graph (o.new_to_old ni) k in if ltb ov n then o.old_to_new ov else 0

unfoldable pub align_up : ℕ → ℕ → ℕ
align_up x a = (x + a - 1) / a * a

-- sizeof(LayoutHeader), which is packed.
abbrev pub header_bytes : ℕ
header_bytes = 116

abbrev pub page : ℕ
page = 4096

-- The header, the pivots' offset and length, and the end of the image.
pub record Layout : Type 0 where
  pub hdr : Header
  pub len_pq : ℕ
  pub off_pivots : ℕ
  pub len_pivots : ℕ
  pub size : ℕ

unfoldable pub layout : ℕ → ℕ → ℕ → ℕ → ℕ → Layout
unfolding align_up
layout n dim degree pq_bytes vec_bytes =
    let off_pq = align_up header_bytes page in
    let len_pq = n * pq_bytes in
    let off_graph = align_up (off_pq + len_pq) page in
    let len_graph = n * degree * 4 in
    let off_vectors = align_up (off_graph + len_graph) page in
    let len_vectors = n * dim * vec_bytes in
    let off_pivots = align_up (off_vectors + len_vectors) page in
    let len_pivots = 64 * 1024 in
    record {
      hdr = record {
        version = 1;
        n = n;
        dim = dim;
        degree = degree;
        pq_bytes = pq_bytes;
        vec_bytes = vec_bytes;
        off_pq = off_pq;
        off_graph = off_graph;
        len_graph = len_graph;
        off_vectors = off_vectors;
        len_vectors = len_vectors;
      };
      len_pq = len_pq;
      off_pivots = off_pivots;
      len_pivots = len_pivots;
      size = align_up (off_pivots + len_pivots) page;
    }
