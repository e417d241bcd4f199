-- ===== src/Reorder/Regions.antt =====
-- The layout of tools/reorder_layout_bfs.cpp, and what serving/placement.hpp makes of its header.
use cxl_anns_kx.Base.{ℕ, ◌+◌, ◌*◌, ◌/◌, ◌%◌, ◌<◌, ◌≤◌, ◌≡◌, ◌∙◌, refl, ap, false, arith}
use native.Mathlib.Nat.{mul-div_cancel}
use cxl_anns_kx.Placement.{Header, Placement, set_header, vec}
use cxl_anns_kx.Reorder.{align_up, header_bytes, page, Layout, layout}

align_up_lem : (x : ℕ) → (x ≤ align_up x page) × (align_up x page % page ≡ 0)
unfolding align_up
align_up_lem x = (omega arith, omega arith)

-- The regions are page-aligned and lie one after the other behind the header, within the image.
pub record IsLaidOut (l : Layout) : Type 0 where
  pub pq_aligned : l.hdr.off_pq % page ≡ 0
  pub graph_aligned : l.hdr.off_graph % page ≡ 0
  pub vectors_aligned : l.hdr.off_vectors % page ≡ 0
  pub pivots_aligned : l.off_pivots % page ≡ 0
  pub size_aligned : l.size % page ≡ 0
  pub pq_after : header_bytes ≤ l.hdr.off_pq
  pub graph_after : l.hdr.off_pq + l.len_pq ≤ l.hdr.off_graph
  pub vectors_after : l.hdr.off_graph + l.hdr.len_graph ≤ l.hdr.off_vectors
  pub pivots_after : l.hdr.off_vectors + l.hdr.len_vectors ≤ l.off_pivots
  pub within : l.off_pivots + l.len_pivots ≤ l.size

-- The regions of the image are page-aligned and lie one after the other behind the header,
-- within the size of the image.
pub layout-IsLaidOut :
    (n dim degree pq_bytes vec_bytes : ℕ) → IsLaidOut (layout n dim degree pq_bytes vec_bytes)
unfolding layout
layout-IsLaidOut n dim degree pq_bytes vec_bytes =
    let pq = align_up_lem header_bytes in
    let graph = align_up_lem (align_up header_bytes page + n * pq_bytes) in
    let off_graph = align_up (align_up header_bytes page + n * pq_bytes) page in
    let vectors = align_up_lem (off_graph + n * degree * 4) in
    let off_vectors = align_up (off_graph + n * degree * 4) page in
    let pivots = align_up_lem (off_vectors + n * dim * vec_bytes) in
    let end = align_up_lem (align_up (off_vectors + n * dim * vec_bytes) page + 64 * 1024) in
    record {
      pq_aligned = pq.1;
      graph_aligned = graph.1;
      vectors_aligned = vectors.1;
      pivots_aligned = pivots.1;
      size_aligned = end.1;
      pq_after = pq.0;
      graph_after = graph.0;
      vectors_after = vectors.0;
      pivots_after = pivots.0;
      within = end.0;
    }

row_stride : (n dim vec_bytes : ℕ) → 0 < n → n * dim * vec_bytes / n ≡ dim * vec_bytes
row_stride n dim vec_bytes pos =
    let grouped : n * dim * vec_bytes ≡ dim * vec_bytes * n = grind arith in
    rw grouped (mul-div_cancel (dim * vec_bytes) pos)

-- A header of version 1 with a graph, and vectors without gaps.
set_header_flat :
    (h : Header) (p : Placement)
    → h.version ≡ 1
    → 0 < h.n
    → 0 < h.len_graph
    → h.len_vectors ≡ h.n * h.dim * h.vec_bytes
    → 0 < h.dim * h.vec_bytes
    → ((set_header h p).diskann_layout ≡ false)
      × ((set_header h p).vec_stride ≡ h.dim * h.vec_bytes)
unfolding set_header
set_header_flat h p version pos graph len bytes =
    let stride : h.len_vectors / h.n ≡ h.dim * h.vec_bytes =
      ap (λ (x : ℕ). x / h.n) len ∙ row_stride h.n h.dim h.vec_bytes pos in
    (ground arith, ground (arith, stride))

-- With a graph and vectors of positive size, the server that reads the header of the layout
-- finds the vector of a record where the layout puts it: at its index times the size of a
-- vector, within the region of the vectors.
pub vec-set_header :
    (n dim degree pq_bytes vec_bytes id : ℕ) (p : Placement)
    → 0 < dim * vec_bytes
    → 0 < degree
    → id < n
    → let l = layout n dim degree pq_bytes vec_bytes in
      (vec l.hdr id (set_header l.hdr p) ≡ l.hdr.off_vectors + id * (dim * vec_bytes))
      × (vec l.hdr id (set_header l.hdr p) + dim * vec_bytes
          ≤ l.hdr.off_vectors + l.hdr.len_vectors)
unfolding layout vec
vec-set_header n dim degree pq_bytes vec_bytes id p pos some_nbrs lt =
    let hdr = (layout n dim degree pq_bytes vec_bytes).hdr in
    let some_rows : 0 < n * degree = grind arith in
    let (flat, stride) = set_header_flat hdr p refl (omega arith) (omega arith) refl pos in
    let at : vec hdr id (set_header hdr p) ≡ hdr.off_vectors + id * (dim * vec_bytes) =
      simp (flat, stride) refl in
    let inside : id * (dim * vec_bytes) + dim * vec_bytes ≤ n * dim * vec_bytes = grind arith in
    (at, omega (arith, at, inside))
