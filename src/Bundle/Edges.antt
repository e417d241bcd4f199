-- ===== src/Bundle/Edges.antt =====
-- The edges of tools/pack_layout_bundle.cpp inverted: who points at a record, in one array.
use cxl_anns_kx.Base.{ℕ, zero, suc, ◌+◌, ◌%◌, if◌then◌else◌, ltb}
use cxl_anns_kx.Base.Words.{add32}
use cxl_anns_kx.Base.Dict.{update}

-- for (k = 0; k < R; ++k) of row u: how often each record is pointed at, in a uint32_t.
unfoldable pub count_row : (ℕ → ℕ) → ℕ → ℕ → ℕ → (ℕ → ℕ) → ℕ → ℕ
count_row row n zero k indeg = indeg
count_row row n (suc rounds) k indeg =
    count_row row n rounds (suc k)
      (if ltb (row k) n then update indeg (row k) (add32 (indeg (row k)) 1) else indeg)

unfoldable pub count_rows : (ℕ → ℕ → ℕ) → ℕ → ℕ → ℕ → ℕ → (ℕ → ℕ) → ℕ → ℕ
unfolding count_row
count_rows graph n degree zero u indeg = indeg
count_rows graph n degree (suc rounds) u indeg =
    count_rows graph n degree rounds (suc u) (count_row (graph u) n degree 0 indeg)

-- inoff[i]: the sum of the first i counts.
unfoldable pub offsets : (ℕ → ℕ) → ℕ → ℕ
offsets indeg zero = 0
offsets indeg (suc i) = offsets indeg i + indeg i

-- `cur` and `inadj`.
pub record Filling : Type 0 where
  pub cur : ℕ → ℕ
  pub inadj : ℕ → ℕ

unfoldable pub fill_row : (ℕ → ℕ) → ℕ → ℕ → ℕ → ℕ → Filling → Filling
fill_row row n u zero k f = f
fill_row row n u (suc rounds) k f =
    let v = row k in
    fill_row row n u rounds (suc k) (
      if ltb v n
      then record { cur = update f.cur v (f.cur v + 1); inadj = update f.inadj (f.cur v) u }
      else f)

unfoldable pub fill_rows : (ℕ → ℕ → ℕ) → ℕ → ℕ → ℕ → ℕ → Filling → Filling
unfolding fill_row
fill_rows graph n degree zero u f = f
fill_rows graph n degree (suc rounds) u f =
    fill_rows graph n degree rounds (suc u) (fill_row (graph u) n u degree 0 f)

-- The records that point at v are inadj[inoff[v]] to inadj[inoff[v + 1] - 1].
pub record Inverted : Type 0 where
  pub inoff : ℕ → ℕ
  pub inadj : ℕ → ℕ

unfoldable pub invert : (ℕ → ℕ → ℕ) → ℕ → ℕ → Inverted
unfolding count_rows offsets fill_rows
invert graph n degree =
    let inoff = offsets (count_rows graph n degree n 0 (λ v. 0)) in
    let filled = fill_rows graph n degree n 0 (record { cur = inoff; inadj = λ e. 0 }) in
    record { inoff = inoff; inadj = filled.inadj }

-- `rem`: the words of a row that name a record, in a uint8_t.
unfoldable pub count_rem : (ℕ → ℕ) → ℕ → ℕ → ℕ → ℕ → ℕ
count_rem row n zero k r = r
count_rem row n (suc rounds) k r =
    count_rem row n rounds (suc k) (if ltb (row k) n then (r + 1) % 256 else r)

unfoldable pub initial_rem : (ℕ → ℕ → ℕ) → ℕ → ℕ → ℕ → ℕ
unfolding count_rem
initial_rem graph n degree u = if ltb u n then count_rem (graph u) n degree 0 0 else 0
