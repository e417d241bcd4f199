-- ===== src/HideFill/Reads.antt =====
-- How a scorer reads a vector through HidePipe of serving/hide_fill.hpp: copy_vec, and the read that
-- pqq_rank of serving/search_beam.cpp makes of it and of vec_src.
use cxl_anns_kx.Base.{
  ℕ, zero, suc, ◌+◌, ◌-◌, if◌then◌else◌, ltb, List, [], ◌++◌, Option, none, some, min,
}
use cxl_anns_kx.Base.Words.{page_floor}
use cxl_anns_kx.Base.Search.{bytes_at}
use cxl_anns_kx.DramWindow.Reads.{try_copy_resident}
use cxl_anns_kx.HideFill.{HideScore}
use cxl_anns_kx.HideFill.Pipe.{HidePipe, bounce_page, vec_src, Source, on_ssd, in_host, in_window}

-- The loop `while (copied < vb)` of the bounce branch, with fuel; `page_of` is bounce_page.
unfoldable pub bounce_loop : (ℕ → Option (ℕ → ℕ)) → ℕ → ℕ → ℕ → ℕ → ℕ → Option (List ℕ)
bounce_loop page_of pb zero off copied vb = some []
bounce_loop page_of pb (suc fuel) off copied vb =
    let cur = off + copied in
    let page = page_floor pb cur in
    let k = min (vb - copied) (pb - (cur - page)) in
    let rest = bounce_loop page_of pb fuel off (copied + k) vb in
    if ltb copied vb
    then (elim (page_of page) [
      | none ↦ none
      | some base ↦ elim rest [
        | none ↦ none
        | some later ↦ some (bytes_at base (cur - page) k ++ later)
      ]
    ])
    else some []

-- The bytes copied under a score; none where a page is missing. Each round of the loop copies a
-- byte at least.
unfoldable pub copy_on : HideScore → (ℕ → ℕ) → ℕ → ℕ → HidePipe → HidePipe × Option (List ℕ)
unfolding bounce_loop
copy_on HideScore.vmem ssd off vb h = (h, some (bytes_at ssd off vb))
copy_on HideScore.bounce ssd off vb h =
    (h, bounce_loop (λ p. bounce_page p h) h.win.page_bytes vb off 0 vb)
copy_on HideScore.window ssd off vb h =
    let (w, copied) = try_copy_resident off vb h.win in (record h { win = w }, copied)

unfoldable pub copy_vec : (ℕ → ℕ) → ℕ → ℕ → HidePipe → HidePipe × Option (List ℕ)
unfolding copy_on
copy_vec ssd off vb h = copy_on h.score ssd off vb h

unfoldable pub source_bytes : (ℕ → ℕ) → ℕ → HidePipe → Source → List ℕ
source_bytes ssd vb h (on_ssd off) = bytes_at ssd off vb
source_bytes ssd vb h (in_host base) = bytes_at base 0 vb
source_bytes ssd vb h (in_window a) = bytes_at h.win.arena a vb

-- The bytes that a candidate is scored on: in place, else copied.
unfoldable pub read_from :
    (ℕ → ℕ) → ℕ → HidePipe → Option Source → HidePipe × Option (List ℕ) → HidePipe × Option (List ℕ)
unfolding source_bytes
read_from ssd vb h (some src) copied = (h, some (source_bytes ssd vb h src))
read_from ssd vb h none copied = copied

unfoldable pub read_vec : (ℕ → ℕ) → ℕ → ℕ → HidePipe → HidePipe × Option (List ℕ)
unfolding vec_src copy_vec read_from
read_vec ssd off vb h = read_from ssd vb h (vec_src off vb h) (copy_vec ssd off vb h)
