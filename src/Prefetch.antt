-- ===== src/Prefetch.antt =====
-- The job queue of serving/prefetch.hpp: its budget, its bound, and the worker's round. A pointer
-- into the SSD image is its offset; a null pointer is `none`.
use cxl_anns_kx.Base.{
  ℕ, ◌+◌, ◌-◌, ◌*◌, ◌/◌, ◌≤◌, if◌then◌else◌, ltb, leb, ◌==◌, ◌&&◌, List, [], ◌∷◌, ◌++◌, Option,
  none, some, arith, ◌^◌,
}
use cxl_anns_kx.Base.Lists.{length, length-append}
use cxl_anns_kx.DramWindow.State.{Window}
use cxl_anns_kx.DramWindow.Reads.{try_prefetch}

-- The jobs wait in order; the window is the one that start_async was given.
pub record Prefetch : Type 0 where
  pub budget_left : ℕ
  pub async_q_cap : ℕ
  pub q : List (ℕ × ℕ)
  pub win : Window

-- The bytes that a job is charged: a vector of more than half a page counts for two pages.
unfoldable bytes_charge : ℕ → ℕ → ℕ
bytes_charge page_bytes want =
    let len = if want == 0 then page_bytes else want in
    let whole = (len + page_bytes - 1) / page_bytes in
    let n = if leb len page_bytes && ltb (page_bytes / 2) len then 2 else whole in
    (if ltb n 1 then 1 else n) * page_bytes

unfoldable enqueue : Option ℕ → ℕ → Prefetch → Prefetch
unfolding bytes_charge
enqueue none len f = f
enqueue (some ptr) len f =
    let need = bytes_charge f.win.page_bytes len in
    if ltb f.budget_left need
    then f
    else if leb f.async_q_cap (length f.q)
    then f
    else record f { budget_left = f.budget_left - need; q = f.q ++ (ptr, len) ∷ [] }

unfoldable enqueue_force : Option ℕ → ℕ → Prefetch → Prefetch
enqueue_force none len f = f
enqueue_force (some ptr) len f =
    if leb f.async_q_cap (length f.q) then f else record f { q = f.q ++ (ptr, len) ∷ [] }

-- SIZE_MAX / 4, the budget that the worker gives to each job.
abbrev worker_budget : ℕ
worker_budget = (2 ^ 64 - 1) / 4

-- A round of the worker: the first job, if there is one, brings its pages into the window.
unfoldable work : (ℕ → ℕ) → Prefetch → Prefetch
work ssd f = elim f.q [
  | [] ↦ f
  | (ptr, len) ∷ rest ↦
      let want = if len == 0 then f.win.page_bytes else len in
      record f { q = rest; win = (try_prefetch ssd ptr (some worker_budget) want f.win).0 }
]

-- Whichever way a job is put into the queue, the queue keeps to its cap, and the
-- budget does not grow.
enqueue_bounds :
    (o : Option ℕ) (len : ℕ) (f : Prefetch)
    → length f.q ≤ f.async_q_cap
    → (length (enqueue o len f).q ≤ f.async_q_cap)
      × ((enqueue o len f).budget_left ≤ f.budget_left)
      × (length (enqueue_force o len f).q ≤ f.async_q_cap)
unfolding enqueue enqueue_force
enqueue_bounds none len f h = (h, omega arith, h)
enqueue_bounds (some ptr) len f h =
    let one = length-append f.q ((ptr, len) ∷ []) in
    (ground (arith, one), ground arith, ground (arith, one))
