-- ===== src/Bundle.antt =====
-- tools/pack_layout_bundle.cpp: the order of the records. `graph u k` is word k of row u. The order and
-- its assignment are those of tools/reorder_layout_bfs.cpp; sizes and edge counts are not wrapped.
pub mod Edges
pub mod Buckets
pub mod Blocks
pub mod Orders
pub mod Ends
pub mod Inverse
pub mod Segments
pub mod Finish
use cxl_anns_kx.Base.{
  ℕ, zero, suc, ◌+◌, ◌-◌, ◌*◌, ◌/◌, ◌^◌, if◌then◌else◌, ltb, leb, ◌==◌, Bool, true, false, not,
  ◌||◌, ◌&&◌, List, [], ◌∷◌, ◌++◌, Option, none, some,
}
use cxl_anns_kx.Base.Dict.{update}
use cxl_anns_kx.Reorder.{Order, is_set, assign, assign_rest, no_order}

-- The lambda assign_one, with its result.
unfoldable pub assign_one : ℕ → Order → Bool × Order
unfolding assign
assign_one u o = (not (is_set u o), assign u o)

-- The stride of the vectors that are read.
unfoldable pub in_stride : ℕ → ℕ → ℕ → ℕ
in_stride packed n len_vectors =
    if not (n == 0) && not (len_vectors == 0) && leb packed (len_vectors / n)
    then len_vectors / n
    else packed

-- The vectors on a page, at least one.
unfoldable pub slots : ℕ → ℕ → ℕ
slots page packed =
    let fit = if packed == 0 then 1 else page / packed in if ltb fit 1 then 1 else fit

-- The records of one query of a trace; `touch` counts those that were new.
unfoldable pub trace_query : ℕ → List ℕ → ℕ → Order → ℕ × Order
unfolding assign_one
trace_query n [] touch o = (touch, o)
trace_query n (id ∷ ids) touch o =
    let (new, o1) = assign_one id o in
    trace_query n ids (if ltb id n && new then touch + 1 else touch) (if ltb id n then o1 else o)

unfoldable pub trace_queries : ℕ → List (List ℕ) → ℕ → Order → ℕ × Order
unfolding trace_query
trace_queries n [] touch o = (touch, o)
trace_queries n (q ∷ qs) touch o =
    let (touched, o1) = trace_query n q touch o in trace_queries n qs touched o1

-- --from-trace: the records in the order of their first touch, then the others.
unfoldable pub trace_pack : ℕ → List (List ℕ) → Order
unfolding trace_queries assign_rest
trace_pack n qs = assign_rest n 0 (trace_queries n qs 0 no_order).1

-- The loop of --eval-map: none where the program dies with "eval-map id".
unfoldable pub eval_loop : ℕ → (ℕ → ℕ) → ℕ → ℕ → (ℕ → ℕ) → Option (ℕ → ℕ)
eval_loop n loaded zero i old_to_new = some old_to_new
eval_loop n loaded (suc rounds) i old_to_new =
    let rest = eval_loop n loaded rounds (suc i) (update old_to_new (loaded i) i) in
    if leb n (loaded i) then none else rest

unfoldable pub eval_map : ℕ → (ℕ → ℕ) → Option Order
unfolding eval_loop
eval_map n loaded = elim (eval_loop n loaded n 0 no_order.old_to_new) [
  | none ↦ none
  | some found ↦ some (record { new_to_old = loaded; old_to_new = found; assigned = n })
]
