-- ===== src/Pagebin.antt =====
-- tools/pack_layout_pagebin.cpp: the order of the records, in which the neighbours of a record that is
-- visited form a block. The assignment is that of tools/reorder_layout_bfs.cpp.
pub mod Permutes
use cxl_anns_kx.Base.{
  ℕ, zero, suc, ◌+◌, ◌-◌, ◌*◌, ◌/◌, if◌then◌else◌, ltb, leb, ◌==◌, Bool, true, false, not, ◌||◌,
  List, [], ◌∷◌, ◌++◌, Option, none, some,
}
use cxl_anns_kx.Base.Dict.{update}
use cxl_anns_kx.Reorder.{Order, assign, assign_rest, no_order}

-- The vectors that touch two pages, at least 2, where none are given.
unfoldable pub bin_capacity : ℕ → ℕ → ℕ → ℕ
bin_capacity given page packed =
    let c = if given == 0 then (2 * page + packed - 1) / packed else given in
    if ltb c 2 then 2 else c

abbrev pub skips : ℕ → ℕ → (ℕ → Bool) → Bool
skips n v inq = leb n v || inq v

-- The lambda try_push: the queue, and the marks of the records that were ever pushed.
unfoldable pub try_push : ℕ → ℕ → List ℕ → (ℕ → Bool) → List ℕ × (ℕ → Bool)
try_push n v queue inq = (
  if skips n v inq then queue else queue ++ v ∷ [],
  if skips n v inq then inq else update inq v true,
)

-- The words of the row of a record that is visited, in turn.
unfoldable pub visit_row :
    (ℕ → ℕ) → ℕ → ℕ → ℕ → List ℕ → (ℕ → Bool) → Order → List ℕ × (ℕ → Bool) × Order
unfolding assign try_push
visit_row row n zero k queue inq o = (queue, inq, o)
visit_row row n (suc rounds) k queue inq o =
    let v = row k in
    let (queue1, inq1) = try_push n v queue inq in
    visit_row row n rounds (suc k) (if leb n v then queue else queue1)
      (if leb n v then inq else inq1) (if leb n v then o else assign v o)

-- while (!q.empty()), with fuel.
unfoldable pub visit_all : (ℕ → ℕ → ℕ) → ℕ → ℕ → ℕ → List ℕ → (ℕ → Bool) → Order → List ℕ × Order
unfolding visit_row assign
visit_all graph n degree zero queue inq o = (queue, o)
visit_all graph n degree (suc fuel) [] inq o = ([], o)
visit_all graph n degree (suc fuel) (u ∷ queue) inq o =
    let (queue1, inq1, o1) = visit_row (graph u) n degree 0 queue inq (assign u o) in
    visit_all graph n degree fuel queue1 inq1 o1

-- Each record is pushed once, so that n rounds are enough.
unfoldable pub visited : (ℕ → ℕ → ℕ) → ℕ → ℕ → ℕ → List ℕ × Order
unfolding visit_all try_push
visited graph n degree entry_id =
    let entry = if leb n entry_id then 0 else entry_id in
    let (queue, inq) = try_push n entry [] (λ u. false) in
    visit_all graph n degree n queue inq no_order

-- The order, where the program does not die with "permute incomplete".
unfoldable pub pagebin_order : (ℕ → ℕ → ℕ) → ℕ → ℕ → ℕ → Option Order
unfolding visited assign_rest
pagebin_order graph n degree entry_id =
    let o = assign_rest n 0 (visited graph n degree entry_id).1 in
    if o.assigned == n then some o else none

-- Whether two records share a page.
unfoldable pub page_share : ℕ → ℕ → ℕ → ℕ → Bool
page_share page packed nu nv =
    let ou = nu * packed in
    let ov = nv * packed in
    not (ltb ((ou + packed - 1) / page) (ov / page) || ltb ((ov + packed - 1) / page) (ou / page))
