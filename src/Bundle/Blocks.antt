-- ===== src/Bundle/Blocks.antt =====
-- The main loop of tools/pack_layout_bundle.cpp: the best record's neighbours that are not yet placed
-- become a block.
use cxl_anns_kx.Base.{
  ℕ, zero, suc, ◌+◌, ◌-◌, ◌*◌, if◌then◌else◌, ltb, leb, ◌==◌, Bool, ◌||◌, ◌&&◌, List, [], ◌∷◌,
  Option, none, some,
}
use cxl_anns_kx.Base.Dict.{update}
use cxl_anns_kx.Reorder.{Order, is_set, assign_rest, no_order}
use cxl_anns_kx.Bundle.{assign_one}
use cxl_anns_kx.Bundle.Edges.{Inverted, invert, initial_rem}
use cxl_anns_kx.Bundle.Buckets.{
  Packing, kranks, hot_bit, push_bucket, fill_buckets, is_empty, Popped, best, nothing, unfinished,
  pop_best,
}

-- block_ids: the words of the row that name a record without a place, a repeated one repeatedly.
unfoldable pub block_ids : (ℕ → ℕ) → ℕ → Order → ℕ → ℕ → List ℕ
block_ids row n o zero k = []
block_ids row n o (suc rounds) k =
    let rest = block_ids row n o rounds (suc k) in
    if leb n (row k) || is_set (row k) o then rest else row k ∷ rest

unfoldable pub assign_block : List ℕ → Order → Order
unfolding assign_one
assign_block [] o = o
assign_block (v ∷ vs) o = assign_block vs (assign_one v o).1

-- A record that points at one just placed: one neighbour fewer is left, and the cursor follows.
unfoldable pub lower : (ℕ → Bool) → ℕ → Packing → Packing
unfolding push_bucket
lower is_hot w s =
    let r = s.left w - 1 in
    let h = hot_bit is_hot w in
    let ahead = ltb s.cur_h1 (h + 1) || h + 1 == s.cur_h1 && ltb s.cur_r1 (r + 1) in
    if s.left w == 0 then s else record s {
      left = update s.left w r;
      buckets = push_bucket (h * kranks + r) w s.buckets;
      cur_h1 = if ahead then h + 1 else s.cur_h1;
      cur_r1 = if ahead then r + 1 else s.cur_r1;
    }

-- for (e = inoff[v]; e < inoff[v + 1]; ++e)
unfoldable pub lower_parents : (ℕ → Bool) → (ℕ → ℕ) → ℕ → ℕ → Packing → Packing
unfolding lower
lower_parents is_hot inadj zero e s = s
lower_parents is_hot inadj (suc rounds) e s =
    lower_parents is_hot inadj rounds (suc e) (lower is_hot (inadj e) s)

unfoldable pub lower_block : (ℕ → Bool) → Inverted → List ℕ → Packing → Packing
unfolding lower_parents
lower_block is_hot inv [] s = s
lower_block is_hot inv (v ∷ vs) s =
    lower_block is_hot inv vs
      (lower_parents is_hot inv.inadj (inv.inoff (suc v) - inv.inoff v) (inv.inoff v) s)

-- The loop's body for the record u.
unfoldable pub place_block : (ℕ → Bool) → Inverted → (ℕ → ℕ → ℕ) → ℕ → ℕ → ℕ → Packing → Packing
unfolding block_ids assign_block lower_block
place_block is_hot inv graph n degree u s =
    let block = block_ids (graph u) n s.order degree 0 in
    let placed = record s { order = assign_block block s.order } in
    if s.left u == 0
    then s
    else if is_empty block
    then record s { left = update s.left u 0 }
    else lower_block is_hot inv block placed

-- What the loop does with the record popped: it goes on with it, or ends.
unfoldable pub after_pop : Popped → Packing → (ℕ → Option Packing) → Option Packing
after_pop nothing s next = some s
after_pop unfinished s next = none
after_pop (best u) s next = next u

-- while (assigned < n): none where the rounds were not enough.
unfoldable pub pack_blocks :
    (ℕ → Bool) → Inverted → (ℕ → ℕ → ℕ) → ℕ → ℕ → ℕ → ℕ → Packing → Option Packing
unfolding pop_best place_block after_pop
pack_blocks is_hot inv graph n degree pops zero s = none
pack_blocks is_hot inv graph n degree pops (suc rounds) s =
    let (popped, s1) = pop_best is_hot pops s in
    if leb n s.order.assigned
    then some s
    else after_pop popped s1 (λ u.
      pack_blocks is_hot inv graph n degree pops rounds
        (place_block is_hot inv graph n degree u s1))

unfoldable pub start_packing : (ℕ → Bool) → (ℕ → ℕ → ℕ) → ℕ → ℕ → Packing
unfolding initial_rem fill_buckets
start_packing is_hot graph n degree =
    let left = initial_rem graph n degree in
    record {
      order = no_order;
      left = left;
      buckets = fill_buckets is_hot left n 0 (λ i. []);
      cur_h1 = 2;
      cur_r1 = kranks;
    }

-- A round for each entry that ever enters the buckets, and one more.
abbrev pub rounds_for : ℕ → ℕ → ℕ
rounds_for n degree = n + n * degree + 1

-- for (u = 0; u < n; ++u) assign_one(u): the records that no block took.
unfoldable pub with_rest : ℕ → Option Packing → Option Order
unfolding assign_rest
with_rest n none = none
with_rest n (some s) = some (assign_rest n 0 s.order)

unfoldable pub bundle_pack : (ℕ → Bool) → (ℕ → ℕ → ℕ) → ℕ → ℕ → Option Order
unfolding invert pack_blocks start_packing with_rest
bundle_pack is_hot graph n degree =
    let limit = rounds_for n degree in
    with_rest n (
      pack_blocks is_hot (invert graph n degree) graph n degree limit limit
        (start_packing is_hot graph n degree))
