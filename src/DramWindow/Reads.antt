-- ===== src/DramWindow/Reads.antt =====
-- The reads of serving/dram_window.hpp: is_resident, try_ptr_resident, try_copy_resident,
-- copy_through, lookup_or_promote and try_prefetch. A pointer into the SSD image is its offset.
use cxl_anns_kx.Base.{
  ℕ, ◌+◌, ◌-◌, ◌*◌, ◌/◌, ◌%◌, if◌then◌else◌, ltb, ◌==◌, Bool, true, false, ◌&&◌, List, [], ◌∷◌,
  ◌++◌, zero, suc, Option, none, some, min, max,
}
use cxl_anns_kx.Base.Words.{add64, page_floor}
use cxl_anns_kx.Base.Lists.{set}
use cxl_anns_kx.Base.Search.{bytes_at}
use cxl_anns_kx.Base.Dict.{lookup, insert, has}
use cxl_anns_kx.Metrics.{Metrics}
use cxl_anns_kx.DramWindow.State.{Window, with_met, kspill_slots}
use cxl_anns_kx.DramWindow.Promote.{pages_of, promote_all}

unfoldable pub all_mapped : List ℕ → Window → Bool
all_mapped [] w = true
all_mapped (p ∷ ps) w = has p w.map && all_mapped ps w

unfoldable pub is_resident : ℕ → ℕ → Window → Bool
unfolding all_mapped
is_resident off len w = all_mapped (pages_of w.page_bytes off (max len 1)) w

-- The offset in the arena, where the range lies on one page that is in the window.
unfoldable pub try_ptr_resident : ℕ → ℕ → Window → Option ℕ
try_ptr_resident off n w =
    let first = page_floor w.page_bytes off in
    let last = page_floor w.page_bytes (off + n - 1) in
    let at : Option ℕ = elim (lookup first w.map) [
      | none ↦ none
      | some fr ↦ some (fr * w.page_bytes + (off - first))
    ] in
    if n == 0 then some 0 else if first == last then at else none

-- `map[po]`: a missing key is inserted with frame 0.
unfoldable pub map_at : ℕ → Window → ℕ × Window
map_at po w = elim (lookup po w.map) [
  | some fr ↦ (fr, w)
  | none ↦ (0, record w { frames = record (w.frames) { map = insert po 0 w.map } })
]

-- The loop `while (copied < n)`, with fuel: the window after it and the bytes that it wrote.
unfoldable pub copy_loop : ℕ → ℕ → ℕ → ℕ → Window → Window × List ℕ
copy_loop zero off copied n w = (w, [])
copy_loop (suc fuel) off copied n w =
    let cur = off + copied in
    let po = page_floor w.page_bytes cur in
    let (fr, v) = map_at po w in
    let k = min (n - copied) (w.page_bytes - (cur - po)) in
    let rest = copy_loop fuel off (copied + k) n v in
    if ltb copied n
    then (rest.0, bytes_at v.arena (fr * w.page_bytes + (cur - po)) k ++ rest.1)
    else (w, [])

-- Each round copies a byte at least, so n rounds are enough.
unfoldable pub copy_out : ℕ → ℕ → Window → Window × List ℕ
unfolding copy_loop
copy_out off n w = copy_loop n off 0 n w

-- The window and the bytes copied; none where a page is missing.
unfoldable pub try_copy_resident : ℕ → ℕ → Window → Window × Option (List ℕ)
try_copy_resident off n w =
    let (v, bytes) = copy_out off n w in
    if n == 0
    then (w, some [])
    else if all_mapped (pages_of w.page_bytes off n) w
    then (v, some bytes)
    else (w, none)

unfoldable pub copy_through : (ℕ → ℕ) → ℕ → ℕ → Window → Window × List ℕ
copy_through ssd off len w =
    let ready = promote_all ssd false (pages_of w.page_bytes off len) w in
    if len == 0 then (w, []) else copy_out off len ready

-- What lookup_or_promote returns: a place in the arena, or a spill buffer.
pub data Found : Type 0 where
  in_arena : ℕ → Found
  in_spill : ℕ → Found

-- `spill[spill_hand++ % kSpillSlots]` takes the bytes of a range over several pages.
unfoldable pub spill_copy : ℕ → ℕ → Window → Window × Found
unfolding copy_out
spill_copy off len w =
    let slot = w.spill_hand % kspill_slots in
    let (v, bytes) = copy_out off len w in
    (record v { spill_hand = add64 w.spill_hand 1; spill = set v.spill slot bytes }, in_spill slot)

unfoldable pub lookup_or_promote : (ℕ → ℕ) → ℕ → ℕ → Window → Window × Found
unfolding spill_copy
lookup_or_promote ssd off want w =
    let len = max want 1 in
    let first = page_floor w.page_bytes off in
    let last = page_floor w.page_bytes (off + len - 1) in
    let ready = promote_all ssd false (pages_of w.page_bytes off len) w in
    let (frame0, v) = map_at first ready in
    if first == last
    then (v, in_arena (frame0 * v.page_bytes + (off - first)))
    else spill_copy off len v

-- The bytes of the pages that a prefetch would have to bring in.
unfoldable pub missing_bytes : List ℕ → Window → ℕ
missing_bytes [] w = 0
missing_bytes (p ∷ ps) w =
    if has p w.map then missing_bytes ps w else w.page_bytes + missing_bytes ps w

-- The window, the budget left, and whether the range is in the window now.
unfoldable pub try_prefetch : (ℕ → ℕ) → ℕ → Option ℕ → ℕ → Window → Window × Option ℕ × Bool
try_prefetch ssd off none want w = (w, none, false)
try_prefetch ssd off (some budget) want w =
    let len = if want == 0 then w.page_bytes else want in
    let need = missing_bytes (pages_of w.page_bytes off len) w in
    let (v, found) = lookup_or_promote ssd off len w in
    let count =
      λ (m : Metrics). record m { prefetch_pages = add64 m.prefetch_pages (need / w.page_bytes) } in
    if need == 0
    then (w, some budget, true)
    else if ltb budget need
    then (w, some budget, false)
    else (record v { met = with_met count v.met }, some (budget - need), true)
