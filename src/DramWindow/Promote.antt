-- ===== src/DramWindow/Promote.antt =====
-- The operations of serving/dram_window.hpp that bring pages in: promote_page_unlocked, pin,
-- pin_vec_ids, install_host, install_full_page(s), touch_soft_pin and promote_span.
use cxl_anns_kx.Base.{
  ℕ, ◌+◌, ◌-◌, ◌*◌, if◌then◌else◌, ltb, leb, ◌==◌, Bool, true, false, not, ◌&&◌, List, [], ◌∷◌,
  zero, suc, Option, none, some, max,
}
use cxl_anns_kx.Base.Words.{add64, page_floor}
use cxl_anns_kx.Base.Lists.{insert_id}
use cxl_anns_kx.Base.Dict.{update, lookup, insert, has}
use cxl_anns_kx.Metrics.{Metrics}
use cxl_anns_kx.DramWindow.State.{Window, Frames, blit, with_met, clear_soft_ttl, set_soft_ttl}
use cxl_anns_kx.DramWindow.Frames.{alloc_frame}
use cxl_anns_kx.DramWindow.Fills.{count_miss}

-- for (p = first; p <= last; p += page_bytes), with fuel.
unfoldable pub page_range : ℕ → ℕ → ℕ → ℕ → List ℕ
page_range zero p last page_bytes = []
page_range (suc fuel) p last page_bytes =
    let rest = page_range fuel (p + page_bytes) last page_bytes in
    if leb p last then p ∷ rest else []

-- The pages that [off, off + len) overlaps. Each round moves on by a byte at least, so the number of
-- bytes is fuel enough.
unfoldable pub pages_of : ℕ → ℕ → ℕ → List ℕ
unfolding page_range
pages_of page_bytes off len =
    let first = page_floor page_bytes off in
    let last = page_floor page_bytes (off + len - 1) in
    page_range (suc last - first) first last page_bytes

abbrev pub count_hit : Metrics → Metrics
count_hit m = record m { dram_hits = add64 m.dram_hits 1 }

abbrev pub count_prefetch : ℕ → Metrics → Metrics
count_prefetch page_bytes m = record (count_miss page_bytes m) {
  prefetch_pages = add64 m.prefetch_pages 1;
}

-- frame_key[frame] = p, frame_pinned[frame] = 0, map[p] = frame, with the bytes copied in.
unfoldable pub installed : ℕ → ℕ → (ℕ → ℕ) → Frames → Frames
installed p frame bytes f = record f {
  arena = bytes;
  frame_key = update f.frame_key frame p;
  frame_pinned = update f.frame_pinned frame false;
  map = insert p frame f.map;
}

unfoldable pub install : ℕ → ℕ → (ℕ → ℕ) → Window → Window
install p frame bytes w = record w { frames = installed p frame bytes w.frames }

-- Pin a frame within the budget.
unfoldable pub pin_frame : ℕ → ℕ → Window → Window
pin_frame page_off frame w =
    if leb (add64 w.pin_bytes_used w.page_bytes) w.pin_bytes_cap
    then record w {
      frames = record (w.frames) { frame_pinned = update w.frame_pinned frame true };
      pinned_pages = insert_id page_off w.pinned_pages;
      pin_bytes_used = add64 w.pin_bytes_used w.page_bytes;
    }
    else w

-- The branch of a page that is in the window.
unfoldable pub promote_hit : ℕ → Bool → ℕ → Window → Window
unfolding pin_frame
promote_hit page_off pin fr w =
    let counted = record w { met = with_met count_hit w.met } in
    if pin && not (w.frame_pinned fr) then pin_frame page_off fr counted else counted

-- The branch of a page that is not; `frame` is the frame allocated.
unfoldable pub promote_miss : (ℕ → ℕ) → ℕ → Bool → ℕ × Window → ℕ × Window
unfolding install pin_frame
promote_miss ssd page_off pin (frame, w) =
    let copied = blit w.arena (frame * w.page_bytes) ssd page_off w.page_bytes in
    let mapped = clear_soft_ttl frame (install page_off frame copied w) in
    let counted = record mapped { met = with_met (count_miss w.page_bytes) w.met } in
    (frame, if pin then pin_frame page_off frame counted else counted)

unfoldable pub promote_page : (ℕ → ℕ) → ℕ → Bool → Window → ℕ × Window
unfolding promote_hit promote_miss
promote_page ssd page_off pin w = elim (lookup page_off w.map) [
  | some fr ↦ (fr, promote_hit page_off pin fr w)
  | none ↦ promote_miss ssd page_off pin (alloc_frame w)
]

unfoldable pub promote_all : (ℕ → ℕ) → Bool → List ℕ → Window → Window
promote_all ssd pin [] w = w
promote_all ssd pin (p ∷ ps) w = promote_all ssd pin ps ((promote_page ssd p pin w).1)

unfoldable pub pin_span : (ℕ → ℕ) → ℕ → ℕ → Window → Window
unfolding promote_all
pin_span ssd off len w = promote_all ssd true (pages_of w.page_bytes off (max len 1)) w

-- pin_vec_ids: `vec` is the offset that the placement gives for an id, `n` its number of ids (0
-- without a header). The metrics passed to it count the pins.
unfoldable pub pin_vec_ids : (ℕ → ℕ) → (ℕ → ℕ) → ℕ → ℕ → List ℕ → Window → ℕ → Window × ℕ
unfolding pin_span
pin_vec_ids ssd vec n packed [] w pins = (w, pins)
pin_vec_ids ssd vec n packed (id ∷ ids) w pins =
    pin_vec_ids ssd vec n packed ids (if leb n id then w else pin_span ssd (vec id) packed w)
      (if leb n id then pins else add64 pins 1)

-- One page of install_host: the part of [off, off + len) on page p.
unfoldable pub install_host_page : (ℕ → ℕ) → ℕ → ℕ → ℕ → Window → Window
unfolding install
install_host_page host off len p w =
    let copy_lo = if ltb p off then off else p in
    let copy_hi = if ltb (off + len) (p + w.page_bytes) then off + len else p + w.page_bytes in
    let count = copy_hi - copy_lo in
    let (frame, v) = alloc_frame w in
    let zeroed = blit v.arena (frame * v.page_bytes) (λ a. 0) 0 v.page_bytes in
    elim (lookup p w.map) [
      | some fr ↦ record w {
        frames = record (w.frames) {
          arena = blit w.arena (fr * w.page_bytes + (copy_lo - p)) host (copy_lo - off) count;
        };
        met = with_met count_hit w.met;
      }
      | none ↦
          install p frame
            (blit zeroed (frame * v.page_bytes + (copy_lo - p)) host (copy_lo - off) count) v
    ]

unfoldable pub install_host_loop : (ℕ → ℕ) → ℕ → ℕ → List ℕ → Window → Window
unfolding install_host_page
install_host_loop host off len [] w = w
install_host_loop host off len (p ∷ ps) w =
    install_host_loop host off len ps (install_host_page host off len p w)

-- The host bytes are none where the pointer is null.
unfoldable pub install_host : ℕ → ℕ → Option (ℕ → ℕ) → Window → Window
unfolding install_host_loop
install_host off len none w = w
install_host off len (some host) w =
    if len == 0 then w else install_host_loop host off len (pages_of w.page_bytes off len) w

unfoldable pub touch_soft_pin : ℕ → ℕ → Window → Window
touch_soft_pin page_off soft_ttl w = elim (lookup page_off w.map) [
  | none ↦ w
  | some fr ↦ if soft_ttl == 0 then w else set_soft_ttl fr soft_ttl w
]

-- Soft-pin the frame of a neighbouring page, if that is in the window.
unfoldable pub soft_pin_page : ℕ → ℕ → Window → Window
soft_pin_page page_off soft_ttl w = elim (lookup page_off w.map) [
  | none ↦ w
  | some fr ↦ set_soft_ttl fr soft_ttl w
]

unfoldable pub soft_pin_around : ℕ → ℕ → Window → Window
unfolding soft_pin_page
soft_pin_around page_off soft_ttl w =
    let before =
      if leb w.page_bytes page_off then soft_pin_page (page_off - w.page_bytes) soft_ttl w else w in
    soft_pin_page (page_off + w.page_bytes) soft_ttl before

-- `soft_ttl && soft_pin_neighbors`
unfoldable pub soft_pin_group : ℕ → ℕ → Window → Window
unfolding soft_pin_around
soft_pin_group page_off soft_ttl w =
    if not (soft_ttl == 0) && w.soft_pin_neighbors then soft_pin_around page_off soft_ttl w else w

-- install_full_page_unlocked on a page that is not in the window.
unfoldable pub install_page_miss : ℕ → (ℕ → ℕ) → ℕ → ℕ × Window → Window
unfolding install soft_pin_group
install_page_miss page_off host_page soft_ttl (frame, w) =
    let copied = blit w.arena (frame * w.page_bytes) host_page 0 w.page_bytes in
    let mapped =
      set_soft_ttl frame soft_ttl (clear_soft_ttl frame (install page_off frame copied w)) in
    let pinned = soft_pin_group page_off soft_ttl mapped in
    record pinned { met = with_met (count_prefetch w.page_bytes) pinned.met }

unfoldable pub install_full_page : ℕ → Option (ℕ → ℕ) → ℕ → Window → Window
unfolding install_page_miss
install_full_page page_off none soft_ttl w = w
install_full_page page_off (some host_page) soft_ttl w = elim (lookup page_off w.map) [
  | some fr ↦ set_soft_ttl fr soft_ttl (record w { met = with_met count_hit w.met })
  | none ↦ install_page_miss page_off host_page soft_ttl (alloc_frame w)
]

unfoldable pub install_full_pages : List (ℕ × Option (ℕ → ℕ)) → ℕ → Window → Window
unfolding install_full_page
install_full_pages [] soft_ttl w = w
install_full_pages ((off, host) ∷ rest) soft_ttl w =
    install_full_pages rest soft_ttl (install_full_page off host soft_ttl w)

-- The second critical section of promote_span: the page is installed unless another thread did.
unfoldable pub span_install : (ℕ → ℕ) → ℕ → Window → Window
unfolding install
span_install ssd p w =
    let (frame, v) = alloc_frame w in
    let copied = blit v.arena (frame * v.page_bytes) ssd p v.page_bytes in
    let mapped = install p frame copied v in
    if has p w.map
    then record w { met = with_met count_hit w.met }
    else record mapped { met = with_met (count_prefetch v.page_bytes) v.met }

abbrev scratch_bytes : ℕ
scratch_bytes = 4096

-- A round of promote_span with no other thread between its two critical sections.
unfoldable pub span_page : (ℕ → ℕ) → ℕ → Window → Window
unfolding span_install
span_page ssd p w =
    if has p w.map
    then record w { met = with_met count_hit w.met }
    else if ltb scratch_bytes w.page_bytes
    then (promote_page ssd p false w).1
    else span_install ssd p w

unfoldable pub span_loop : (ℕ → ℕ) → List ℕ → Window → Window
unfolding span_page
span_loop ssd [] w = w
span_loop ssd (p ∷ ps) w = span_loop ssd ps (span_page ssd p w)

unfoldable pub promote_span : (ℕ → ℕ) → ℕ → ℕ → Window → Window
unfolding span_loop
promote_span ssd off len w = span_loop ssd (pages_of w.page_bytes off (max len 1)) w
