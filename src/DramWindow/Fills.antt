-- ===== src/DramWindow/Fills.antt =====
-- reserve_fill, commit_fill and abort_fill of serving/dram_window.hpp: a frame is reserved as the
-- destination of a batch read, and becomes resident when the read is committed.
use cxl_anns_kx.Base.{ℕ, ◌*◌, if◌then◌else◌, leb, true, false, not, ◌||◌, Option, none, some}
use cxl_anns_kx.Base.Words.{add64}
use cxl_anns_kx.Base.Dict.{update, insert, has}
use cxl_anns_kx.Metrics.{Metrics}
use cxl_anns_kx.DramWindow.State.{Window, no_key, with_met, set_soft_ttl}
use cxl_anns_kx.DramWindow.Frames.{alloc_frame}

-- The frame `fr` filled from now on, for page `page_off`; its first byte is written.
abbrev pub start_fill : ℕ → ℕ → Window → Window
start_fill page_off fr w = record w {
  frames = record (w.frames) {
    frame_filling = update w.frame_filling fr true;
    frame_key = update w.frame_key fr page_off;
    arena = update w.arena (fr * w.page_bytes) 0;
  };
}

-- The reserved frame; none where the page is already in the window.
unfoldable pub reserve_fill : ℕ → Window → Option ℕ × Window
reserve_fill page_off w =
    let (fr, v) = alloc_frame w in
    if has page_off w.map then (none, w) else (some fr, start_fill page_off fr v)

abbrev pub count_miss : ℕ → Metrics → Metrics
count_miss page_bytes m = record m {
  ssd_misses = add64 m.ssd_misses 1;
  promote_bytes = add64 m.promote_bytes page_bytes;
}

-- `frame_filling[fr] = 0`, with the frame free.
abbrev pub end_fill : ℕ → ℕ → Window → Window
end_fill fr key w = record w {
  frames = record (w.frames) {
    frame_filling = update w.frame_filling fr false;
    frame_key = update w.frame_key fr key;
  };
}

abbrev pub map_filled : ℕ → ℕ → Window → Window
map_filled page_off fr w = record w {
  frames = record (w.frames) {
    frame_filling = update w.frame_filling fr false;
    frame_key = update w.frame_key fr page_off;
    map = insert page_off fr w.map;
  };
}

unfoldable pub commit_fill : ℕ → ℕ → ℕ → Window → Window
commit_fill page_off fr soft_ttl w =
    if leb w.n_frames fr || not (w.frame_filling fr)
    then w
    else if has page_off w.map
    then end_fill fr no_key w
    else record (set_soft_ttl fr soft_ttl (map_filled page_off fr w)) {
      met = with_met (count_miss w.page_bytes) w.met;
    }

unfoldable pub abort_fill : ℕ → Window → Window
abort_fill fr w = if leb w.n_frames fr || not (w.frame_filling fr) then w else end_fill fr no_key w
