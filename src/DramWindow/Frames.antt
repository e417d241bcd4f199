-- ===== src/DramWindow/Frames.antt =====
-- evict_frame_unlocked and alloc_frame_unlocked of serving/dram_window.hpp: a clock over the frames.
pub mod Clock
pub mod Eviction
use cxl_anns_kx.Base.{ℕ, ◌%◌, if◌then◌else◌, ltb, ◌==◌, Bool, ◌||◌, suc, zero, Option, none, some}
use cxl_anns_kx.Base.Words.{add64}
use cxl_anns_kx.Base.Dict.{update, erase}
use cxl_anns_kx.Metrics.{Metrics}
use cxl_anns_kx.DramWindow.State.{Window, no_key, unmapped, with_met, clear_soft_ttl}

-- The frames that neither pass may take.
abbrev pub is_busy : Window → ℕ → Bool
is_busy w i = w.frame_pinned i || w.frame_filling i

-- The frames that the first pass skips.
abbrev pub is_held : Window → ℕ → Bool
is_held w i = is_busy w i || ltb 0 (w.frame_soft_ttl i)

-- A pass of the clock: at most `rounds` frames from `hand` on; the first frame that is not skipped,
-- and the hand after it.
unfoldable pub clock_scan : (ℕ → Bool) → ℕ → ℕ → ℕ → Option ℕ × ℕ
clock_scan skip n zero hand = (none, hand)
clock_scan skip n (suc rounds) hand =
    let rest = clock_scan skip n rounds (add64 hand 1) in
    if skip (hand % n) then rest else (some (hand % n), add64 hand 1)

abbrev count_evict : Metrics → Metrics
count_evict m = record m { evicts = add64 m.evicts 1 }

unfoldable pub unmap_frame : ℕ → Window → Window
unfolding unmapped
unmap_frame i w = record w {
  frames = unmapped i w.frames;
  met = if w.frame_key i == no_key then w.met else with_met count_evict w.met;
}

-- The second pass takes any frame that is not busy; frame 0 if there is none.
unfoldable pub second_pass : Option ℕ × ℕ → Window → ℕ × Window
unfolding unmap_frame
second_pass (none, hand) w = (0, record w { clock_hand = hand })
second_pass (some i, hand) w = (
  i,
  record (unmap_frame i w) {
    clock_hand = hand;
    soft = if w.frame_key i == no_key then w.soft else (clear_soft_ttl i w).soft;
  },
)

unfoldable pub first_pass : Option ℕ × ℕ → Window → ℕ × Window
unfolding second_pass clock_scan unmap_frame
first_pass (none, hand) w = second_pass (clock_scan (is_busy w) w.n_frames w.n_frames hand) w
first_pass (some i, hand) w = (i, record (unmap_frame i w) { clock_hand = hand })

unfoldable pub evict_frame : Window → ℕ × Window
unfolding first_pass clock_scan
evict_frame w = first_pass (clock_scan (is_held w) w.n_frames w.n_frames w.clock_hand) w

unfoldable pub alloc_frame : Window → ℕ × Window
unfolding evict_frame
alloc_frame w = evict_frame w
