-- ===== src/DramWindow/State.antt =====
-- The state of serving/dram_window.hpp. The fields stand in three groups: the frame table, the
-- soft pins, and the rest. An array indexed by frame is a function; `arena` and the SSD image are
-- functions from an offset to its byte. `met` is what met() returns in the calling thread.
-- Offsets and sizes in memory do not wrap, since they point into one mapping; counters do.
use cxl_anns_kx.Base.{
  ℕ, ◌+◌, ◌-◌, ◌*◌, ◌^◌, ◌/◌, if◌then◌else◌, ltb, leb, ◌==◌, Bool, true, false, ◌||◌, ◌&&◌, List,
  [], ◌∷◌, ◌++◌, suc, zero, Option, none, some,
}
use cxl_anns_kx.Base.Words.{add64}
use cxl_anns_kx.Base.Lists.{replicate, length}
use cxl_anns_kx.Base.Dict.{update, erase}
use cxl_anns_kx.Metrics.{Metrics}

-- UINT64_MAX, the key of a free frame.
abbrev pub no_key : ℕ
no_key = 2 ^ 64 - 1

pub record Frames : Type 0 where
  pub page_bytes : ℕ
  pub n_frames : ℕ
  pub map : List (ℕ × ℕ)
  pub frame_key : ℕ → ℕ
  pub frame_pinned : ℕ → Bool
  pub frame_filling : ℕ → Bool
  pub arena : ℕ → ℕ

pub record SoftPins : Type 0 where
  pub frame_soft_ttl : ℕ → ℕ
  pub soft_pin_frames : List ℕ
  pub soft_pin_bytes_used : ℕ
  pub soft_pin_bytes_cap : ℕ

pub record Window : Type 0 where
  pub frames : Frames
  pub open frames use *
  pub soft : SoftPins
  pub open soft use *
  pub capacity : ℕ
  pub soft_pin_neighbors : Bool
  pub met : Option Metrics
  pub pinned_pages : List ℕ
  pub clock_hand : ℕ
  pub pin_bytes_used : ℕ
  pub pin_bytes_cap : ℕ
  pub spill : List (List ℕ)
  pub spill_hand : ℕ

-- `if (met()) f(*met())`
abbrev pub with_met : (Metrics → Metrics) → Option Metrics → Option Metrics
with_met f none = none
with_met f (some m) = some (f m)

-- memcpy(dst + at, src + from, n)
unfoldable pub blit : (ℕ → ℕ) → ℕ → (ℕ → ℕ) → ℕ → ℕ → ℕ → ℕ
blit dst at src from n a = if leb at a && ltb a (at + n) then src (from + (a - at)) else dst a

abbrev default_cap : ℕ → ℕ → ℕ → ℕ
default_cap cap def frac = if cap == 0 then (if ltb def frac then def else frac) else cap

abbrev pub kspill_slots : ℕ
kspill_slots = 16

-- What init leaves behind in a window that had the caps and the arena of `w`.
unfoldable pub init : Window → ℕ → Option Metrics → ℕ → Window
init w dram_bytes m page = record w {
  frames = record {
    page_bytes = page;
    n_frames = dram_bytes / page;
    map = [];
    frame_key = λ i. no_key;
    frame_pinned = λ i. false;
    frame_filling = λ i. false;
    arena = w.arena;
  };
  soft = record {
    frame_soft_ttl = λ i. 0;
    soft_pin_frames = [];
    soft_pin_bytes_used = 0;
    soft_pin_bytes_cap = default_cap w.soft_pin_bytes_cap (256 * 2 ^ 20) (dram_bytes / 4);
  };
  capacity = dram_bytes;
  met = m;
  pinned_pages = [];
  clock_hand = 0;
  pin_bytes_used = 0;
  pin_bytes_cap = default_cap w.pin_bytes_cap (64 * 2 ^ 20) (dram_bytes / 16);
  spill = replicate kspill_slots [];
  spill_hand = 0;
}

-- `soft_pin_bytes_used > page_bytes ? soft_pin_bytes_used - page_bytes : 0`
abbrev pub give_back : ℕ → ℕ → ℕ
give_back used page_bytes = if ltb page_bytes used then used - page_bytes else 0

-- The frame loses its key, and its page leaves the map.
unfoldable pub unmapped : ℕ → Frames → Frames
unmapped i f = record f {
  map = if f.frame_key i == no_key then f.map else erase (f.frame_key i) f.map;
  frame_key = update f.frame_key i no_key;
}

-- One round of the loop of flush.
unfoldable pub flush_frame : ℕ → Window → Window
unfolding unmapped
flush_frame i w = if w.frame_pinned i || w.frame_filling i then w else record w {
  frames = unmapped i w.frames;
  soft =
      if ltb 0 (w.frame_soft_ttl i)
      then record (w.soft) {
        soft_pin_bytes_used = give_back w.soft_pin_bytes_used w.page_bytes;
        frame_soft_ttl = update w.frame_soft_ttl i 0;
      }
      else w.soft;
}

unfoldable pub flush_loop : ℕ → ℕ → Window → Window
flush_loop zero i w = w
flush_loop (suc rounds) i w = flush_loop rounds (suc i) (flush_frame i w)

unfoldable pub flush : Window → Window
unfolding flush_loop flush_frame
flush w =
    let done = flush_loop w.n_frames 0 w in
    record done { soft = record (done.soft) { soft_pin_frames = [] }; clock_hand = 0 }

unfoldable pub flush_all : Window → Window
flush_all w = record w {
  frames = record (w.frames) {
    map = [];
    frame_key = λ i. no_key;
    frame_pinned = λ i. false;
    frame_filling = λ i. false;
  };
  soft = record (w.soft) { frame_soft_ttl = λ i. 0; soft_pin_frames = []; soft_pin_bytes_used = 0 };
  pinned_pages = [];
  pin_bytes_used = 0;
  clock_hand = 0;
}

-- The soft pins after clear_soft_ttl_unlocked.
unfoldable pub soft_cleared : ℕ → Window → SoftPins
soft_cleared fr w =
    if leb w.n_frames fr || w.frame_soft_ttl fr == 0 then w.soft else record (w.soft) {
      frame_soft_ttl = update w.frame_soft_ttl fr 0;
      soft_pin_bytes_used = give_back w.soft_pin_bytes_used w.page_bytes;
    }

unfoldable pub clear_soft_ttl : ℕ → Window → Window
clear_soft_ttl fr w = record w { soft = soft_cleared fr w }

-- The soft pins after set_soft_ttl_unlocked.
unfoldable pub soft_after : ℕ → ℕ → Window → SoftPins
soft_after fr soft_ttl w =
    if leb w.n_frames fr || soft_ttl == 0 || w.frame_pinned fr
    then w.soft
    else if w.frame_soft_ttl fr == 0
    then (if ltb w.soft_pin_bytes_cap (add64 w.soft_pin_bytes_used w.page_bytes)
        then w.soft
        else record (w.soft) {
          soft_pin_bytes_used = add64 w.soft_pin_bytes_used w.page_bytes;
          soft_pin_frames = w.soft_pin_frames ++ fr ∷ [];
          frame_soft_ttl = update w.frame_soft_ttl fr soft_ttl;
        })
    else if ltb (w.frame_soft_ttl fr) soft_ttl
    then record (w.soft) { frame_soft_ttl = update w.frame_soft_ttl fr soft_ttl }
    else w.soft

unfoldable pub set_soft_ttl : ℕ → ℕ → Window → Window
set_soft_ttl fr soft_ttl w = record w { soft = soft_after fr soft_ttl w }

-- One round of the loop of tick_soft_pins: the soft pins after it, and whether `fr` stays listed.
unfoldable pub tick_frame : ℕ → ℕ → ℕ → SoftPins → SoftPins × Bool
tick_frame n page_bytes fr s =
    if leb n fr || s.frame_soft_ttl fr == 0
    then (s, false)
    else if s.frame_soft_ttl fr - 1 == 0
    then (
      record s {
        frame_soft_ttl = update s.frame_soft_ttl fr 0;
        soft_pin_bytes_used = give_back s.soft_pin_bytes_used page_bytes;
      },
      false,
    )
    else (record s { frame_soft_ttl = update s.frame_soft_ttl fr (s.frame_soft_ttl fr - 1) }, true)

-- The loop, and the frames that it keeps listed (the writes at `w`).
unfoldable pub tick_loop : ℕ → ℕ → List ℕ → SoftPins → SoftPins × List ℕ
unfolding tick_frame
tick_loop n page_bytes [] s = (s, [])
tick_loop n page_bytes (fr ∷ frs) s =
    let (t, stays) = tick_frame n page_bytes fr s in
    let (u, kept) = tick_loop n page_bytes frs t in (u, if stays then fr ∷ kept else kept)

unfoldable pub tick_soft_pins : Window → Window
unfolding tick_loop
tick_soft_pins w =
    let (s, kept) = tick_loop w.n_frames w.page_bytes w.soft_pin_frames w.soft in
    record w { soft = record s { soft_pin_frames = kept } }

unfoldable pub resident_bytes : Window → ℕ
resident_bytes w = length w.map * w.page_bytes

unfoldable pub tick_soft_pins_if_pressure : Window → Window
unfolding tick_soft_pins resident_bytes
tick_soft_pins_if_pressure w =
    if leb w.capacity (resident_bytes w + w.page_bytes * 4096) then tick_soft_pins w else w
