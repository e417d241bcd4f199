-- ===== src/DramWindow/Budgets.antt =====
-- The budgets of serving/dram_window.hpp: hard pins and soft pins stay within their caps.
use cxl_anns_kx.Base.{
  ℕ, ◌≤◌, Bool, true, false, inl, inr, List, [], ◌∷◌, Option, none, some, arith, Option-cases,
}
use cxl_anns_kx.Base.Dict.{lookup}
use cxl_anns_kx.DramWindow.State.{
  Window, SoftPins, soft_cleared, soft_after, set_soft_ttl, clear_soft_ttl, tick_frame, tick_loop,
  tick_soft_pins,
}
use cxl_anns_kx.DramWindow.Frames.{second_pass, first_pass, evict_frame, alloc_frame}
use cxl_anns_kx.DramWindow.Promote.{
  pin_frame, install, promote_hit, promote_miss, promote_page, promote_all,
}

-- Neither pin budget is exceeded.
pub record IsWithin (w : Window) : Type 0 where
  pub hard : w.pin_bytes_used ≤ w.pin_bytes_cap
  pub soft_ok : w.soft_pin_bytes_used ≤ w.soft_pin_bytes_cap

soft_cleared-le :
    (fr : ℕ) (w : Window)
    → w.soft_pin_bytes_used ≤ w.soft_pin_bytes_cap
    → (soft_cleared fr w).soft_pin_bytes_used ≤ (soft_cleared fr w).soft_pin_bytes_cap
unfolding soft_cleared
soft_cleared-le fr w h = ground arith

soft_after-le :
    (fr ttl : ℕ) (w : Window)
    → w.soft_pin_bytes_used ≤ w.soft_pin_bytes_cap
    → (soft_after fr ttl w).soft_pin_bytes_used ≤ (soft_after fr ttl w).soft_pin_bytes_cap
unfolding soft_after
soft_after-le fr ttl w h = ground arith

-- A soft pin is set only within the budget for soft pins.
pub set_soft_ttl-IsWithin :
    (fr ttl : ℕ) (w : Window) → IsWithin w → IsWithin (set_soft_ttl fr ttl w)
unfolding set_soft_ttl
set_soft_ttl-IsWithin fr ttl w h = record {
  hard = h.hard;
  soft_ok = soft_after-le fr ttl w h.soft_ok;
}

second_pass-IsWithin : (r : Option ℕ × ℕ) (w : Window) → IsWithin w → IsWithin (second_pass r w).1
unfolding second_pass clear_soft_ttl
second_pass-IsWithin (none, hand) w h = record { hard = h.hard; soft_ok = h.soft_ok }
second_pass-IsWithin (some i, hand) w h = record {
  hard = h.hard;
  soft_ok = ground (arith, soft_cleared-le i w h.soft_ok);
}

first_pass-IsWithin : (r : Option ℕ × ℕ) (w : Window) → IsWithin w → IsWithin (first_pass r w).1
unfolding first_pass
first_pass-IsWithin (none, hand) w h = second_pass-IsWithin _ w h
first_pass-IsWithin (some i, hand) w h = record { hard = h.hard; soft_ok = h.soft_ok }

alloc_frame-IsWithin : (w : Window) → IsWithin w → IsWithin (alloc_frame w).1
unfolding alloc_frame evict_frame
alloc_frame-IsWithin w h = first_pass-IsWithin _ w h

pin_frame-IsWithin : (p fr : ℕ) (w : Window) → IsWithin w → IsWithin (pin_frame p fr w)
unfolding pin_frame
pin_frame-IsWithin p fr w h = ground arith

promote_hit-IsWithin :
    (p : ℕ) (pin : Bool) (fr : ℕ) (w : Window) → IsWithin w → IsWithin (promote_hit p pin fr w)
unfolding promote_hit pin_frame
promote_hit-IsWithin p pin fr w h = ground arith

promote_miss-IsWithin :
    (ssd : ℕ → ℕ) (p : ℕ) (pin : Bool) (r : ℕ × Window)
    → IsWithin r.1
    → IsWithin (promote_miss ssd p pin r).1
unfolding promote_miss install clear_soft_ttl
promote_miss-IsWithin ssd p true (fr, w) h =
    pin_frame-IsWithin p fr _ (record { hard = h.hard; soft_ok = soft_cleared-le fr _ h.soft_ok })
promote_miss-IsWithin ssd p false (fr, w) h = record {
  hard = h.hard;
  soft_ok = soft_cleared-le fr _ h.soft_ok;
}

promote_page-IsWithin :
    (ssd : ℕ → ℕ) (p : ℕ) (pin : Bool) (w : Window)
    → IsWithin w
    → IsWithin (promote_page ssd p pin w).1
unfolding promote_page
promote_page-IsWithin ssd p pin w h = elim (Option-cases (lookup p w.map)) [
  | inl e ↦
      rw (e, promote_page)
        (promote_miss-IsWithin ssd p pin (alloc_frame w) (alloc_frame-IsWithin w h))
  | inr (fr, e) ↦ rw (e, promote_page) (promote_hit-IsWithin p pin fr w h)
]

-- Promoting any pages, pinned or not, keeps the hard and the soft pins within their budgets.
pub promote_all-IsWithin :
    (ssd : ℕ → ℕ) (pin : Bool) (ps : List ℕ) (w : Window)
    → IsWithin w
    → IsWithin (promote_all ssd pin ps w)
unfolding promote_all
promote_all-IsWithin ssd pin [] w h = h
promote_all-IsWithin ssd pin (p ∷ ps) w h =
    promote_all-IsWithin ssd pin ps _ (promote_page-IsWithin ssd p pin w h)

tick_frame-le :
    (n pb fr : ℕ) (s : SoftPins)
    → s.soft_pin_bytes_used ≤ s.soft_pin_bytes_cap
    → (tick_frame n pb fr s).0.soft_pin_bytes_used ≤ (tick_frame n pb fr s).0.soft_pin_bytes_cap
unfolding tick_frame
tick_frame-le n pb fr s h = ground arith

tick_loop-le :
    (n pb : ℕ) (frs : List ℕ) (s : SoftPins)
    → s.soft_pin_bytes_used ≤ s.soft_pin_bytes_cap
    → (tick_loop n pb frs s).0.soft_pin_bytes_used ≤ (tick_loop n pb frs s).0.soft_pin_bytes_cap
unfolding tick_loop
tick_loop-le n pb [] s h = h
tick_loop-le n pb (fr ∷ frs) s h = tick_loop-le n pb frs _ (tick_frame-le n pb fr s h)

-- Aging the soft pins keeps the hard and the soft pins within their budgets.
pub tick_soft_pins-IsWithin : (w : Window) → IsWithin w → IsWithin (tick_soft_pins w)
unfolding tick_soft_pins
tick_soft_pins-IsWithin w h = record {
  hard = h.hard;
  soft_ok = tick_loop-le w.n_frames w.page_bytes w.soft_pin_frames w.soft h.soft_ok;
}
