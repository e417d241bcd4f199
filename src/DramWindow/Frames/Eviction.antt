-- ===== src/DramWindow/Frames/Eviction.antt =====
-- evict_frame_unlocked of serving/dram_window.hpp: which frame it takes, and what it leaves.
use cxl_anns_kx.Base.{
  ℕ, ◌+◌, ◌*◌, ◌≤◌, ◌<◌, ◌≡◌, refl, Bool, true, false, inl, inr, Option, none, some, arith,
  Option-cases,
}
use cxl_anns_kx.Base.Words.{u64_mod}
use cxl_anns_kx.DramWindow.State.{Window}
use cxl_anns_kx.DramWindow.Frames.{
  is_busy, is_held, clock_scan, second_pass, first_pass, evict_frame,
}
use cxl_anns_kx.DramWindow.State.{unmapped}
use cxl_anns_kx.DramWindow.Frames.Clock.{clock_scan_found, clock_scan_total, clock_scan-hand}

-- What eviction does to the frame table of `w`, with result `r`.
pub record TakesFree (w : Window) (r : ℕ × Window) : Type 0 where
  pub in_range : r.0 < w.n_frames
  pub not_busy : is_busy w r.0 ≡ false
  pub leaves : r.1.frames ≡ unmapped r.0 w.frames

second_pass-TakesFree :
    (w : Window) (hand j : ℕ)
    → j < w.n_frames
    → is_busy w j ≡ false
    → hand + w.n_frames ≤ u64_mod
    → TakesFree w (second_pass (clock_scan (is_busy w) w.n_frames w.n_frames hand) w)
unfolding second_pass
second_pass-TakesFree w hand j lt free fits =
    let (i, h, e, low, ok) = clock_scan_total (is_busy w) w.n_frames hand j lt free fits in
    rw e (record { in_range = low; not_busy = ok; leaves = refl })

first_pass-TakesFree :
    (w : Window) (o : Option ℕ) (h j : ℕ)
    → clock_scan (is_held w) w.n_frames w.n_frames w.clock_hand ≡ (o, h)
    → j < w.n_frames
    → is_busy w j ≡ false
    → w.clock_hand + w.n_frames * 2 < u64_mod
    → TakesFree w (first_pass (o, h) w)
unfolding first_pass
first_pass-TakesFree w (some i) h j e lt free fits =
    let (low, ok) =
      clock_scan_found (is_held w) w.n_frames w.n_frames w.clock_hand i h (omega arith) e in
    record { in_range = low; not_busy = ground arith; leaves = refl }
first_pass-TakesFree w none h j e lt free fits =
    let moved = clock_scan-hand (is_held w) w.n_frames w.n_frames w.clock_hand (omega arith) in
    let at : h ≤ w.clock_hand + w.n_frames = ground (arith, moved) in
    second_pass-TakesFree w h j lt free (omega arith)

-- Where a frame is neither pinned nor being filled and the clock hand is two rounds short of
-- wrapping, eviction takes such a frame, unmaps its page and leaves the rest of the frame table
-- alone.
pub evict_frame-TakesFree :
    (w : Window) (j : ℕ)
    → j < w.n_frames
    → is_busy w j ≡ false
    → w.clock_hand + w.n_frames * 2 < u64_mod
    → TakesFree w (evict_frame w)
unfolding evict_frame
evict_frame-TakesFree w j lt free fits = first_pass-TakesFree w _ _ j refl lt free fits

-- Where a frame is neither pinned, nor being filled, nor soft-pinned, and the clock hand is a
-- round short of wrapping, eviction takes such a frame.
pub evict_frame_spares_soft :
    (w : Window) (j : ℕ)
    → j < w.n_frames
    → is_held w j ≡ false
    → w.clock_hand + w.n_frames ≤ u64_mod
    → is_held w (evict_frame w).0 ≡ false
unfolding evict_frame first_pass
evict_frame_spares_soft w j lt free fits =
    let (i, h, e, low, ok) = clock_scan_total (is_held w) w.n_frames w.clock_hand j lt free fits in
    rw e ok

pass_none :
    (skip : ℕ → Bool) (n hand : ℕ)
    → 0 < n
    → ((i : ℕ) → i < n → skip i ≡ true)
    → (clock_scan skip n n hand).0 ≡ none
pass_none skip n hand pos all = elim (Option-cases (clock_scan skip n n hand).0) [
  | inl e ↦ e
  | inr (i, e) ↦
      let (low, ok) =
        clock_scan_found skip n n hand i (clock_scan skip n n hand).1 pos (ground arith) in
      absurd (ground (arith, all i low))
]

second_pass-none :
    (w : Window) (r : Option ℕ × ℕ)
    → r.0 ≡ none
    → ((second_pass r w).0 ≡ 0) × ((second_pass r w).1.frames ≡ w.frames)
unfolding second_pass
second_pass-none w (none, h) e = (refl, refl)
second_pass-none w (some i, h) e = cc

first_pass-none :
    (w : Window) (r : Option ℕ × ℕ)
    → r.0 ≡ none
    → ((h : ℕ) → (clock_scan (is_busy w) w.n_frames w.n_frames h).0 ≡ none)
    → ((first_pass r w).0 ≡ 0) × ((first_pass r w).1.frames ≡ w.frames)
unfolding first_pass
first_pass-none w (none, h) e all = second_pass-none w _ (all h)
first_pass-none w (some i, h) e all = cc

-- Where every frame is pinned or being filled, eviction returns frame 0, with its page still mapped.
pub evict_frame_full :
    (w : Window)
    → 0 < w.n_frames
    → ((i : ℕ) → i < w.n_frames → is_busy w i ≡ true)
    → ((evict_frame w).0 ≡ 0) × ((evict_frame w).1.frames ≡ w.frames)
unfolding evict_frame
evict_frame_full w pos busy =
    first_pass-none w _
      (pass_none (is_held w) w.n_frames w.clock_hand pos (λ i lt. ground (arith, busy i lt)))
      (λ h. pass_none (is_busy w) w.n_frames h pos busy)
