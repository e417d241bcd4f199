-- ===== src/DramWindow/Flushing.antt =====
-- flush of serving/dram_window.hpp drops the pages that are neither pinned nor being filled.
use cxl_anns_kx.Base.{
  ℕ, ◌+◌, ◌≤◌, ◌<◌, ◌≡◌, ◌↔◌, ap, true, false, Bool-cases, inl, inr, zero, suc, some, arith, ◌==◌,
  eq-or-ne, if◌then◌else◌,
}
use cxl_anns_kx.Base.Dict.{lookup}
use cxl_anns_kx.DramWindow.State.{Window, unmapped, flush_frame, flush_loop, flush}
use cxl_anns_kx.DramWindow.Frames.{is_busy}
use cxl_anns_kx.DramWindow.Coherence.{
  IsConsistent, unmapped-IsConsistent, unmapped-IsCoherent, lookup-unmapped, lookup-unmapped_ne,
}
use cxl_anns_kx.DramWindow.Residency.{IsSound}

-- The frame table after one round of the loop.
flush_frame-frames :
    (i : ℕ) (w : Window)
    → (flush_frame i w).frames ≡ (if is_busy w i then w.frames else unmapped i w.frames)
unfolding flush_frame
flush_frame-frames i w = ground arith

flush_frame-IsSound :
    (ssd : ℕ → ℕ) (i : ℕ) (w : Window)
    → i < w.n_frames
    → IsSound ssd w.frames
    → IsSound ssd (flush_frame i w).frames
flush_frame-IsSound ssd i w low s = elim (Bool-cases (is_busy w i)) [
  | inl busy ↦ rw (flush_frame-frames i w, busy) s
  | inr idle ↦
      rw (flush_frame-frames i w, idle)
        (record {
          consistent = unmapped-IsConsistent i w.frames s.consistent low (ground arith);
          coherent = unmapped-IsCoherent i w.frames s.consistent low (ground arith) ssd s.coherent;
        })
]

flush_frame-n : (i : ℕ) (w : Window) → (flush_frame i w).n_frames ≡ w.n_frames
unfolding flush_frame unmapped
flush_frame-n i w = ground arith

flush_loop-IsSound :
    (ssd : ℕ → ℕ) (rounds i : ℕ) (w : Window)
    → i + rounds ≤ w.n_frames
    → IsSound ssd w.frames
    → IsSound ssd (flush_loop rounds i w).frames
unfolding flush_loop
flush_loop-IsSound ssd zero i w fits s = s
flush_loop-IsSound ssd (suc rounds) i w fits s =
    flush_loop-IsSound ssd rounds (suc i) (flush_frame i w) (omega (arith, flush_frame-n i w))
      (flush_frame-IsSound ssd i w (omega arith) s)

-- Flushing keeps a sound window sound.
pub flush-IsSound : (ssd : ℕ → ℕ) (w : Window) → IsSound ssd w.frames → IsSound ssd (flush w).frames
unfolding flush
flush-IsSound ssd w s = flush_loop-IsSound ssd w.n_frames 0 w (omega arith) s

-- A round leaves the pins, and drops the page of its own frame only.
flush_frame-keeps :
    (i p g : ℕ) (w : Window)
    → IsConsistent w.frames
    → lookup p (flush_frame i w).map ≡ some g
    → (lookup p w.map ≡ some g) × ((g == i) ≡ true → is_busy w g ≡ true)
flush_frame-keeps i p g w c h = elim (Bool-cases (is_busy w i)) [
  | inl busy ↦
      let same : (flush_frame i w).frames ≡ w.frames = rw (flush_frame-frames i w, busy) in
      (rw (← same) h, λ e. ground arith)
  | inr idle ↦
      let same : (flush_frame i w).frames ≡ unmapped i w.frames =
        rw (flush_frame-frames i w, idle) in
      let (old, other) = lookup-unmapped i p g w.frames c (rw (← same) h) in
      (old, λ e. absurd (ground (arith, c.keyed p g old, at_own g e)))
]
  where
    at_own : (g : ℕ) → (g == i) ≡ true → w.frame_key g ≡ w.frame_key i
    at_own g e = ap w.frame_key (ground arith)

flush_frame-busy : (i g : ℕ) (w : Window) → is_busy (flush_frame i w) g ≡ is_busy w g
unfolding flush_frame unmapped
flush_frame-busy i g w = ground arith

flush_frame-pinned :
    (i p g : ℕ) (w : Window)
    → IsConsistent w.frames
    → i < w.n_frames
    → lookup p w.map ≡ some g
    → is_busy w g ≡ true
    → lookup p (flush_frame i w).map ≡ some g
flush_frame-pinned i p g w c low h busy = elim (Bool-cases (is_busy w i)) [
  | inl held ↦
      let same : (flush_frame i w).frames ≡ w.frames = rw (flush_frame-frames i w, held) in
      rw same h
  | inr idle ↦
      let same : (flush_frame i w).frames ≡ unmapped i w.frames =
        rw (flush_frame-frames i w, idle) in
      let other : (g == i) ≡ false = apart g busy idle in
      rw same (lookup-unmapped_ne i p g w.frames (elsewhere idle other) h)
]
  where
    apart : (g : ℕ) → is_busy w g ≡ true → is_busy w i ≡ false → (g == i) ≡ false
    apart g yes' no' = elim (eq-or-ne g i) [
      | inl e ↦ absurd (ground (arith, ap (is_busy w) e))
      | inr e ↦ e
    ]

    elsewhere : is_busy w i ≡ false → (g == i) ≡ false → (p == w.frame_key i) ≡ false
    elsewhere idle other = elim (eq-or-ne p (w.frame_key i)) [
      | inl e ↦
          let own : lookup p w.map ≡ some i =
            rw e (c.mapped i low (ground arith) (rw e at (c.real p g h))) in
          absurd (ground arith)
      | inr e ↦ e
    ]

module _ (ssd : ℕ → ℕ) (p g : ℕ) where
  flush_loop-keeps :
      (rounds i : ℕ) (w : Window)
      → i + rounds ≤ w.n_frames
      → IsSound ssd w.frames
      → lookup p (flush_loop rounds i w).map ≡ some g
      → (lookup p w.map ≡ some g) × (i ≤ g → g < i + rounds → is_busy w g ≡ true)
  unfolding flush_loop
  flush_loop-keeps zero i w fits s h = (h, λ lo hi. absurd (omega arith))
  flush_loop-keeps (suc rounds) i w fits s h =
      let (mid, later) =
        flush_loop-keeps rounds (suc i) (flush_frame i w) (omega (arith, flush_frame-n i w))
          (flush_frame-IsSound ssd i w (omega arith) s) h in
      let (old, own) = flush_frame-keeps i p g w s.consistent mid in
      (
        old,
        λ lo hi. elim (eq-or-ne g i) [
          | inl e ↦ own (ground arith)
          | inr e ↦ rw (← flush_frame-busy i g w) (later (ground arith) (omega arith))
        ],
      )

  flush_loop-pinned :
      (rounds i : ℕ) (w : Window)
      → i + rounds ≤ w.n_frames
      → IsSound ssd w.frames
      → lookup p w.map ≡ some g
      → is_busy w g ≡ true
      → lookup p (flush_loop rounds i w).map ≡ some g
  unfolding flush_loop
  flush_loop-pinned zero i w fits s h busy = h
  flush_loop-pinned (suc rounds) i w fits s h busy =
      flush_loop-pinned rounds (suc i) (flush_frame i w) (omega (arith, flush_frame-n i w))
        (flush_frame-IsSound ssd i w (omega arith) s)
        (flush_frame-pinned i p g w s.consistent (omega arith) h busy) (rw flush_frame-busy busy)

  -- On a sound window, a page is resident after a flush exactly when it was before, in the same
  -- frame, and that frame is pinned or being filled.
  pub lookup-flush :
      (w : Window)
      → IsSound ssd w.frames
      → (lookup p (flush w).map ≡ some g) ↔ ((lookup p w.map ≡ some g) × (is_busy w g ≡ true))
  unfolding flush
  lookup-flush w s = (
    λ h.
        let (old, own) = flush_loop-keeps w.n_frames 0 w (omega arith) s h in
        (old, own (omega arith) (omega (arith, s.consistent.in_range p g old))),
    λ h. flush_loop-pinned w.n_frames 0 w (omega arith) s h.0 h.1,
  )
