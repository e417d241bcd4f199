-- ===== src/DramWindow/FillLaws.antt =====
-- reserve_fill, commit_fill and abort_fill of serving/dram_window.hpp keep the window sound, and a
-- page that is being filled is not resident until it is committed.
use cxl_anns_kx.Base.{
  ℕ, ◌+◌, ◌*◌, ◌<◌, ◌≡◌, ◌∙◌, refl, true, false, Bool-cases, inl, inr, ◌==◌, none, some, arith,
  Option-cases, eq-or-ne, leb, not, ◌||◌,
}
use cxl_anns_kx.Base.Dict.{lookup, has, update, insert, lookup-insert}
use cxl_anns_kx.DramWindow.State.{Window, no_key, set_soft_ttl}
use cxl_anns_kx.DramWindow.Frames.{alloc_frame}
use cxl_anns_kx.DramWindow.Frames.Eviction.{TakesFree}
use cxl_anns_kx.DramWindow.Fills.{
  start_fill, end_fill, map_filled, reserve_fill, commit_fill, abort_fill,
}
use cxl_anns_kx.DramWindow.Coherence.{
  IsCoherent, IsFree, unmapped-IsConsistent, unmapped-IsFree, unmapped-IsCoherent, block_gap,
}
use cxl_anns_kx.DramWindow.Residency.{IsSound, HasRoom, evict_free}

other_block : (fr g pb k : ℕ) → (g == fr) ≡ false → k < pb → (g * pb + k == fr * pb) ≡ false
other_block fr g pb k ne lt = elim (Bool-cases (leb fr g)) [
  | inl above ↦ let gap = block_gap fr g pb (ground arith) in ground arith
  | inr below ↦ let gap = block_gap g fr pb (ground arith) in ground arith
]

start_fill-IsSound :
    (ssd : ℕ → ℕ) (p i : ℕ) (w : Window)
    → IsSound ssd w.frames
    → IsFree i w.frames
    → IsSound ssd (start_fill p i w).frames
start_fill-IsSound ssd p i w s free = record {
  consistent = record {
    in_range = s.consistent.in_range;
    keyed = λ q g h. ground (arith, s.consistent.keyed q g h, free.lost q g h);
    settled = λ q g h. ground (arith, s.consistent.settled q g h, free.lost q g h);
    real = s.consistent.real;
    mapped = λ fr lt still named. elim (eq-or-ne fr i) [
      | inl e ↦ absurd (ground arith)
      | inr e ↦
          let same : update w.frame_key i p fr ≡ w.frame_key fr = ground arith in
          rw same (s.consistent.mapped fr lt (ground arith) (ground arith))
    ];
  };
  coherent = λ q g k h lt.
      let apart = other_block i g w.page_bytes k (free.lost q g h) lt in
      let same : (start_fill p i w).arena (g * w.page_bytes + k) ≡ w.arena (g * w.page_bytes + k) =
        ground arith in
      same ∙ s.coherent q g k h lt;
}

end_fill-IsSound :
    (ssd : ℕ → ℕ) (i : ℕ) (w : Window)
    → IsSound ssd w.frames
    → w.frame_filling i ≡ true
    → IsSound ssd (end_fill i no_key w).frames
end_fill-IsSound ssd i w s filling = record {
  consistent = record {
    in_range = s.consistent.in_range;
    keyed = λ q g h. ground (arith, s.consistent.keyed q g h, apart q g h);
    settled = λ q g h. ground (arith, s.consistent.settled q g h);
    real = s.consistent.real;
    mapped = λ fr lt still named. elim (eq-or-ne fr i) [
      | inl e ↦ absurd (ground arith)
      | inr e ↦
          let same : update w.frame_key i no_key fr ≡ w.frame_key fr = ground arith in
          rw same (s.consistent.mapped fr lt (ground arith) (ground arith))
    ];
  };
  coherent = s.coherent;
}
  where
    apart : (q g : ℕ) → lookup q w.map ≡ some g → (g == i) ≡ false
    apart q g h = elim (eq-or-ne g i) [
      | inl e ↦
          let same = rw (← e) at filling in absurd (ground (arith, s.consistent.settled q g h))
      | inr e ↦ e
    ]

-- The read has put the bytes of page p into frame i.
abbrev pub IsFilled : (ℕ → ℕ) → ℕ → ℕ → Window → Type 0
IsFilled ssd p i w = (k : ℕ) → k < w.page_bytes → w.arena (i * w.page_bytes + k) ≡ ssd (p + k)

-- The table after an eviction is sound, and the frame is free.
pub evicted :
    (ssd : ℕ → ℕ) (w : Window) (r : ℕ × Window)
    → IsSound ssd w.frames
    → TakesFree w r
    → IsSound ssd r.1.frames × IsFree r.0 r.1.frames
evicted ssd w (i, v) s t =
    let idle : w.frame_filling i ≡ false = ground (arith, t.not_busy) in
    rw t.leaves (
      record {
        consistent = unmapped-IsConsistent i w.frames s.consistent t.in_range idle;
        coherent = unmapped-IsCoherent i w.frames s.consistent t.in_range idle ssd s.coherent;
      },
      unmapped-IsFree i w.frames s.consistent t.in_range idle,
    )

-- On a sound window with a frame to evict, reserving a fill leaves the window sound.
pub reserve_fill-IsSound :
    (ssd : ℕ → ℕ) (p : ℕ) (w : Window)
    → IsSound ssd w.frames
    → HasRoom w
    → IsSound ssd (reserve_fill p w).1.frames
unfolding reserve_fill
reserve_fill-IsSound ssd p w s room = elim (Bool-cases (has p w.map)) [
  | inl old ↦ rw old s
  | inr new ↦
      let (sound, free) = evicted ssd w (alloc_frame w) s (evict_free w room) in
      rw new (start_fill-IsSound ssd p (alloc_frame w).0 (alloc_frame w).1 sound free)
]

-- On a sound window with a frame to evict, reserving a fill for a page that is not resident
-- returns a frame of the window; it is marked as being filled and has the page as its key.
pub reserve_fill_takes :
    (ssd : ℕ → ℕ) (p : ℕ) (w : Window)
    → IsSound ssd w.frames
    → HasRoom w
    → has p w.map ≡ false
    → (i : ℕ) × ((reserve_fill p w).0 ≡ some i)
      × (i < (reserve_fill p w).1.n_frames)
      × ((reserve_fill p w).1.frame_filling i ≡ true)
      × ((reserve_fill p w).1.frame_key i ≡ p)
unfolding reserve_fill
reserve_fill_takes ssd p w s room new =
    let (sound, free) = evicted ssd w (alloc_frame w) s (evict_free w room) in
    rw new ((alloc_frame w).0, refl, free.low, ground arith, ground arith)

map_filled-IsSound :
    (ssd : ℕ → ℕ) (p i : ℕ) (w : Window)
    → IsSound ssd w.frames
    → i < w.n_frames
    → w.frame_filling i ≡ true
    → lookup p w.map ≡ none
    → (p == no_key) ≡ false
    → IsFilled ssd p i w
    → IsSound ssd (map_filled p i w).frames
map_filled-IsSound ssd p i w s low filling absent named filled = record {
  consistent = record {
    in_range = λ q g h. ground (arith, s.consistent.in_range q g, lookup-insert p q i w.map);
    keyed = λ q g h. ground (arith, s.consistent.keyed q g, apart q g, lookup-insert p q i w.map);
    settled = λ q g h. ground (arith, s.consistent.settled q g, lookup-insert p q i w.map);
    real = λ q g h. ground (arith, s.consistent.real q g, lookup-insert p q i w.map);
    mapped = mapped;
  };
  coherent = coherent;
}
  where
    apart : (q g : ℕ) → lookup q w.map ≡ some g → (g == i) ≡ false
    apart q g h = elim (eq-or-ne g i) [
      | inl e ↦
          let same = rw (← e) at filling in absurd (ground (arith, s.consistent.settled q g h))
      | inr e ↦ e
    ]

    fresh : (fr : ℕ) → lookup (w.frame_key fr) w.map ≡ some fr → (w.frame_key fr == p) ≡ false
    fresh fr own = elim (eq-or-ne (w.frame_key fr) p) [
      | inl e ↦ absurd (ground (arith, rw e at own))
      | inr e ↦ e
    ]

    mapped :
        (fr : ℕ)
        → fr < w.n_frames
        → update w.frame_filling i false fr ≡ false
        → (update w.frame_key i p fr == no_key) ≡ false
        → lookup (update w.frame_key i p fr) (insert p i w.map) ≡ some fr
    mapped fr lt still keyed = elim (eq-or-ne fr i) [
      | inl e ↦
          let same : update w.frame_key i p fr ≡ p = ground arith in
          rw same (ground (arith, lookup-insert p p i w.map))
      | inr e ↦
          let same : update w.frame_key i p fr ≡ w.frame_key fr = ground arith in
          let own = s.consistent.mapped fr lt (ground arith) (ground arith) in
          let new : (w.frame_key fr == p) ≡ false = fresh fr own in
          rw same (ground (arith, lookup-insert p (w.frame_key fr) i w.map))
    ]

    coherent : IsCoherent ssd (map_filled p i w).frames
    coherent q g k h lt = elim (eq-or-ne q p) [
      | inl e ↦
          let frame : g ≡ i = ground (arith, lookup-insert p q i w.map) in
          rw (frame, e) (filled k lt)
      | inr e ↦
          let old : lookup q w.map ≡ some g = ground (arith, lookup-insert p q i w.map) in
          s.coherent q g k old lt
    ]

-- Committing a fill of a page that is not the key of a free frame and whose bytes have been
-- read keeps a sound window sound, whether the frame is still being filled or not, and whether
-- the page has become resident in the meantime or not.
pub commit_fill-IsSound :
    (ssd : ℕ → ℕ) (p i ttl : ℕ) (w : Window)
    → IsSound ssd w.frames
    → (p == no_key) ≡ false
    → IsFilled ssd p i w
    → IsSound ssd (commit_fill p i ttl w).frames
unfolding commit_fill set_soft_ttl
commit_fill-IsSound ssd p i ttl w s named filled =
    elim (Bool-cases (leb w.n_frames i || not (w.frame_filling i))) [
      | inl off ↦ rw off s
      | inr on ↦ elim (Option-cases (lookup p w.map)) [
        | inl e ↦
            let new : has p w.map ≡ false = ground arith in
            rw (on, new)
              (map_filled-IsSound ssd p i w s (ground arith) (ground arith) e named filled)
        | inr (g, e) ↦
            let old : has p w.map ≡ true = ground arith in
            rw (on, old) (end_fill-IsSound ssd i w s (ground arith))
      ]
    ]

-- After the commit of a frame that is being filled its page is resident: in that frame if it
-- was not resident before, and where it was otherwise.
pub lookup-commit_fill :
    (p i ttl : ℕ) (w : Window)
    → i < w.n_frames
    → w.frame_filling i ≡ true
    → lookup p (commit_fill p i ttl w).map
      ≡ (elim (lookup p w.map) [ none ↦ some i | some g ↦ some g ])
unfolding commit_fill set_soft_ttl
lookup-commit_fill p i ttl w low filling = ground (arith, lookup-insert p p i w.map)

-- Aborting a fill keeps the window sound.
pub abort_fill-IsSound :
    (ssd : ℕ → ℕ) (i : ℕ) (w : Window) → IsSound ssd w.frames → IsSound ssd (abort_fill i w).frames
unfolding abort_fill
abort_fill-IsSound ssd i w s = elim (Bool-cases (leb w.n_frames i || not (w.frame_filling i))) [
  | inl off ↦ rw off s
  | inr on ↦ rw on (end_fill-IsSound ssd i w s (ground arith))
]
