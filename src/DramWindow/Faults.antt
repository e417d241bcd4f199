-- ===== src/DramWindow/Faults.antt =====
-- Where serving/dram_window.hpp goes wrong: a promotion with no frame to evict.
use cxl_anns_kx.Base.{ℕ, ◌*◌, ◌+◌, ◌<◌, ◌≡◌, subst, true, false, ◌==◌, none, some, arith}
use cxl_anns_kx.Base.Dict.{lookup, lookup-insert}
use cxl_anns_kx.DramWindow.State.{Window, clear_soft_ttl}
use cxl_anns_kx.DramWindow.Frames.{is_busy, alloc_frame, evict_frame}
use cxl_anns_kx.DramWindow.Frames.Eviction.{evict_frame_full}
use cxl_anns_kx.DramWindow.Promote.{promote_page, promote_miss, install, installed}
use cxl_anns_kx.DramWindow.Coherence.{blit_self}

promote_miss_maps :
    (ssd : ℕ → ℕ) (p q g k : ℕ) (r : ℕ × Window)
    → r.0 ≡ 0
    → lookup q r.1.map ≡ some g
    → (q == p) ≡ false
    → k < r.1.page_bytes
    → (lookup q (promote_miss ssd p false r).1.map ≡ some g)
      × (lookup p (promote_miss ssd p false r).1.map ≡ some 0)
      × ((promote_miss ssd p false r).1.arena (0 * r.1.page_bytes + k) ≡ ssd (p + k))
unfolding promote_miss install installed clear_soft_ttl
promote_miss_maps ssd p q g k (fr, w) e at ne lt = (
  ground (arith, lookup-insert p q fr w.map),
  ground (arith, lookup-insert p p fr w.map),
  rw e (blit_self w.arena ssd (0 * w.page_bytes) p w.page_bytes k lt),
)

-- Where every frame is pinned or being filled and page q is in frame 0, promoting another page
-- p that is not resident maps p to frame 0 too, leaves q mapped there, and puts the bytes of p
-- in it.
pub promote_page_full :
    (ssd : ℕ → ℕ) (p q k : ℕ) (w : Window)
    → 0 < w.n_frames
    → ((i : ℕ) → i < w.n_frames → is_busy w i ≡ true)
    → lookup p w.map ≡ none
    → lookup q w.map ≡ some 0
    → (q == p) ≡ false
    → k < w.page_bytes
    → (lookup q (promote_page ssd p false w).1.map ≡ some 0)
      × (lookup p (promote_page ssd p false w).1.map ≡ some 0)
      × ((promote_page ssd p false w).1.arena (0 * w.page_bytes + k) ≡ ssd (p + k))
unfolding promote_page alloc_frame
promote_page_full ssd p q k w pos busy absent at ne lt =
    let (zeroth, same) = evict_frame_full w pos busy in
    let r : ℕ × Window = evict_frame w in
    let at' : lookup q r.1.map ≡ some 0 = rw same at in
    let size : r.1.page_bytes ≡ w.page_bytes = rw same in
    let (a, b, c) = promote_miss_maps ssd p q 0 k r zeroth at' ne (rw same lt) in
    rw (absent, promote_page)
      (
        a,
        b,
        subst (λ b'. (promote_miss ssd p false (evict_frame w)).1.arena (0 * b' + k) ≡ ssd (p + k))
            size c,
      )
