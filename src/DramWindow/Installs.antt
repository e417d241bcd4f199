-- ===== src/DramWindow/Installs.antt =====
-- install_full_page and promote_span of serving/dram_window.hpp keep the window sound, and the reads
-- that promote give the bytes of the SSD.
use cxl_anns_kx.Base.{
  ℕ, ◌+◌, ◌-◌, ◌*◌, ◌<◌, ◌≡◌, ◌∙◌, refl, ap, true, false, Bool-cases, inl, inr, ◌==◌, none, some,
  arith, Option-cases, ltb,
}
use cxl_anns_kx.Base.Dict.{lookup, has}
use cxl_anns_kx.DramWindow.State.{
  Frames, Window, no_key, unmapped, set_soft_ttl, clear_soft_ttl, blit,
}
use cxl_anns_kx.DramWindow.Frames.{alloc_frame}
use cxl_anns_kx.DramWindow.Frames.Eviction.{TakesFree}
use cxl_anns_kx.DramWindow.Promote.{
  install, installed, soft_pin_page, soft_pin_group, install_page_miss, install_full_page,
  span_install, span_page,
}
use cxl_anns_kx.DramWindow.Coherence.{
  IsConsistent, IsFree, installed-IsConsistent, installed-IsCoherent, blit_self, blit_other,
  lookup-unmapped,
}
use cxl_anns_kx.DramWindow.Residency.{
  IsSound, HasRoom, evict_free, promote_page-IsPromoted, fresh_copy, fresh_copy-IsSound,
}
use cxl_anns_kx.DramWindow.FillLaws.{evicted}

soft_pin_page-frames : (p t : ℕ) (w : Window) → (soft_pin_page p t w).frames ≡ w.frames
unfolding soft_pin_page set_soft_ttl
soft_pin_page-frames p t w = ground arith

soft_pin_group-frames : (p t : ℕ) (w : Window) → (soft_pin_group p t w).frames ≡ w.frames
unfolding soft_pin_group
soft_pin_group-frames p t w = ground (
  arith,
  soft_pin_page-frames (p - w.page_bytes) t w,
  soft_pin_page-frames (p + w.page_bytes) t w,
  soft_pin_page-frames (p + w.page_bytes) t (soft_pin_page (p - w.page_bytes) t w),
)

-- The host buffer holds the bytes of page p.
abbrev pub IsPageOf : (ℕ → ℕ) → ℕ → ℕ → (ℕ → ℕ) → Type 0
IsPageOf ssd p pb host = (k : ℕ) → k < pb → host k ≡ ssd (p + k)

host_copy-IsSound :
    (ssd host : ℕ → ℕ) (p i : ℕ) (f : Frames)
    → IsSound ssd f
    → IsFree i f
    → lookup p f.map ≡ none
    → (p == no_key) ≡ false
    → IsPageOf ssd p f.page_bytes host
    → IsSound ssd (installed p i (blit f.arena (i * f.page_bytes) host 0 f.page_bytes) f)
host_copy-IsSound ssd host p i f s free absent named same = record {
  consistent = installed-IsConsistent p i _ f s.consistent free absent named;
  coherent =
      installed-IsCoherent p i _ f s.consistent free absent named ssd s.coherent
        (λ k lt.
          blit_self f.arena host (i * f.page_bytes) 0 f.page_bytes k lt
          ∙ ap host (omega arith)
          ∙ same k lt)
        (λ g k ne lt. blit_other f.arena host i g f.page_bytes 0 k ne lt);
}

unmapped_absent :
    (p : ℕ) (w : Window) (r : ℕ × Window)
    → IsConsistent w.frames
    → TakesFree w r
    → lookup p w.map ≡ none
    → lookup p r.1.map ≡ none
unmapped_absent p w (i, v) c t absent = elim (Option-cases (lookup p v.map)) [
  | inl e ↦ e
  | inr (g, e) ↦
      let at : lookup p (unmapped i w.frames).map ≡ some g = rw (← t.leaves) e in
      absurd (ground (arith, lookup-unmapped i p g w.frames c at))
]

install_page_miss-IsSound :
    (ssd host : ℕ → ℕ) (p t : ℕ) (r : ℕ × Window)
    → IsSound ssd r.1.frames
    → IsFree r.0 r.1.frames
    → lookup p r.1.map ≡ none
    → (p == no_key) ≡ false
    → IsPageOf ssd p r.1.page_bytes host
    → IsSound ssd (install_page_miss p host t r).frames
unfolding install_page_miss install set_soft_ttl clear_soft_ttl
install_page_miss-IsSound ssd host p t (i, w) s free absent named same =
    rw soft_pin_group-frames (host_copy-IsSound ssd host p i w.frames s free absent named same)

-- On a sound window with a frame to evict, installing a page that was read from the SSD and is
-- not the key of a free frame keeps the window sound, also where it soft-pins the page and its
-- neighbours.
pub install_full_page-IsSound :
    (ssd host : ℕ → ℕ) (p t : ℕ) (w : Window)
    → IsSound ssd w.frames
    → HasRoom w
    → (p == no_key) ≡ false
    → IsPageOf ssd p w.page_bytes host
    → IsSound ssd (install_full_page p (some host) t w).frames
unfolding install_full_page set_soft_ttl
install_full_page-IsSound ssd host p t w s room named same = elim (Option-cases (lookup p w.map)) [
  | inl e ↦
      let free = evict_free w room in
      let (sound, at) = evicted ssd w (alloc_frame w) s free in
      let size : (alloc_frame w).1.page_bytes ≡ w.page_bytes =
        ap (λ (f : Frames). f.page_bytes) free.leaves ∙ unmapped_size (alloc_frame w).0 w in
      rw (e, install_full_page)
        (install_page_miss-IsSound ssd host p t (alloc_frame w) sound at
          (unmapped_absent p w (alloc_frame w) s.consistent free e) named
          (λ k lt. same k (rw size at lt)))
  | inr (fr, e) ↦ rw (e, install_full_page) s
]
  where
    unmapped_size : (i : ℕ) (w : Window) → (unmapped i w.frames).page_bytes ≡ w.page_bytes
    unmapped_size i w = unfold unmapped in refl

-- On a sound window with a frame to evict, a round of promote_span for a page that is not the
-- key of a free frame keeps the window sound.
pub span_page-IsSound :
    (ssd : ℕ → ℕ) (p : ℕ) (w : Window)
    → IsSound ssd w.frames
    → HasRoom w
    → (p == no_key) ≡ false
    → IsSound ssd (span_page ssd p w).frames
unfolding span_page span_install install
span_page-IsSound ssd p w s room named = elim (Option-cases (lookup p w.map)) [
  | inl e ↦
      let free = evict_free w room in
      let (sound, at) = evicted ssd w (alloc_frame w) s free in
      let absent : has p w.map ≡ false = ground arith in
      elim (Bool-cases (ltb 4096 w.page_bytes)) [
        | inl big ↦ rw (absent, big) (promote_page-IsPromoted ssd p false w s room named).sound
        | inr small ↦
            rw (absent, small)
              (fresh_copy_of ssd p (alloc_frame w).0 (alloc_frame w).1.frames sound at
                (unmapped_absent p w (alloc_frame w) s.consistent free e) named)
      ]
  | inr (fr, e) ↦ let here : has p w.map ≡ true = ground arith in rw here s
]
  where
    fresh_copy_of :
        (ssd : ℕ → ℕ) (p i : ℕ) (f : Frames)
        → IsSound ssd f
        → IsFree i f
        → lookup p f.map ≡ none
        → (p == no_key) ≡ false
        → IsSound ssd (installed p i (blit f.arena (i * f.page_bytes) ssd p f.page_bytes) f)
    fresh_copy_of ssd p i f s free absent named =
        unfold fresh_copy in fresh_copy-IsSound ssd p i f s free absent named
