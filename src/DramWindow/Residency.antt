-- ===== src/DramWindow/Residency.antt =====
-- promote_page_unlocked and the other installs of serving/dram_window.hpp keep the frame table
-- sound: consistent, and with each resident page's bytes in its frame.
use cxl_anns_kx.Base.{
  ℕ, ◌+◌, ◌*◌, ◌<◌, ◌≡◌, sym, subst, Bool, false, inl, inr, ◌==◌, none, some, arith, Option-cases,
}
use cxl_anns_kx.Base.Words.{u64_mod}
use cxl_anns_kx.Base.Dict.{lookup, lookup-insert}
use cxl_anns_kx.DramWindow.State.{Frames, Window, blit, no_key, clear_soft_ttl}
use cxl_anns_kx.DramWindow.Frames.{is_busy, alloc_frame}
use cxl_anns_kx.DramWindow.State.{unmapped}
use cxl_anns_kx.DramWindow.Frames.Eviction.{TakesFree, evict_frame-TakesFree}
use cxl_anns_kx.DramWindow.Promote.{
  installed, install, pin_frame, promote_hit, promote_miss, promote_page,
}
use cxl_anns_kx.DramWindow.Coherence.{
  IsConsistent, IsCoherent, IsFree, unmapped-IsConsistent, unmapped-IsFree, unmapped-IsCoherent,
  installed-IsConsistent, installed-IsCoherent, blit_self, blit_other, lookup-unmapped,
}

pub record IsSound (ssd : ℕ → ℕ) (f : Frames) : Type 0 where
  pub consistent : IsConsistent f
  pub coherent : IsCoherent ssd f

-- Some frame may be evicted, and the clock hand is two rounds short of wrapping.
pub record HasRoom (w : Window) : Type 0 where
  pub spare : ℕ
  pub spare_low : spare < w.n_frames
  pub spare_free : is_busy w spare ≡ false
  pub no_wrap : w.clock_hand + w.n_frames * 2 < u64_mod

abbrev pub repin : (ℕ → Bool) → Frames → Frames
repin pins f = record f { frame_pinned = pins }

pub repin-IsSound :
    (ssd : ℕ → ℕ) (pins : ℕ → Bool) (f : Frames) → IsSound ssd f → IsSound ssd (repin pins f)
repin-IsSound ssd pins f s = record {
  consistent = record {
    in_range = s.consistent.in_range;
    keyed = s.consistent.keyed;
    settled = s.consistent.settled;
    real = s.consistent.real;
    mapped = s.consistent.mapped;
  };
  coherent = s.coherent;
}

promote_hit-frames :
    (p fr : ℕ) (pin : Bool) (w : Window)
    → (promote_hit p pin fr w).frames ≡ repin (promote_hit p pin fr w).frame_pinned w.frames
unfolding promote_hit pin_frame
promote_hit-frames p fr pin w = ground arith

-- A page copied from the SSD into a free frame.
unfoldable pub fresh_copy : (ℕ → ℕ) → ℕ → ℕ → Frames → Frames
fresh_copy ssd p i f = installed p i (blit f.arena (i * f.page_bytes) ssd p f.page_bytes) f

pub fresh_copy-IsSound :
    (ssd : ℕ → ℕ) (p i : ℕ) (f : Frames)
    → IsSound ssd f
    → IsFree i f
    → lookup p f.map ≡ none
    → (p == no_key) ≡ false
    → IsSound ssd (fresh_copy ssd p i f)
unfolding fresh_copy
fresh_copy-IsSound ssd p i f s free absent named = record {
  consistent = installed-IsConsistent p i _ f s.consistent free absent named;
  coherent =
      installed-IsCoherent p i _ f s.consistent free absent named ssd s.coherent
        (λ k lt. blit_self f.arena ssd (i * f.page_bytes) p f.page_bytes k lt)
        (λ g k ne lt. blit_other f.arena ssd i g f.page_bytes p k ne lt);
}

pub lookup-fresh_copy :
    (ssd : ℕ → ℕ) (p i : ℕ) (f : Frames) → lookup p (fresh_copy ssd p i f).map ≡ some i
unfolding fresh_copy installed
lookup-fresh_copy ssd p i f = ground (arith, lookup-insert p p i f.map)

-- The table after an eviction of frame `i`, and after the copy of page `p` to it.
pub evicted-IsSound :
    (ssd : ℕ → ℕ) (p i : ℕ) (f : Frames)
    → IsSound ssd f
    → i < f.n_frames
    → f.frame_filling i ≡ false
    → lookup p f.map ≡ none
    → (p == no_key) ≡ false
    → IsSound ssd (fresh_copy ssd p i (unmapped i f))
unfolding unmapped
evicted-IsSound ssd p i f s low idle absent named =
    fresh_copy-IsSound ssd p i _
      (record {
        consistent = unmapped-IsConsistent i f s.consistent low idle;
        coherent = unmapped-IsCoherent i f s.consistent low idle ssd s.coherent;
      })
      (unmapped-IsFree i f s.consistent low idle) (still_absent) named
  where
    still_absent : lookup p (unmapped i f).map ≡ none
    still_absent = elim (Option-cases (lookup p (unmapped i f).map)) [
      | inl e ↦ e
      | inr (g, e) ↦ absurd (ground (arith, lookup-unmapped i p g f s.consistent e))
    ]

promote_miss-frames :
    (ssd : ℕ → ℕ) (p fr : ℕ) (pin : Bool) (w : Window)
    → (promote_miss ssd p pin (fr, w)).1.frames
      ≡ repin (promote_miss ssd p pin (fr, w)).1.frame_pinned (fresh_copy ssd p fr w.frames)
unfolding promote_miss pin_frame fresh_copy install clear_soft_ttl installed
promote_miss-frames ssd p fr pin w = ground arith

-- What a promotion leaves: a sound table in which the page has the frame that was returned.
pub record IsPromoted (ssd : ℕ → ℕ) (p : ℕ) (r : ℕ × Window) : Type 0 where
  pub sound : IsSound ssd r.1.frames
  pub resident : lookup p r.1.map ≡ some r.0

IsPromoted-of :
    (ssd : ℕ → ℕ) (p : ℕ) (r : ℕ × Window) (f : Frames)
    → r.1.frames ≡ repin r.1.frame_pinned f
    → IsSound ssd f
    → lookup p f.map ≡ some r.0
    → IsPromoted ssd p r
IsPromoted-of ssd p r f same s at = record {
  sound = subst (IsSound ssd) (sym same) (repin-IsSound ssd r.1.frame_pinned f s);
  resident = subst (λ g. lookup p g.map ≡ some r.0) (sym same) at;
}

pub evict_free : (w : Window) → HasRoom w → TakesFree w (alloc_frame w)
unfolding alloc_frame
evict_free w room = evict_frame-TakesFree w room.spare room.spare_low room.spare_free room.no_wrap

promote_miss-IsPromoted :
    (ssd : ℕ → ℕ) (p : ℕ) (pin : Bool) (w : Window) (r : ℕ × Window)
    → IsSound ssd w.frames
    → TakesFree w r
    → lookup p w.map ≡ none
    → (p == no_key) ≡ false
    → IsPromoted ssd p (promote_miss ssd p pin r)
unfolding promote_miss
promote_miss-IsPromoted ssd p pin w (fr, v) s t absent named =
    let idle : w.frame_filling fr ≡ false = ground (arith, t.not_busy) in
    let made : IsSound ssd (fresh_copy ssd p fr v.frames) =
      rw t.leaves (evicted-IsSound ssd p fr w.frames s t.in_range idle absent named) in
    IsPromoted-of ssd p _ _ (promote_miss-frames ssd p fr pin v) made
      (lookup-fresh_copy ssd p fr v.frames)

-- On a sound window with a frame to evict, promoting a page that is not the key of a free frame
-- leaves a sound window in which the page is resident at the frame returned, pinned or not.
pub promote_page-IsPromoted :
    (ssd : ℕ → ℕ) (p : ℕ) (pin : Bool) (w : Window)
    → IsSound ssd w.frames
    → HasRoom w
    → (p == no_key) ≡ false
    → IsPromoted ssd p (promote_page ssd p pin w)
unfolding promote_page
promote_page-IsPromoted ssd p pin w s room named = elim (Option-cases (lookup p w.map)) [
  | inl e ↦
      rw (e, promote_page)
        (promote_miss-IsPromoted ssd p pin w (alloc_frame w) s (evict_free w room) e named)
  | inr (fr, e) ↦ rw (e, promote_page) (IsPromoted-of ssd p _ _ (promote_hit-frames p fr pin w) s e)
]
