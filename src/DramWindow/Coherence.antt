-- ===== src/DramWindow/Coherence.antt =====
-- The invariant of the frame table of serving/dram_window.hpp: the map and the keys of the frames
-- agree, and a frame holds the bytes of its page of the SSD.
use cxl_anns_kx.Base.{
  ℕ, ◌+◌, ◌-◌, ◌*◌, ◌≤◌, ◌<◌, ◌≡◌, ◌∙◌, false, Bool-cases, inl, inr, ◌==◌, none, some, arith, leb,
  eq-or-ne,
}
use cxl_anns_kx.Base.Dict.{lookup, insert, update, lookup-insert, lookup-erase}
use cxl_anns_kx.DramWindow.State.{Frames, blit, no_key}
use cxl_anns_kx.DramWindow.State.{unmapped}
use cxl_anns_kx.DramWindow.Promote.{installed}

-- The map sends a page to the frame with its key, and no frame in use is missing from the map.
pub record IsConsistent (f : Frames) : Type 0 where
  pub in_range : (p fr : ℕ) → lookup p f.map ≡ some fr → fr < f.n_frames
  pub keyed : (p fr : ℕ) → lookup p f.map ≡ some fr → f.frame_key fr ≡ p
  pub settled : (p fr : ℕ) → lookup p f.map ≡ some fr → f.frame_filling fr ≡ false
  pub real : (p fr : ℕ) → lookup p f.map ≡ some fr → (p == no_key) ≡ false
  pub mapped :
      (fr : ℕ)
      → fr < f.n_frames
      → f.frame_filling fr ≡ false
      → (f.frame_key fr == no_key) ≡ false
      → lookup (f.frame_key fr) f.map ≡ some fr

-- Each resident page has its bytes in its frame.
abbrev pub IsCoherent : (ℕ → ℕ) → Frames → Type 0
IsCoherent ssd f =
    (p fr k : ℕ)
    → lookup p f.map ≡ some fr
    → k < f.page_bytes
    → f.arena (fr * f.page_bytes + k) ≡ ssd (p + k)

-- A frame that a new page may take.
pub record IsFree (fr : ℕ) (f : Frames) : Type 0 where
  pub low : fr < f.n_frames
  pub idle : f.frame_filling fr ≡ false
  pub lost : (p g : ℕ) → lookup p f.map ≡ some g → (g == fr) ≡ false

-- A page still mapped was mapped before, and is not the page of the frame that was unmapped.
pub lookup-unmapped :
    (i p g : ℕ) (f : Frames)
    → IsConsistent f
    → lookup p (unmapped i f).map ≡ some g
    → (lookup p f.map ≡ some g) × ((p == f.frame_key i) ≡ false)
unfolding unmapped
lookup-unmapped i p g f c h = ground (arith, c.real p g, lookup-erase (f.frame_key i) p f.map)

pub lookup-unmapped_ne :
    (i p g : ℕ) (f : Frames)
    → (p == f.frame_key i) ≡ false
    → lookup p f.map ≡ some g
    → lookup p (unmapped i f).map ≡ some g
unfolding unmapped
lookup-unmapped_ne i p g f ne h = ground (arith, lookup-erase (f.frame_key i) p f.map)

module _ (i : ℕ) (f : Frames) (c : IsConsistent f) (low : i < f.n_frames)
    (idle : f.frame_filling i ≡ false) where
  unmapped_ne : (p g : ℕ) → lookup p (unmapped i f).map ≡ some g → (g == i) ≡ false
  unmapped_ne p g h =
      let (old, ne) = lookup-unmapped i p g f c h in
      elim (eq-or-ne g i) [
        | inl e ↦ let key : f.frame_key i ≡ p = rw e at (c.keyed p g old) in absurd (ground arith)
        | inr e ↦ e
      ]

  distinct :
      (fr : ℕ)
      → fr < f.n_frames
      → f.frame_filling fr ≡ false
      → (f.frame_key fr == no_key) ≡ false
      → (fr == i) ≡ false
      → (f.frame_key fr == f.frame_key i) ≡ false
  distinct fr lt still named ne = elim (eq-or-ne (f.frame_key fr) (f.frame_key i)) [
    | inl same ↦
        let own = c.mapped fr lt still named in
        let other : lookup (f.frame_key fr) f.map ≡ some i =
          rw same (c.mapped i low idle (rw same at named)) in
        absurd (ground arith)
    | inr other ↦ other
  ]

  unmapped-keyed : (p g : ℕ) → lookup p (unmapped i f).map ≡ some g → (unmapped i f).frame_key g ≡ p
  unfolding unmapped
  unmapped-keyed p g h =
      let (old, ne) = lookup-unmapped i p g f c h in
      ground (arith, unmapped_ne p g h, c.keyed p g old)

  unmapped-mapped :
      (fr : ℕ)
      → fr < f.n_frames
      → f.frame_filling fr ≡ false
      → ((unmapped i f).frame_key fr == no_key) ≡ false
      → lookup ((unmapped i f).frame_key fr) (unmapped i f).map ≡ some fr
  unfolding unmapped
  unmapped-mapped fr lt still named = elim (eq-or-ne fr i) [
    | inl e ↦ absurd (ground arith)
    | inr e ↦
        let same : update f.frame_key i no_key fr ≡ f.frame_key fr = ground arith in
        let named' : (f.frame_key fr == no_key) ≡ false = ground arith in
        let own = c.mapped fr lt still named' in
        rw same (lookup-unmapped_ne i (f.frame_key fr) fr f (distinct fr lt still named' e) own)
  ]

  -- Unmapping a frame that is not being filled keeps the table consistent and frees the frame.
  pub unmapped-IsConsistent : IsConsistent (unmapped i f)
  unfolding unmapped
  unmapped-IsConsistent = record {
    in_range = λ p g h. c.in_range p g (lookup-unmapped i p g f c h).0;
    keyed = unmapped-keyed;
    settled = λ p g h. c.settled p g (lookup-unmapped i p g f c h).0;
    real = λ p g h. c.real p g (lookup-unmapped i p g f c h).0;
    mapped = unmapped-mapped;
  }

  pub unmapped-IsFree : IsFree i (unmapped i f)
  unfolding unmapped
  unmapped-IsFree = record { low = low; idle = idle; lost = unmapped_ne }

  pub unmapped-IsCoherent : (ssd : ℕ → ℕ) → IsCoherent ssd f → IsCoherent ssd (unmapped i f)
  unfolding unmapped
  unmapped-IsCoherent ssd h p g k at lt = h p g k (lookup-unmapped i p g f c at).0 lt

pub block_gap : (g h pb : ℕ) → g < h → g * pb + pb ≤ h * pb
block_gap g h pb lt = grind arith

-- A copy into one frame leaves the bytes of the others.
pub blit_other :
    (a src : ℕ → ℕ) (fr g pb from k : ℕ)
    → (g == fr) ≡ false
    → k < pb
    → blit a (fr * pb) src from pb (g * pb + k) ≡ a (g * pb + k)
unfolding blit
blit_other a src fr g pb from k ne lt = elim (Bool-cases (leb fr g)) [
  | inl above ↦ let gap = block_gap fr g pb (ground arith) in ground arith
  | inr below ↦ let gap = block_gap g fr pb (ground arith) in ground arith
]

pub blit_self :
    (a src : ℕ → ℕ) (at from n k : ℕ) → k < n → blit a at src from n (at + k) ≡ src (from + k)
unfolding blit
blit_self a src at from n k lt = let e : at + k - at ≡ k = omega arith in ground (arith, e)

module _ (p i : ℕ) (bytes : ℕ → ℕ) (f : Frames) (c : IsConsistent f) (free : IsFree i f)
    (absent : lookup p f.map ≡ none) (named : (p == no_key) ≡ false) where
  fresh : (fr : ℕ) → lookup (f.frame_key fr) f.map ≡ some fr → (f.frame_key fr == p) ≡ false
  fresh fr own = elim (eq-or-ne (f.frame_key fr) p) [
    | inl e ↦ absurd (ground (arith, rw e at own))
    | inr e ↦ e
  ]

  installed-mapped :
      (fr : ℕ)
      → fr < f.n_frames
      → f.frame_filling fr ≡ false
      → (update f.frame_key i p fr == no_key) ≡ false
      → lookup (update f.frame_key i p fr) (insert p i f.map) ≡ some fr
  installed-mapped fr lt still keyed = elim (eq-or-ne fr i) [
    | inl e ↦
        let same : update f.frame_key i p fr ≡ p = ground arith in
        rw same (ground (arith, lookup-insert p p i f.map))
    | inr e ↦
        let same : update f.frame_key i p fr ≡ f.frame_key fr = ground arith in
        let own = c.mapped fr lt still (ground arith) in
        let new : (f.frame_key fr == p) ≡ false = fresh fr own in
        rw same (ground (arith, lookup-insert p (f.frame_key fr) i f.map))
  ]

  -- Mapping a page that is not resident to a free frame keeps the table consistent.
  pub installed-IsConsistent : IsConsistent (installed p i bytes f)
  unfolding installed
  installed-IsConsistent = record {
    in_range = λ q g h. ground (arith, c.in_range q g, free.low, lookup-insert p q i f.map);
    keyed = λ q g h. ground (arith, c.keyed q g, free.lost q g, lookup-insert p q i f.map);
    settled = λ q g h. ground (arith, c.settled q g, free.idle, lookup-insert p q i f.map);
    real = λ q g h. ground (arith, c.real q g, lookup-insert p q i f.map);
    mapped = installed-mapped;
  }

  -- So does its copy from the SSD keep it coherent.
  pub installed-IsCoherent :
      (ssd : ℕ → ℕ)
      → IsCoherent ssd f
      → ((k : ℕ) → k < f.page_bytes → bytes (i * f.page_bytes + k) ≡ ssd (p + k))
      → ((g k : ℕ)
          → (g == i) ≡ false
          → k < f.page_bytes
          → bytes (g * f.page_bytes + k) ≡ f.arena (g * f.page_bytes + k))
      → IsCoherent ssd (installed p i bytes f)
  unfolding installed
  installed-IsCoherent ssd h here there q g k at lt = elim (eq-or-ne q p) [
    | inl e ↦
        let frame : g ≡ i = ground (arith, lookup-insert p q i f.map) in rw (frame, e) (here k lt)
    | inr e ↦
        let old : lookup q f.map ≡ some g = ground (arith, lookup-insert p q i f.map) in
        there g k (free.lost q g old) lt ∙ h q g k old lt
  ]
