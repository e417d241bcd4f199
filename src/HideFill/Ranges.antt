-- ===== src/HideFill/Ranges.antt =====
-- The pages of a range of the SSD, and the reads of HidePipe of serving/hide_fill.hpp on them.
use cxl_anns_kx.Base.{
  ℕ, zero, suc, ◌+◌, ◌-◌, ◌*◌, ◌%◌, ◌/◌, ◌<◌, ◌≤◌, ◌≡◌, ◌∙◌, ap, sym, ltb, ◌==◌, true, false,
  Bool-cases, inl, inr, List, [], ◌∷◌, Option, none, some, Option-cases, arith, eq-or-ne, leb, min,
}
use cxl_anns_kx.Base.Words.{u64_mod, page_floor, page_floor-mod, IsPageSize, IsPageSize-pos}
use cxl_anns_kx.Base.Lists.{contains}
use cxl_anns_kx.Base.Search.{bytes_at}
use cxl_anns_kx.Base.Dict.{lookup}
use cxl_anns_kx.DramWindow.State.{Window}
use cxl_anns_kx.DramWindow.Promote.{page_range, pages_of}
use cxl_anns_kx.DramWindow.Coherence.{IsCoherent}
use cxl_anns_kx.DramWindow.Reads.{is_resident, try_ptr_resident}
use cxl_anns_kx.DramWindow.Copies.{
  round_bytes, bytes_at_split, bytes_at_eq, page_floor_bounds, page_floor-div, pages_of-contains,
  all_mapped_at, page_floor_mono,
}
use cxl_anns_kx.HideFill.{HideScore}
use cxl_anns_kx.HideFill.Pipe.{HidePipe, covers, covers_all}
use cxl_anns_kx.HideFill.Reads.{bounce_loop}
use cxl_anns_kx.HideFill.Hosted.{IsHosted}

-- Each page of the range is one of those named.
abbrev pub Needs : ℕ → ℕ → ℕ → List ℕ → Type 0
Needs pb off vb need = (c : ℕ) → c < vb → contains (page_floor pb (off + c)) need ≡ true

-- What each score relies on: the frames of the window hold the bytes of the SSD, or the host pages do.
abbrev pub IsTrue : HideScore → (ℕ → ℕ) → HidePipe → Type 0
IsTrue HideScore.window ssd h = IsCoherent ssd h.win.frames
IsTrue HideScore.bounce ssd h = IsHosted ssd h
IsTrue HideScore.vmem ssd h = Unit

pub covers_all_at :
    (need : List ℕ) (p : ℕ) (h : HidePipe)
    → covers_all need h ≡ true
    → contains p need ≡ true
    → covers p h ≡ true
unfolding covers_all contains
covers_all_at [] p h all at = absurd (ground arith)
covers_all_at (q ∷ qs) p h all at = elim (eq-or-ne p q) [
  | inl same ↦ rw same (ground arith)
  | inr other ↦ covers_all_at qs p h (ground arith) (ground arith)
]

pub page_floor_idem :
    {pb : ℕ} (x : ℕ)
    → IsPageSize pb
    → x < u64_mod
    → page_floor pb (page_floor pb x) ≡ page_floor pb x
page_floor_idem {pb} x page lt =
    let e : page_floor pb x ≡ x / pb * pb = page_floor-div x page lt in
    let low : x / pb * pb < u64_mod = omega (arith, e, (page_floor_bounds x page lt).0) in
    let pos = IsPageSize-pos page in
    let same : x / pb * pb / pb ≡ x / pb = grind arith in
    rw e (page_floor-div (x / pb * pb) page low ∙ ap (λ (t : ℕ). t * pb) same)

-- Each page of the range that bounce_page finds has the bytes of the SSD.
abbrev pub Hosts : (ℕ → ℕ) → (ℕ → Option (ℕ → ℕ)) → ℕ → ℕ → Type 0
Hosts ssd page_of pb p =
    (base : ℕ → ℕ) × (page_of p ≡ some base) × ((k : ℕ) → k < pb → base k ≡ ssd (p + k))

module _ (ssd : ℕ → ℕ) (page_of : ℕ → Option (ℕ → ℕ)) (pb off vb : ℕ) (page : IsPageSize pb)
    (fits : off + vb ≤ u64_mod)
    (hosted : (c : ℕ) → c < vb → Hosts ssd page_of pb (page_floor pb (off + c))) where
  pub bounce_loop_lem :
      (fuel copied : ℕ)
      → vb - copied ≤ fuel
      → bounce_loop page_of pb fuel off copied vb ≡ some (bytes_at ssd (off + copied) (vb - copied))
  unfolding bounce_loop bytes_at
  bounce_loop_lem zero copied enough = let e : vb - copied ≡ 0 = omega arith in rw (e, bytes_at)
  bounce_loop_lem (suc fuel) copied enough = elim (Bool-cases (ltb copied vb)) [
    | inr done ↦ let e : vb - copied ≡ 0 = ground arith in rw (done, e, bytes_at)
    | inl more ↦
        let (base, at, bytes) = hosted copied (ground arith) in
        let po = page_floor pb (off + copied) in
        let k = min (vb - copied) (pb - (off + copied - po)) in
        let lt : copied < vb = ground arith in
        let (low, high) = page_floor_bounds (off + copied) page (omega arith) in
        let pos : 0 < k = omega arith in
        let rest = bounce_loop_lem fuel (copied + k) (omega arith) in
        let split : k + (vb - (copied + k)) ≡ vb - copied = omega arith in
        let on : off + copied + k ≡ off + (copied + k) = omega arith in
        let joined = rw (split, on) at (bytes_at_split ssd (off + copied) k (vb - (copied + k))) in
        let round : bytes_at base (off + copied - po) k ≡ bytes_at ssd (off + copied) k =
          bytes_at_eq base ssd _ _ k (λ j less.
            let e : off + copied + j ≡ po + (off + copied - po + j) = omega arith in
            rw e (bytes (off + copied - po + j) (omega arith))) in
        rw (more, at, rest, round) (ap some joined)
  ]

pub is_resident_page :
    (p : ℕ) (w : Window)
    → IsPageSize w.page_bytes
    → p < u64_mod
    → page_floor w.page_bytes p ≡ p
    → is_resident p 1 w ≡ true
    → (fr : ℕ) × (lookup p w.map ≡ some fr)
unfolding is_resident
is_resident_page p w page lt same e =
    let zero_on : p + 0 ≡ p = omega arith in
    let there : contains p (pages_of w.page_bytes p 1) ≡ true =
      rw (zero_on, same) at (pages_of-contains p 1 0 page (omega arith) (omega arith)) in
    all_mapped_at (pages_of w.page_bytes p 1) p w e there

-- The pages that a range visits are aligned, and none lies beyond the last.
page_range_lem :
    (fuel q last pb p : ℕ)
    → 0 < pb
    → q % pb ≡ 0
    → contains p (page_range fuel q last pb) ≡ true
    → (q ≤ p) × (p ≤ last) × (p % pb ≡ 0)
unfolding page_range contains
page_range_lem zero q last pb p pos al e = absurd (ground arith)
page_range_lem (suc fuel) q last pb p pos al e = elim (Bool-cases (leb q last)) [
  | inr past ↦ absurd (true≢false (simp past at e))
  | inl inside ↦ elim (eq-or-ne p q) [
    | inl same ↦ (omega arith, ground arith, rw same al)
    | inr other ↦
        let aligned : (q + pb) % pb ≡ 0 = grind arith in
        let (low, high, ok) = page_range_lem fuel (q + pb) last pb p pos aligned (ground arith) in
        (omega arith, high, ok)
  ]
]
  where
    true≢false : false ≡ true → ⊥
    true≢false h = absurd (ground arith)

-- Each page of a range is the page of one of its bytes.
pub pages_of_offset :
    {pb : ℕ} (off n p : ℕ)
    → IsPageSize pb
    → 0 < n
    → off + n ≤ u64_mod
    → contains p (pages_of pb off n) ≡ true
    → (c : ℕ) × (c < n) × (p ≡ page_floor pb (off + c))
unfolding pages_of
pages_of_offset {pb} off n p page pos fits there =
    let first = page_floor pb off in
    let last = page_floor pb (off + n - 1) in
    let pb_pos = IsPageSize-pos page in
    let aligned : first % pb ≡ 0 =
      ap (λ (x : ℕ). x % pb) (page_floor-div off page (omega arith))
      ∙ mul_mod (off / pb) pb pb_pos in
    let (low, high, ok) = page_range_lem _ first last pb p pb_pos aligned there in
    let (below, above) = page_floor_bounds off page (omega arith) in
    let (below', above') = page_floor_bounds (off + n - 1) page (omega arith) in
    let whole : page_floor pb p ≡ p = omega (arith, page_floor-mod p page (omega arith)) in
    elim (Bool-cases (leb off p)) [
      | inl after ↦
          let le : off ≤ p = ground arith in
          let at : off + (p - off) ≡ p = omega arith in
          (p - off, omega arith, sym (ap (page_floor pb) at ∙ whole))
      | inr before ↦
          let lt : p < off = ground arith in
          let e : off + 0 ≡ off = omega arith in
          let mono = page_floor_mono p off page (omega arith) (omega arith) in
          (0, pos, ap (λ (x : ℕ). x) (omega (arith, below, mono, ap (page_floor pb) e)))
    ]
  where
    mul_mod : (m pb : ℕ) → 0 < pb → m * pb % pb ≡ 0
    mul_mod m pb pos = grind arith

-- The pointer that the window gives for a range, where it gives one.
pub try_ptr_lem :
    (ssd : ℕ → ℕ) (off n : ℕ) (w : Window)
    → 0 < n
    → off + n ≤ u64_mod
    → IsPageSize w.page_bytes
    → IsCoherent ssd w.frames
    → off - page_floor w.page_bytes off + n ≤ w.page_bytes
    → (a : ℕ) → try_ptr_resident off n w ≡ some a
    → bytes_at w.arena a n ≡ bytes_at ssd off n
unfolding try_ptr_resident
try_ptr_lem ssd off n w pos fits page coherent room a e =
    let nonzero : (n == 0) ≡ false = ground arith in
    let first = page_floor w.page_bytes off in
    elim (Bool-cases (first == page_floor w.page_bytes (off + n - 1))) [
      | inr apart ↦ absurd (none≢some a (simp (nonzero, apart) at e))
      | inl same ↦ elim (Option-cases (lookup first w.map)) [
        | inl missing ↦ absurd (none≢some a (simp (nonzero, same, missing) at e))
        | inr (fr, at) ↦
            let z : off + 0 ≡ off = omega arith in
            let place : fr * w.page_bytes + (off - first) ≡ a =
              some-inj _ a (simp (nonzero, same, at) at e) in
            let bytes = rw z at (
              round_bytes ssd off n w page fits coherent 0 fr n (omega arith) pos (rw z at)
                (rw z room)) in
            rw (← place) bytes
      ]
    ]
  where
    none≢some : (a : ℕ) → none ≡ some a → ⊥
    none≢some a e = absurd (ground (arith, e))

    some-inj : (a b : ℕ) → some a ≡ some b → a ≡ b
    some-inj a b e = ground (arith, e)
