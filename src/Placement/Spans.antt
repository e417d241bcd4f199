-- ===== src/Placement/Spans.antt =====
-- Which records serving/placement.hpp finds on a page.
use cxl_anns_kx.Base.{
  ℕ, zero, suc, ◌+◌, ◌-◌, ◌*◌, ◌/◌, ◌<◌, ◌≤◌, ◌≡◌, ◌↔◌, refl, ap, true, false, Bool-cases, inl, inr,
  ◌&&◌, leb, ltb, List, [], ◌∷◌, arith, if◌then◌else◌,
}
use native.Mathlib.Nat.{le-div_iff_mul-le, mod-eq_of_lt, div-mul-le_self}
use cxl_anns_kx.Base.Words.{u32_mod}
use cxl_anns_kx.Base.Lists.{contains}
use cxl_anns_kx.Placement.{Header, id_range, within_page, slots_in_page, last_id, cast32}

contains-id_range :
    (i rounds i0 : ℕ) → contains i (id_range rounds i0) ≡ (leb i0 i && ltb i (i0 + rounds))
unfolding id_range contains
contains-id_range i zero i0 = ground arith
contains-id_range i (suc rounds) i0 = ground (arith, contains-id_range i rounds (suc i0))

contains-within_page :
    (i page_off page_bytes len : ℕ) (off : ℕ → ℕ) (is : List ℕ)
    → contains i (within_page off len page_off page_bytes is)
      ≡ (contains i is && (leb page_off (off i) && leb (off i + len) (page_off + page_bytes)))
unfolding within_page contains
contains-within_page i page_off page_bytes len off [] = refl
contains-within_page i page_off page_bytes len off (j ∷ is) =
    ground (arith, contains-within_page i page_off page_bytes len off is, same)
  where
    same : i ≡ j → off i ≡ off j
    same e = ap off e

div_mono : (x y k : ℕ) → 0 < k → x ≤ y → x / k ≤ y / k
div_mono x y k pos h = (le-div_iff_mul-le pos).1 (omega (arith, div-mul-le_self x k))

ceil_le : (a s i : ℕ) → 0 < s → a ≤ i * s → (a + s - 1) / s ≤ i
ceil_le a s i pos h = grind arith

module _ (n v0 stride page_off page_bytes : ℕ) where
  abbrev first_slot : ℕ
  first_slot = if ltb v0 page_off then cast32 ((page_off - v0 + stride - 1) / stride) else 0

  abbrev last_slot : ℕ
  last_slot = last_id n (cast32 ((page_off + page_bytes - v0) / stride) - 1)

  -- A slot whose record lies on the page is between the first and the last slot of the loop.
  between :
      (i : ℕ)
      → 0 < stride
      → (page_off + page_bytes + stride) / stride < u32_mod
      → i < n
      → page_off ≤ v0 + i * stride
      → v0 + i * stride + stride ≤ page_off + page_bytes
      → (first_slot ≤ i) × (i ≤ last_slot)
  between i pos small lt low high =
      let q1 : cast32 ((page_off - v0 + stride - 1) / stride)
          ≡ (page_off - v0 + stride - 1) / stride =
        mod-eq_of_lt (
          omega (
            arith,
            div_mono (page_off - v0 + stride - 1) (page_off + page_bytes + stride) stride pos
                (omega arith),
          )) in
      let q2 : cast32 ((page_off + page_bytes - v0) / stride)
          ≡ (page_off + page_bytes - v0) / stride =
        mod-eq_of_lt (
          omega (
            arith,
            div_mono (page_off + page_bytes - v0) (page_off + page_bytes + stride) stride pos
                (omega arith),
          )) in
      let from = ceil_le (page_off - v0) stride i pos (omega arith) in
      let room : suc i * stride ≤ page_off + page_bytes - v0 = omega arith in
      let to : suc i ≤ (page_off + page_bytes - v0) / stride = (le-div_iff_mul-le pos).1 room in
      (ground arith, ground arith)

-- With a positive stride, at least one record and counts that fit 32 bits, a page visits
-- exactly the slots below n whose whole record lies on it.
pub slots_in_page_lem :
    (h : Header) (stride page_off page_bytes i : ℕ)
    → 0 < stride
    → 0 < h.n
    → (page_off + page_bytes + stride) / stride < u32_mod
    → (contains i (slots_in_page h stride page_off page_bytes) ≡ true) ↔ (
        (i < h.n)
        × (page_off ≤ h.off_vectors + i * stride)
        × (h.off_vectors + i * stride + stride ≤ page_off + page_bytes))
unfolding slots_in_page
slots_in_page_lem h stride page_off page_bytes i pos some_ids small =
    let v0 = h.off_vectors in
    let i0 = first_slot h.n v0 stride page_off page_bytes in
    let i1 = last_slot h.n v0 stride page_off page_bytes in
    let tested =
      contains-within_page i page_off page_bytes stride (λ j. v0 + j * stride)
        (id_range (suc i1 - i0) i0) in
    let ranged = contains-id_range i (suc i1 - i0) i0 in
    elim (Bool-cases (leb (page_off + page_bytes) v0)) [
      | inl off ↦ rw off (λ e. absurd (ground (arith, no_slot i)), λ e. absurd (ground arith))
      | inr on ↦
          rw (on, tested, ranged)
            (
              λ e. visited i0 i1 (ground arith) e,
              λ e.
                  let (low, high) =
                    between h.n v0 stride page_off page_bytes i pos small e.0 e.1 e.2 in
                  meets i0 i1 low high e.1 e.2,
            )
    ]
  where
    no_slot : (i : ℕ) → contains i [] ≡ false
    no_slot i = unfold contains in refl

    visited :
        (i0 i1 : ℕ)
        → i1 < h.n
        → ((leb i0 i && ltb i (i0 + (suc i1 - i0)))
            && (leb page_off (h.off_vectors + i * stride)
                && leb (h.off_vectors + i * stride + stride) (page_off + page_bytes)))
          ≡ true
        → (i < h.n)
          × (page_off ≤ h.off_vectors + i * stride)
          × (h.off_vectors + i * stride + stride ≤ page_off + page_bytes)
    visited i0 i1 top e = (ground arith, ground arith, ground arith)

    meets :
        (i0 i1 : ℕ)
        → i0 ≤ i
        → i ≤ i1
        → page_off ≤ h.off_vectors + i * stride
        → h.off_vectors + i * stride + stride ≤ page_off + page_bytes
        → ((leb i0 i && ltb i (i0 + (suc i1 - i0)))
            && (leb page_off (h.off_vectors + i * stride)
                && leb (h.off_vectors + i * stride + stride) (page_off + page_bytes)))
          ≡ true
    meets i0 i1 a b c d = ground arith
