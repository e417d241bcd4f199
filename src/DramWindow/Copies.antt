-- ===== src/DramWindow/Copies.antt =====
-- The copies of serving/dram_window.hpp return the bytes of the SSD.
use cxl_anns_kx.Base.{
  ℕ, ◌+◌, ◌-◌, ◌*◌, ◌/◌, ◌≤◌, ◌<◌, ◌≡◌, refl, ap, true, false, Bool-cases, inl, inr, ◌==◌, max,
  if◌then◌else◌, ltb, List, [], ◌∷◌, ◌++◌, zero, suc, none, some, arith, Option-cases, min,
  eq-or-ne,
}
use native.Mathlib.Nat.{div-add-mod', le-div_iff_mul-le, div-mul-le_self}
use cxl_anns_kx.Base.Words.{u64_mod, page_floor, page_floor-mod, IsPageSize, IsPageSize-pos}
use cxl_anns_kx.Base.Lists.{contains}
use cxl_anns_kx.Base.Search.{bytes_at}
use cxl_anns_kx.Base.Dict.{lookup, has}
use cxl_anns_kx.DramWindow.State.{Window}
use cxl_anns_kx.DramWindow.Promote.{page_range, pages_of}
use cxl_anns_kx.DramWindow.Reads.{
  all_mapped, is_resident, map_at, copy_loop, copy_out, try_copy_resident,
}
use cxl_anns_kx.DramWindow.Coherence.{IsCoherent}

pub bytes_at_split :
    (m : ℕ → ℕ) (a k n : ℕ) → bytes_at m a k ++ bytes_at m (a + k) n ≡ bytes_at m a (k + n)
unfolding bytes_at
bytes_at_split m a zero n =
    let e : a + 0 ≡ a = omega arith in let f : 0 + n ≡ n = omega arith in rw (e, f)
bytes_at_split m a (suc k) n =
    let e : a + suc k ≡ suc a + k = omega arith in
    let f : suc k + n ≡ suc (k + n) = omega arith in
    rw (e, f) (ap (◌∷◌ (m a)) (bytes_at_split m (suc a) k n))

pub bytes_at_eq :
    (m s : ℕ → ℕ) (a b k : ℕ)
    → ((j : ℕ) → j < k → m (a + j) ≡ s (b + j))
    → bytes_at m a k ≡ bytes_at s b k
unfolding bytes_at
bytes_at_eq m s a b zero h = refl
bytes_at_eq m s a b (suc k) h =
    let e : a + 0 ≡ a = omega arith in
    let f : b + 0 ≡ b = omega arith in
    let first : m a ≡ s b = rw (e, f) at (h 0 (omega arith)) in
    rw first (
      ap (◌∷◌ (s b)) (
        bytes_at_eq m s (suc a) (suc b) k (λ j lt.
          let g : suc a + j ≡ a + suc j = omega arith in
          let i : suc b + j ≡ b + suc j = omega arith in rw (g, i) (h (suc j) (omega arith)))))

pub map_at_hit : (po fr : ℕ) (w : Window) → lookup po w.map ≡ some fr → map_at po w ≡ (fr, w)
unfolding map_at
map_at_hit po fr w e = rw (e, map_at)

pub page_floor_bounds :
    {pb : ℕ} (x : ℕ)
    → IsPageSize pb
    → x < u64_mod
    → (page_floor pb x ≤ x) × (x < page_floor pb x + pb)
page_floor_bounds {pb} x h lt =
    let e = page_floor-mod x h lt in let pos = IsPageSize-pos h in grind arith

-- Every page that [off + copied, off + n) touches is resident.
abbrev pub Covered : ℕ → ℕ → ℕ → Window → Type 0
Covered off copied n w =
    (c : ℕ)
    → copied ≤ c
    → c < n
    → (fr : ℕ) × (lookup (page_floor w.page_bytes (off + c)) w.map ≡ some fr)

module _ (ssd : ℕ → ℕ) (off n : ℕ) (w : Window) (page : IsPageSize w.page_bytes)
    (fits : off + n ≤ u64_mod) (coherent : IsCoherent ssd w.frames) where
  -- One round copies the bytes from `copied` on, up to the end of the page or of the range.
  pub round_bytes :
      (copied fr k : ℕ)
      → copied + k ≤ n
      → 0 < k
      → lookup (page_floor w.page_bytes (off + copied)) w.map ≡ some fr
      → off + copied - page_floor w.page_bytes (off + copied) + k ≤ w.page_bytes
      → bytes_at w.arena
          (fr * w.page_bytes + (off + copied - page_floor w.page_bytes (off + copied)))
          k
        ≡ bytes_at ssd (off + copied) k
  round_bytes copied fr k inside pos at room = bytes_at_eq _ _ _ _ k (λ j lt.
      let po = page_floor w.page_bytes (off + copied) in
      let (low, high) = page_floor_bounds (off + copied) page (omega arith) in
      let e : fr * w.page_bytes + (off + copied - po) + j
          ≡ fr * w.page_bytes + (off + copied - po + j) =
        omega arith in
      let f : off + copied + j ≡ po + (off + copied - po + j) = omega arith in
      rw (e, f) (coherent po fr (off + copied - po + j) at (omega arith)))

  -- Enough fuel, and every page resident: the loop copies the bytes of the SSD, and the window is as
  -- before.
  pub copy_loop_lem :
      (fuel copied : ℕ)
      → n - copied ≤ fuel
      → Covered off copied n w
      → copy_loop fuel off copied n w ≡ (w, bytes_at ssd (off + copied) (n - copied))
  unfolding copy_loop bytes_at
  copy_loop_lem zero copied enough all = let e : n - copied ≡ 0 = omega arith in rw (e, bytes_at)
  copy_loop_lem (suc fuel) copied enough all = elim (Bool-cases (ltb copied n)) [
    | inl more ↦
        let (fr, at) = all copied (omega arith) (ground arith) in
        let po = page_floor w.page_bytes (off + copied) in
        let k = min (n - copied) (w.page_bytes - (off + copied - po)) in
        let lt : copied < n = ground arith in
        let (low, high) = page_floor_bounds (off + copied) page (omega arith) in
        let pos : 0 < k = omega arith in
        let inside : copied + k ≤ n = omega arith in
        let room : off + copied - po + k ≤ w.page_bytes = omega arith in
        let rest = copy_loop_lem fuel (copied + k) (omega arith) (λ c h. all c (omega arith)) in
        let split : k + (n - (copied + k)) ≡ n - copied = omega arith in
        let on : off + copied + k ≡ off + (copied + k) = omega arith in
        let joined = rw (split, on) at (bytes_at_split ssd (off + copied) k (n - (copied + k))) in
        rw (more, map_at_hit po fr w at, rest, round_bytes copied fr k inside pos at room)
          (ap (λ b. (w, b)) joined)
    | inr done ↦ let e : n - copied ≡ 0 = ground arith in rw (done, e, bytes_at)
  ]

pub page_floor-div : {pb : ℕ} (x : ℕ) → IsPageSize pb → x < u64_mod → page_floor pb x ≡ x / pb * pb
page_floor-div {pb} x h lt = omega (arith, page_floor-mod x h lt, div-add-mod' x pb)

div_mono : (x y k : ℕ) → 0 < k → x ≤ y → x / k ≤ y / k
div_mono x y k pos h = (le-div_iff_mul-le pos).1 (omega (arith, div-mul-le_self x k))

pub page_floor_mono :
    {pb : ℕ} (x y : ℕ) → IsPageSize pb → x ≤ y → y < u64_mod → page_floor pb x ≤ page_floor pb y
page_floor_mono {pb} x y h le lt =
    let mono = div_mono x y pb (IsPageSize-pos h) le in
    let scaled : x / pb * pb ≤ y / pb * pb = grind arith in
    omega (arith, page_floor-div x h (omega arith), page_floor-div y h lt)

-- The loop over pages visits each aligned offset up to the last page.
page_range-contains :
    (fuel p last pb j : ℕ)
    → 0 < pb
    → last < fuel + p
    → p + j * pb ≤ last
    → contains (p + j * pb) (page_range fuel p last pb) ≡ true
unfolding page_range contains
page_range-contains zero p last pb j pos enough le = absurd (omega arith)
page_range-contains (suc fuel) p last pb zero pos enough le =
    let e : p + 0 * pb ≡ p = omega arith in rw e (ground arith)
page_range-contains (suc fuel) p last pb (suc j) pos enough le =
    let e : p + suc j * pb ≡ p + pb + j * pb = omega arith in
    rw e
      (ground (arith, page_range-contains fuel (p + pb) last pb j pos (omega arith) (omega arith)))

pub pages_of-contains :
    {pb : ℕ} (off n c : ℕ)
    → IsPageSize pb
    → off + n ≤ u64_mod
    → c < n
    → contains (page_floor pb (off + c)) (pages_of pb off n) ≡ true
unfolding pages_of
pages_of-contains {pb} off n c h fits lt =
    let first = page_floor-div off h (omega arith) in
    let mid = page_floor-div (off + c) h (omega arith) in
    let last = page_floor-div (off + n - 1) h (omega arith) in
    let below = div_mono off (off + c) pb (IsPageSize-pos h) (omega arith) in
    let step : (off + c) / pb ≡ off / pb + ((off + c) / pb - off / pb) = omega arith in
    let j = (off + c) / pb - off / pb in
    let e : page_floor pb (off + c) ≡ page_floor pb off + j * pb =
      omega (arith, mid, first, ap (λ (t : ℕ). t * pb) step) in
    let low = page_floor_mono (off + c) (off + n - 1) h (omega arith) (omega arith) in
    let first_low = page_floor_mono off (off + n - 1) h (omega arith) (omega arith) in
    rw e (
      page_range-contains _ _ (page_floor pb (off + n - 1)) pb j (IsPageSize-pos h) (omega arith)
        (omega arith))

has→lookup : (p : ℕ) (w : Window) → has p w.map ≡ true → (fr : ℕ) × (lookup p w.map ≡ some fr)
has→lookup p w h = elim (Option-cases (lookup p w.map)) [
  | inl e ↦ absurd (ground arith)
  | inr found ↦ found
]

pub all_mapped_at :
    (ps : List ℕ) (p : ℕ) (w : Window)
    → all_mapped ps w ≡ true
    → contains p ps ≡ true
    → (fr : ℕ) × (lookup p w.map ≡ some fr)
unfolding all_mapped contains
all_mapped_at [] p w h at = cc
all_mapped_at (q ∷ ps) p w h at = elim (eq-or-ne p q) [
  | inl e ↦ rw e (has→lookup q w (ground arith))
  | inr e ↦ all_mapped_at ps p w (ground arith) (ground arith)
]

-- What a resident range covers.
pub all_mapped-Covered :
    (off n : ℕ) (w : Window)
    → IsPageSize w.page_bytes
    → off + n ≤ u64_mod
    → all_mapped (pages_of w.page_bytes off n) w ≡ true
    → Covered off 0 n w
all_mapped-Covered off n w h fits all c _ lt =
    all_mapped_at _ _ w all (pages_of-contains off n c h fits lt)

-- For a non-empty range that ends within 2^64, a power of two as the page size and a window
-- whose frames hold the bytes of the SSD, the copy succeeds exactly when every page of the
-- range is resident; it then gives the bytes of the SSD, and it leaves the window as it was.
pub try_copy_resident_lem :
    (ssd : ℕ → ℕ) (off n : ℕ) (w : Window)
    → 0 < n
    → off + n ≤ u64_mod
    → IsPageSize w.page_bytes
    → IsCoherent ssd w.frames
    → try_copy_resident off n w
      ≡ (w, if is_resident off n w then some (bytes_at ssd off n) else none)
unfolding try_copy_resident is_resident copy_out
try_copy_resident_lem ssd off n w pos fits page coherent =
    let e : max n 1 ≡ n = omega arith in
    let nonzero : (n == 0) ≡ false = ground arith in
    elim (Bool-cases (all_mapped (pages_of w.page_bytes off n) w)) [
      | inl all ↦
          let f : off + 0 ≡ off = omega arith in
          let g : n - 0 ≡ n = omega arith in
          let copied =
            rw (f, g) at
              (copy_loop_lem ssd off n w page fits coherent n 0 (omega arith)
                (all_mapped-Covered off n w page fits all)) in
          rw (nonzero, e, all, copied)
      | inr some_absent ↦ rw (nonzero, e, some_absent)
    ]
