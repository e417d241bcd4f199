-- ===== src/DramWindow/Frames/Clock.antt =====
-- The clock of serving/dram_window.hpp: what a pass finds.
use cxl_anns_kx.Base.{
  ℕ, ◌+◌, ◌-◌, ◌%◌, ◌≤◌, ◌<◌, ◌≡◌, sym, ap, leb, Bool, true, false, Bool-cases, inl, inr, zero, suc,
  none, some, arith, Option-cases,
}
use mathlib.Core.Path.{◌∙◌}
use native.Mathlib.Nat.{mod-lt, mod-add-mod, mod-eq_of_lt, add-mod_right}
use cxl_anns_kx.Base.Words.{add64, add64_small, u64_mod}
use cxl_anns_kx.DramWindow.Frames.{clock_scan}

module _ (skip : ℕ → Bool) (n : ℕ) where
  -- The frame that a pass takes is one of the frames, and is not skipped.
  pub clock_scan_found :
      (rounds hand i h : ℕ)
      → 0 < n
      → clock_scan skip n rounds hand ≡ (some i, h)
      → (i < n) × (skip i ≡ false)
  unfolding clock_scan
  clock_scan_found zero hand i h pos e = absurd (ground arith)
  clock_scan_found (suc rounds) hand i h pos e = elim (Bool-cases (skip (hand % n))) [
    | inl s ↦ clock_scan_found rounds (add64 hand 1) i h pos (ground arith)
    | inr s ↦ ground arith
  ]

  -- A pass that finds nothing has skipped each frame that it met.
  clock_scan-none :
      (rounds hand t : ℕ)
      → t < rounds
      → hand + rounds ≤ u64_mod
      → (clock_scan skip n rounds hand).0 ≡ none
      → skip ((hand + t) % n) ≡ true
  unfolding clock_scan
  clock_scan-none zero hand t lt fits e = absurd (omega arith)
  clock_scan-none (suc rounds) hand zero lt fits e =
      let first : hand + 0 ≡ hand = omega arith in rw first (ground arith)
  clock_scan-none (suc rounds) hand (suc t) lt fits e =
      let next : add64 hand 1 ≡ hand + 1 = add64_small hand 1 (omega arith) in
      let moved : add64 hand 1 + t ≡ hand + suc t = omega arith in
      let later : (clock_scan skip n rounds (add64 hand 1)).0 ≡ none
          → skip ((hand + suc t) % n) ≡ true =
        λ e'.
          rw moved at (clock_scan-none rounds (add64 hand 1) t (omega arith) (omega arith) e') in
      elim (Bool-cases (skip (hand % n))) [
        | inl s ↦ later (ground arith)
        | inr s ↦ absurd (ground arith)
      ]

  -- A pass of n rounds meets each frame.
  meets : (hand i : ℕ) → i < n → (t : ℕ) × (t < n) × ((hand + t) % n ≡ i)
  meets hand i lt =
      let below : hand % n < n = mod-lt hand (omega arith) in
      elim (Bool-cases (leb (hand % n) i)) [
        | inl s ↦
            let at : hand % n + (i - hand % n) ≡ i = ground arith in
            (
              i - hand % n,
              omega arith,
              sym (mod-add-mod hand n (i - hand % n)) ∙ ap (λ x. x % n) at ∙ mod-eq_of_lt lt,
            )
        | inr s ↦
            let at : hand % n + (i + n - hand % n) ≡ i + n = ground arith in
            (
              i + n - hand % n,
              ground arith,
              sym (mod-add-mod hand n (i + n - hand % n))
                  ∙ ap (λ x. x % n) at
                  ∙ add-mod_right i n
                  ∙ mod-eq_of_lt lt,
            )
      ]

  -- Where some frame need not be skipped, a pass of n rounds takes one.
  pub clock_scan_total :
      (hand j : ℕ)
      → j < n
      → skip j ≡ false
      → hand + n ≤ u64_mod
      → (i : ℕ) × (h : ℕ) × (clock_scan skip n n hand ≡ (some i, h)) × (i < n) × (skip i ≡ false)
  clock_scan_total hand j lt free fits = elim (Option-cases (clock_scan skip n n hand).0) [
    | inl e ↦
        let (t, below, at) = meets hand j lt in
        let met : skip j ≡ true = rw at at (clock_scan-none n hand t below fits e) in
        absurd (ground arith)
    | inr (i, e) ↦
        let found : clock_scan skip n n hand ≡ (some i, (clock_scan skip n n hand).1) =
          ground arith in
        let (low, ok) = clock_scan_found n hand i _ (omega arith) found in
        (i, (clock_scan skip n n hand).1, found, low, ok)
  ]

  -- The hand moves on by at most the rounds made.
  pub clock_scan-hand :
      (rounds hand : ℕ)
      → hand + rounds ≤ u64_mod - 1
      → (clock_scan skip n rounds hand).1 ≤ hand + rounds
  unfolding clock_scan
  clock_scan-hand zero hand fits = omega arith
  clock_scan-hand (suc rounds) hand fits =
      let next : add64 hand 1 ≡ hand + 1 = add64_small hand 1 (omega arith) in
      ground (arith, clock_scan-hand rounds (add64 hand 1) (omega arith))
