-- ===== src/Base/Counts.antt =====
-- How many of the first n numbers pass a test.
use Prim.Native.Nat.{ℕ, zero, suc, ◌<◌, ◌≤◌}
use mathlib.Core.Path.{◌≡◌, refl, ap}
use mathlib.Core.Logic.{inl, inr}
use mathlib.Core.Bool.{Bool, true, false}
use native.Mathlib.Omega.{arith}
use cxl_anns_kx.Base.Tests.{◌==◌, if◌then◌else◌, eq-or-ne}
use cxl_anns_kx.Base.Dict.{update}

unfoldable pub taken : (ℕ → Bool) → ℕ → ℕ
taken c zero = 0
taken c (suc n) = if c n then suc (taken c n) else taken c n

pub taken-beyond : (c : ℕ → Bool) (n i : ℕ) → n ≤ i → taken (update c i true) n ≡ taken c n
unfolding taken
taken-beyond c zero i h = refl
taken-beyond c (suc n) i h =
    let other : (n == i) ≡ false = ground arith in
    rw other (ground (arith, taken-beyond c n i (omega arith)))

pub taken-update :
    (c : ℕ → Bool) (n i : ℕ) → i < n → c i ≡ false → taken (update c i true) n ≡ suc (taken c n)
unfolding taken
taken-update c zero i h e = absurd (omega arith)
taken-update c (suc n) i h e = elim (eq-or-ne n i) [
  | inl same ↦
      let hit : (n == i) ≡ true = ground arith in
      let off : c n ≡ false = rw same e in
      rw (hit, off) (ground (arith, taken-beyond c n i (omega arith)))
  | inr other ↦ rw other (ground (arith, taken-update c n i (ground arith) e))
]

pub taken-all : (c : ℕ → Bool) (n : ℕ) → ((j : ℕ) → j < n → c j ≡ true) → taken c n ≡ n
unfolding taken
taken-all c zero h = refl
taken-all c (suc n) h = rw (h n (omega arith)) (ap suc (taken-all c n (λ j lt. h j (omega arith))))

pub taken-le : (c : ℕ → Bool) (n : ℕ) → taken c n ≤ n
unfolding taken
taken-le c zero = omega arith
taken-le c (suc n) = ground (arith, taken-le c n)

pub taken-lt : (c : ℕ → Bool) (n i : ℕ) → i < n → c i ≡ false → taken c n < n
unfolding taken
taken-lt c zero i h e = absurd (omega arith)
taken-lt c (suc n) i h e = elim (eq-or-ne n i) [
  | inl same ↦ let off : c n ≡ false = rw same e in let most = taken-le c n in rw off (omega arith)
  | inr other ↦ let fewer = taken-lt c n i (ground arith) e in ground arith
]

pub taken-same : (c d : ℕ → Bool) (n : ℕ) → ((j : ℕ) → j < n → c j ≡ d j) → taken c n ≡ taken d n
unfolding taken
taken-same c d zero h = refl
taken-same c d (suc n) h =
    let here = h n (omega arith) in
    let later = taken-same c d n (λ j lt. h j (omega arith)) in ground arith
