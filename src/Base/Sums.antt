-- ===== src/Base/Sums.antt =====
-- The sum of the first n numbers of an array.
use Prim.Native.Nat.{ℕ, zero, suc, ◌+◌, ◌*◌, ◌<◌, ◌≤◌}
use mathlib.Core.Path.{◌≡◌, refl, ap}
use mathlib.Core.Logic.{inl, inr}
use mathlib.Core.Bool.{true, false}
use native.Mathlib.Omega.{arith}
use cxl_anns_kx.Base.Tests.{◌==◌, eq-or-ne}
use cxl_anns_kx.Base.Dict.{update}

unfoldable pub sum : (ℕ → ℕ) → ℕ → ℕ
sum f zero = 0
sum f (suc n) = sum f n + f n

pub sum-same : (f g : ℕ → ℕ) (n : ℕ) → ((j : ℕ) → j < n → f j ≡ g j) → sum f n ≡ sum g n
unfolding sum
sum-same f g zero h = refl
sum-same f g (suc n) h =
    omega (arith, h n (omega arith), sum-same f g n (λ j lt. h j (omega arith)))

sum-beyond : (f : ℕ → ℕ) (n i v : ℕ) → n ≤ i → sum (update f i v) n ≡ sum f n
unfolding sum
sum-beyond f zero i v h = refl
sum-beyond f (suc n) i v h =
    let other : (n == i) ≡ false = ground arith in
    rw other (omega (arith, sum-beyond f n i v (omega arith)))

-- A write moves the sum by what it changes.
pub sum-update : (f : ℕ → ℕ) (n i v : ℕ) → i < n → sum (update f i v) n + f i ≡ sum f n + v
unfolding sum
sum-update f zero i v h = absurd (omega arith)
sum-update f (suc n) i v h = elim (eq-or-ne n i) [
  | inl same ↦
      let hit : (n == i) ≡ true = ground arith in
      let rest = sum-beyond f n i v (omega arith) in rw (hit, rest) (ground (arith, at_index))
  | inr other ↦ rw other (omega (arith, sum-update f n i v (ground arith)))
]
  where
    at_index : n ≡ i → f n ≡ f i
    at_index e = ap f e

pub sum-le : (f : ℕ → ℕ) (n b : ℕ) → ((j : ℕ) → j < n → f j ≤ b) → sum f n ≤ n * b
unfolding sum
sum-le f zero b h = omega arith
sum-le f (suc n) b h = grind (arith, h n (omega arith), sum-le f n b (λ j lt. h j (omega arith)))
