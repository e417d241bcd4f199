-- ===== src/PromotePipe/Slots.antt =====
-- Counting the slots of serving/promote_pipe.hpp that are in use.
use cxl_anns_kx.Base.{
  ℕ, zero, suc, ◌+◌, ◌<◌, ◌≤◌, ◌≡◌, refl, ap, true, false, inl, inr, ◌==◌, if◌then◌else◌, arith,
  eq-or-ne,
}
use cxl_anns_kx.Base.Dict.{update}
use cxl_anns_kx.PromotePipe.{Slot, is_free}

-- The slots below n that are not free.
unfoldable pub in_use : (ℕ → Slot) → ℕ → ℕ
in_use slots zero = 0
in_use slots (suc n) = if is_free (slots n).state then in_use slots n else suc (in_use slots n)

pub in_use_beyond :
    (slots : ℕ → Slot) (n i : ℕ) (s : Slot) → n ≤ i → in_use (update slots i s) n ≡ in_use slots n
unfolding in_use
in_use_beyond slots zero i s h = refl
in_use_beyond slots (suc n) i s h =
    let other : (n == i) ≡ false = ground arith in
    rw other (ground (arith, in_use_beyond slots n i s (omega arith)))

abbrev pub weight : Slot → ℕ
weight s = if is_free s.state then 0 else 1

-- A write to one slot changes the count by that slot.
pub in_use-update :
    (slots : ℕ → Slot) (n i : ℕ) (s : Slot)
    → i < n
    → in_use (update slots i s) n + weight (slots i) ≡ in_use slots n + weight s
unfolding in_use
in_use-update slots zero i s h = absurd (omega arith)
in_use-update slots (suc n) i s h = elim (eq-or-ne n i) [
  | inl e ↦
      let hit : (n == i) ≡ true = ground arith in
      let beyond = in_use_beyond slots n i s (omega arith) in
      let same : is_free (slots n).state ≡ is_free (slots i).state =
        ap (λ k. is_free (slots k).state) e in
      rw (hit, same) (ground (arith, beyond))
  | inr other ↦ rw other (ground (arith, in_use-update slots n i s (ground arith)))
]
