-- ===== src/Base/Search.antt =====
-- The loop that searches the slots of an array, and the bytes of a memory.
use Prim.Native.Nat.{ℕ, zero, suc, ◌+◌, ◌<◌, ◌≤◌}
use mathlib.Core.Path.{◌≡◌}
use mathlib.Core.Logic.{inl, inr}
use mathlib.Core.Bool.{Bool, true, false}
use mathlib.Core.List.{List, [], ◌∷◌}
use mathlib.Core.Option.{Option, none, some}
use native.Mathlib.Omega.{arith}
use cxl_anns_kx.Base.Tests.{if◌then◌else◌, Bool-cases, eq-or-ne}

-- for (i = first; i < n; ++i) if (test(i)) return i, with n - first rounds.
unfoldable pub find_slot : (ℕ → Bool) → ℕ → ℕ → Option ℕ
find_slot test zero i = none
find_slot test (suc rounds) i =
    let rest = find_slot test rounds (suc i) in if test i then some i else rest

-- A search finds the first slot that passes the test, or none where none passes.
abbrev IsFirst : (ℕ → Bool) → ℕ → ℕ → Option ℕ → Type 0
IsFirst test i n none = (j : ℕ) → i ≤ j → j < n → test j ≡ false
IsFirst test i n (some k) =
    (i ≤ k) × (k < n) × (test k ≡ true) × ((j : ℕ) → i ≤ j → j < k → test j ≡ false)

find_slot-IsFirst :
    (test : ℕ → Bool) (rounds i n : ℕ) → i + rounds ≡ n → IsFirst test i n (find_slot test rounds i)
unfolding find_slot
find_slot-IsFirst test zero i n e = λ j lo hi. absurd (omega arith)
find_slot-IsFirst test (suc rounds) i n e = elim (Bool-cases (test i)) [
  | inl t ↦ rw t (omega arith, omega arith, t, λ j lo hi. absurd (omega arith))
  | inr f ↦ rw f (
      later (find_slot test rounds (suc i)) f
        (find_slot-IsFirst test rounds (suc i) n (omega arith)))
]
  where
    head : (j : ℕ) → test i ≡ false → i ≤ j → (suc i ≤ j → test j ≡ false) → test j ≡ false
    head j f lo rest = elim (eq-or-ne i j) [
      | inl same ↦ rw (← same) f
      | inr other ↦ rest (ground arith)
    ]

    later : (o : Option ℕ) → test i ≡ false → IsFirst test (suc i) n o → IsFirst test i n o
    later none f h = λ j lo hi. head j f lo (λ lo'. h j lo' hi)
    later (some k) f h = (omega arith, h.1, h.2, λ j lo hi. head j f lo (λ lo'. h.3 j lo' hi))

-- No slot passes the test.
abbrev pub NoSlot : (ℕ → Bool) → ℕ → Type 0
NoSlot test n = (j : ℕ) → j < n → test j ≡ false

-- Slot i passes the test, and is the first that does.
abbrev pub FirstSlot : (ℕ → Bool) → ℕ → ℕ → Type 0
FirstSlot test n i = (i < n) × (test i ≡ true) × ((j : ℕ) → j < i → test j ≡ false)

abbrev pub OneOf : (ℕ → Bool) → ℕ → Option ℕ → Type 0
OneOf test n none = NoSlot test n
OneOf test n (some i) = FirstSlot test n i

IsFirst→OneOf : (test : ℕ → Bool) (n : ℕ) (o : Option ℕ) → IsFirst test 0 n o → OneOf test n o
IsFirst→OneOf test n none h = λ j lt. h j (omega arith) lt
IsFirst→OneOf test n (some i) h = (h.1, h.2, λ j lt. h.3 j (omega arith) lt)

pub find_slot-OneOf : (test : ℕ → Bool) (n : ℕ) → OneOf test n (find_slot test n 0)
find_slot-OneOf test n = IsFirst→OneOf test n _ (find_slot-IsFirst test n 0 n (omega arith))

-- The n bytes of a memory from an address on.
unfoldable pub bytes_at : (ℕ → ℕ) → ℕ → ℕ → List ℕ
bytes_at mem a zero = []
bytes_at mem a (suc n) = mem a ∷ bytes_at mem (suc a) n
