-- ===== src/Store/Slots.antt =====
-- The map of RecordCache of motivation_exps/include/store.hpp, and the slots that it holds.
use cxl_anns_kx.Base.{
  ℕ, suc, ◌+◌, ◌≡◌, ◌∙◌, refl, ap, sym, if◌then◌else◌, ◌==◌, Bool-cases, inl, inr, List, [], ◌∷◌,
  none, some, arith,
}
use cxl_anns_kx.Base.Lists.{length}
use cxl_anns_kx.Base.Dict.{lookup, insert, erase, lookup-insert, lookup-erase}

abbrev pub is_same : ℕ → ℕ → ℕ
is_same x y = if x == y then 1 else 0

-- How often a slot stands in the map, and in the free list.
unfoldable pub held : ℕ → List (ℕ × ℕ) → ℕ
held x [] = 0
held x ((k, s) ∷ m) = is_same x s + held x m

unfoldable pub spare : ℕ → List ℕ → ℕ
spare x [] = 0
spare x (s ∷ ss) = is_same x s + spare x ss

-- Each key stands once.
unfoldable pub IsMap : List (ℕ × ℕ) → Type 0
IsMap [] = Unit
IsMap ((k, s) ∷ m) = (lookup k m ≡ none) × IsMap m

erase-none : (k : ℕ) (m : List (ℕ × ℕ)) → lookup k m ≡ none → erase k m ≡ m
unfolding lookup erase
erase-none k [] e = refl
erase-none k ((j, s) ∷ m) e = elim (Bool-cases (j == k)) [
  | inl same ↦ absurd (ground (arith, e))
  | inr other ↦ simp other (ap (◌∷◌ (j, s)) (erase-none k m (ground (arith, e))))
]

-- The second map has one entry more, with this slot.
pub record IsLarger (s : ℕ) (m n : List (ℕ × ℕ)) : Type 0 where
  pub size : length n ≡ suc (length m)
  pub counts : (x : ℕ) → held x n ≡ held x m + is_same x s

same_slot : (x s t : ℕ) → s ≡ t → is_same x s ≡ is_same x t
same_slot x s t e = ap (λ y. is_same x y) e

pub IsMap-erase : (k : ℕ) (m : List (ℕ × ℕ)) → IsMap m → IsMap (erase k m)
unfolding erase IsMap
IsMap-erase k [] d = tt
IsMap-erase k ((j, t) ∷ m) d = elim (Bool-cases (j == k)) [
  | inl same ↦ simp same (IsMap-erase k m d.1)
  | inr other ↦ simp other (ground (arith, lookup-erase k j m, d.0), IsMap-erase k m d.1)
]

pub erase-IsLarger :
    (k s : ℕ) (m : List (ℕ × ℕ)) → IsMap m → lookup k m ≡ some s → IsLarger s (erase k m) m
unfolding lookup erase held IsMap
erase-IsLarger k s [] d e = absurd (ground (arith, e))
erase-IsLarger k s ((j, t) ∷ m) d e = elim (Bool-cases (j == k)) [
  | inl same ↦
      let key : j ≡ k = ground arith in
      let gone : lookup k m ≡ none = ap (λ i. lookup i m) (sym key) ∙ d.0 in
      let slot : t ≡ s = ground (arith, e) in
      simp (same, erase-none k m gone)
        (record { size = refl; counts = λ x. omega (arith, same_slot x t s slot) })
  | inr other ↦
      let r = erase-IsLarger k s m d.1 (ground (arith, e)) in
      simp other (record { size = ap suc r.size; counts = λ x. omega (arith, r.counts x) })
]

pub IsMap-insert : (k s : ℕ) (m : List (ℕ × ℕ)) → IsMap m → lookup k m ≡ none → IsMap (insert k s m)
unfolding lookup insert IsMap
IsMap-insert k s [] d e = (refl, tt)
IsMap-insert k s ((j, t) ∷ m) d e = elim (Bool-cases (j == k)) [
  | inl same ↦ absurd (ground (arith, e))
  | inr other ↦
      simp other
        (ground (arith, lookup-insert k j s m, d.0), IsMap-insert k s m d.1 (ground (arith, e)))
]

pub insert-IsLarger : (k s : ℕ) (m : List (ℕ × ℕ)) → lookup k m ≡ none → IsLarger s m (insert k s m)
unfolding lookup insert held
insert-IsLarger k s [] e = record { size = refl; counts = λ x. omega arith }
insert-IsLarger k s ((j, t) ∷ m) e = elim (Bool-cases (j == k)) [
  | inl same ↦ absurd (ground (arith, e))
  | inr other ↦
      let r = insert-IsLarger k s m (ground (arith, e)) in
      simp other (record { size = ap suc r.size; counts = λ x. omega (arith, r.counts x) })
]
