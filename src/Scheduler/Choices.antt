-- ===== src/Scheduler/Choices.antt =====
-- What the decisions of serving/cont_batch.hpp promise.
use cxl_anns_kx.Base.{
  ℕ, ◌+◌, ◌%◌, ◌<◌, ◌≡◌, refl, ◌∙◌, Bool, true, false, Bool-cases, inl, inr, ◌&&◌, ◌||◌, ◌⊎◌, List,
  [], ◌∷◌, ◌++◌, Option, none, some, arith,
}
use cxl_anns_kx.Base.Lists.{contains, contains-append, IsDistinct, IsDistinct-append}
use native.Mathlib.Nat.{mod-lt}
use cxl_anns_kx.Base.Search.{find_slot, NoSlot, FirstSlot, OneOf, find_slot-OneOf}
use cxl_anns_kx.Scheduler.{
  CbSt, Pipe2Act, is_empty, is_ready, is_wait, is_hold, can_rank, pipe2_decide, steal_decide,
  or_else, find_if, merge_part, merge_parts, merge_unique_pages, pick_ready, pick_steal, turn,
  nothing,
}

-- The same for a search under a guard.
abbrev Guarded : Bool → (ℕ → Bool) → ℕ → Option ℕ → Type 0
Guarded guard test n none = NoSlot (λ i. guard && test i) n
Guarded guard test n (some i) = (guard ≡ true) × FirstSlot test n i

find_if-Guarded :
    (guard : Bool) (test : ℕ → Bool) (n : ℕ) → Guarded guard test n (find_if guard test n)
find_if-Guarded true test n = guarded (find_slot test n 0) (find_slot-OneOf test n)
  where
    guarded : (o : Option ℕ) → OneOf test n o → Guarded true test n o
    guarded none h = h
    guarded (some i) h = (refl, h)
find_if-Guarded false test n = λ j lt. refl

abbrev pub in_flight : (ℕ → CbSt) → ℕ → Bool
in_flight st i = is_wait (st i) || is_ready (st i)

abbrev pub stalled : (ℕ → CbSt) → ℕ → Bool
stalled st i = is_wait (st i) || is_hold (st i)

module _ (st : ℕ → CbSt) (covering : Option (ℕ → Bool)) (n : ℕ) (has_more : Bool) where
  abbrev NoFill : Type 0
  NoFill = NoSlot (λ i. has_more && is_empty (st i)) n

  -- Fill the first empty slot while there are more queries; else rank the first slot that can be
  -- ranked; else wait for the first query in flight; else there is nothing in flight.
  abbrev pub IsPipe2 : Pipe2Act → Option ℕ → Type 0
  IsPipe2 Pipe2Act.fill (some i) = (has_more ≡ true) × FirstSlot (λ j. is_empty (st j)) n i
  IsPipe2 Pipe2Act.rank (some i) = NoFill × FirstSlot (can_rank st covering) n i
  IsPipe2 Pipe2Act.wait (some i) =
      NoFill × NoSlot (can_rank st covering) n × FirstSlot (in_flight st) n i
  IsPipe2 Pipe2Act.done none = NoFill × NoSlot (in_flight st) n
  IsPipe2 _ _ = ⊥

  IsPipe2-cases :
      (a b c : Option ℕ)
      → Guarded has_more (λ i. is_empty (st i)) n a
      → OneOf (can_rank st covering) n b
      → OneOf (in_flight st) n c
      → let d =
          or_else a Pipe2Act.fill (or_else b Pipe2Act.rank (or_else c Pipe2Act.wait nothing)) in
        IsPipe2 d.act d.slot
  IsPipe2-cases (some i) b c h k l = h
  IsPipe2-cases none (some i) c h k l = (h, k)
  IsPipe2-cases none none (some i) h k l = (h, k, l)
  IsPipe2-cases none none none h k l = (h, l)

  -- The decision of the per-thread interleave, on every branch: fill the first empty slot
  -- while there are more queries; else rank the first slot that can be ranked; else wait for
  -- the first slot in flight; else no slot is in flight.
  pub pipe2_decide_lem :
      IsPipe2 (pipe2_decide st covering n has_more).act (pipe2_decide st covering n has_more).slot
  unfolding pipe2_decide
  pipe2_decide_lem =
      IsPipe2-cases _ _ _ (find_if-Guarded has_more _ n) (find_slot-OneOf (can_rank st covering) n)
        (find_slot-OneOf (in_flight st) n)

  module _ (qd_ok : Bool) where
    abbrev NoIssue : Type 0
    NoIssue = NoSlot (λ i. qd_ok && is_hold (st i)) n

    -- Issue the first held slot while the queue depth allows; else fill; else rank; else pump for
    -- the first slot that waits or is held; else no slot waits or is held, and none can be ranked.
    abbrev pub IsSteal : Pipe2Act → Option ℕ → Type 0
    IsSteal Pipe2Act.issue (some i) = (qd_ok ≡ true) × FirstSlot (λ j. is_hold (st j)) n i
    IsSteal Pipe2Act.fill (some i) =
        NoIssue × (has_more ≡ true) × FirstSlot (λ j. is_empty (st j)) n i
    IsSteal Pipe2Act.rank (some i) = NoIssue × NoFill × FirstSlot (can_rank st covering) n i
    IsSteal Pipe2Act.pump (some i) =
        NoIssue × NoFill × NoSlot (can_rank st covering) n × FirstSlot (stalled st) n i
    IsSteal Pipe2Act.done none = NoFill × NoSlot (can_rank st covering) n × NoSlot (stalled st) n
    IsSteal _ _ = ⊥

    IsSteal-cases :
        (a b c d : Option ℕ)
        → Guarded qd_ok (λ i. is_hold (st i)) n a
        → Guarded has_more (λ i. is_empty (st i)) n b
        → OneOf (can_rank st covering) n c
        → OneOf (stalled st) n d
        → let e =
            or_else a Pipe2Act.issue (
              or_else b Pipe2Act.fill
                (or_else c Pipe2Act.rank (or_else d Pipe2Act.pump nothing))) in
          IsSteal e.act e.slot
    IsSteal-cases (some i) b c d g h k l = g
    IsSteal-cases none (some i) c d g h k l = (g, h.0, h.1)
    IsSteal-cases none none (some i) d g h k l = (g, h, k)
    IsSteal-cases none none none (some i) g h k l = (g, h, k, l)
    IsSteal-cases none none none none g h k l = (h, k, l)

    -- The decision of the dual-queue stepper, on every branch: issue the first held slot
    -- while the queue depth allows; else fill the first empty slot while there are more
    -- queries; else rank the first slot that can be ranked; else pump for the first slot
    -- that waits or is held; else no slot waits, is held or can be ranked.
    pub steal_decide_lem :
        IsSteal
          (steal_decide st covering n has_more qd_ok).act
          (steal_decide st covering n has_more qd_ok).slot
    unfolding steal_decide
    steal_decide_lem =
        IsSteal-cases _ _ _ _ (find_if-Guarded qd_ok _ n) (find_if-Guarded has_more _ n)
          (find_slot-OneOf (can_rank st covering) n) (find_slot-OneOf (stalled st) n)

-- pick_ready takes the first ready slot, and -1 only where none is ready.
pub pick_ready_lem : (st : ℕ → CbSt) (n : ℕ) → OneOf (λ i. is_ready (st i)) n (pick_ready st n)
unfolding pick_ready
pick_ready_lem st n = find_slot-OneOf (λ i. is_ready (st i)) n

merge_part-contains :
    (p : ℕ) (ps out : List ℕ) → contains p (merge_part ps out) ≡ (contains p out || contains p ps)
unfolding merge_part contains
merge_part-contains p [] out = ground arith
merge_part-contains p (q ∷ ps) out = elim (Bool-cases (contains q out)) [
  | inl old ↦ rw (old, merge_part-contains p ps out) (ground (arith, same q old))
  | inr new ↦
      rw (new, merge_part-contains p ps (out ++ q ∷ []), contains-append p out (q ∷ []))
        (ground arith)
]
  where
    same : (q : ℕ) → contains q out ≡ true → p ≡ q → contains p out ≡ true
    same q old e = rw e old

merge_part-IsDistinct : (ps out : List ℕ) → IsDistinct out → IsDistinct (merge_part ps out)
unfolding merge_part
merge_part-IsDistinct [] out h = h
merge_part-IsDistinct (p ∷ ps) out h = elim (Bool-cases (contains p out)) [
  | inl old ↦ rw old (merge_part-IsDistinct ps out h)
  | inr new ↦ rw new (merge_part-IsDistinct ps (out ++ p ∷ []) (IsDistinct-append out p h new))
]

-- Some part has the page.
abbrev pub in_parts : ℕ → List (Option (List ℕ)) → Bool
in_parts p [] = false
in_parts p (none ∷ parts) = in_parts p parts
in_parts p (some ps ∷ parts) = contains p ps || in_parts p parts

merge_parts-contains :
    (p : ℕ) (parts : List (Option (List ℕ))) (out : List ℕ)
    → contains p (merge_parts parts out) ≡ (contains p out || in_parts p parts)
unfolding merge_parts
merge_parts-contains p [] out = ground arith
merge_parts-contains p (none ∷ parts) out = merge_parts-contains p parts out
merge_parts-contains p (some ps ∷ parts) out =
    ground (arith, merge_parts-contains p parts (merge_part ps out), merge_part-contains p ps out)

merge_parts-IsDistinct :
    (parts : List (Option (List ℕ))) (out : List ℕ)
    → IsDistinct out
    → IsDistinct (merge_parts parts out)
unfolding merge_parts
merge_parts-IsDistinct [] out h = h
merge_parts-IsDistinct (none ∷ parts) out h = merge_parts-IsDistinct parts out h
merge_parts-IsDistinct (some ps ∷ parts) out h =
    merge_parts-IsDistinct parts (merge_part ps out) (merge_part-IsDistinct ps out h)

-- The merged pages are those of the parts, each once.
pub merge_unique_pages_lem :
    (parts : List (Option (List ℕ)))
    → IsDistinct (merge_unique_pages parts)
      × ((p : ℕ) → contains p (merge_unique_pages parts) ≡ in_parts p parts)
unfolding merge_unique_pages
merge_unique_pages_lem parts =
    (merge_parts-IsDistinct parts [] tt, λ p. merge_parts-contains p parts [] ∙ ground_nil p parts)
  where
    ground_nil :
        (p : ℕ) (parts : List (Option (List ℕ)))
        → (contains p [] || in_parts p parts) ≡ in_parts p parts
    ground_nil p parts = unfold contains in refl

-- What pick_steal returns: a ready slot, or a waiting one where none is ready, or -1 where the slots
-- neither are ready nor wait. The slots are those met from `start` on.
abbrev pub IsStolen : (ℕ → CbSt) → ℕ → ℕ → Option ℕ → Type 0
IsStolen st n start none =
    NoSlot (λ k. is_ready (st ((start + k) % n))) n × NoSlot (λ k. is_wait (st ((start + k) % n))) n
IsStolen st n start (some i) =
    (i < n)
    × ((is_ready (st i) ≡ true)
        ⊎ ((is_wait (st i) ≡ true) × NoSlot (λ k. is_ready (st ((start + k) % n))) n))

pick_steal_cases :
    (st : ℕ → CbSt) (n start : ℕ) (a b : Option ℕ)
    → 0 < n
    → OneOf (λ k. is_ready (st ((start + k) % n))) n a
    → OneOf (λ k. is_wait (st ((start + k) % n))) n b
    → IsStolen st n start (elim a [ some k ↦ some ((start + k) % n) | none ↦ turn n start b ])
pick_steal_cases st n start (some k) b pos h l = (mod-lt (start + k) pos, inl h.1)
pick_steal_cases st n start none (some k) pos h l = (mod-lt (start + k) pos, inr (l.1, h))
pick_steal_cases st n start none none pos h l = (h, l)

-- With at least one slot, pick_steal returns a ready slot; or a waiting one, where none is
-- ready; or -1, where none is ready and none waits.
pub pick_steal_lem :
    (st : ℕ → CbSt) (n start : ℕ) → 0 < n → IsStolen st n start (pick_steal st n start)
unfolding pick_steal
pick_steal_lem st n start pos =
    pick_steal_cases st n start _ _ pos (find_slot-OneOf (λ k. is_ready (st ((start + k) % n))) n)
      (find_slot-OneOf (λ k. is_wait (st ((start + k) % n))) n)
