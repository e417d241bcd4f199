-- ===== src/Scheduler.antt =====
-- serving/cont_batch.hpp: the decisions of a thread that keeps several queries in flight. A slot
-- number of -1 is `none`; a count of slots below 1 is 0; `st` and `covering` are arrays of n slots.
pub mod Choices
use cxl_anns_kx.Base.{
  ℕ, zero, suc, ◌+◌, ◌*◌, ◌%◌, Bool, true, false, ◌&&◌, ◌||◌, ltb, ◌==◌, if◌then◌else◌, List, [],
  ◌∷◌, ◌++◌, Option, none, some, max,
}
use cxl_anns_kx.Base.Words.{u64_mod}
use cxl_anns_kx.Base.Lists.{contains}
use cxl_anns_kx.Base.Search.{find_slot}

pub data CbSt : Type 0 where
  empty ready wait busy done hold : CbSt

pub data Pipe2Act : Type 0 where
  fill rank wait done pump issue : Pipe2Act

pub record Pipe2Dec : Type 0 where
  pub act : Pipe2Act
  pub slot : Option ℕ

-- The thread number; a negative one sleeps as thread 0 does.
unfoldable pub pipe2_stagger_us : ℕ → ℕ → ℕ
pipe2_stagger_us t stagger_us = if t == 0 || stagger_us == 0 then 0 else stagger_us * t % u64_mod

unfoldable pub issue_qd_ok : ℕ → ℕ → Bool
issue_qd_ok inflight qd = qd == 0 || ltb inflight qd

unfoldable pub effective_issue_qd : ℕ → ℕ → ℕ
effective_issue_qd cli nthreads = if cli == 0 then max nthreads 1 else cli

abbrev pub is_empty : CbSt → Bool
is_empty s = elim s [ CbSt.empty ↦ true | _ ↦ false ]

abbrev pub is_ready : CbSt → Bool
is_ready s = elim s [ CbSt.ready ↦ true | _ ↦ false ]

abbrev pub is_wait : CbSt → Bool
is_wait s = elim s [ CbSt.wait ↦ true | _ ↦ false ]

abbrev pub is_hold : CbSt → Bool
is_hold s = elim s [ CbSt.hold ↦ true | _ ↦ false ]

-- `covering && covering[i]`
abbrev pub covers : Option (ℕ → Bool) → ℕ → Bool
covers none i = false
covers (some c) i = c i

abbrev pub can_rank : (ℕ → CbSt) → Option (ℕ → Bool) → ℕ → Bool
can_rank st covering i = (is_wait (st i) || is_ready (st i)) && covers covering i

-- The first case that has a slot decides.
abbrev pub or_else : Option ℕ → Pipe2Act → Pipe2Dec → Pipe2Dec
or_else none act other = other
or_else (some i) act other = record { act = act; slot = some i }

abbrev pub nothing : Pipe2Dec
nothing = record { act = Pipe2Act.done; slot = none }

-- The slots that a test guarded by `guard` may find.
abbrev pub find_if : Bool → (ℕ → Bool) → ℕ → Option ℕ
find_if guard test n = if guard then find_slot test n 0 else none

unfoldable pub pipe2_decide : (ℕ → CbSt) → Option (ℕ → Bool) → ℕ → Bool → Pipe2Dec
pipe2_decide st covering n has_more =
    or_else (find_if has_more (λ i. is_empty (st i)) n) Pipe2Act.fill (
      or_else (find_slot (can_rank st covering) n 0) Pipe2Act.rank
        (or_else (find_slot (λ i. is_wait (st i) || is_ready (st i)) n 0) Pipe2Act.wait nothing))

unfoldable pub steal_decide : (ℕ → CbSt) → Option (ℕ → Bool) → ℕ → Bool → Bool → Pipe2Dec
steal_decide st covering n has_more qd_ok =
    or_else (find_if qd_ok (λ i. is_hold (st i)) n) Pipe2Act.issue (
      or_else (find_if has_more (λ i. is_empty (st i)) n) Pipe2Act.fill (
        or_else (find_slot (can_rank st covering) n 0) Pipe2Act.rank
          (or_else (find_slot (λ i. is_wait (st i) || is_hold (st i)) n 0) Pipe2Act.pump nothing)))

-- One part of merge_unique_pages: `out` in order, `seen` the set.
unfoldable pub merge_part : List ℕ → List ℕ → List ℕ
merge_part [] out = out
merge_part (p ∷ ps) out = merge_part ps (if contains p out then out else out ++ p ∷ [])

-- A null part is skipped. The set of the pages seen is the set of the pages in `out`.
unfoldable pub merge_parts : List (Option (List ℕ)) → List ℕ → List ℕ
unfolding merge_part
merge_parts [] out = out
merge_parts (none ∷ parts) out = merge_parts parts out
merge_parts (some ps ∷ parts) out = merge_parts parts (merge_part ps out)

unfoldable pub merge_unique_pages : List (Option (List ℕ)) → List ℕ
unfolding merge_parts
merge_unique_pages parts = merge_parts parts []

unfoldable pub pick_ready : (ℕ → CbSt) → ℕ → Option ℕ
unfolding find_slot
pick_ready st n = find_slot (λ i. is_ready (st i)) n 0

-- The slots from `start` on, round the end; `start` is not negative. An index found is k, for slot
-- (start + k) % n.
abbrev pub turn : ℕ → ℕ → Option ℕ → Option ℕ
turn n start none = none
turn n start (some k) = some ((start + k) % n)

unfoldable pub pick_steal : (ℕ → CbSt) → ℕ → ℕ → Option ℕ
pick_steal st n start = elim (find_slot (λ k. is_ready (st ((start + k) % n))) n 0) [
  | some k ↦ some ((start + k) % n)
  | none ↦ turn n start (find_slot (λ k. is_wait (st ((start + k) % n))) n 0)
]
