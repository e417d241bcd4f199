-- ===== src/PromotePipe/Runs.antt =====
-- The invariant of serving/promote_pipe.hpp, and what each operation makes of it.
use cxl_anns_kx.Base.{
  ℕ, zero, suc, ◌+◌, ◌<◌, ◌≡◌, refl, ap, Bool, true, false, Bool-cases, inl, inr, ◌==◌, ◌||◌, ◌&&◌,
  not, List, [], ◌∷◌, ◌++◌, Option, none, some, Option-cases, arith, eq-or-ne, leb,
}
use cxl_anns_kx.Base.Lists.{contains, contains-append, IsDistinct, IsDistinct-append}
use cxl_anns_kx.Base.Dict.{update}
use cxl_anns_kx.Base.Search.{find_slot, FirstSlot, OneOf, find_slot-OneOf}
use cxl_anns_kx.PromotePipe.{
  St, Slot, Pipe, is_free, is_done, start, enqueue, try_submit, release, take_job, drop_job, finish,
  copied,
}
use cxl_anns_kx.PromotePipe.Slots.{in_use, in_use-update}

abbrev pub is_queued : St → Bool
is_queued s = elim s [ St.queued ↦ true | _ ↦ false ]

-- The jobs that are queued or with a worker.
abbrev pub has_job : ℕ → Pipe → Bool
has_job i p = contains i p.job_q || contains i p.taken

pub record Inv (ssd : ℕ → ℕ) (p : Pipe) : Type 0 where
  pub counted : p.inflight ≡ in_use p.slots p.width
  pub low : (i : ℕ) → has_job i p ≡ true → i < p.width
  pub owned : (i : ℕ) → i < p.width → is_queued (p.slots i).state ≡ has_job i p
  pub distinct_q : IsDistinct p.job_q
  pub distinct_t : IsDistinct p.taken
  pub apart : (i : ℕ) → contains i p.job_q ≡ true → contains i p.taken ≡ false
  pub filled :
      (i : ℕ)
      → i < p.width
      → is_done (p.slots i).state ≡ true
      → (p.slots i).host ≡ copied ssd (p.slots i)

enqueue-Inv :
    (ssd : ℕ → ℕ) (id ptr len i : ℕ) (p : Pipe)
    → i < p.width
    → is_free (p.slots i).state ≡ true
    → Inv ssd p
    → Inv ssd (enqueue id ptr len i p)
unfolding enqueue
enqueue-Inv ssd id ptr len i p lt free v =
    let idle : has_job i p ≡ false = ground (arith, v.owned i lt) in
    record {
      counted = ground (
        arith,
        v.counted,
        in_use-update p.slots p.width i
            (record (p.slots i) { state = St.queued; id = id; ssd_ptr = some ptr; len = len }) lt,
      );
      low = λ j h. ground (arith, v.low j, contains-append j p.job_q (i ∷ []), single j);
      owned = λ j lt'.
          ground (arith, v.owned j lt', contains-append j p.job_q (i ∷ []), single j, same j);
      distinct_q = IsDistinct-append p.job_q i v.distinct_q (ground arith);
      distinct_t = v.distinct_t;
      apart =
          λ j h. ground (arith, v.apart j, contains-append j p.job_q (i ∷ []), single j, same j);
      filled = λ j lt' d. elim (eq-or-ne j i) [
        | inl e ↦ absurd (ground arith)
        | inr e ↦ rw e (v.filled j lt' (ground arith))
      ];
    }
  where
    single : (j : ℕ) → contains j (i ∷ []) ≡ (j == i)
    single j = unfold contains in ground arith

    same : (j : ℕ) → j ≡ i → has_job j p ≡ has_job i p
    same j e = ap (λ k. has_job k p) e

pub take_job-cases :
    (ssd : ℕ → ℕ) (p : Pipe) (js : List ℕ) → p.job_q ≡ js → Inv ssd p → Inv ssd (take_job p)
unfolding take_job
take_job-cases ssd p [] e v = rw (e, take_job) v
take_job-cases ssd p (i ∷ rest) e v =
    rw (e, take_job)
      (record {
        counted = v.counted;
        low = λ j h. ground (arith, v.low j, moved j);
        owned = λ j lt. ground (arith, v.owned j lt, moved j);
        distinct_q = queue.1;
        distinct_t = (ground (arith, v.apart i, head_in i), v.distinct_t);
        apart = λ j h. ground (arith, v.apart j, queue.0, head_in j, tail_in j, same j);
        filled = v.filled;
      })
  where
    queue : IsDistinct (i ∷ rest)
    queue = rw e at v.distinct_q

    head_in : (j : ℕ) → contains j p.job_q ≡ (j == i || contains j rest)
    head_in j = rw e (unfold contains in refl)

    tail_in : (j : ℕ) → contains j (i ∷ p.taken) ≡ (j == i || contains j p.taken)
    tail_in j = unfold contains in refl

    same : (j : ℕ) → j ≡ i → contains j rest ≡ contains i rest
    same j f = ap (λ k. contains k rest) f

    moved : (j : ℕ) → (contains j rest || contains j (i ∷ p.taken)) ≡ has_job j p
    moved j = ground (arith, head_in j, tail_in j)

contains-drop_job :
    (i j : ℕ) (js : List ℕ)
    → IsDistinct js
    → contains j (drop_job i js) ≡ (contains j js && not (j == i))
unfolding drop_job contains
contains-drop_job i j [] h = refl
contains-drop_job i j (k ∷ js) h = ground (arith, contains-drop_job i j js h.1, same)
  where
    same : j ≡ k → contains j js ≡ contains k js
    same e = ap (λ x. contains x js) e

drop_job-IsDistinct : (i : ℕ) (js : List ℕ) → IsDistinct js → IsDistinct (drop_job i js)
unfolding drop_job
drop_job-IsDistinct i [] h = tt
drop_job-IsDistinct i (k ∷ js) h =
    ground (arith, drop_job-IsDistinct i js h.1, contains-drop_job i k js h.1)

module _ (ssd : ℕ → ℕ) (p : Pipe) (i : ℕ) (v : Inv ssd p) where
  pub finish-Inv : contains i p.taken ≡ true → Inv ssd (finish ssd i p)
  unfolding finish
  finish-Inv mine =
      let job : has_job i p ≡ true = ground arith in
      let lt = v.low i job in
      let queued = v.owned i lt in
      record {
        counted = ground (
          arith,
          v.counted,
          in_use-update p.slots p.width i
              (record (p.slots i) { state = St.done; host = copied ssd (p.slots i) }) lt,
        );
        low = λ j h. ground (arith, v.low j, contains-drop_job i j p.taken v.distinct_t);
        owned = λ j lt'.
            ground (arith, v.owned j lt', contains-drop_job i j p.taken v.distinct_t, gone j);
        distinct_q = v.distinct_q;
        distinct_t = drop_job-IsDistinct i p.taken v.distinct_t;
        apart = λ j h. ground (arith, v.apart j, contains-drop_job i j p.taken v.distinct_t);
        filled = λ j lt' d. elim (eq-or-ne j i) [
          | inl e ↦ let hit : (j == i) ≡ true = ground arith in rw hit refl
          | inr e ↦ rw e (v.filled j lt' (rw e at d))
        ];
      }
    where
      gone : (j : ℕ) → j ≡ i → contains j p.job_q ≡ false
      gone j e = ground (arith, v.apart j, ap (λ k. contains k p.taken) e)

  pub release-Inv : i < p.width → is_done (p.slots i).state ≡ true → Inv ssd (release i p)
  unfolding release
  release-Inv lt ready = record {
    counted = ground (
      arith,
      v.counted,
      in_use-update p.slots p.width i
          (record (p.slots i) { state = St.free; ssd_ptr = none; len = 0 }) lt,
    );
    low = v.low;
    owned = λ j lt'. ground (arith, v.owned j lt', same j);
    distinct_q = v.distinct_q;
    distinct_t = v.distinct_t;
    apart = v.apart;
    filled = λ j lt' d. elim (eq-or-ne j i) [
      | inl e ↦ absurd (ground arith)
      | inr e ↦ rw e (v.filled j lt' (rw e at d))
    ];
  }
    where
      same : (j : ℕ) → j ≡ i → is_done (p.slots j).state ≡ true
      same j e = rw e ready

pub submit-cases :
    (ssd : ℕ → ℕ) (p : Pipe) (id : ℕ) (ptr : Option ℕ) (len : ℕ)
    → Inv ssd p
    → Inv ssd (try_submit id ptr len p).1
unfolding try_submit
submit-cases ssd p id none len v = v
submit-cases ssd p id (some ptr) len v =
    elim (Bool-cases (not p.started || len == 0 || leb p.width p.inflight)) [
      | inl refused ↦ rw refused v
      | inr open_now ↦ rw open_now (
          found (find_slot (λ i. is_free (p.slots i).state) p.width 0)
            (find_slot-OneOf (λ i. is_free (p.slots i).state) p.width))
    ]
  where
    found :
        (o : Option ℕ)
        → OneOf (λ i. is_free (p.slots i).state) p.width o
        → Inv ssd
            (elim o as (λ x. Option ℕ × Pipe) [
              | none ↦ (none, p)
              | some i ↦ (some i, enqueue id ptr len i p)
            ]).1
    found none h = v
    found (some i) h = enqueue-Inv ssd id ptr len i p h.0 h.1 v

all_in_use :
    (slots : ℕ → Slot) (n : ℕ)
    → ((j : ℕ) → j < n → is_free (slots j).state ≡ false)
    → in_use slots n ≡ n
unfolding in_use
all_in_use slots zero h = refl
all_in_use slots (suc n) h = ground (arith, h n, all_in_use slots n (λ j lt. h j (omega arith)))

no_job :
    (n : ℕ) (slots : ℕ → Slot)
    → ((j : ℕ) → j < n → is_free (slots j).state ≡ true)
    → in_use slots n ≡ 0
unfolding in_use
no_job zero slots h = refl
no_job (suc n) slots h = ground (arith, h n, no_job n slots (λ j lt. h j (omega arith)))

-- A pipe that starts satisfies the invariant.
pub start-Inv : (ssd : ℕ → ℕ) (width : ℕ) (p : Pipe) → p.started ≡ false → Inv ssd (start width p)
unfolding start
start-Inv ssd width p off = rw off (record {
  counted = ap_zero (no_job _ _ (λ j lt. ground arith));
  low = λ j h. absurd (ground (arith, nil j));
  owned = λ j lt. ground (arith, nil j);
  distinct_q = tt;
  distinct_t = tt;
  apart = λ j h. nil j;
  filled = λ j lt d. absurd (ground arith);
})
  where
    nil : (j : ℕ) → contains j [] ≡ false
    nil j = unfold contains in refl

    ap_zero : {n : ℕ} → n ≡ 0 → 0 ≡ n
    ap_zero e = omega arith

-- A started pipe that satisfies the invariant and has fewer jobs in flight than its width takes
-- a job of positive length, in a free slot below the width. The slot is then queued with the
-- job, last in the queue, and one more job is in flight.
pub try_submit_accepts :
    (ssd : ℕ → ℕ) (id ptr len : ℕ) (p : Pipe)
    → Inv ssd p
    → p.started ≡ true
    → 0 < len
    → p.inflight < p.width
    → (i : ℕ) × ((try_submit id (some ptr) len p).0 ≡ some i)
      × (i < p.width)
      × (is_free (p.slots i).state ≡ true)
      × (let q = (try_submit id (some ptr) len p).1 in
          (is_queued (q.slots i).state ≡ true)
          × ((q.slots i).id ≡ id)
          × ((q.slots i).ssd_ptr ≡ some ptr)
          × ((q.slots i).len ≡ len)
          × (q.job_q ≡ p.job_q ++ i ∷ [])
          × (q.inflight ≡ p.inflight + 1))
unfolding try_submit enqueue
try_submit_accepts ssd id ptr len p v on pos room =
    let open_now : (not p.started || len == 0 || leb p.width p.inflight) ≡ false = ground arith in
    elim (Option-cases (find_slot (λ i. is_free (p.slots i).state) p.width 0)) [
      | inl e ↦
          let full =
            all_in_use p.slots p.width
              (rw e at (find_slot-OneOf (λ i. is_free (p.slots i).state) p.width)) in
          absurd (omega (arith, v.counted))
      | inr (i, e) ↦
          let found : FirstSlot (λ i. is_free (p.slots i).state) p.width i =
            rw e at (find_slot-OneOf (λ i. is_free (p.slots i).state) p.width) in
          let self : (i == i) ≡ true = ground arith in
          (
            i,
            rw (open_now, e) refl,
            found.0,
            found.1,
            rw (open_now, e) (simp self (refl, refl, refl, refl, refl, omega arith)),
          )
    ]

-- If a slot is released whose job a worker still holds, on a pipe that satisfies the invariant,
-- then the slot is done when the worker finishes, and is not counted as in flight.
pub release_early :
    (ssd : ℕ → ℕ) (p : Pipe) (i : ℕ)
    → Inv ssd p
    → contains i p.taken ≡ true
    → (is_done ((finish ssd i (release i p)).slots i).state ≡ true)
      × ((finish ssd i (release i p)).inflight + 1
          ≡ in_use (finish ssd i (release i p)).slots p.width)
unfolding finish release
release_early ssd p i v mine =
    let lt : i < p.width = v.low i (ground arith) in
    let busy = queued_busy (p.slots i).state (ground (arith, v.owned i lt)) in
    let gone = record (p.slots i) { state = St.free; ssd_ptr = none; len = 0 } in
    let back = record (gone) { state = St.done; host = copied ssd gone } in
    let less = in_use-update p.slots p.width i gone lt in
    let more = in_use-update (update p.slots i gone) p.width i back lt in
    let self : (i == i) ≡ true = ground arith in
    rw busy (rw self refl, ground (arith, less, more, v.counted, busy, self))
  where
    queued_busy : (s : St) → is_queued s ≡ true → is_free s ≡ false
    queued_busy St.queued h = refl
    queued_busy St.free h = absurd (ground arith)
    queued_busy St.done h = absurd (ground arith)
