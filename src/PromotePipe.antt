-- ===== src/PromotePipe.antt =====
-- serving/promote_pipe.hpp: a bounded pipeline of copies from the SSD to host buffers. The search
-- thread submits and releases; W workers take jobs and finish them. Each operation under the mutex
-- is a function on the state; a worker's copy, which is outside it, ends in `finish`. The pointer of
-- a slot is an offset in the image; `taken` holds the jobs that workers have left to finish.
-- A worker's copy and its store of the state are one step: nothing reads the buffer of a slot before
-- it is done. wait_done, stop_join and the metrics of the workers are not modelled.
pub mod Slots
pub mod Runs
pub mod Requests
use cxl_anns_kx.Base.{
  ℕ, zero, suc, ◌-◌, ◌<◌, ◌≡◌, Bool, true, false, ◌||◌, ◌&&◌, not, ltb, leb, ◌==◌, if◌then◌else◌,
  List, [], ◌∷◌, ◌++◌, Option, none, some,
}
use cxl_anns_kx.Base.Search.{find_slot, bytes_at}
use cxl_anns_kx.Base.Dict.{update}

pub data St : Type 0 where
  free queued done : St

pub record Slot : Type 0 where
  pub state : St
  pub id : ℕ
  pub ssd_ptr : Option ℕ
  pub len : ℕ
  pub host : List ℕ

pub record Pipe : Type 0 where
  pub width : ℕ
  pub slots : ℕ → Slot
  pub job_q : List ℕ
  pub taken : List ℕ
  pub inflight : ℕ
  pub started : Bool

abbrev pub kmax_w : ℕ
kmax_w = 16

abbrev pub is_free : St → Bool
is_free s = elim s [ St.free ↦ true | _ ↦ false ]

abbrev pub is_done : St → Bool
is_done s = elim s [ St.done ↦ true | _ ↦ false ]

unfoldable pub start : ℕ → Pipe → Pipe
start width p = if p.started then p else record {
  width = if ltb width 1 then 1 else if ltb kmax_w width then kmax_w else width;
  slots =
      λ i. if ltb i kmax_w then record (p.slots i) { state = St.free; host = [] } else p.slots i;
  job_q = [];
  taken = [];
  inflight = 0;
  started = true;
}

-- The slot `i` takes the job; its buffer is resized, and holds what it held where that fits.
unfoldable pub enqueue : ℕ → ℕ → ℕ → ℕ → Pipe → Pipe
enqueue id ptr len i p = record p {
  slots =
      update p.slots i
        (record (p.slots i) { state = St.queued; id = id; ssd_ptr = some ptr; len = len });
  job_q = p.job_q ++ i ∷ [];
  inflight = suc p.inflight;
}

-- The slot taken, or none for -1; a null pointer is `none`.
unfoldable pub try_submit : ℕ → Option ℕ → ℕ → Pipe → Option ℕ × Pipe
try_submit id none len p = (none, p)
try_submit id (some ptr) len p =
    if not p.started || len == 0 || leb p.width p.inflight
    then (none, p)
    else elim (find_slot (λ i. is_free (p.slots i).state) p.width 0) [
      | none ↦ (none, p)
      | some i ↦ (some i, enqueue id ptr len i p)
    ]

-- The slots that poll_done reports, from slot i on.
unfoldable pub done_slots : (ℕ → Slot) → ℕ → ℕ → List ℕ
done_slots slots zero i = []
done_slots slots (suc rounds) i =
    let rest = done_slots slots rounds (suc i) in if is_done (slots i).state then i ∷ rest else rest

unfoldable pub poll_done : Pipe → List ℕ
unfolding done_slots
poll_done p = done_slots p.slots p.width 0

unfoldable pub release : ℕ → Pipe → Pipe
release i p = record p {
  slots = update p.slots i (record (p.slots i) { state = St.free; ssd_ptr = none; len = 0 });
  inflight =
      if is_free (p.slots i).state
      then p.inflight
      else if ltb 0 p.inflight
      then p.inflight - 1
      else p.inflight;
}

-- A worker takes the first job.
unfoldable pub take_job : Pipe → Pipe
take_job p = elim p.job_q [ [] ↦ p | i ∷ rest ↦ record p { job_q = rest; taken = i ∷ p.taken } ]

unfoldable pub drop_job : ℕ → List ℕ → List ℕ
drop_job i [] = []
drop_job i (j ∷ js) = if i == j then js else j ∷ drop_job i js

-- The bytes that a worker copies; a null pointer comes with length 0.
abbrev pub copied : (ℕ → ℕ) → Slot → List ℕ
copied ssd s = elim s.ssd_ptr [ none ↦ [] | some at ↦ bytes_at ssd at s.len ]

-- The worker that took slot i has copied its bytes.
unfoldable pub finish : (ℕ → ℕ) → ℕ → Pipe → Pipe
unfolding drop_job
finish ssd i p = record p {
  slots = update p.slots i (record (p.slots i) { state = St.done; host = copied ssd (p.slots i) });
  taken = drop_job i p.taken;
}
