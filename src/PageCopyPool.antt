-- ===== src/PageCopyPool.antt =====
-- serving/page_copy_pool.hpp: the queue of copy jobs and the workers that run them. A section under
-- the lock is one operation; a worker's loop is taking a job, running it and counting it off.
pub mod Fifo
pub mod Runs
use cxl_anns_kx.Base.{
  ℕ, zero, suc, ◌+◌, ◌-◌, ◌*◌, ◌%◌, if◌then◌else◌, ltb, leb, ◌==◌, Bool, true, false, not, ◌||◌,
  ◌&&◌, List, [], ◌∷◌, ◌++◌, map, Option, none, some,
}
use cxl_anns_kx.Base.Words.{u64_mod, add64}
use cxl_anns_kx.Base.Lists.{length, drop, get_elem?}
use cxl_anns_kx.Base.Dict.{update}
use cxl_anns_kx.DramWindow.State.{blit}

-- The bytes of the address space, and the flags.
pub record Memory : Type 0 where
  pub bytes : ℕ → ℕ
  pub flag : ℕ → ℕ

-- A null pointer is none, and so is an empty std::function.
pub record Job : Type 0 where
  pub src : Option ℕ
  pub dst : Option ℕ
  pub len : ℕ
  pub ready : Option ℕ
  pub fn : Option (Memory → Memory)

pub record PageCopyPool : Type 0 where
  pub nworkers : ℕ
  pub q : List Job
  pub q_head : ℕ
  pub inflight : ℕ
  pub stop : Bool

unfoldable pub start : ℕ → PageCopyPool → PageCopyPool
start w p = if not (p.nworkers == 0) then p else record p { nworkers = if w == 0 then 1 else w }

abbrev pub is_long : PageCopyPool → Bool
is_long p = ltb 1024 p.q_head && ltb (length p.q) (p.q_head * 2)

unfoldable pub compact_locked : PageCopyPool → PageCopyPool
compact_locked p = if is_long p then record p { q = drop p.q_head p.q; q_head = 0 } else p

abbrev pub copy_job : ℕ → ℕ → ℕ → Option ℕ → Job
copy_job src dst len ready = record {
  src = some src;
  dst = some dst;
  len = len;
  ready = ready;
  fn = none;
}

abbrev pub fn_job : (Memory → Memory) → Job
fn_job f = record { src = none; dst = none; len = 0; ready = none; fn = some f }

abbrev pub set_flag : Option ℕ → ℕ → Memory → Memory
set_flag ready v m = elim ready [ none ↦ m | some a ↦ record m { flag = update m.flag a v } ]

-- Counts the jobs and appends them, after a compaction.
unfoldable pub push_jobs : List Job → PageCopyPool → PageCopyPool
unfolding compact_locked
push_jobs jobs p =
    let c = compact_locked (record p { inflight = add64 p.inflight (length jobs) }) in
    record c { q = c.q ++ jobs }

unfoldable pub submit : ℕ → ℕ → ℕ → Option ℕ → Memory → PageCopyPool → Memory × PageCopyPool
unfolding push_jobs
submit src dst len ready m p = (set_flag ready 0 m, push_jobs (copy_job src dst len ready ∷ []) p)

unfoldable pub submit_fn : (Memory → Memory) → PageCopyPool → PageCopyPool
unfolding push_jobs
submit_fn f p = push_jobs (fn_job f ∷ []) p

unfoldable pub submit_fns : List (Memory → Memory) → PageCopyPool → PageCopyPool
unfolding push_jobs
submit_fns fns p = if length fns == 0 then p else push_jobs (map fn_job fns) p

-- The condition of wait_idle.
unfoldable pub is_idle : PageCopyPool → Bool
is_idle p = p.inflight == 0

unfoldable pub queued_approx : PageCopyPool → ℕ
queued_approx p = length p.q - p.q_head

-- What a worker does under the lock: it sleeps, it returns, or it takes a job.
pub data Turn : Type 0 where
  sleeps returns : Turn
  takes : Job → Turn

-- The turn with the job at the head, if there is one.
unfoldable pub turn_with : Option Job → PageCopyPool → Turn × PageCopyPool
turn_with none p = (if p.stop then returns else sleeps, p)
turn_with (some job) p = (takes job, record p { q_head = p.q_head + 1 })

unfoldable pub next_job : PageCopyPool → Turn × PageCopyPool
unfolding turn_with
next_job p = turn_with (get_elem? p.q p.q_head) p

-- `job.dst && job.src && job.len`
abbrev pub copied : Job → Memory → Memory
copied job m = elim job.dst [
  | none ↦ m
  | some dst ↦ elim job.src [
    | none ↦ m
    | some src ↦
        if job.len == 0 then m else record m { bytes = blit m.bytes dst m.bytes src job.len }
  ]
]

-- The job's effect, then its flag.
unfoldable pub run_job : Job → Memory → Memory
run_job job m = set_flag job.ready 1 (elim job.fn [ none ↦ copied job m | some f ↦ f m ])

-- `inflight.fetch_sub(1)`
unfoldable pub count_off : PageCopyPool → PageCopyPool
count_off p = record p { inflight = (p.inflight + u64_mod - 1) % u64_mod }

-- What stop_join leaves once its workers have returned, each with the queue empty.
unfoldable pub stop_join : PageCopyPool → PageCopyPool
stop_join p = record { nworkers = 0; q = []; q_head = 0; inflight = 0; stop = false }
