-- ===== src/PageCopyPool/Runs.antt =====
-- The runs of serving/page_copy_pool.hpp: submissions and the steps of the workers, in any order, and
-- what wait_idle waits for.
use cxl_anns_kx.Base.{
  ℕ, suc, ◌+◌, ◌%◌, ◌<◌, ◌≡◌, ◌∙◌, refl, ap, sym, true, Bool-cases, inl, inr, Option, none, some,
  List, [], ◌∷◌, ◌++◌, arith,
}
use cxl_anns_kx.Base.Words.{u64_mod, add64}
use cxl_anns_kx.Base.Lists.{length, length-append}
use cxl_anns_kx.PageCopyPool.{
  Job, Memory, PageCopyPool, is_long, compact_locked, push_jobs, takes, turn_with, next_job,
  run_job, count_off, is_idle,
}
use cxl_anns_kx.PageCopyPool.Fifo.{
  contents, IsValid, push_jobs-contents, next_job-contents, pop, job_of,
}

-- The pool and the memory, with the jobs that were ever submitted, that workers have taken and that
-- they have run.
pub record Run : Type 0 where
  pub pool : PageCopyPool
  pub mem : Memory
  pub submitted : List Job
  pub running : List Job
  pub done : List Job

pub data Step : Run → Run → Type 0 where
  submits :
      (r : Run) (jobs : List Job)
      → Step r (record r { pool = push_jobs jobs r.pool; submitted = r.submitted ++ jobs })
  takes_next :
      (r : Run) (job : Job)
      → (next_job r.pool).0 ≡ takes job
      → Step r (record r { pool = (next_job r.pool).1; running = job ∷ r.running })
  finishes :
      (r : Run) (xs ys : List Job) (job : Job)
      → r.running ≡ xs ++ job ∷ ys
      → Step r (record r {
        pool = count_off r.pool;
        mem = run_job job r.mem;
        running = xs ++ ys;
        done = job ∷ r.done;
      })

pub data Reach (r : Run) : Run → Type 0 where
  here : Reach r r
  next : {s t : Run} → Reach r s → Step s t → Reach r t

abbrev open_jobs : Run → ℕ
open_jobs r = length (contents r.pool) + length r.running

-- The counter is that of the jobs not yet run, and each job submitted is queued, running or done.
pub record Inv (r : Run) : Type 0 where
  pub valid : IsValid r.pool
  pub counted : r.pool.inflight ≡ open_jobs r % u64_mod
  pub all : length r.submitted ≡ open_jobs r + length r.done

push_jobs-inflight :
    (jobs : List Job) (p : PageCopyPool)
    → (push_jobs jobs p).inflight ≡ add64 p.inflight (length jobs)
unfolding push_jobs compact_locked
push_jobs-inflight jobs p = elim (Bool-cases (is_long p)) [
  | inl long ↦ simp long refl
  | inr short ↦ simp short refl
]

turn_with-inflight : (o : Option Job) (p : PageCopyPool) → (turn_with o p).1.inflight ≡ p.inflight
unfolding turn_with
turn_with-inflight none p = refl
turn_with-inflight (some job) p = refl

-- What is left of a queue from which a job was taken.
length-pop :
    (queue out rest : List Job) → (out, rest) ≡ pop queue → length queue ≡ length out + length rest
length-pop [] out rest e = omega (
  arith,
  ap (λ (r : List Job × List Job). length r.0) e,
  ap (λ (r : List Job × List Job). length r.1) e,
)
length-pop (job ∷ jobs) out rest e = omega (
  arith,
  ap (λ (r : List Job × List Job). length r.0) e,
  ap (λ (r : List Job × List Job). length r.1) e,
)

Step-Inv : {r s : Run} → Step r s → Inv r → Inv s
unfolding add64 next_job count_off contents
Step-Inv (submits r jobs) v =
    let (same, valid) = push_jobs-contents jobs r.pool v.valid in
    let longer = ap (λ (js : List Job). length js) same ∙ length-append (contents r.pool) jobs in
    let count = push_jobs-inflight jobs r.pool in
    record {
      valid = valid;
      counted = omega (arith, v.counted, count, longer);
      all = omega (arith, v.all, longer, length-append r.submitted jobs);
    }
Step-Inv (takes_next r job e) v =
    let (valid, left) = next_job-contents r.pool v.valid in
    let one : length (job_of (next_job r.pool).0) ≡ 1 = ap (λ t. length (job_of t)) e in
    let shorter = length-pop (contents r.pool) _ _ left in
    let count : (next_job r.pool).1.inflight ≡ r.pool.inflight = turn_with-inflight _ r.pool in
    let same : length (contents (next_job r.pool).1) + suc (length r.running) ≡ open_jobs r =
      omega (arith, one, shorter) in
    record {
      valid = valid;
      counted = count ∙ v.counted ∙ ap (λ n. n % u64_mod) (sym same);
      all = omega (arith, v.all, same);
    }
Step-Inv (finishes r xs ys job e) v =
    let split : length r.running ≡ length xs + suc (length ys) =
      ap (λ (js : List Job). length js) e ∙ length-append xs (job ∷ ys) in
    let kept = length-append xs ys in
    record {
      valid = v.valid;
      counted = omega (arith, v.counted, split, kept);
      all = omega (arith, v.all, split, kept);
    }

pub Reach-Inv : {r s : Run} → Reach r s → Inv r → Inv s
Reach-Inv here v = v
Reach-Inv (next path step) v = Step-Inv step (Reach-Inv path v)

-- From a pool whose counter is right, however the search thread and the workers interleave:
-- when wait_idle finds no job in flight and fewer than 2^64 jobs are open, then no job is
-- queued or with a worker, and as many have been run as were submitted.
pub idle_done :
    (r s : Run)
    → Inv r
    → Reach r s
    → open_jobs s < u64_mod
    → is_idle s.pool ≡ true
    → (contents s.pool ≡ []) × (s.running ≡ []) × (length s.done ≡ length s.submitted)
unfolding is_idle
idle_done r s v path few idle =
    let w = Reach-Inv path v in
    let zero_open : open_jobs s ≡ 0 = ground (arith, w.counted) in
    (empty _ (omega arith), empty _ (omega arith), omega (arith, w.all))
  where
    empty : (jobs : List Job) → length jobs ≡ 0 → jobs ≡ []
    empty [] e = refl
    empty (job ∷ jobs) e = absurd (omega arith)
