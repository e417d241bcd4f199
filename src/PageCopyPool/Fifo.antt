-- ===== src/PageCopyPool/Fifo.antt =====
-- The queue of serving/page_copy_pool.hpp, an array with a head index that is compacted now and then,
-- and the queue that it stands for.
use cxl_anns_kx.Base.{
  ℕ, zero, suc, ◌+◌, ◌-◌, ◌≤◌, ◌≡◌, ◌∙◌, refl, ap, sym, if◌then◌else◌, Bool, true, false,
  Bool-cases, inl, inr, List, [], ◌∷◌, ◌++◌, Option, none, some, arith,
}
use cxl_anns_kx.Base.Lists.{length, length-append, drop, get_elem?}
use cxl_anns_kx.PageCopyPool.{
  Job, PageCopyPool, is_long, compact_locked, push_jobs, Turn, sleeps, returns, takes, turn_with,
  next_job,
}

-- The jobs that no worker has taken.
unfoldable pub contents : PageCopyPool → List Job
contents p = drop p.q_head p.q

abbrev pub IsValid : PageCopyPool → Type 0
IsValid p = p.q_head ≤ length p.q

drop-append :
    {A : Type 0} (n : ℕ) (xs ys : List A) → n ≤ length xs → drop n (xs ++ ys) ≡ drop n xs ++ ys
drop-append zero xs ys h = refl
drop-append (suc n) [] ys h = absurd (omega arith)
drop-append (suc n) (x ∷ xs) ys h = drop-append n xs ys (omega arith)

length-drop : {A : Type 0} (n : ℕ) (xs : List A) → length (drop n xs) ≡ length xs - n
length-drop zero xs = omega arith
length-drop (suc n) [] = omega arith
length-drop (suc n) (x ∷ xs) = omega (arith, length-drop n xs)

some-inj : {A : Type 0} (a b : A) → some a ≡ some b → a ≡ b
some-inj a b e = ap (λ found. elim found [ none ↦ a | some v ↦ v ]) e

-- The element at an index, and what lies beyond it.
drop_at :
    {A : Type 0} (n : ℕ) (xs : List A) (x : A)
    → get_elem? xs n ≡ some x
    → (drop n xs ≡ x ∷ drop (n + 1) xs) × (n + 1 ≤ length xs)
drop_at n [] x e = absurd (ground (arith, e))
drop_at zero (y ∷ ys) x e = (ap (◌∷ ys) (some-inj y x e), omega arith)
drop_at (suc n) (y ∷ ys) x e =
    let (found, low) = drop_at n ys x e in
    let on : suc n + 1 ≡ suc (n + 1) = omega arith in
    (found ∙ ap (λ k. x ∷ drop k (y ∷ ys)) (sym on), omega arith)

drop_beyond : {A : Type 0} (n : ℕ) (xs : List A) → get_elem? xs n ≡ none → drop n xs ≡ []
drop_beyond zero [] e = refl
drop_beyond zero (x ∷ xs) e = absurd (ground (arith, e))
drop_beyond (suc n) [] e = refl
drop_beyond (suc n) (x ∷ xs) e = drop_beyond n xs e

compact-contents :
    (p : PageCopyPool)
    → IsValid p
    → (contents (compact_locked p) ≡ contents p) × IsValid (compact_locked p)
unfolding contents compact_locked
compact-contents p v = elim (Bool-cases (is_long p)) [
  | inl long ↦ simp long (refl, omega arith)
  | inr short ↦ simp short (refl, v)
]

-- Submitting appends the jobs, whether the array is compacted or not.
pub push_jobs-contents :
    (jobs : List Job) (p : PageCopyPool)
    → IsValid p
    → (contents (push_jobs jobs p) ≡ contents p ++ jobs) × IsValid (push_jobs jobs p)
unfolding contents push_jobs compact_locked
push_jobs-contents jobs p v = elim (Bool-cases (is_long p)) [
  | inl long ↦ simp long (refl, omega arith)
  | inr short ↦
      simp short (drop-append p.q_head p.q jobs v, omega (arith, v, length-append p.q jobs))
]

abbrev pub pop : List Job → List Job × List Job
pop [] = ([], [])
pop (job ∷ jobs) = (job ∷ [], jobs)

-- The job of a turn, if it has one.
abbrev pub job_of : Turn → List Job
job_of sleeps = []
job_of returns = []
job_of (takes job) = job ∷ []

job_of_stop : (b : Bool) → job_of (if b then returns else sleeps) ≡ []
job_of_stop true = refl
job_of_stop false = refl

turn_with-contents :
    (o : Option Job) (p : PageCopyPool)
    → get_elem? p.q p.q_head ≡ o
    → IsValid p
    → IsValid (turn_with o p).1
      × ((job_of (turn_with o p).0, contents (turn_with o p).1) ≡ pop (contents p))
unfolding contents turn_with
turn_with-contents none p e v = simp (job_of_stop p.stop, drop_beyond p.q_head p.q e) (v, refl)
turn_with-contents (some job) p e v =
    let (found, low) = drop_at p.q_head p.q job e in simp found (low, refl)

pub next_job-contents :
    (p : PageCopyPool)
    → IsValid p
    → IsValid (next_job p).1 × ((job_of (next_job p).0, contents (next_job p).1) ≡ pop (contents p))
unfolding next_job
next_job-contents p v = turn_with-contents (get_elem? p.q p.q_head) p refl v

-- What the search thread and the workers do to the queue.
pub data Op : Type 0 where
  submits : List Job → Op
  takes_job : Op

-- The queue that the pool promises: jobs are taken in the order of their submission.
abbrev pub Queue : Type 0
Queue = List Job

abbrev pub spec_step : Op → Queue → List Job × Queue
spec_step (submits jobs) queue = ([], queue ++ jobs)
spec_step takes_job queue = pop queue

abbrev pub pool_step : Op → PageCopyPool → List Job × PageCopyPool
pool_step (submits jobs) p = ([], push_jobs jobs p)
pool_step takes_job p = (job_of (next_job p).0, (next_job p).1)

abbrev pub spec_run : List Op → Queue → List Job × Queue
spec_run [] queue = ([], queue)
spec_run (op ∷ ops) queue =
    let (out, queue1) = spec_step op queue in
    let (outs, queue2) = spec_run ops queue1 in (out ++ outs, queue2)

abbrev pub pool_run : List Op → PageCopyPool → List Job × PageCopyPool
pool_run [] p = ([], p)
pool_run (op ∷ ops) p =
    let (out, p1) = pool_step op p in let (outs, p2) = pool_run ops p1 in (out ++ outs, p2)

pool_step-spec :
    (op : Op) (p : PageCopyPool)
    → IsValid p
    → IsValid (pool_step op p).1
      × (((pool_step op p).0, contents (pool_step op p).1) ≡ spec_step op (contents p))
pool_step-spec (submits jobs) p v =
    let (same, valid) = push_jobs-contents jobs p v in (valid, ap (λ c. ([], c)) same)
pool_step-spec takes_job p v = next_job-contents p v

-- From a head index within the array, any sequence of submissions and takings gives the workers
-- the same jobs in the same order as the first-in first-out queue of the jobs not yet taken,
-- and leaves the same jobs, whenever the array is compacted; the head index stays within the
-- array.
pub pool_run-spec :
    (ops : List Op) (p : PageCopyPool)
    → IsValid p
    → IsValid (pool_run ops p).1
      × (((pool_run ops p).0, contents (pool_run ops p).1) ≡ spec_run ops (contents p))
pool_run-spec [] p v = (v, refl)
pool_run-spec (op ∷ ops) p v =
    let (valid, step) = pool_step-spec op p v in
    let (valid2, rest) = pool_run-spec ops (pool_step op p).1 valid in
    (
      valid2,
      ap (λ r. ((pool_step op p).0 ++ r.0, r.1)) rest
          ∙ ap (λ s. (s.0 ++ (spec_run ops s.1).0, (spec_run ops s.1).1)) step,
    )
