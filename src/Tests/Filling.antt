-- ===== src/Tests/Filling.antt =====
-- Fills in flight and pipes, for serving/hide_fill.hpp and serving/promote_pipe.hpp.
use cxl_anns_kx.Base.{
  ℕ, zero, suc, ◌+◌, ◌-◌, ◌*◌, ◌%◌, ◌^◌, ◌<◌, ◌≡◌, refl, true, false, ◌==◌, ◌&&◌, if◌then◌else◌,
  not, [], ◌∷◌, ◌++◌, none, some, arith, ap,
}
use cxl_anns_kx.Base.Lists.{contains, get_or}
use cxl_anns_kx.Base.Search.{find_slot}
use cxl_anns_kx.DramWindow.Residency.{IsSound}
use cxl_anns_kx.HideFill.{HideScore, HideInflight, hide_pump}
use cxl_anns_kx.Base.Counts.{taken}
use cxl_anns_kx.HideFill.Pump.{IsCounted, hide_pump-IsSound}
use cxl_anns_kx.HideFill.Extents.{hide_extent_run}
use cxl_anns_kx.HideFill.Pipe.{HidePipe}
use cxl_anns_kx.PromotePipe.{
  St, Pipe, start, enqueue, try_submit, take_job, finish, release, poll_done, is_done, is_free,
}
use cxl_anns_kx.PromotePipe.Slots.{in_use}
use cxl_anns_kx.PromotePipe.Requests.{
  Request, Run, wanted, submitted, Reach, here, next, submits, takes, finishes, Sound, started,
  started-Sound, Reach-Sound, Step-Sound, poll_done_filled,
}
use cxl_anns_kx.PromotePipe.Runs.{is_queued, start-Inv, try_submit_accepts, release_early}
use cxl_anns_kx.Tests.Windows.{ssd, w, w-IsSound}

-- Page 8192 has been read into frame 1.
abbrev pub inf : HideInflight
inf = record {
  pages = 8192 ∷ [];
  host_mem = none;
  host_n = 0;
  host_pb = 0;
  dests = 4096 ∷ [];
  frames = 1 ∷ [];
  ready = λ i. i == 0;
  consumed = λ i. false;
  ready_n = 0;
  ttl = 32;
  active = true;
  direct = true;
  tok = 5;
}

inf-IsCounted : IsCounted inf
inf-IsCounted = unfold taken in refl

hide_pump-IsSound_example : IsSound ssd (hide_pump HideScore.window inf w).1.frames
hide_pump-IsSound_example = hide_pump-IsSound ssd inf w w-IsSound refl (λ j due. filled j due)
  where
    filled :
        (j : ℕ)
        → (not false && (j == 0)) ≡ true
        → ((get_or (8192 ∷ []) j 0 == 2 ^ 64 - 1) ≡ false)
          × ((k : ℕ)
              → k < 4096
              → (4096 + (get_or (1 ∷ []) j (2 ^ 64 - 1) * 4096 + k)) % 251
                ≡ ssd (get_or (8192 ∷ []) j 0 + k))
    filled zero due = (refl, λ k lt. ap ssd (omega arith))
    filled (suc j) due = absurd (ground arith)

-- The hole between the pages is filled.
extent_test : hide_extent_run 4096 32 (12288 ∷ 0 ∷ 4096 ∷ []) ≡ 0 ∷ 4096 ∷ 8192 ∷ 12288 ∷ []
unfolding hide_extent_run
extent_test = refl

abbrev pub idle : HideInflight
idle = record inf { active = false }

-- The first slot is in flight, and the others are free.
abbrev pub hide : HideScore → HidePipe
hide score = record {
  slot = λ i. if i == 0 then inf else idle;
  win = w;
  m = none;
  extent_run = false;
  direct_install = true;
  score = score;
  next_tok = 6;
  last_miss_n = 0;
  last_issue_n = 0;
}

-- A pipe that was never started.
abbrev off : Pipe
off = record {
  width = 4;
  slots = λ i. record { state = St.free; id = 0; ssd_ptr = none; len = 0; host = [] };
  job_q = [];
  taken = [];
  inflight = 0;
  started = false;
}

abbrev on : Pipe
on = start 2 off

abbrev one_job : Pipe
one_job = (try_submit 9 (some 4096) 3 on).1

abbrev ask : Request
ask = record { id = 9; ptr = some 4096; len = 3 }

abbrev blank : ℕ → Request
blank i = record { id = 0; ptr = none; len = 0 }

abbrev at_work : Run
at_work = let one = submitted ask (started 2 off blank) in record one { pipe = take_job one.pipe }

-- A job is submitted and a worker takes it.
at_work-Reach : Reach ssd (started 2 off blank) at_work
at_work-Reach =
    next (next here (submits (started 2 off blank) ask))
      (takes (submitted ask (started 2 off blank)))

worker_has_it : contains 0 at_work.pipe.taken ≡ true
worker_has_it = unfold start try_submit find_slot enqueue take_job contains in refl

-- The worker finishes it.
done-Reach : Reach ssd (started 2 off blank) (record at_work { pipe = finish ssd 0 at_work.pipe })
done-Reach = next at_work-Reach (finishes at_work 0 worker_has_it)

at_work-Sound : Sound ssd at_work
at_work-Sound = Reach-Sound ssd (started-Sound ssd 2 off blank refl) at_work-Reach

Step-Sound_example : Sound ssd (record at_work { pipe = finish ssd 0 at_work.pipe })
Step-Sound_example =
    Step-Sound ssd at_work (record at_work { pipe = finish ssd 0 at_work.pipe })
      (finishes at_work 0 worker_has_it) at_work-Sound

try_submit_accepts_example :
    (i : ℕ) × ((try_submit 9 (some 4096) 3 on).0 ≡ some i)
    × (i < on.width)
    × (is_free (on.slots i).state ≡ true)
    × (let q = (try_submit 9 (some 4096) 3 on).1 in
        (is_queued (q.slots i).state ≡ true)
        × ((q.slots i).id ≡ 9)
        × ((q.slots i).ssd_ptr ≡ some 4096)
        × ((q.slots i).len ≡ 3)
        × (q.job_q ≡ on.job_q ++ i ∷ [])
        × (q.inflight ≡ on.inflight + 1))
try_submit_accepts_example =
    try_submit_accepts ssd 9 4096 3 on (start-Inv ssd 2 off refl) (unfold start in refl)
      (omega arith) (unfold start in (omega arith))

poll_done_filled_example :
    let q = finish ssd 0 at_work.pipe in
    ((q.slots 0).host ≡ wanted ssd (at_work.asked 0))
    × ((q.slots 0).id ≡ (at_work.asked 0).id)
    × ((q.slots 0).len ≡ (at_work.asked 0).len)
poll_done_filled_example =
    poll_done_filled ssd 2 off blank (record at_work { pipe = finish ssd 0 at_work.pipe }) 0 refl
      done-Reach
      (unfold start try_submit find_slot enqueue take_job finish poll_done contains in refl)

release_early_example :
    (is_done ((finish ssd 0 (release 0 (take_job one_job))).slots 0).state ≡ true)
    × ((finish ssd 0 (release 0 (take_job one_job))).inflight + 1
        ≡ in_use (finish ssd 0 (release 0 (take_job one_job))).slots (take_job one_job).width)
release_early_example =
    release_early ssd (take_job one_job) 0 at_work-Sound.inv
      (unfold start try_submit find_slot enqueue take_job contains in refl)
