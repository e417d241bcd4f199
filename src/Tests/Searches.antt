-- ===== src/Tests/Searches.antt =====
-- Searches, queries, copy pools, orders and caches.
use cxl_anns_kx.Base.{
  ℕ, ◌+◌, ◌-◌, ◌*◌, ◌%◌, ◌<◌, ◌≤◌, ◌≡◌, refl, true, false, ◌==◌, ltb, leb, not, if◌then◌else◌, List,
  [], ◌∷◌, none, some, arith, Option, suc, zero, ap, sym, ◌∙◌,
}
use cxl_anns_kx.Base.Words.{kpage_IsPageSize, u64_mod, add64}
use cxl_anns_kx.Base.Lists.{length, contains, All}
use cxl_anns_kx.Base.Dict.{lookup}
use cxl_anns_kx.Base.Search.{bytes_at}
use cxl_anns_kx.Placement.{Placement, set_header, vec}
use cxl_anns_kx.HideFill.{HideScore}
use cxl_anns_kx.HideFill.Pipe.{HidePipe, covers_all}
use cxl_anns_kx.Scheduler.{CbSt}
use cxl_anns_kx.Beam.{Search, pqq_init, pqq_beam, next_pick, pqq_finish}
use cxl_anns_kx.Beam.Insert.{IsOrder}
use cxl_anns_kx.Beam.Nearest.{IsNearest, pqq_beam-IsNearest}
use cxl_anns_kx.Beam.Ends.{some-inj, pqq_beam-ends}
use cxl_anns_kx.Query.{PrefetchHub, PqQ, Image, pqq_issue, pqq_rank}
use cxl_anns_kx.Query.Needs.{Fits}
use cxl_anns_kx.Query.Rank.{rescored, pqq_issue-rank}
use cxl_anns_kx.Metrics.{Metrics}
use cxl_anns_kx.Hop.{P3Q, p3q_drain, p3q_pick}
use cxl_anns_kx.Hop.Drains.{absent, scored, p3q_drain_lem}
use cxl_anns_kx.Hop.Picks.{IsBatch, p3q_pick-IsBatch}
use cxl_anns_kx.PageCopyPool.{
  PageCopyPool, Job, copy_job, push_jobs, next_job, is_idle, count_off, run_job,
}
use cxl_anns_kx.PageCopyPool.Fifo.{
  Op, submits, takes_job, contents, IsValid, pool_run, spec_run, pool_run-spec,
}
use cxl_anns_kx.PageCopyPool.Runs.{Run, Reach, Step, Inv, idle_done}
use cxl_anns_kx.Reorder.{Order, reorder, packed, remapped, layout}
use cxl_anns_kx.Reorder.Permutation.{IsPermutation, reorder-IsPermutation, remapped_lem}
use cxl_anns_kx.Reorder.Regions.{vec-set_header}
use cxl_anns_kx.Store.{RecordCache, FetchCtx, fetch}
use cxl_anns_kx.Store.Slots.{held, spare, IsMap}
use cxl_anns_kx.Store.Eviction.{IsCache}
use cxl_anns_kx.Store.Fetches.{IsPread, IsFaithful, IsFetched, fetch-IsFetched}
use cxl_anns_kx.Tests.Windows.{ssd, w, w-IsSound}
use cxl_anns_kx.Tests.Filling.{hide}

-- Five records in a line, of which record 4 is the nearest; two candidates are kept.
abbrev line : Search ℕ
line = record {
  lt = ltb;
  ge = λ a b. not (ltb a b);
  list_size = 2;
  iters = 0;
  n = 5;
  pq_n = 5;
  dist = λ id. 10 - id;
  nbrs = λ id. (id + 1) ∷ (id - 1) ∷ [];
}

line-IsOrder : IsOrder line
line-IsOrder = record {
  asym = λ a b h. ground (arith, h);
  trans = λ a b c h k. ground (arith, h, k);
  ge_lt = λ a b. refl;
}

pqq_beam-IsNearest_example : IsNearest line (pqq_beam line (pqq_init line 0))
pqq_beam-IsNearest_example = pqq_beam-IsNearest line line-IsOrder (omega arith) 0

pqq_beam-ends_example : next_pick line (pqq_beam line (pqq_init line 0)) ≡ none
pqq_beam-ends_example = pqq_beam-ends line line-IsOrder (omega arith) 0

-- The search reaches the other end of the line.
line_test : pqq_finish line 2 (pqq_beam line (pqq_init line 0)) ≡ 4 ∷ 3 ∷ []
unfolding pqq_finish pqq_beam pqq_init contains
line_test = refl

-- A pool that has taken one of two jobs.
abbrev pool : PageCopyPool
pool = record {
  nworkers = 1;
  q = copy_job 0 64 8 none ∷ copy_job 8 72 8 none ∷ [];
  q_head = 1;
  inflight = 1;
  stop = false;
}

abbrev ops : List Op
ops = submits (copy_job 16 80 8 none ∷ []) ∷ takes_job ∷ takes_job ∷ takes_job ∷ []

pool_run-spec_example :
    IsValid (pool_run ops pool).1
    × (((pool_run ops pool).0, contents (pool_run ops pool).1) ≡ spec_run ops (contents pool))
pool_run-spec_example = pool_run-spec ops pool (omega arith)

abbrev graph : ℕ → ℕ → ℕ
graph u k = if k == 0 then (u + 2) % 4 else 9

reorder-IsPermutation_example :
    (o : Order) × (reorder graph 4 2 1 ≡ some o)
    × IsPermutation 4 o
    × ((packed graph 4 2 (if leb 4 1 then 0 else 1)).0 ≡ [])
reorder-IsPermutation_example = reorder-IsPermutation graph 4 2 1 (omega arith) (omega arith)

-- The order 1, 3, 0, 2 of four records.
abbrev order : Order
order = record {
  new_to_old = λ i. if i == 0 then 1 else (if i == 1 then 3 else (if i == 2 then 0 else 2));
  old_to_new = λ u. if u == 1 then 0 else (if u == 3 then 1 else (if u == 0 then 2 else 3));
  assigned = 4;
}

order-IsPermutation : IsPermutation 4 order
order-IsPermutation = record {
  new_low = λ u lt. ground arith;
  old_low = λ i lt. ground arith;
  back = λ u lt. ground arith;
  forth = λ i lt. ground arith;
}

remapped_lem_example :
    (remapped graph 4 order 1 0 < 4)
    × (order.new_to_old (remapped graph 4 order 1 0)
        ≡ (if ltb (graph 3 0) 4 then graph 3 0 else order.new_to_old 0))
remapped_lem_example = remapped_lem graph 4 1 0 order order-IsPermutation (omega arith)

abbrev nowhere : Placement
nowhere = record {
  hdr = none;
  image = λ a. 0;
  vec_stride = 0;
  graph_host = false;
  graph_host_bytes = 0;
  graph_word = λ a. 0;
  diskann_layout = false;
  id_to_slot = [];
  slot_to_id = [];
  bundle_off = 0;
  bundle_stride = 0;
  bundle_bytes = 0;
}

vec-set_header_example :
    (vec (layout 1000 96 32 24 4).hdr 7 (set_header (layout 1000 96 32 24 4).hdr nowhere)
      ≡ (layout 1000 96 32 24 4).hdr.off_vectors + 7 * (96 * 4))
    × (vec (layout 1000 96 32 24 4).hdr 7 (set_header (layout 1000 96 32 24 4).hdr nowhere) + 96 * 4
        ≤ (layout 1000 96 32 24 4).hdr.off_vectors + (layout 1000 96 32 24 4).hdr.len_vectors)
vec-set_header_example =
    vec-set_header 1000 96 32 24 4 7 nowhere (omega arith) (omega arith) (omega arith)

-- A cache of two slots that holds record 5 in slot 1.
abbrev two : RecordCache
two = record { capacity_vecs = 2; map = (5, 1) ∷ []; lru_order = 5 ∷ 5 ∷ []; free_list = 0 ∷ [] }

two-IsCache : IsCache two
unfolding lookup contains held spare IsMap
two-IsCache = record {
  is_map = (refl, tt);
  full = refl;
  once = λ x. ground arith;
  queued = λ k s h. ground (arith, h);
}

abbrev file : ℕ → ℕ
file a = a * 3

-- A pread that gets all that it asks for.
abbrev pread : ℕ → ℕ → Option (List ℕ)
pread count off = some (bytes_at file off count)

length-bytes_at : (mem : ℕ → ℕ) (a n : ℕ) → length (bytes_at mem a n) ≡ n
unfolding bytes_at
length-bytes_at mem a zero = refl
length-bytes_at mem a (suc n) = ap suc (length-bytes_at mem (suc a) n)

pread-IsPread : IsPread file pread
pread-IsPread count off bytes e =
    let same : bytes_at file off count ≡ bytes = some-inj [] (bytes_at file off count) bytes e in
    let size : length bytes ≡ count =
      ap (λ (l : List ℕ). length l) (sym same) ∙ length-bytes_at file off count in
    (omega arith, rw size (sym same))

abbrev ctx : FetchCtx
ctx = record {
  rec = two;
  vectors = λ slot. bytes_at file 20 4;
  vector_fetches = 1;
  cxl_hits = 0;
  cxl_misses = 1;
  ssd_reads = 1;
  ssd_bytes = 4096;
}

ctx-IsFaithful : IsFaithful file pread true 4 ctx
unfolding lookup
ctx-IsFaithful = record {
  cache = two-IsCache;
  held_true = λ k s h. let five : k ≡ 5 = ground (arith, h) in rw five refl;
}

fetch-IsFetched_example : IsFetched file pread true 4 9 ctx (fetch pread true 4 9 ctx)
fetch-IsFetched_example =
    fetch-IsFetched file pread true 4 pread-IsPread 9 ctx ctx-IsFaithful (omega arith)

-- A pool with no jobs, to which one is submitted; a worker takes it and runs it.
abbrev quiet : Run
quiet = record {
  pool = record { nworkers = 1; q = []; q_head = 0; inflight = 0; stop = false };
  mem = record { bytes = λ a. a % 7; flag = λ a. 0 };
  submitted = [];
  running = [];
  done = [];
}

abbrev job : Job
job = copy_job 0 64 8 (some 3)

abbrev after : Run
after = record {
  pool = count_off (next_job (push_jobs (job ∷ []) (quiet.pool))).1;
  mem = run_job job quiet.mem;
  submitted = job ∷ [];
  running = [];
  done = job ∷ [];
}

quiet-Inv : Inv quiet
unfolding contents
quiet-Inv = record { valid = omega arith; counted = refl; all = refl }

to_after : Reach quiet after
unfolding next_job push_jobs
to_after =
    Reach.next
      (Reach.next (Reach.next Reach.here (Step.submits quiet (job ∷ [])))
        (Step.takes_next _ job refl))
      (Step.finishes _ [] [] job refl)

idle_done_example :
    (contents after.pool ≡ []) × (after.running ≡ []) × (length after.done ≡ length after.submitted)
idle_done_example =
    idle_done quiet after quiet-Inv to_after
      (unfold contents count_off next_job push_jobs in omega arith)
      (unfold is_idle count_off next_job push_jobs add64 in refl)

-- Vectors of 8 bytes from offset 4096 on.
abbrev image : Image
image = record {
  hdr = record {
    version = 1;
    n = 8;
    dim = 2;
    degree = 2;
    pq_bytes = 2;
    vec_bytes = 4;
    off_pq = 0;
    off_graph = 0;
    len_graph = 64;
    off_vectors = 4096;
    len_vectors = 64;
  };
  pl = record nowhere { vec_stride = 8 };
  vb = 8;
  ssd = ssd;
}

abbrev query : PqQ ℕ
query = record {
  beam = record {
    cand = record { dist = 9; id = 3 } ∷ record { dist = 12; id = 5 } ∷ [];
    seen = 3 ∷ 5 ∷ [];
    expanded = 3 ∷ [];
    expands = 1;
  };
  st = CbSt.ready;
  need = [];
  fill_toks = [];
  fp_done = [];
  fp_n = 0;
}

abbrev hub : PrefetchHub
hub = record { pipe = hide HideScore.window; issue_n = 0; issue_pages = 0 }

abbrev mips : List ℕ → ℕ
mips bytes = length bytes

abbrev none_on : ℕ → List ℕ
none_on p = []

query-Fits : Fits image query.cand
unfolding vec
query-Fits = (omega arith, (omega arith, (omega arith, tt)))

pqq_issue-rank_example :
    (h1 : HidePipe) × (pqq_rank mips image
        (pqq_issue none_on image query hub).0
        (hide HideScore.window)
      ≡ some (
          if covers_all (pqq_issue none_on image query hub).0.need (hide HideScore.window)
          then (
            true,
            record ((pqq_issue none_on image query hub).0) {
              beam = record (query.beam) { cand = rescored mips image query.cand };
              st = CbSt.done;
            },
            h1,
          )
          else (false, (pqq_issue none_on image query hub).0, hide HideScore.window)))
pqq_issue-rank_example =
    pqq_issue-rank mips none_on image query hub (hide HideScore.window) (omega arith) (omega arith)
      query-Fits kpage_IsPageSize refl (w-IsSound.coherent)

-- The vector of record 3 is in the window, that of record 600 is not.
abbrev waiting : P3Q ℕ
waiting = record {
  beam = query.beam;
  pending_set = 3 ∷ 600 ∷ [];
  pending = record { id = 3; src = 1; k = 0 } ∷ record { id = 600; src = 1; k = 0 } ∷ [];
  st = CbSt.wait;
  need = [];
}

waiting-Fits : All (λ e. vec image.hdr e.id image.pl + 8 ≤ u64_mod) waiting.pending
unfolding vec
waiting-Fits = (omega arith, (omega arith, tt))

p3q_drain_lem_example :
    (m1 : Option Metrics) × (p3q_drain line mips image waiting w
      ≡ some (
        record (scored line mips image w waiting.pending waiting) {
          pending = absent image w waiting.pending;
        },
        record w { met = m1 },
      ))
p3q_drain_lem_example =
    p3q_drain_lem line mips image w (omega arith) kpage_IsPageSize (w-IsSound.coherent) waiting
      (omega arith) waiting-Fits

p3q_pick-IsBatch_example :
    IsBatch line 4 query.beam (p3q_pick line 4 query.beam).0 (p3q_pick line 4 query.beam).1
p3q_pick-IsBatch_example = p3q_pick-IsBatch line line-IsOrder 4 query.beam (omega arith)
