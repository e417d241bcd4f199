-- ===== src/Tests/Pages.antt =====
-- Reads of pages from the device, the jobs of an issue, and the pages that an issue asks for.
use cxl_anns_kx.Base.{
  ◌↔◌, ◌⊎◌, ℕ, ◌%◌, ◌<◌, ◌≤◌, ◌≡◌, refl, ap, sym, Bool, true, false, ◌==◌, ◌||◌, List, [], ◌∷◌,
  ◌++◌, map, none, some, arith, Option, Permᴰ,
}
use cxl_anns_kx.Base.Words.{add64}
use cxl_anns_kx.Base.Lists.{contains, get_or, All}
use cxl_anns_kx.Base.Counts.{taken}
use cxl_anns_kx.PageCopyPool.{Memory}
use cxl_anns_kx.Placement.{Header, Placement, has_bundle}
use cxl_anns_kx.Metrics.{zero_metrics}
use cxl_anns_kx.DramWindow.State.{Window}
use cxl_anns_kx.Vmem.{VmemIo, Request, request, vmem_read_pages, CachedRead, vmem_read_cached}
use cxl_anns_kx.Vmem.Batches.{concat, IsSized, outcome, run_all, vmem_read_pages-Sized}
use cxl_anns_kx.Vmem.Cached.{Answers, nowhere, vmem_read_cached-Reported}
use cxl_anns_kx.HideFill.{HideScore, HideInflight}
use cxl_anns_kx.HideFill.Extents.{page_steps}
use cxl_anns_kx.HideFill.Pump.{IsCounted}
use cxl_anns_kx.HideFill.Waits.{Flags, IsGoing, hide_wait, hide_wait-Taken}
use cxl_anns_kx.HideFill.Stripes.{hide_stripe_fill}
use cxl_anns_kx.HideFill.Rounded.{IsRounded}
use cxl_anns_kx.HideFill.StripeFill.{hide_stripe_fill_lem}
use cxl_anns_kx.HideFill.Bundles.{UseTest, Collected, hide_collect_bundle_pages}
use cxl_anns_kx.HideFill.Bundled.{IsNeeded, hide_collect_bundle_pages-IsCollected}
use cxl_anns_kx.HideFill.Jobs.{Ioctl, FillTask, dest_of, device, fill_job, chunks, fill_jobs}
use cxl_anns_kx.HideFill.Sources.{copy_all, Reads, IsQuiet, IsFilledAt, AreApart, IsMappedBy}
use cxl_anns_kx.HideFill.Orders.{IsFilled, run_jobs, fill_jobs-IsFilled, fill_jobs-IsReady}
use cxl_anns_kx.Tests.Windows.{w}
use cxl_anns_kx.Tests.Filling.{inf}

abbrev io : VmemIo
io = record { fd = some 3; image_off = 4096; prefetch = true }

-- The device that keeps a record of its batches.
abbrev recorder : List Request → List (List Request) → Bool × List (List Request)
recorder batch s = (true, batch ∷ s)

abbrev two : List Request
two = (0, some 100) ∷ (8192, some 200) ∷ []

vmem_read_pages-Sized_example :
    (batches : List (List Request)) × (concat batches ≡ map (request io) two)
    × All IsSized batches
    × (vmem_read_pages recorder io two [] ≡ outcome 2 (run_all recorder batches []))
vmem_read_pages-Sized_example = vmem_read_pages-Sized recorder io two [] refl refl (omega arith)

-- A device that has the page at 12288 only.
abbrev had : ℕ → Bool
had off = off == 12288

abbrev caching : CachedRead ℕ
caching batch s = (true, λ k. had (get_or batch k nowhere).0, s)

caching-Answers : Answers caching had
caching-Answers batch s = (refl, λ k lt. refl)

vmem_read_cached-Reported_example :
    let r = vmem_read_cached caching io two (λ i. false) 7 in
    (r.0 ≡ true)
    × ((i : ℕ) → i < 2 → r.1 i ≡ had (add64 4096 (get_or two i nowhere).0))
    × ((i : ℕ) → 2 ≤ i → r.1 i ≡ false)
vmem_read_cached-Reported_example =
    vmem_read_cached-Reported had caching io two (λ i. false) 7 caching-Answers refl (omega arith)

abbrev bits : ℕ → ℕ
bits a = a % 2

-- 33 pages of two bytes, which make two jobs; the destinations follow one another.
abbrev pages33 : FillTask
pages33 = record {
  ssd = bits;
  pages = page_steps 33 0 2;
  dests = [];
  slab = 1000;
  host_pb = 2;
  page_bytes = 2;
  ready = 5000;
  use_direct = false;
  only_pf = false;
  vio = some io;
}

pages33-AreApart : AreApart pages33
pages33-AreApart = unfold dest_of in λ i j li lj ne. ground arith

abbrev reader : Ioctl
reader batch m = (true, copy_all bits 2 batch m)

append_nothing : (xs : List Request) → xs ++ [] ≡ xs
append_nothing [] = refl
append_nothing (x ∷ xs) = ap (λ l. x ∷ l) (append_nothing xs)

reader-Reads : Reads bits 2 reader
reader-Reads batch m = (batch, [], append_nothing batch, refl, λ ok. refl)

abbrev prefetcher : Ioctl
prefetcher batch m = (true, m)

prefetcher-IsQuiet : IsQuiet prefetcher
prefetcher-IsQuiet batch m = refl

pages33-IsMappedBy : (one : VmemIo) → device (some io) ≡ some one → IsMappedBy pages33 bits one
unfolding device
pages33-IsMappedBy one e j lt k low =
    let same : one.image_off ≡ 4096 =
      ap (λ (o : Option VmemIo). elim o [ none ↦ 4096 | some x ↦ x.image_off ]) (sym e) in
    unfold add64 in omega (arith, same)

abbrev blank : Memory
blank = record { bytes = λ a. 9; flag = λ a. 0 }

blank-IsFilled : IsFilled pages33 blank
blank-IsFilled j lt set = absurd (ground (arith, set))

abbrev job_of : ℕ → ℕ → Memory → Memory
job_of off n1 = fill_job reader prefetcher pages33 off n1

-- The second job first.
swapped : Permᴰ (fill_jobs reader prefetcher pages33) (job_of 32 1 ∷ job_of 0 32 ∷ [])
unfolding fill_jobs chunks page_steps
swapped = Permᴰ.swap refl refl

fill_jobs-IsFilled_example : IsFilled pages33 (run_jobs (job_of 32 1 ∷ []) blank)
fill_jobs-IsFilled_example =
    fill_jobs-IsFilled pages33 pages33-AreApart bits reader prefetcher reader-Reads
      prefetcher-IsQuiet refl pages33-IsMappedBy (job_of 32 1 ∷ []) (job_of 0 32 ∷ []) blank swapped
      blank-IsFilled

fill_jobs-IsReady_example :
    ((run_jobs (job_of 32 1 ∷ job_of 0 32 ∷ []) blank).flag 5004 ≡ 1)
    × IsFilledAt pages33 4 (run_jobs (job_of 32 1 ∷ job_of 0 32 ∷ []) blank)
fill_jobs-IsReady_example =
    fill_jobs-IsReady pages33 pages33-AreApart bits reader prefetcher reader-Reads
      prefetcher-IsQuiet refl pages33-IsMappedBy (job_of 32 1 ∷ job_of 0 32 ∷ []) blank 4 swapped
      blank-IsFilled (unfold page_steps in omega arith)

inf-IsCounted : IsCounted inf
inf-IsCounted = unfold taken in refl

abbrev unset_flags : Flags
unset_flags j = false

hide_wait-Taken_example :
    (end : HideInflight) × (v : Window) × (hide_wait HideScore.bounce
        (unset_flags ∷ (λ j. j == 0) ∷ [])
        inf
        w
      ≡ some (end, v))
    × (false ≡ true → end.active ≡ false)
    × (false ≡ false → IsGoing (8192 ∷ []) end × (1 ≤ end.ready_n))
hide_wait-Taken_example =
    hide_wait-Taken HideScore.bounce (unset_flags ∷ []) (λ j. j == 0) inf w refl inf-IsCounted
      (λ j lt. ground (arith, lt))

hide_stripe_fill_lem_example :
    (contains 8192 (hide_stripe_fill 4096 64 (4096 ∷ 12288 ∷ [])) ≡ true)
    ↔ ((contains 8192 (4096 ∷ 12288 ∷ []) ≡ true) ⊎ IsRounded 4096 64 (4096 ∷ 12288 ∷ []) 8192)
hide_stripe_fill_lem_example = hide_stripe_fill_lem 4096 64 8192 (4096 ∷ 12288 ∷ [])

abbrev header : Header
header = record {
  version = 1;
  n = 10;
  dim = 4;
  degree = 3;
  pq_bytes = 1;
  vec_bytes = 4;
  off_pq = 4096;
  off_graph = 8192;
  len_graph = 120;
  off_vectors = 12288;
  len_vectors = 160;
}

-- Bundles of 48 bytes from 16384 on.
abbrev bundled : Placement
bundled = record {
  hdr = some header;
  image = λ a. 0;
  vec_stride = 16;
  graph_host = false;
  graph_host_bytes = 0;
  graph_word = λ a. 0;
  diskann_layout = false;
  id_to_slot = [];
  slot_to_id = [];
  bundle_off = 16384;
  bundle_stride = 48;
  bundle_bytes = 480;
}

abbrev any_use : UseTest
any_use = record { has_min = false; below_min = λ w on. false; bin = λ w on. 4 }

abbrev nothing_yet : Collected
nothing_yet = record { pages = []; seen = some []; m = some zero_metrics }

-- The second neighbour of record 2, at 16496, is wanted; pages have 16 bytes.
hide_collect_bundle_pages-IsCollected_example :
    let d =
      hide_collect_bundle_pages header bundled 16 16
        (7 ∷ [])
        any_use
        2
        (5 ∷ 7 ∷ 9 ∷ [])
        nothing_yet in
    (IsNeeded header bundled 16 (7 ∷ []) 2 (5 ∷ 7 ∷ 9 ∷ []) 16496
      → (contains 16496 d.pages || contains 16496 []) ≡ true)
    × (contains 16496 d.pages ≡ true
        → (contains 16496 nothing_yet.pages ≡ true)
          ⊎ IsNeeded header bundled 16 (7 ∷ []) 2 (5 ∷ 7 ∷ 9 ∷ []) 16496)
hide_collect_bundle_pages-IsCollected_example =
    hide_collect_bundle_pages-IsCollected header bundled 16 16 (7 ∷ []) any_use 2 (5 ∷ 7 ∷ 9 ∷ [])
      [] nothing_yet 16496 refl refl (unfold has_bundle in refl) refl (omega arith)
      (record { shift = 4; high = 60; is_pow = refl; fits = refl }) (omega arith)
