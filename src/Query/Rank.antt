-- ===== src/Query/Rank.antt =====
-- pqq_rank of serving/search_beam.cpp, alone and after pqq_issue.
use cxl_anns_kx.Base.{
  ℕ, ◌<◌, ◌≤◌, ◌≡◌, ◌∙◌, refl, ap, subst, if◌then◌else◌, ltb, true, false, Bool-cases, inl, inr,
  List, [], ◌∷◌, map, Option, some, arith,
}
use cxl_anns_kx.Base.Words.{IsPageSize}
use cxl_anns_kx.Base.Search.{bytes_at}
use cxl_anns_kx.Metrics.{Metrics, note_pf_used}
use cxl_anns_kx.DramWindow.State.{Window, with_met}
use cxl_anns_kx.DramWindow.Promote.{pages_of}
use cxl_anns_kx.DramWindow.Reads.{all_mapped, is_resident}
use cxl_anns_kx.HideFill.{HideScore, is_window}
use cxl_anns_kx.HideFill.Pipe.{HidePipe, page_ready, covers, covers_all, release_pages}
use cxl_anns_kx.HideFill.Ranges.{IsTrue}
use cxl_anns_kx.HideFill.Vectors.{read_vec_lem}
use cxl_anns_kx.Scheduler.{CbSt}
use cxl_anns_kx.Beam.{Cand}
use cxl_anns_kx.Query.{
  PrefetchHub, PqQ, Image, Pages, collect, pqq_issue, note_score, with_pipe_met, rank_loop,
  score_step, release_toks, pqq_rank,
}
use cxl_anns_kx.Query.Needs.{vec_at, Fits, Named, pqq_issue-Named}

mapped_met :
    (ps : List ℕ) (w : Window) (m : Option Metrics)
    → all_mapped ps (record w { met = m }) ≡ all_mapped ps w
unfolding all_mapped
mapped_met [] w m = refl
mapped_met (p ∷ ps) w m = simp (mapped_met ps w m) refl

covers_met :
    (p : ℕ) (f : Metrics → Metrics) (h : HidePipe) → covers p (with_pipe_met f h) ≡ covers p h
unfolding covers is_resident page_ready
covers_met p f h =
    let same = mapped_met (pages_of h.win.page_bytes p 1) h.win (with_met f h.win.met) in
    let e : is_resident p 1 (with_pipe_met f h).win ≡ is_resident p 1 h.win = same in
    ap (λ b. if is_window h.score then b else page_ready p h) e

-- Counting changes nothing that a pipe covers or reads.
covers_all-met :
    (need : List ℕ) (f : Metrics → Metrics) (h : HidePipe)
    → covers_all need (with_pipe_met f h) ≡ covers_all need h
unfolding covers_all
covers_all-met [] f h = refl
covers_all-met (p ∷ ps) f h = simp (covers_all-met ps f h, covers_met p f h) refl

IsTrue-met :
    (s : HideScore) (ssd : ℕ → ℕ) (f : Metrics → Metrics) (h : HidePipe)
    → IsTrue s ssd h
    → IsTrue s ssd (with_pipe_met f h)
IsTrue-met HideScore.window ssd f h v = v
IsTrue-met HideScore.vmem ssd f h v = v
IsTrue-met HideScore.bounce ssd f h v = record {
  apart = v.apart;
  distinct = v.distinct;
  within = v.within;
  hosted = v.hosted;
}

-- The candidates with the scores of their vectors' bytes on the SSD.
unfoldable pub rescored : {D : Type 0} → (List ℕ → D) → Image → List (Cand D) → List (Cand D)
rescored mips im cs =
    map (λ c. record { dist = mips (bytes_at im.ssd (vec_at im c.id) im.vb); id = c.id }) cs

module _ {D : Type 0} (mips : List ℕ → D) (im : Image) (need : List ℕ) (pos : 0 < im.vb) where
  rank_loop_lem :
      (cs : List (Cand D)) (pages : Pages) (h : HidePipe)
      → IsPageSize h.win.page_bytes
      → IsTrue h.score im.ssd h
      → covers_all need h ≡ true
      → Fits im cs
      → Named im h.win.page_bytes need cs
      → let r = rank_loop mips im cs pages h in (r.cand ≡ rescored mips im cs) × (r.all_read ≡ true)
  unfolding rank_loop rescored score_step
  rank_loop_lem [] pages h page v all fits named = (refl, refl)
  rank_loop_lem (c ∷ cs) pages h page v all (holds, low) (now, later) =
      let read =
        read_vec_lem im.ssd (vec_at im c.id) im.vb h need page pos (omega (arith, holds, low.0)) all
          now v in
      let h1 = with_pipe_met (note_score h.score c.id) h in
      let (cand, all_read) =
        rank_loop_lem cs (collect im h.win.page_bytes c.id pages) h1 page
          (IsTrue-met h.score im.ssd _ h v) (covers_all-met need (note_score h.score c.id) h ∙ all)
          (holds, low.1) later in
      let new_cand : Cand D = record {
        dist = mips (bytes_at im.ssd (vec_at im c.id) im.vb);
        id = c.id;
      } in
      let step : rank_loop mips im (c ∷ cs) pages h
          ≡ score_step mips c cs pages (h, some (bytes_at im.ssd (vec_at im c.id) im.vb))
              (rank_loop mips im cs (collect im h.win.page_bytes c.id pages) h1) =
        ap
          (λ r. score_step mips c cs pages r (
            rank_loop mips im cs (collect im h.win.page_bytes c.id pages)
              (with_pipe_met (note_score h.score c.id) (r.0))))
          read in
      (ap (λ r. r.cand) step ∙ ap (◌∷◌ new_cand) cand, ap (λ r. r.all_read) step ∙ all_read)

  -- A query whose vectors fit the buffer and whose pages are named is ranked exactly when the pages
  -- are covered: each candidate then has the score of its vector's bytes on the SSD, and the query
  -- is done. Else nothing changes.
  pub pqq_rank_lem :
      (q : PqQ D) (h : HidePipe)
      → q.need ≡ need
      → im.vb ≤ 4096
      → IsPageSize h.win.page_bytes
      → IsTrue h.score im.ssd h
      → Fits im q.cand
      → Named im h.win.page_bytes need q.cand
      → (h1 : HidePipe) × (pqq_rank mips im q h
          ≡ some (
              if covers_all need h
              then (
                true,
                record q {
                  beam = record (q.beam) { cand = rescored mips im q.cand };
                  st = CbSt.done;
                },
                h1,
              )
              else (false, q, h)))
  unfolding pqq_rank
  pqq_rank_lem q h is_need small page v fits named = elim (Bool-cases (covers_all need h)) [
    | inr missing ↦ (h, rw (is_need, missing) refl)
    | inl all ↦
        let (cand, all_read) = rank_loop_lem q.cand ([], some []) h page v all fits named in
        let r = rank_loop mips im q.cand ([], some []) h in
        let done_pipe =
          release_pages need
            (release_toks q.fill_toks (with_pipe_met (note_pf_used (r.pages.0)) r.pipe)) in
        let big : ltb 4096 im.vb ≡ false = ground arith in
        (done_pipe, rw (is_need, all, big, all_read, cand) refl)
  ]

-- A query that was issued is ranked by any later state of the pipe with the same page size. It
-- is ranked exactly when the pipe covers the pages that the issue named; then each candidate of
-- the query has the score of the bytes of its vector on the SSD, and the query is done. Else
-- nothing changes. This holds for non-empty vectors that fit the buffer and their records,
-- records that end below 2^64, a power of two as the page size, and a pipe whose score relies
-- on what is there: a window whose frames hold the bytes of the SSD, or host pages that do so
-- once they are ready and stand once in the slots.
pub pqq_issue-rank :
    {D : Type 0} (mips : List ℕ → D) (ids_on : ℕ → List ℕ) (im : Image) (q : PqQ D)
    (hub : PrefetchHub) (h : HidePipe)
    → 0 < im.vb
    → im.vb ≤ 4096
    → Fits im q.cand
    → IsPageSize h.win.page_bytes
    → hub.pipe.win.page_bytes ≡ h.win.page_bytes
    → IsTrue h.score im.ssd h
    → let q1 = (pqq_issue ids_on im q hub).0 in
      (h1 : HidePipe) × (pqq_rank mips im q1 h
        ≡ some (
            if covers_all q1.need h
            then (
              true,
              record q1 {
                beam = record (q.beam) { cand = rescored mips im q.cand };
                st = CbSt.done;
              },
              h1,
            )
            else (false, q1, h)))
unfolding pqq_issue
pqq_issue-rank mips ids_on im q hub h pos small fits page same v =
    let named = (pqq_issue-Named ids_on im q hub (rw same page) fits).1 in
    let q1 = (pqq_issue ids_on im q hub).0 in
    pqq_rank_lem mips im q1.need pos q1 h refl small page v fits
      (subst (λ pb. Named im pb q1.need q.cand) same named)
