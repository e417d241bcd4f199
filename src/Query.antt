-- ===== src/Query.antt =====
-- The query of the parkable PQ search of serving/search_beam.cpp: PqQ with pqq_issue and pqq_rank, and
-- PrefetchHub of serving/cont_batch.hpp. The inner product of a vector's bytes is a parameter; the
-- I/O trace that an issue may write is not part of the model.
pub mod Rank
pub mod Needs
use cxl_anns_kx.Base.{
  ℕ, zero, suc, ◌+◌, ◌-◌, if◌then◌else◌, ltb, leb, ◌==◌, Bool, true, false, not, ◌||◌, ◌&&◌, List,
  [], ◌∷◌, ◌++◌, Option, none, some,
}
use cxl_anns_kx.Base.Words.{add64}
use cxl_anns_kx.Base.Lists.{length, replicate}
use cxl_anns_kx.Metrics.{
  Metrics, note_score_from_window, note_score_from_bounce, note_score_from_cache, note_pf_scored_id,
  note_pf_used,
}
use cxl_anns_kx.Placement.{Header, Placement, vec}
use cxl_anns_kx.DramWindow.State.{with_met}
use cxl_anns_kx.HideFill.{HideScore}
use cxl_anns_kx.HideFill.Collect.{hide_collect_vec_pages}
use cxl_anns_kx.HideFill.Pipe.{
  HidePipe, kslots, covers_all, issue, release_tok, release_pages, pump, active_slots,
}
use cxl_anns_kx.HideFill.Reads.{read_vec}
use cxl_anns_kx.Scheduler.{CbSt}
use cxl_anns_kx.Beam.{Cand, Beam}

pub record PrefetchHub : Type 0 where
  pub pipe : HidePipe
  pub issue_n : ℕ
  pub issue_pages : ℕ

unfoldable pub submit : (ℕ → List ℕ) → List ℕ → PrefetchHub → ℕ × PrefetchHub
unfolding issue
submit ids_on pages hub =
    let (tok, pipe) = issue ids_on false pages 128 hub.pipe in
    if length pages == 0 then (0, hub) else (
      tok,
      record {
        pipe = pipe;
        issue_n = add64 hub.issue_n 1;
        issue_pages = add64 hub.issue_pages (length pages);
      },
    )

unfoldable pub hub_pump : PrefetchHub → PrefetchHub
unfolding pump
hub_pump hub = record hub { pipe = pump hub.pipe }

unfoldable free_from : ℕ → HidePipe → ℕ
free_from zero h = 0
free_from (suc n) h = free_from n h + (if (h.slot n).active then 0 else 1)

unfoldable pub free_slots : PrefetchHub → ℕ
unfolding free_from
free_slots hub = free_from kslots hub.pipe

pub record PqQ (D : Type 0) : Type 0 where
  pub beam : Beam D
  pub open beam use *
  pub st : CbSt
  pub need : List ℕ
  pub fill_toks : List ℕ
  pub fp_done : List ℕ
  pub fp_n : ℕ

-- The image that a query runs over: its header and placement, the bytes of a vector, and its bytes.
pub record Image : Type 0 where
  pub hdr : Header
  pub pl : Placement
  pub vb : ℕ
  pub ssd : ℕ → ℕ

abbrev pub Pages : Type 0
Pages = List ℕ × Option (List ℕ)

abbrev pub collect : Image → ℕ → ℕ → Pages → Pages
collect im pb id (pages, seen) = hide_collect_vec_pages im.hdr im.pl im.vb pb id pages seen

abbrev pub is_busy : CbSt → Bool
is_busy s = elim s [ CbSt.busy ↦ true | _ ↦ false ]

abbrev pub note_source : HideScore → Metrics → Metrics
note_source score m = elim score [
  | HideScore.bounce ↦ note_score_from_bounce 1 m
  | HideScore.vmem ↦ note_score_from_cache 1 m
  | HideScore.window ↦ note_score_from_window 1 m
]

abbrev pub note_score : HideScore → ℕ → Metrics → Metrics
note_score score id m =
    note_pf_scored_id id
      (note_source score (record m { distance_comps = add64 m.distance_comps 1 }))

abbrev pub with_pipe_met : (Metrics → Metrics) → HidePipe → HidePipe
with_pipe_met f h = record h { win = record (h.win) { met = with_met f h.win.met } }

-- What the loop of pqq_rank leaves: the candidates, the pages scored, the pipe, and whether every
-- candidate was read.
pub record Scored (D : Type 0) : Type 0 where
  pub cand : List (Cand D)
  pub pages : Pages
  pub pipe : HidePipe
  pub all_read : Bool

unfoldable pub release_toks : List ℕ → HidePipe → HidePipe
unfolding release_tok
release_toks [] h = h
release_toks (t ∷ ts) h = release_toks ts (release_tok t h)

module _ {D : Type 0} where
  unfoldable pub collect_cands : Image → ℕ → List (Cand D) → Pages → Pages
  collect_cands im pb [] found = found
  collect_cands im pb (c ∷ cs) found = collect_cands im pb cs (collect im pb c.id found)

  -- pqq_issue with `stall` off.
  unfoldable pub pqq_issue : (ℕ → List ℕ) → Image → PqQ D → PrefetchHub → PqQ D × PrefetchHub
  unfolding submit collect_cands
  pqq_issue ids_on im q hub =
      let (need, seen) = collect_cands im hub.pipe.win.page_bytes q.cand ([], some []) in
      let (tok, hub1) = submit ids_on need hub in
      (
        record q {
          need = need;
          fill_toks = if tok == 0 then q.fill_toks else q.fill_toks ++ tok ∷ [];
          fp_done = replicate (length q.cand) 0;
          fp_n = 0;
          st = if is_busy q.st then q.st else if length need == 0 then CbSt.ready else CbSt.wait;
        },
        hub1,
      )

  -- A candidate that cannot be read ends the loop; those before it keep their new distances. `rest`
  -- is what the loop leaves from the next candidate on.
  unfoldable pub score_step :
      (List ℕ → D)
      → Cand D
      → List (Cand D)
      → Pages
      → HidePipe × Option (List ℕ)
      → Scored D
      → Scored D
  score_step mips c cs pages (h, none) rest = record {
    cand = c ∷ cs;
    pages = pages;
    pipe = h;
    all_read = false;
  }
  score_step mips c cs pages (h, some bytes) rest = record rest {
    cand = record c { dist = mips bytes } ∷ rest.cand;
  }

  unfoldable pub rank_loop : (List ℕ → D) → Image → List (Cand D) → Pages → HidePipe → Scored D
  unfolding read_vec score_step
  rank_loop mips im [] pages h = record { cand = []; pages = pages; pipe = h; all_read = true }
  rank_loop mips im (c ∷ cs) pages h =
      let read = read_vec im.ssd (vec im.hdr c.id im.pl) im.vb h in
      score_step mips c cs pages read (
        rank_loop mips im cs (collect im h.win.page_bytes c.id pages)
          (with_pipe_met (note_score h.score c.id) (read.0)))

  -- Whether the query was ranked, the query and the pipe; none where the program exits, since a
  -- vector does not fit the buffer.
  unfoldable pub pqq_rank :
      (List ℕ → D) → Image → PqQ D → HidePipe → Option (Bool × PqQ D × HidePipe)
  unfolding rank_loop release_toks release_pages covers_all
  pqq_rank mips im q h =
      let r = rank_loop mips im q.cand ([], some []) h in
      let q1 = record q { beam = record (q.beam) { cand = r.cand } } in
      let h1 = with_pipe_met (note_pf_used (r.pages.0)) r.pipe in
      if not (covers_all q.need h)
      then some (false, q, h)
      else if ltb 4096 im.vb
      then none
      else if not r.all_read
      then some (false, q1, r.pipe)
      else some
          (true, record q1 { st = CbSt.done }, release_pages q.need (release_toks q.fill_toks h1))
