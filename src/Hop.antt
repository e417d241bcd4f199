-- ===== src/Hop.antt =====
-- The query of the parkable P3 search of serving/search_beam.cpp, P3Q: it scores the neighbours of the
-- records that it expands as their pages come in, and never waits for them.
pub mod Drains
pub mod Nearest
pub mod Picks
use cxl_anns_kx.Base.{
  ℕ, zero, suc, ◌+◌, ◌-◌, if◌then◌else◌, ltb, leb, ◌==◌, Bool, true, false, not, ◌||◌, ◌&&◌, List,
  [], ◌∷◌, ◌++◌, Option, none, some, max,
}
use cxl_anns_kx.Base.Words.{add32, add64}
use cxl_anns_kx.Base.Lists.{length, contains, insert_id}
use cxl_anns_kx.Metrics.{
  Metrics, note_score_from_window, note_pf_score_vec, note_pf_scored_id, note_pf_used,
}
use cxl_anns_kx.Placement.{vec}
use cxl_anns_kx.DramWindow.State.{Window, with_met}
use cxl_anns_kx.DramWindow.Promote.{pages_of}
use cxl_anns_kx.DramWindow.Reads.{try_copy_resident}
use cxl_anns_kx.Scheduler.{CbSt}
use cxl_anns_kx.Beam.{Cand, Beam, Search, insert_cand, at_limit, pick_best}
use cxl_anns_kx.Query.{Image, Pages, collect, PrefetchHub, submit, free_slots}

pub record Pend : Type 0 where
  pub id : ℕ
  pub src : ℕ
  pub k : ℕ

pub record P3Q (D : Type 0) : Type 0 where
  pub beam : Beam D
  pub open beam use *
  pub pending_set : List ℕ
  pub pending : List Pend
  pub st : CbSt
  pub need : List ℕ

-- `erase` of an unordered_set.
unfoldable pub erase_id : ℕ → List ℕ → List ℕ
erase_id p [] = []
erase_id p (q ∷ s) = if q == p then erase_id p s else q ∷ erase_id p s

unfoldable pub collect_pending : Image → ℕ → List Pend → Pages → Pages
collect_pending im pb [] found = found
collect_pending im pb (e ∷ es) found = collect_pending im pb es (collect im pb e.id found)

abbrev pub note_drained : Image → ℕ → ℕ → Metrics → Metrics
note_drained im pb id m =
    let counted =
      note_score_from_window 1 (record m { distance_comps = add64 m.distance_comps 1 }) in
    note_pf_used (pages_of pb (vec im.hdr id im.pl) im.vb)
      (note_pf_scored_id id (note_pf_score_vec im.vb counted))

module _ {D : Type 0} (s : Search D) where
  unfoldable pub p3q_insert : ℕ → D → P3Q D → P3Q D
  unfolding insert_cand
  p3q_insert id d q = record q {
    beam = record (q.beam) { cand = insert_cand s (record { dist = d; id = id }) q.cand };
  }

  unfoldable pub any_unexpanded : List ℕ → List (Cand D) → Bool
  any_unexpanded expanded [] = false
  any_unexpanded expanded (c ∷ cs) =
      let rest = any_unexpanded expanded cs in if not (contains c.id expanded) then true else rest

  unfoldable pub p3q_has_unexpanded : Beam D → Bool
  unfolding any_unexpanded
  p3q_has_unexpanded q = if at_limit s q then false else any_unexpanded q.expanded q.cand

  -- The rounds of the loop of p3q_pick: the batch, and the query after it.
  unfoldable pub p3q_pick : ℕ → Beam D → List ℕ × Beam D
  unfolding pick_best
  p3q_pick zero q = ([], q)
  p3q_pick (suc rounds) q = elim (pick_best s q.expanded none q.cand) [
    | none ↦ ([], q)
    | some c ↦
        let (batch, q1) =
          p3q_pick rounds
            (record q { expanded = c.id ∷ q.expanded; expands = add32 q.expands 1 }) in
        if at_limit s q then ([], q) else (c.id ∷ batch, q1)
  ]

  -- One round of the loop of p3q_drain, with what try_copy_resident gave: the entry stays, or it is
  -- scored.
  unfoldable pub drain_one :
      (List ℕ → D)
      → Image
      → ℕ
      → Pend
      → Option (List ℕ)
      → List Pend × P3Q D × Window
      → List Pend × P3Q D × Window
  unfolding p3q_insert erase_id
  drain_one mips im pb e none (still, q, w) = (still ++ e ∷ [], q, w)
  drain_one mips im pb e (some bytes) (still, q, w) = (
    still,
    p3q_insert e.id (mips bytes) (record q { pending_set = erase_id e.id q.pending_set }),
    record w { met = with_met (note_drained im pb e.id) w.met },
  )

  unfoldable pub drain_loop :
      (List ℕ → D) → Image → ℕ → List Pend → List Pend × P3Q D × Window → List Pend × P3Q D × Window
  unfolding drain_one
  drain_loop mips im pb [] done = done
  drain_loop mips im pb (e ∷ es) (still, q, w) =
      let (v, read) = try_copy_resident (vec im.hdr e.id im.pl) im.vb w in
      drain_loop mips im pb es (drain_one mips im pb e read (still, q, v))

  -- None where the program exits, since a vector does not fit the buffer.
  unfoldable pub p3q_drain : (List ℕ → D) → Image → P3Q D → Window → Option (P3Q D × Window)
  unfolding drain_loop
  p3q_drain mips im q w =
      let (still, q1, v) = drain_loop mips im w.page_bytes q.pending ([], q, w) in
      if length q.pending == 0
      then some (q, w)
      else if ltb 4096 im.vb
      then none
      else some (record q1 { pending = still }, v)

  -- A neighbour of `src`: the pages to ask for, and the query.
  unfoldable pub meet : Image → ℕ → ℕ → ℕ → Pages × P3Q D → Pages × P3Q D
  meet im pb src nb (now, q) =
      let known = contains nb q.pending_set in
      let pending =
        if known then q.pending else q.pending ++ record { id = nb; src = src; k = 0 } ∷ [] in
      if leb s.n nb || contains nb q.seen then (now, q) else (
        collect im pb nb now,
        record q {
          beam = record (q.beam) { seen = nb ∷ q.seen };
          pending_set = insert_id nb q.pending_set;
          pending = pending;
        },
      )

  unfoldable pub meet_all : Image → ℕ → ℕ → List ℕ → Pages × P3Q D → Pages × P3Q D
  unfolding meet
  meet_all im pb src [] met = met
  meet_all im pb src (nb ∷ nbs) met = meet_all im pb src nbs (meet im pb src nb met)

  unfoldable pub expand_batch : Image → ℕ → List ℕ → Pages × P3Q D → Pages × P3Q D
  unfolding meet_all
  expand_batch im pb [] met = met
  expand_batch im pb (cur ∷ batch) met =
      expand_batch im pb batch (meet_all im pb cur (s.nbrs cur) met)

  -- The waves of p3q_progress: the query, the hub and the number of waves.
  unfoldable pub waves :
      (ℕ → List ℕ) → Image → ℕ → ℕ → P3Q D → PrefetchHub → P3Q D × PrefetchHub × ℕ
  unfolding p3q_pick expand_batch p3q_has_unexpanded submit free_slots
  waves ids_on im ebatch zero q hub = (q, hub, 0)
  waves ids_on im ebatch (suc rounds) q hub =
      let (batch, picked) = p3q_pick (if ebatch == 0 then 1 else ebatch) q.beam in
      let (now, q1) =
        expand_batch im hub.pipe.win.page_bytes batch (([], some []), record q { beam = picked }) in
      let (tok, hub1) = submit ids_on now.0 hub in
      let (q2, hub2, n) = waves ids_on im ebatch rounds q1 hub1 in
      if not (p3q_has_unexpanded q.beam) || free_slots hub == 0
      then (q, hub, 0)
      else if length batch == 0
      then (record q { beam = picked }, hub, 0)
      else (q2, hub2, suc n)

  -- The state that p3q_progress leaves.
  unfoldable pub park : Image → ℕ → P3Q D → P3Q D
  unfolding p3q_has_unexpanded collect_pending
  park im pb q =
      if length q.pending == 0
      then record q { st = if p3q_has_unexpanded q.beam then CbSt.ready else CbSt.done }
      else record q { need = (collect_pending im pb q.pending ([], some [])).0; st = CbSt.wait }

  -- Whether anything was done, the query and the hub, of which the window is the pipe's.
  unfoldable pub p3q_progress :
      (List ℕ → D)
      → (ℕ → List ℕ)
      → Image
      → ℕ
      → ℕ
      → P3Q D
      → PrefetchHub
      → Option (Bool × P3Q D × PrefetchHub)
  unfolding p3q_drain waves park
  p3q_progress mips ids_on im ebatch ahead q hub = elim (p3q_drain mips im q hub.pipe.win) [
    | none ↦ none
    | some (q1, w) ↦
        let drained = record hub { pipe = record (hub.pipe) { win = w } } in
        let (q2, hub2, n) = waves ids_on im ebatch (if ahead == 0 then 1 else ahead) q1 drained in
        some (
          ltb (length q1.pending) (length q.pending) || ltb 0 n,
          park im hub.pipe.win.page_bytes q2,
          hub2,
        )
  ]
