-- ===== src/Beam.antt =====
-- The candidate list of serving/search_beam.cpp: the greedy search on approximate distances. A
-- distance is of any type with the tests `<` and `>=` of its machine type; a set of ids is a list.
pub mod Ends
pub mod Insert
pub mod Nearest
use cxl_anns_kx.Base.{
  ℕ, zero, suc, ◌+◌, ◌-◌, if◌then◌else◌, ltb, leb, ◌==◌, Bool, true, false, not, ◌||◌, ◌&&◌, List,
  [], ◌∷◌, ◌++◌, Option, none, some,
}
use cxl_anns_kx.Base.Words.{add32}
use cxl_anns_kx.Base.Lists.{length, set, take, contains}

pub record Cand (D : Type 0) : Type 0 where
  pub dist : D
  pub id : ℕ

-- The fields of a query that its beam reads and writes.
pub record Beam (D : Type 0) : Type 0 where
  pub cand : List (Cand D)
  pub seen : List ℕ
  pub expanded : List ℕ
  pub expands : ℕ

-- What a search is run with: the list size, the bound on expansions (0 for none), the number of
-- records in the graph and in the table of codes, the distance by codes, and the neighbours read.
pub record Search (D : Type 0) : Type 0 where
  pub lt : D → D → Bool
  pub ge : D → D → Bool
  pub list_size : ℕ
  pub iters : ℕ
  pub n : ℕ
  pub pq_n : ℕ
  pub dist : ℕ → D
  pub nbrs : ℕ → List ℕ

abbrev pub cand_ids : {D : Type 0} → List (Cand D) → List ℕ
cand_ids [] = []
cand_ids (c ∷ cs) = c.id ∷ cand_ids cs

abbrev pub blank : {D : Type 0} → Beam D
blank = record { cand = []; seen = []; expanded = []; expands = 0 }

module _ {D : Type 0} (s : Search D) where
  -- std::max_element: the first of the largest, with its index.
  unfoldable pub max_at : ℕ → ℕ → Cand D → List (Cand D) → ℕ × Cand D
  max_at i at best [] = (at, best)
  max_at i at best (c ∷ cs) =
      let more = s.lt best.dist c.dist in
      max_at (suc i) (if more then i else at) (if more then c else best) cs

  -- A full list takes a candidate only in the place of its worst. An empty list is full only at
  -- size 0, which no caller passes.
  unfoldable pub insert_full : Cand D → List (Cand D) → List (Cand D)
  unfolding max_at
  insert_full new [] = []
  insert_full new (c ∷ cs) =
      let (at, worst) = max_at 1 0 c cs in
      if s.ge new.dist worst.dist then c ∷ cs else set (c ∷ cs) at new

  unfoldable pub insert_cand : Cand D → List (Cand D) → List (Cand D)
  unfolding insert_full
  insert_cand new cand =
      if leb s.list_size (length cand) then insert_full new cand else cand ++ new ∷ []

  -- An id beyond the table of codes is not inserted.
  unfoldable pub pqq_insert : ℕ → Beam D → Beam D
  unfolding insert_cand
  pqq_insert id q =
      if leb s.pq_n id
      then q
      else record q { cand = insert_cand (record { dist = s.dist id; id = id }) q.cand }

  abbrev pub closer : Option (Cand D) → Cand D → Option (Cand D)
  closer none c = some c
  closer (some b) c = if s.lt c.dist b.dist then some c else some b

  -- The closest candidate that is not expanded; the first of those.
  unfoldable pub pick_best : List ℕ → Option (Cand D) → List (Cand D) → Option (Cand D)
  pick_best expanded best [] = best
  pick_best expanded best (c ∷ cs) =
      pick_best expanded (if contains c.id expanded then best else closer best c) cs

  unfoldable pub see : ℕ → Beam D → Beam D
  unfolding pqq_insert
  see nb q =
      if leb s.n nb || contains nb q.seen
      then q
      else pqq_insert nb (record q { seen = nb ∷ q.seen })

  unfoldable pub see_all : List ℕ → Beam D → Beam D
  unfolding see
  see_all [] q = q
  see_all (nb ∷ nbs) q = see_all nbs (see nb q)

  -- The neighbours of a candidate that is expanded now.
  unfoldable pub expand : ℕ → Beam D → Beam D
  unfolding see_all
  expand cur q =
      see_all (s.nbrs cur) (record q { expanded = cur ∷ q.expanded; expands = add32 q.expands 1 })

  -- `iters != 0 && expands >= iters`
  abbrev pub at_limit : Beam D → Bool
  at_limit q = not (s.iters == 0) && leb s.iters q.expands

  abbrev pub next_pick : Beam D → Option (Cand D)
  next_pick q = if at_limit q then none else pick_best q.expanded none q.cand

  -- The loop of pqq_beam, with fuel.
  unfoldable pub beam_loop : ℕ → Beam D → Beam D
  unfolding expand pick_best
  beam_loop zero q = q
  beam_loop (suc fuel) q = elim (next_pick q) [ none ↦ q | some c ↦ beam_loop fuel (expand c.id q) ]

  -- Each round expands another record of the table of codes, so that their number is fuel enough.
  unfoldable pub pqq_beam : Beam D → Beam D
  unfolding beam_loop
  pqq_beam q = beam_loop s.pq_n q

  -- The query as pqq_init leaves it.
  unfoldable pub pqq_init : ℕ → Beam D
  unfolding pqq_insert
  pqq_init entry_id = pqq_insert entry_id (record blank { seen = entry_id ∷ [] })

  unfoldable pub insert_near : Cand D → List (Cand D) → List (Cand D)
  insert_near c [] = c ∷ []
  insert_near c (b ∷ bs) =
      let rest = insert_near c bs in if s.lt b.dist c.dist then b ∷ rest else c ∷ b ∷ bs

  -- std::sort by distance; candidates at the same distance may stand in any order.
  unfoldable pub sort_cand : List (Cand D) → List (Cand D)
  unfolding insert_near
  sort_cand [] = []
  sort_cand (c ∷ cs) = insert_near c (sort_cand cs)

  unfoldable pub pqq_finish : ℕ → Beam D → List ℕ
  unfolding sort_cand
  pqq_finish k q = take k (cand_ids (sort_cand q.cand))
