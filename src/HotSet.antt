-- ===== src/HotSet.antt =====
-- serving/hot_set.hpp: how often each record was read, halved every `aging_period` queries.
pub mod Ranking
use cxl_anns_kx.Base.{
  ℕ, zero, suc, ◌+◌, ◌-◌, ◌*◌, ◌/◌, ◌%◌, if◌then◌else◌, ltb, leb, ◌==◌, Bool, true, false, not,
  ◌||◌, ◌&&◌, List, [], ◌∷◌, Option, none, some,
}
use cxl_anns_kx.Base.Words.{add32, add64}

pub record Ent : Type 0 where
  pub freq : ℕ
  pub last_q : ℕ

-- The table in its order of iteration; a key stands once.
pub record HotSet : Type 0 where
  pub aging_period : ℕ
  pub queries : ℕ
  pub tab : List (ℕ × Ent)

abbrev pub Table : Type 0
Table = List (ℕ × Ent)

unfoldable pub find : ℕ → Table → Option Ent
find id [] = none
find id ((k, e) ∷ rest) = if id == k then some e else find id rest

-- The entry of `id`, which is made with zeros where it is missing, is counted up.
unfoldable pub touch : ℕ → ℕ → Table → Table
touch queries id [] = (id, record { freq = 1; last_q = queries }) ∷ []
touch queries id ((k, e) ∷ rest) =
    let later = touch queries id rest in
    if id == k
    then (k, record { freq = add32 e.freq 1; last_q = queries }) ∷ rest
    else (k, e) ∷ later

unfoldable pub on_touch : ℕ → HotSet → HotSet
unfolding touch
on_touch id h = record h { tab = touch h.queries id h.tab }

unfoldable pub halve : Table → Table
halve [] = []
halve ((k, e) ∷ rest) =
    let later = halve rest in
    if e.freq / 2 == 0 then later else (k, record e { freq = e.freq / 2 }) ∷ later

unfoldable pub on_query_end : HotSet → HotSet
unfolding halve
on_query_end h =
    let q = add32 h.queries 1 in
    if h.aging_period == 0 || not (q % h.aging_period == 0)
    then record h { queries = q }
    else record h { queries = q; tab = halve h.tab }

-- The comparison of top_ids: a hotter entry first, and of equally hot ones the later read.
unfoldable pub hotter : Ent → Ent → Bool
hotter a b = if a.freq == b.freq then ltb b.last_q a.last_q else ltb b.freq a.freq

unfoldable pub insert_row : ℕ × Ent → Table → Table
unfolding hotter
insert_row r [] = r ∷ []
insert_row r (s ∷ rest) =
    let later = insert_row r rest in if hotter s.1 r.1 then s ∷ later else r ∷ s ∷ rest

-- std::sort; entries that compare equal may stand in any order.
unfoldable pub sort_rows : Table → Table
unfolding insert_row
sort_rows [] = []
sort_rows (r ∷ rest) = insert_row r (sort_rows rest)

-- The vectors that fit in `nbytes`, with `used` of them taken.
unfoldable pub fitting : ℕ → ℕ → ℕ → Table → List ℕ
fitting nbytes vec_bytes used [] = []
fitting nbytes vec_bytes used ((id, e) ∷ rest) =
    let later = fitting nbytes vec_bytes (used + vec_bytes) rest in
    if ltb nbytes (used + vec_bytes) then [] else id ∷ later

unfoldable pub top_ids : ℕ → ℕ → HotSet → List ℕ
unfolding sort_rows fitting
top_ids nbytes vec_bytes h =
    if nbytes == 0 || vec_bytes == 0 then [] else fitting nbytes vec_bytes 0 (sort_rows h.tab)
