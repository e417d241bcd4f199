-- ===== src/Metrics.antt =====
-- serving/metrics.hpp: the counters of a search. An unordered_set is a list without repetition; the
-- counters are uint64_t. The percentages are floating point and are not modelled. The counters
-- of nanoseconds are fields that only `add_from` changes here: their other writers read a clock.
pub mod Accounting
use cxl_anns_kx.Base.{
  ℕ, ◌+◌, if◌then◌else◌, ltb, leb, ◌==◌, Bool, true, false, ◌||◌, ◌&&◌, not, List, [], ◌∷◌, suc,
}
use cxl_anns_kx.Base.Words.{add64}
use cxl_anns_kx.Base.Lists.{contains, insert_id, insert_all, replicate}

pub record Metrics : Type 0 where
  pub dram_hits : ℕ
  pub ssd_misses : ℕ
  pub promote_bytes : ℕ
  pub prefetch_pages : ℕ
  pub evicts : ℕ
  pub queries : ℕ
  pub distance_comps : ℕ
  pub promote_pages : ℕ
  pub promote_used : ℕ
  pub hotset_pins : ℕ
  pub score_from_window : ℕ
  pub score_from_cxl_dram : ℕ
  pub score_from_bounce : ℕ
  pub score_from_cache : ℕ
  pub window_is_cxl_dram : Bool
  pub fetched_pages : ℕ
  pub pf_issued : List ℕ
  pub pf_used : List ℕ
  pub pf_look : List ℕ
  pub pf_scored_vec_bytes : ℕ
  pub nvme_read_bytes : ℕ
  pub pf_ids_on_issued : List ℕ
  pub pf_ids_scored : List ℕ
  pub pf_issue_slots : ℕ
  pub pf_issue_want_slots : ℕ
  pub spec_issue_pages : ℕ
  pub spec_uniq_ids : ℕ
  pub page_occ_n0 : ℕ
  pub page_occ_n50 : ℕ
  pub page_occ_n100 : ℕ
  pub page_occ_pages : ℕ
  pub page_occ_used_slots : ℕ
  pub page_occ_slots : ℕ
  pub promote_ns : ℕ
  pub crit_wait_ns : ℕ
  pub device_fill_ns : ℕ
  pub wall_ns : ℕ
  pub issue_use_hist : List ℕ

-- `Metrics{}`
abbrev pub zero_metrics : Metrics
zero_metrics = record {
  dram_hits = 0;
  ssd_misses = 0;
  promote_bytes = 0;
  prefetch_pages = 0;
  evicts = 0;
  queries = 0;
  distance_comps = 0;
  promote_pages = 0;
  promote_used = 0;
  hotset_pins = 0;
  score_from_window = 0;
  score_from_cxl_dram = 0;
  score_from_bounce = 0;
  score_from_cache = 0;
  window_is_cxl_dram = false;
  fetched_pages = 0;
  pf_issued = [];
  pf_used = [];
  pf_look = [];
  pf_scored_vec_bytes = 0;
  nvme_read_bytes = 0;
  pf_ids_on_issued = [];
  pf_ids_scored = [];
  pf_issue_slots = 0;
  pf_issue_want_slots = 0;
  spec_issue_pages = 0;
  spec_uniq_ids = 0;
  page_occ_n0 = 0;
  page_occ_n50 = 0;
  page_occ_n100 = 0;
  page_occ_pages = 0;
  page_occ_used_slots = 0;
  page_occ_slots = 0;
  promote_ns = 0;
  crit_wait_ns = 0;
  device_fill_ns = 0;
  wall_ns = 0;
  issue_use_hist = replicate 5 0;
}

unfoldable pub reset : Metrics → Metrics
reset m = record zero_metrics { window_is_cxl_dram = m.window_is_cxl_dram }

unfoldable pub note_score_from_window : ℕ → Metrics → Metrics
note_score_from_window n m = record m {
  score_from_window = add64 m.score_from_window n;
  score_from_cxl_dram =
      if m.window_is_cxl_dram then add64 m.score_from_cxl_dram n else m.score_from_cxl_dram;
}

unfoldable pub note_score_from_bounce : ℕ → Metrics → Metrics
note_score_from_bounce n m = record m { score_from_bounce = add64 m.score_from_bounce n }

unfoldable pub note_score_from_cache : ℕ → Metrics → Metrics
note_score_from_cache n m = record m { score_from_cache = add64 m.score_from_cache n }

unfoldable pub note_fetched_pages : ℕ → Metrics → Metrics
note_fetched_pages n m = record m { fetched_pages = add64 m.fetched_pages n }

unfoldable pub note_pf_issue : List ℕ → Bool → Metrics → Metrics
note_pf_issue [] lookahead m = m
note_pf_issue (p ∷ pages) lookahead m = note_pf_issue pages lookahead (record m {
  pf_issued = insert_id p m.pf_issued;
  pf_look = if not (contains p m.pf_issued) && lookahead then insert_id p m.pf_look else m.pf_look;
})

unfoldable pub note_pf_used : List ℕ → Metrics → Metrics
note_pf_used [] m = m
note_pf_used (p ∷ pages) m =
    note_pf_used pages
      (record m { pf_used = if contains p m.pf_issued then insert_id p m.pf_used else m.pf_used })

unfoldable pub note_pf_score_vec : ℕ → Metrics → Metrics
note_pf_score_vec vec_bytes m = record m {
  pf_scored_vec_bytes = add64 m.pf_scored_vec_bytes vec_bytes;
}

unfoldable pub note_pf_slot_id : ℕ → Metrics → Metrics
note_pf_slot_id id m = record m { pf_ids_on_issued = insert_id id m.pf_ids_on_issued }

unfoldable pub note_pf_scored_id : ℕ → Metrics → Metrics
note_pf_scored_id id m = record m { pf_ids_scored = insert_id id m.pf_ids_scored }

unfoldable pub note_page_occ_slots : ℕ → ℕ → Metrics → Metrics
note_page_occ_slots used slots m = if slots == 0 then m else record m {
  page_occ_pages = add64 m.page_occ_pages 1;
  page_occ_slots = add64 m.page_occ_slots slots;
  page_occ_used_slots = add64 m.page_occ_used_slots (if ltb used slots then used else slots);
  page_occ_n0 = if used == 0 then add64 m.page_occ_n0 1 else m.page_occ_n0;
  page_occ_n100 =
      if used == 0
      then m.page_occ_n100
      else if leb slots used
      then add64 m.page_occ_n100 1
      else m.page_occ_n100;
  page_occ_n50 =
      if used == 0
      then m.page_occ_n50
      else if leb slots used
      then m.page_occ_n50
      else add64 m.page_occ_n50 1;
}

-- How many of `ids` are in `s`.
unfoldable pub count_in : List ℕ → List ℕ → ℕ
count_in [] s = 0
count_in (p ∷ ps) s = if contains p s then suc (count_in ps s) else count_in ps s

unfoldable pub prefetch_slots_used : Metrics → ℕ
prefetch_slots_used m = count_in m.pf_ids_scored m.pf_ids_on_issued

unfoldable pub prefetch_look_used : Metrics → ℕ
prefetch_look_used m = count_in m.pf_look m.pf_used

-- Bin by bin.
unfoldable pub add_each : List ℕ → List ℕ → List ℕ
add_each (a ∷ as') (b ∷ bs) = add64 a b ∷ add_each as' bs
add_each _ _ = []

unfoldable pub add_from : Metrics → Metrics → Metrics
add_from o m = record {
  dram_hits = add64 m.dram_hits o.dram_hits;
  ssd_misses = add64 m.ssd_misses o.ssd_misses;
  promote_bytes = add64 m.promote_bytes o.promote_bytes;
  prefetch_pages = add64 m.prefetch_pages o.prefetch_pages;
  evicts = add64 m.evicts o.evicts;
  queries = add64 m.queries o.queries;
  distance_comps = add64 m.distance_comps o.distance_comps;
  promote_pages = add64 m.promote_pages o.promote_pages;
  promote_used = add64 m.promote_used o.promote_used;
  hotset_pins = add64 m.hotset_pins o.hotset_pins;
  score_from_window = add64 m.score_from_window o.score_from_window;
  score_from_cxl_dram = add64 m.score_from_cxl_dram o.score_from_cxl_dram;
  score_from_bounce = add64 m.score_from_bounce o.score_from_bounce;
  score_from_cache = add64 m.score_from_cache o.score_from_cache;
  window_is_cxl_dram = m.window_is_cxl_dram || o.window_is_cxl_dram;
  fetched_pages = add64 m.fetched_pages o.fetched_pages;
  pf_issued = insert_all o.pf_issued m.pf_issued;
  pf_used = insert_all o.pf_used m.pf_used;
  pf_look = insert_all o.pf_look m.pf_look;
  pf_scored_vec_bytes = add64 m.pf_scored_vec_bytes o.pf_scored_vec_bytes;
  nvme_read_bytes = add64 m.nvme_read_bytes o.nvme_read_bytes;
  pf_ids_on_issued = insert_all o.pf_ids_on_issued m.pf_ids_on_issued;
  pf_ids_scored = insert_all o.pf_ids_scored m.pf_ids_scored;
  pf_issue_slots = add64 m.pf_issue_slots o.pf_issue_slots;
  pf_issue_want_slots = add64 m.pf_issue_want_slots o.pf_issue_want_slots;
  spec_issue_pages = add64 m.spec_issue_pages o.spec_issue_pages;
  spec_uniq_ids = add64 m.spec_uniq_ids o.spec_uniq_ids;
  page_occ_n0 = add64 m.page_occ_n0 o.page_occ_n0;
  page_occ_n50 = add64 m.page_occ_n50 o.page_occ_n50;
  page_occ_n100 = add64 m.page_occ_n100 o.page_occ_n100;
  page_occ_pages = add64 m.page_occ_pages o.page_occ_pages;
  page_occ_used_slots = add64 m.page_occ_used_slots o.page_occ_used_slots;
  page_occ_slots = add64 m.page_occ_slots o.page_occ_slots;
  promote_ns = add64 m.promote_ns o.promote_ns;
  crit_wait_ns = add64 m.crit_wait_ns o.crit_wait_ns;
  device_fill_ns = add64 m.device_fill_ns o.device_fill_ns;
  wall_ns = add64 m.wall_ns o.wall_ns;
  issue_use_hist = add_each m.issue_use_hist o.issue_use_hist;
}
