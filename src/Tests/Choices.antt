-- ===== src/Tests/Choices.antt =====
-- Decisions, layouts, counters and the hot set.
use cxl_anns_kx.Base.{
  ℕ, ◌+◌, ◌*◌, ◌<◌, ◌≤◌, ◌≡◌, ◌↔◌, refl, Bool, true, false, ◌==◌, if◌then◌else◌, List, [], ◌∷◌,
  Option, none, some, arith,
}
use cxl_anns_kx.Base.Lists.{contains, get_or}
use cxl_anns_kx.Metrics.{Metrics, zero_metrics}
use cxl_anns_kx.Metrics.Accounting.{IsTracked}
use cxl_anns_kx.Scheduler.{CbSt, merge_unique_pages}
use cxl_anns_kx.Placement.{Header, Placement, load_id_slot_map, slot_of, id_of_slot, slots_in_page}
use cxl_anns_kx.Placement.Spans.{slots_in_page_lem}
use cxl_anns_kx.Placement.Slots.{load_id_slot_map_inverts}
use cxl_anns_kx.Placement.Refused.{IsRefused, load_id_slot_map_failed}
use cxl_anns_kx.HotSet.{HotSet}

abbrev st : ℕ → CbSt
st i = if i == 0 then CbSt.wait else (if i == 1 then CbSt.hold else CbSt.ready)

abbrev covering : Option (ℕ → Bool)
covering = some (λ i. i == 2)

abbrev parts : List (Option (List ℕ))
parts = some (4 ∷ 5 ∷ []) ∷ none ∷ some (5 ∷ 6 ∷ []) ∷ []

merge_test : merge_unique_pages parts ≡ 4 ∷ 5 ∷ 6 ∷ []
unfolding merge_unique_pages contains
merge_test = refl

abbrev h : Header
h = record {
  version = 2;
  n = 3;
  dim = 128;
  degree = 8;
  pq_bytes = 16;
  vec_bytes = 4;
  off_pq = 0;
  off_graph = 0;
  len_graph = 0;
  off_vectors = 4096;
  len_vectors = 6144;
}

slots_in_page_lem_example :
    (contains 1 (slots_in_page h 2048 4096 4096) ≡ true)
    ↔ ((1 < 3) × (4096 ≤ 4096 + 1 * 2048) × (4096 + 1 * 2048 + 2048 ≤ 4096 + 4096))
slots_in_page_lem_example =
    slots_in_page_lem h 2048 4096 4096 1 (omega arith) (omega arith) (omega arith)

abbrev placed : Placement
placed = record {
  hdr = some h;
  image = λ a. 0;
  vec_stride = 2048;
  graph_host = false;
  graph_host_bytes = 0;
  graph_word = λ a. 0;
  diskann_layout = true;
  id_to_slot = [];
  slot_to_id = [];
  bundle_off = 0;
  bundle_stride = 0;
  bundle_bytes = 0;
}

load_id_slot_map_inverts_example :
    (slot_of 0 (load_id_slot_map (some (2 ∷ 0 ∷ 1 ∷ [])) placed).0 < 3)
    × (id_of_slot
          (slot_of 0 (load_id_slot_map (some (2 ∷ 0 ∷ 1 ∷ [])) placed).0)
          (load_id_slot_map (some (2 ∷ 0 ∷ 1 ∷ [])) placed).0
        ≡ 0)
load_id_slot_map_inverts_example =
    load_id_slot_map_inverts h (2 ∷ 0 ∷ 1 ∷ []) placed 0 refl (unfold load_id_slot_map in refl)
      (omega arith)

-- The third slot stands at the first place too.
load_id_slot_map_failed_example :
    let r = (load_id_slot_map (some (2 ∷ 0 ∷ 2 ∷ [])) placed).0 in
    (k : ℕ) × (k < 3)
    × IsRefused 3 (2 ∷ 0 ∷ 2 ∷ []) k
    × ((j : ℕ) → j < k → IsRefused 3 (2 ∷ 0 ∷ 2 ∷ []) j → ⊥)
    × ((j : ℕ) → j < k → id_of_slot (get_or (2 ∷ 0 ∷ 2 ∷ []) j 0) r ≡ j)
    × ((slot : ℕ)
        → slot < 3
        → ((j : ℕ) → j < k → (slot == get_or (2 ∷ 0 ∷ 2 ∷ []) j 0) ≡ false)
        → id_of_slot slot r ≡ 0)
    × ((id : ℕ) → slot_of id r ≡ slot_of id placed)
load_id_slot_map_failed_example =
    load_id_slot_map_failed h (2 ∷ 0 ∷ 2 ∷ []) placed refl refl (unfold load_id_slot_map in refl)

abbrev some_metrics : Metrics
some_metrics = record zero_metrics { pf_issued = 7 ∷ []; pf_used = 7 ∷ [] }

some_metrics-IsTracked : IsTracked some_metrics
unfolding contains
some_metrics-IsTracked = record { used = λ p e. e; look = λ p e. absurd (ground (arith, e)) }

abbrev hot : HotSet
hot = record {
  aging_period = 2;
  queries = 1;
  tab = (4, record { freq = 1; last_q = 0 }) ∷ (5, record { freq = 6; last_q = 1 }) ∷ [];
}
