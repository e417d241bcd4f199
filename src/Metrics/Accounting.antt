-- ===== src/Metrics/Accounting.antt =====
-- What the counters of serving/metrics.hpp keep among themselves.
use cxl_anns_kx.Base.{ℕ, ◌≡◌, List, [], ◌∷◌, Bool, true, arith, ap}
use cxl_anns_kx.Base.Words.{add64}
use cxl_anns_kx.Base.Lists.{contains, contains-insert_id, contains-insert_all}
use cxl_anns_kx.Metrics.{Metrics, note_pf_issue, note_pf_used, note_page_occ_slots, add_from}

-- Each used page and each lookahead page was issued.
pub record IsTracked (m : Metrics) : Type 0 where
  pub used : (p : ℕ) → contains p m.pf_used ≡ true → contains p m.pf_issued ≡ true
  pub look : (p : ℕ) → contains p m.pf_look ≡ true → contains p m.pf_issued ≡ true

-- The three classes of page occupancy add up to the pages counted, as uint64_t.
abbrev pub IsBalanced : Metrics → Type 0
IsBalanced m = add64 (add64 m.page_occ_n0 m.page_occ_n50) m.page_occ_n100 ≡ m.page_occ_pages

-- Noting issued pages keeps the used and the lookahead pages among the issued ones.
pub note_pf_issue-IsTracked :
    (pages : List ℕ) (lookahead : Bool) (m : Metrics)
    → IsTracked m
    → IsTracked (note_pf_issue pages lookahead m)
unfolding note_pf_issue
note_pf_issue-IsTracked [] lookahead m t = t
note_pf_issue-IsTracked (p ∷ pages) lookahead m t =
    note_pf_issue-IsTracked pages lookahead _ (record {
      used = λ q h. ground (arith, t.used q, contains-insert_id q p m.pf_issued);
      look = λ q h.
          ground
            (arith, t.look q, contains-insert_id q p m.pf_issued, contains-insert_id q p m.pf_look);
    })

-- Noting used pages keeps the used and the lookahead pages among the issued ones.
pub note_pf_used-IsTracked :
    (pages : List ℕ) (m : Metrics) → IsTracked m → IsTracked (note_pf_used pages m)
unfolding note_pf_used
note_pf_used-IsTracked [] m t = t
note_pf_used-IsTracked (p ∷ pages) m t = note_pf_used-IsTracked pages _ (record {
  used = λ q h. ground (arith, t.used q, contains-insert_id q p m.pf_used, same q);
  look = t.look;
})
  where
    same : (q : ℕ) → q ≡ p → contains q m.pf_issued ≡ contains p m.pf_issued
    same q e = ap (λ x. contains x m.pf_issued) e

-- If in the metrics of two threads each used page and each lookahead page was issued, then so
-- it is in their sum.
pub add_from-IsTracked : (o m : Metrics) → IsTracked o → IsTracked m → IsTracked (add_from o m)
unfolding add_from
add_from-IsTracked o m s t = record {
  used = λ q h. ground (
    arith,
    t.used q,
    s.used q,
    contains-insert_all q o.pf_used m.pf_used,
    contains-insert_all q o.pf_issued m.pf_issued,
  );
  look = λ q h. ground (
    arith,
    t.look q,
    s.look q,
    contains-insert_all q o.pf_look m.pf_look,
    contains-insert_all q o.pf_issued m.pf_issued,
  );
}

pub note_page_occ_slots-IsBalanced :
    (used slots : ℕ) (m : Metrics) → IsBalanced m → IsBalanced (note_page_occ_slots used slots m)
unfolding note_page_occ_slots add64
note_page_occ_slots-IsBalanced used slots m h = ground arith

pub add_from-IsBalanced : (o m : Metrics) → IsBalanced o → IsBalanced m → IsBalanced (add_from o m)
unfolding add_from add64
add_from-IsBalanced o m g h = omega arith
