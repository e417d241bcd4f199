-- ===== src/HideFill/Pipe.antt =====
-- HidePipe of serving/hide_fill.hpp: the fills in flight, and what they cover. A Boolean flag of a
-- slot is read once for each operation.
use cxl_anns_kx.Base.{
  ℕ, zero, suc, ◌+◌, ◌-◌, if◌then◌else◌, ltb, leb, ◌==◌, Bool, true, false, not, ◌||◌, ◌&&◌, List,
  [], ◌∷◌, Option, none, some,
}
use cxl_anns_kx.Base.Words.{add32, add64, page_floor}
use cxl_anns_kx.Base.Lists.{length, contains, take}
use cxl_anns_kx.Base.Dict.{update}
use cxl_anns_kx.Base.Search.{find_slot}
use cxl_anns_kx.Metrics.{Metrics}
use cxl_anns_kx.DramWindow.State.{Window}
use cxl_anns_kx.DramWindow.Reads.{is_resident, try_ptr_resident}
use cxl_anns_kx.HideFill.{HideScore, is_window, HideInflight, host_page, clear, hide_pump}
use cxl_anns_kx.HideFill.Issue.{IssueMode, select_pages, hide_issue}

abbrev pub kslots : ℕ
kslots = 32

pub record HidePipe : Type 0 where
  pub slot : ℕ → HideInflight
  pub win : Window
  pub m : Option Metrics
  pub extent_run : Bool
  pub direct_install : Bool
  pub score : HideScore
  pub next_tok : ℕ
  pub last_miss_n : ℕ
  pub last_issue_n : ℕ

unfoldable pub active_slots : ℕ → (ℕ → HideInflight) → ℕ
active_slots zero slot = 0
active_slots (suc n) slot = active_slots n slot + (if (slot n).active then 1 else 0)

unfoldable pub active_pages : ℕ → (ℕ → HideInflight) → ℕ
active_pages zero slot = 0
active_pages (suc n) slot =
    add32 (active_pages n slot) (if (slot n).active then length (slot n).pages else 0)

-- The index of a page in a slot from index i on, for which the test holds.
unfoldable pub find_page : (ℕ → Bool) → ℕ → ℕ → List ℕ → Option ℕ
find_page test p i [] = none
find_page test p i (q ∷ qs) =
    let later = find_page test p (suc i) qs in if q == p && test i then some i else later

abbrev pub is_some : Option ℕ → Bool
is_some o = elim o [ none ↦ false | some i ↦ true ]

abbrev pub holds : ℕ → HideInflight → Bool
holds p s = s.active && contains p s.pages

abbrev pub holds_ready : ℕ → HideInflight → Bool
holds_ready p s = s.active && is_some (find_page s.ready p 0 s.pages)

unfoldable pub page_in_slot : ℕ → HidePipe → Bool
page_in_slot p h = is_some (find_slot (λ s. holds p (h.slot s)) kslots 0)

unfoldable pub page_ready : ℕ → HidePipe → Bool
unfolding find_page
page_ready p h = is_some (find_slot (λ s. holds_ready p (h.slot s)) kslots 0)

unfoldable pub covers : ℕ → HidePipe → Bool
unfolding page_ready
covers p h = if is_window h.score then is_resident p 1 h.win else page_ready p h

unfoldable pub covers_all : List ℕ → HidePipe → Bool
unfolding covers
covers_all [] h = true
covers_all (p ∷ ps) h = let rest = covers_all ps h in if not (covers p h) then false else rest

-- The first page of the slot that has host memory.
abbrev pub bounce_at : ℕ → HideInflight → Option ℕ
bounce_at page s = elim s.host_mem [
  | none ↦ none
  | some mem ↦ find_page (λ i. ltb i s.host_n) page 0 s.pages
]

abbrev pub bounce_in : ℕ → HideInflight → Bool
bounce_in page s = s.active && is_some (bounce_at page s)

-- The bytes of the page from its first on.
unfoldable pub bounce_page : ℕ → HidePipe → Option (ℕ → ℕ)
unfolding find_page
bounce_page page h = elim (find_slot (λ s. bounce_in page (h.slot s)) kslots 0) [
  | none ↦ none
  | some s ↦ elim (bounce_at page (h.slot s)) [ none ↦ none | some i ↦ host_page i (h.slot s) ]
]

abbrev release_if : (HideInflight → Bool) → HidePipe → HidePipe
release_if test h = record h {
  slot = λ i. if ltb i kslots && test (h.slot i) then clear (h.slot i) else h.slot i;
}

-- The slot with a token is given back; 0 is no token.
unfoldable pub release_tok : ℕ → HidePipe → HidePipe
unfolding clear
release_tok tok h =
    if is_window h.score || tok == 0 then h else release_if (λ s. s.active && s.tok == tok) h

unfoldable pub owns : List ℕ → List ℕ → Bool
owns [] pages = true
owns (p ∷ ps) pages = let rest = owns ps pages in if contains p pages then rest else false

abbrev owner : List ℕ → HideInflight → Bool
owner need s = s.active && not (length s.pages == 0) && owns need s.pages

unfoldable pub release_pages : List ℕ → HidePipe → HidePipe
unfolding owns clear
release_pages need h =
    if is_window h.score || length need == 0 then h else release_if (owner need) h

-- A slot of a window fill is given back when all its pages are in the window.
abbrev pub retire : HideScore → HideInflight → HideInflight
retire score s =
    if is_window score && s.active && leb (length s.pages) s.ready_n then clear s else s

unfoldable pub pump_slots : ℕ → ℕ → HidePipe → HidePipe
unfolding hide_pump clear
pump_slots zero i h = h
pump_slots (suc rounds) i h =
    let (inf, w) = hide_pump h.score (h.slot i) h.win in
    pump_slots rounds (suc i) (record h { slot = update h.slot i (retire h.score inf); win = w })

unfoldable pub pump : HidePipe → HidePipe
unfolding pump_slots
pump h = pump_slots kslots 0 h

abbrev kmiss_max : ℕ
kmiss_max = 1024

abbrev pub issue_mode : Bool → HidePipe → IssueMode
issue_mode lookahead h = record {
  lookahead = lookahead;
  extent_run = h.extent_run;
  direct = is_window h.score && h.direct_install;
  prefetch_only = elim h.score [ HideScore.vmem ↦ true | _ ↦ false ];
  use_window = is_window h.score;
}

-- The fill of slot i, with its token; 0 where there was nothing to fill.
unfoldable pub issue_slot : (ℕ → List ℕ) → Bool → ℕ → List ℕ → ℕ → HidePipe → ℕ × HidePipe
unfolding hide_issue
issue_slot ids_on lookahead ttl miss i h =
    let (inf, w, m) = hide_issue ids_on (issue_mode lookahead h) ttl miss (h.slot i) h.win h.m in
    let tried = record h {
      slot = update h.slot i inf;
      win = w;
      m = m;
      last_miss_n = length miss;
      last_issue_n = if inf.active then length inf.pages else 0;
    } in
    if not inf.active then (0, tried) else (
      h.next_tok,
      record tried {
        slot = update h.slot i (record inf { tok = h.next_tok });
        next_tok = add64 h.next_tok 1;
      },
    )

-- issue with stall_if_full off, after its pump: with no free slot nothing is issued.
unfoldable pub issue_pumped : (ℕ → List ℕ) → Bool → List ℕ → ℕ → HidePipe → ℕ × HidePipe
unfolding issue_slot page_in_slot
issue_pumped ids_on lookahead pages ttl h =
    let miss =
      select_pages (λ p. (is_window h.score && is_resident p 1 h.win) || page_in_slot p h) pages
        [] in
    if length miss == 0 then (0, h) else elim (find_slot (λ i. not (h.slot i).active) kslots 0) [
      | none ↦ (0, h)
      | some i ↦ issue_slot ids_on lookahead ttl (take kmiss_max miss) i h
    ]

unfoldable pub issue : (ℕ → List ℕ) → Bool → List ℕ → ℕ → HidePipe → ℕ × HidePipe
unfolding pump issue_pumped
issue ids_on lookahead pages ttl h = issue_pumped ids_on lookahead pages ttl (pump h)

unfoldable pub free_or_older : HidePipe → ℕ
free_or_older h =
    if not (h.slot 0).active
    then 0
    else if not (h.slot 1).active
    then 1
    else if leb (h.slot 0).ready_n (h.slot 1).ready_n
    then 0
    else 1

-- A place that a vector is read from, without a copy.
pub data Source : Type 0 where
  on_ssd : ℕ → Source
  in_host : (ℕ → ℕ) → Source
  in_window : ℕ → Source

-- The source of a vector under a score.
unfoldable pub source_on : HideScore → ℕ → ℕ → HidePipe → Option Source
unfolding bounce_page
source_on HideScore.vmem off vb h = some (on_ssd off)
source_on HideScore.bounce off vb h =
    let page = page_floor h.win.page_bytes off in
    if ltb h.win.page_bytes (off - page + vb) then none else elim (bounce_page page h) [
      | none ↦ none
      | some base ↦ some (in_host (λ a. base ((off - page) + a)))
    ]
source_on HideScore.window off vb h =
    let page = page_floor h.win.page_bytes off in
    if ltb h.win.page_bytes (off - page + vb)
    then none
    else elim (try_ptr_resident off vb h.win) [ none ↦ none | some a ↦ some (in_window a) ]

unfoldable pub vec_src : ℕ → ℕ → HidePipe → Option Source
unfolding source_on
vec_src off vb h = source_on h.score off vb h
