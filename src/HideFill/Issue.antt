-- ===== src/HideFill/Issue.antt =====
-- hide_issue of serving/hide_fill.hpp: which pages an issue asks for, and the fill that it starts.
-- The jobs that it hands to the copy pool are not part of it: they run later, in any order.
use cxl_anns_kx.Base.{
  ℕ, ◌*◌, ◌%◌, ◌^◌, ◌≡◌, refl, ap, if◌then◌else◌, Bool, true, false, Bool-cases, inl, inr, not,
  ◌&&◌, ◌==◌, List, [], ◌∷◌, ◌++◌, Option, none, some, arith,
}
use cxl_anns_kx.Base.Words.{add64}
use cxl_anns_kx.Base.Lists.{length, contains, insert_id, contains-insert_id, IsDistinct}
use cxl_anns_kx.Metrics.{Metrics, note_fetched_pages, note_pf_issue, note_pf_slot_id}
use cxl_anns_kx.DramWindow.State.{Window, with_met}
use cxl_anns_kx.DramWindow.Fills.{reserve_fill}
use cxl_anns_kx.DramWindow.Reads.{is_resident}
use cxl_anns_kx.HideFill.{HideInflight, clear}
use cxl_anns_kx.HideFill.Extents.{hide_extent_run}

-- The pages in order, each once, without those to skip; `uniq` holds the pages seen.
unfoldable pub select_pages : (ℕ → Bool) → List ℕ → List ℕ → List ℕ
select_pages skip [] uniq = []
select_pages skip (p ∷ ps) uniq =
    let rest = select_pages skip ps (insert_id p uniq) in
    if contains p uniq then rest else if skip p then rest else p ∷ rest

-- An issue asks for a page exactly when it is among the pages given, was not seen before and is
-- not to be skipped.
pub contains-select_pages :
    (skip : ℕ → Bool) (p : ℕ) (ps uniq : List ℕ)
    → contains p (select_pages skip ps uniq)
      ≡ (contains p ps && not (contains p uniq) && not (skip p))
unfolding select_pages contains
contains-select_pages skip p [] uniq = refl
contains-select_pages skip p (q ∷ qs) uniq = ground (
  arith,
  contains-select_pages skip p qs (insert_id q uniq),
  contains-insert_id p q uniq,
  same_skip,
  same_seen,
)
  where
    same_skip : p ≡ q → skip p ≡ skip q
    same_skip e = ap skip e

    same_seen : p ≡ q → contains p uniq ≡ contains q uniq
    same_seen e = ap (λ x. contains x uniq) e

-- And it asks for no page twice.
pub select_pages-IsDistinct :
    (skip : ℕ → Bool) (ps uniq : List ℕ) → IsDistinct (select_pages skip ps uniq)
unfolding select_pages
select_pages-IsDistinct skip [] uniq = tt
select_pages-IsDistinct skip (p ∷ ps) uniq =
    let rest = select_pages-IsDistinct skip ps (insert_id p uniq) in
    elim (Bool-cases (contains p uniq)) [
      | inl seen ↦ rw seen rest
      | inr new ↦ elim (Bool-cases (skip p)) [
        | inl out ↦ rw (new, out) rest
        | inr in_need ↦
            rw (new, in_need)
              (
                ground (
                  arith,
                  contains-select_pages skip p ps (insert_id p uniq),
                  contains-insert_id p p uniq,
                ),
                rest,
              )
      ]
    ]

-- The reserved frames are added to the fill; a page that the window refuses is dropped.
unfoldable pub reserve_all : List ℕ → HideInflight → Window → HideInflight × Window
reserve_all [] inf w = (inf, w)
reserve_all (p ∷ ps) inf w =
    let (found, v) = reserve_fill p w in
    elim found [
      | none ↦ reserve_all ps inf v
      | some fr ↦
          reserve_all ps
            (record inf {
              pages = inf.pages ++ p ∷ [];
              dests = inf.dests ++ (fr * v.page_bytes) ∷ [];
              frames = inf.frames ++ fr ∷ [];
            })
            v
    ]

pub record IssueMode : Type 0 where
  pub lookahead : Bool
  pub extent_run : Bool
  pub direct : Bool
  pub prefetch_only : Bool
  pub use_window : Bool

-- The destinations of the fill: none, reserved frames, or zeroed host pages.
unfoldable pub destinations : IssueMode → List ℕ → HideInflight → Window → HideInflight × Window
unfolding reserve_all
destinations mode miss inf w =
    if mode.prefetch_only
    then (record inf { pages = miss }, w)
    else if mode.direct
    then reserve_all miss inf w
    else (
      record inf {
        pages = miss;
        host_n = length miss;
        host_pb = w.page_bytes;
        host_mem = some (λ a. 0);
      },
      w,
    )

abbrev started : ℕ → HideInflight → HideInflight
started ttl inf = record inf { ready = λ i. false; consumed = λ i. false; ttl = ttl; active = true }

unfoldable pub note_slot_ids : List ℕ → Metrics → Metrics
note_slot_ids [] m = m
note_slot_ids (id ∷ ids) m = note_slot_ids ids (note_pf_slot_id id m)

unfoldable pub note_page_ids : (ℕ → List ℕ) → List ℕ → Metrics → Metrics
unfolding note_slot_ids
note_page_ids ids_on [] m = m
note_page_ids ids_on (p ∷ ps) m = note_page_ids ids_on ps (note_slot_ids (ids_on p) m)

-- The counters of an issue; `ids_on` is for_ids_contained_in_page.
unfoldable pub note_issue : (ℕ → List ℕ) → Bool → ℕ → List ℕ → Metrics → Metrics
unfolding note_page_ids
note_issue ids_on lookahead page_bytes pages m =
    let n = length pages in
    let fetched = note_fetched_pages n m in
    let counted = record fetched {
      promote_bytes = add64 fetched.promote_bytes (n * page_bytes % 2 ^ 64);
      prefetch_pages = add64 fetched.prefetch_pages n;
    } in
    note_page_ids ids_on pages (note_pf_issue pages lookahead counted)

unfoldable pub hide_issue :
    (ℕ → List ℕ)
    → IssueMode
    → ℕ
    → List ℕ
    → HideInflight
    → Window
    → Option Metrics
    → HideInflight × Window × Option Metrics
unfolding select_pages destinations note_issue clear hide_extent_run
hide_issue ids_on mode ttl pages_in inf w m =
    let wanted = select_pages (λ p. mode.use_window && is_resident p 1 w) pages_in [] in
    let miss = if mode.extent_run then hide_extent_run w.page_bytes 32 wanted else wanted in
    let fresh = record (clear inf) { direct = mode.direct && not mode.prefetch_only } in
    let (filled, v) = destinations mode miss fresh w in
    if length miss == 0 then (inf, w, m) else if length filled.pages == 0 then (filled, v, m) else (
      started ttl filled,
      v,
      with_met (note_issue ids_on mode.lookahead w.page_bytes filled.pages) m,
    )
