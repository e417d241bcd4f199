-- ===== src/HideFill/Bundles.antt =====
-- hide_collect_bundle_pages of serving/hide_fill.hpp: the pages of a bundle that hold a neighbour that
-- is wanted. The comparisons of shares in float are parameters.
use cxl_anns_kx.Base.{
  ℕ, zero, suc, ◌+◌, ◌<◌, ◌≡◌, sym, if◌then◌else◌, ltb, ◌==◌, Bool, true, false, Bool-cases, inl,
  inr, not, ◌||◌, ◌&&◌, List, [], ◌∷◌, ◌++◌, Option, none, some, arith, eq-or-ne, subst, ◌⊎◌,
}
use cxl_anns_kx.Base.Words.{add64}
use cxl_anns_kx.Base.Lists.{length, contains, contains-append, get_or, set}
use cxl_anns_kx.Metrics.{Metrics}
use cxl_anns_kx.DramWindow.State.{with_met}
use cxl_anns_kx.DramWindow.Promote.{pages_of}
use cxl_anns_kx.Placement.{
  Header, Placement, has_bundle, bundle_slot, packed_vec_bytes, ids_contained_in_page,
}
use cxl_anns_kx.HideFill.Collect.{hide_collect_vec_pages}

-- `min_use > 0.f`, whether w of `on` slots is a share below min_use, and the bin of that share.
pub record UseTest : Type 0 where
  pub has_min : Bool
  pub below_min : ℕ → ℕ → Bool
  pub bin : ℕ → ℕ → ℕ

pub record Collected : Type 0 where
  pub pages : List ℕ
  pub seen : Option (List ℕ)
  pub m : Option Metrics

abbrev pub is_seen : ℕ → Option (List ℕ) → Bool
is_seen p none = false
is_seen p (some s) = contains p s

abbrev pub mark_seen : ℕ → Option (List ℕ) → Option (List ℕ)
mark_seen p none = none
mark_seen p (some s) = some (if contains p s then s else p ∷ s)

-- The ids that are wanted, counted.
unfoldable pub count_want : List ℕ → List ℕ → ℕ
count_want want [] = 0
count_want want (id ∷ ids) = (if contains id want then 1 else 0) + count_want want ids

-- The counters of a page that is asked for, with `on` slots of which w are wanted.
unfoldable pub note_use : UseTest → ℕ → ℕ → Metrics → Metrics
note_use t on w m = record m {
  pf_issue_slots = add64 m.pf_issue_slots on;
  pf_issue_want_slots = add64 m.pf_issue_want_slots w;
  issue_use_hist =
      if ltb 0 on
      then set m.issue_use_hist (t.bin w on) (add64 (get_or m.issue_use_hist (t.bin w on) 0) 1)
      else m.issue_use_hist;
}

abbrev pub is_empty : List ℕ → Bool
is_empty [] = true
is_empty (x ∷ xs) = false

abbrev is_given : Option Metrics → Bool
is_given none = false
is_given (some m) = true

is_seen-mark_seen :
    (q p : ℕ) (seen : Option (List ℕ))
    → is_seen q (mark_seen p seen) ≡ true
    → (q == p || is_seen q seen) ≡ true
unfolding contains
is_seen-mark_seen q p none h = absurd (ground (arith, h))
is_seen-mark_seen q p (some s) h = elim (Bool-cases (contains p s)) [
  | inl there ↦ let old = simp there at h in ground (arith, old)
  | inr new ↦ simp new at h
]

pub contains-more : (q p : ℕ) (ps : List ℕ) → contains q (ps ++ p ∷ []) ≡ (contains q ps || q == p)
contains-more q p ps =
    let last : contains q (p ∷ []) ≡ (q == p) = unfold contains in ground arith in
    ground (arith, contains-append q ps (p ∷ []), last)

module _ (h : Header) (pl : Placement) (vb pb : ℕ) (want : List ℕ) (t : UseTest) where
  -- The wanted ids of a page that is skipped are fetched from their own pages.
  unfoldable pub collect_wanted : List ℕ → Collected → Collected
  unfolding hide_collect_vec_pages
  collect_wanted [] c = c
  collect_wanted (id ∷ ids) c =
      let (pages, seen) = hide_collect_vec_pages h pl vb pb id c.pages c.seen in
      collect_wanted ids (if contains id want then record c { pages = pages; seen = seen } else c)

  -- One page of a bundle.
  unfoldable pub visit_page : ℕ → Collected → Collected
  unfolding collect_wanted note_use count_want
  visit_page p c =
      let ids = ids_contained_in_page p pb pl in
      let counts = not (is_empty want) && (is_given c.m || t.has_min) in
      let on = if counts then length ids else 0 in
      let w = if counts then count_want want ids else 0 in
      let marked = record c { seen = mark_seen p c.seen } in
      let skipped = collect_wanted ids marked in
      if is_seen p c.seen
      then c
      else if t.has_min && ltb 0 on && t.below_min w on
      then skipped
      else record marked {
        pages = c.pages ++ p ∷ [];
        m = if is_empty want then c.m else with_met (note_use t on w) c.m;
      }

  unfoldable pub visit_pages : List ℕ → Collected → Collected
  unfolding visit_page
  visit_pages [] c = c
  visit_pages (p ∷ ps) c = visit_pages ps (visit_page p c)

  -- The neighbours from place k on; an empty `want` wants all.
  unfoldable pub visit_nbrs : ℕ → ℕ → List ℕ → Collected → Collected
  unfolding visit_pages
  visit_nbrs src k [] c = c
  visit_nbrs src k (nbr ∷ nbrs) c =
      let visited = visit_pages (pages_of pb (bundle_slot src k pl) (packed_vec_bytes pl)) c in
      visit_nbrs src (suc k) nbrs
        (if not (is_empty want) && not (contains nbr want) then c else visited)

  unfoldable pub hide_collect_bundle_pages : ℕ → List ℕ → Collected → Collected
  unfolding visit_nbrs
  hide_collect_bundle_pages src nbrs c =
      if not (has_bundle pl) || length nbrs == 0 then c else visit_nbrs src 0 nbrs c

  -- A page that was collected, or was seen before.
  abbrev pub IsCollected : ℕ → List ℕ → Collected → Type 0
  IsCollected p before c = (contains p c.pages || contains p before) ≡ true

  -- What is seen was collected, or was seen before.
  abbrev pub IsKnown : List ℕ → Collected → Type 0
  IsKnown before c = (p : ℕ) → is_seen p c.seen ≡ true → IsCollected p before c

  module _ (unlimited : t.has_min ≡ false) (before : List ℕ) where
    visit_page-IsCollected :
        (p : ℕ) (c : Collected)
        → IsKnown before c
        → IsKnown before (visit_page p c)
          × IsCollected p before (visit_page p c)
          × ((q : ℕ) → IsCollected q before c → IsCollected q before (visit_page p c))
    unfolding visit_page
    visit_page-IsCollected p c known = elim (Bool-cases (is_seen p c.seen)) [
      | inl seen ↦ simp seen (known, known p seen, λ q h. h)
      | inr new ↦
          simp (new, unlimited)
            (
              λ q h.
                  let was = known q in
                  let one = is_seen-mark_seen q p c.seen in
                  let grown = contains-more q p c.pages in ground (arith, was, one, grown, h),
              let grown = contains-more p p c.pages in ground (arith, grown),
              λ q h. let grown = contains-more q p c.pages in ground (arith, grown, h),
            )
    ]

    -- The pages of a list that the loop visits are collected, and so is what was before.
    visit_pages-IsCollected :
        (ps : List ℕ) (c : Collected)
        → IsKnown before c
        → IsKnown before (visit_pages ps c)
          × ((q : ℕ)
              → (contains q ps ≡ true) ⊎ IsCollected q before c
              → IsCollected q before (visit_pages ps c))
    unfolding visit_pages contains
    visit_pages-IsCollected [] c known =
        (known, λ q one. elim one [ inl here ↦ absurd (ground (arith, here)) | inr old ↦ old ])
    visit_pages-IsCollected (p ∷ ps) c known =
        let (known1, here, kept) = visit_page-IsCollected p c known in
        let (known2, later) = visit_pages-IsCollected ps (visit_page p c) known1 in
        (
          known2,
          λ q one. later q (elim one [
            | inr old ↦ inr (kept q old)
            | inl listed ↦ elim (eq-or-ne q p) [
              | inl same ↦ inr (subst (λ x. IsCollected x before (visit_page p c)) (sym same) here)
              | inr other ↦ inl (ground arith)
            ]
          ]),
        )

    abbrev pub slot_pages : ℕ → ℕ → List ℕ
    slot_pages src k = pages_of pb (bundle_slot src k pl) (packed_vec_bytes pl)

    visit_nbrs-keeps :
        (src k : ℕ) (nbrs : List ℕ) (c : Collected) (q : ℕ)
        → IsKnown before c
        → IsCollected q before c
        → IsCollected q before (visit_nbrs src k nbrs c)
    unfolding visit_nbrs
    visit_nbrs-keeps src k [] c q known old = old
    visit_nbrs-keeps src k (nbr ∷ nbrs) c q known old =
        let (known1, kept1) = visit_pages-IsCollected (slot_pages src k) c known in
        let visited = visit_pages (slot_pages src k) c in
        elim (Bool-cases (not (is_empty want) && not (contains nbr want))) [
          | inl skip ↦ simp skip (visit_nbrs-keeps src (suc k) nbrs c q known old)
          | inr visit ↦
              simp visit (visit_nbrs-keeps src (suc k) nbrs visited q known1 (kept1 q (inr old)))
        ]

    pub visit_nbrs-IsCollected :
        (src k : ℕ) (nbrs : List ℕ) (c : Collected) (q i : ℕ)
        → IsKnown before c
        → i < length nbrs
        → (is_empty want || contains (get_or nbrs i 0) want) ≡ true
        → contains q (slot_pages src (k + i)) ≡ true
        → IsCollected q before (visit_nbrs src k nbrs c)
    unfolding visit_nbrs
    visit_nbrs-IsCollected src k [] c q i known lt wanted on_slot = absurd (omega arith)
    visit_nbrs-IsCollected src k (nbr ∷ nbrs) c q zero known lt wanted on_slot =
        let (known1, kept1) = visit_pages-IsCollected (slot_pages src k) c known in
        let visited = visit_pages (slot_pages src k) c in
        let visit : (not (is_empty want) && not (contains nbr want)) ≡ false = ground arith in
        let e : k + 0 ≡ k = omega arith in
        simp visit
          (visit_nbrs-keeps src (suc k) nbrs visited q known1 (kept1 q (inl (rw e at on_slot))))
    visit_nbrs-IsCollected src k (nbr ∷ nbrs) c q (suc i) known lt wanted on_slot =
        let (known1, kept1) = visit_pages-IsCollected (slot_pages src k) c known in
        let visited = visit_pages (slot_pages src k) c in
        let e : k + suc i ≡ suc k + i = omega arith in
        let on : contains q (slot_pages src (suc k + i)) ≡ true = rw e at on_slot in
        elim (Bool-cases (not (is_empty want) && not (contains nbr want))) [
          | inl skip ↦
              simp skip
                (visit_nbrs-IsCollected src (suc k) nbrs c q i known (omega arith) wanted on)
          | inr visit ↦
              simp visit
                (visit_nbrs-IsCollected src (suc k) nbrs visited q i known1 (omega arith) wanted on)
        ]
