-- ===== src/HideFill/Covering.antt =====
-- Which fills HidePipe of serving/hide_fill.hpp starts and gives back.
use cxl_anns_kx.Base.{
  ℕ, ◌<◌, ◌≡◌, ◌≢◌, ◌⊎◌, refl, ap, Bool, true, false, Bool-cases, inl, inr, ◌==◌, ◌||◌, ◌&&◌, not,
  if◌then◌else◌, List, [], ◌∷◌, Option-cases, arith, eq-or-ne, ltb,
}
use cxl_anns_kx.Base.Lists.{length, contains}
use cxl_anns_kx.Base.Search.{find_slot, FirstSlot, find_slot-OneOf}
use cxl_anns_kx.DramWindow.Reads.{is_resident}
use cxl_anns_kx.HideFill.{is_window, clear}
use cxl_anns_kx.HideFill.Issue.{hide_issue, select_pages}
use cxl_anns_kx.HideFill.Pipe.{
  HidePipe, kslots, holds, page_in_slot, owns, release_tok, release_pages, pump, issue,
  issue_pumped, issue_slot, issue_mode,
}

owns-contains :
    (need pages : List ℕ) (p : ℕ)
    → owns need pages ≡ true
    → contains p need ≡ true
    → contains p pages ≡ true
unfolding owns contains
owns-contains [] pages p h k = absurd (ground arith)
owns-contains (q ∷ qs) pages p h k = elim (eq-or-ne p q) [
  | inl same ↦
      let e : contains p pages ≡ contains q pages = ap (λ x. contains x pages) same in ground arith
  | inr other ↦ owns-contains qs pages p (ground arith) (ground arith)
]

-- Outside the window score, release_tok gives back exactly the active slots with that token; no other
-- slot changes.
pub release_tok_lem :
    (tok i : ℕ) (h : HidePipe)
    → is_window h.score ≡ false
    → tok ≢ 0
    → i < kslots
    → (release_tok tok h).slot i
      ≡ (if (h.slot i).active && (h.slot i).tok == tok then clear (h.slot i) else h.slot i)
unfolding release_tok
release_tok_lem tok i h out real lt =
    let low : ltb i 32 ≡ true = ground arith in
    let named : (tok == 0) ≡ false = ground arith in simp (out, named, low) refl

-- Releasing pages leaves each slot as it is, or clears it where it was active and holds every
-- page named.
pub release_pages_lem :
    (need : List ℕ) (i : ℕ) (h : HidePipe)
    → ((release_pages need h).slot i ≡ h.slot i)
      ⊎ (((release_pages need h).slot i ≡ clear (h.slot i))
          × ((h.slot i).active ≡ true)
          × ((p : ℕ) → contains p need ≡ true → contains p (h.slot i).pages ≡ true))
unfolding release_pages
release_pages_lem need i h = elim (Bool-cases (is_window h.score || length need == 0)) [
  | inl nothing ↦ simp nothing (inl refl)
  | inr out ↦
      elim (Bool-cases (
        ltb i 32
        && ((h.slot i).active
            && not (length (h.slot i).pages == 0)
            && owns need (h.slot i).pages))) [
              | inl mine ↦
                  simp (out, mine)
                    (inr (
                      refl,
                      ground arith,
                      λ p k. owns-contains need (h.slot i).pages p (ground arith) k,
                    ))
              | inr other ↦ simp (out, other) (inl refl)
            ]
]

-- A page that no fill in flight holds stands in no active slot.
page_in_slot_lem :
    (p : ℕ) (h : HidePipe)
    → page_in_slot p h ≡ false
    → (i : ℕ) → i < kslots
    → holds p (h.slot i) ≡ false
unfolding page_in_slot
page_in_slot_lem p h e i lt = elim (Option-cases (find_slot (λ s. holds p (h.slot s)) kslots 0)) [
  | inl none_there ↦ (rw none_there at (find_slot-OneOf (λ s. holds p (h.slot s)) kslots)) i lt
  | inr (s, there) ↦ absurd (true≢false (rw there at e))
]
  where
    true≢false : true ≡ false → ⊥
    true≢false h = absurd (ground arith)

-- Nothing was issued, or the next token was given to a slot that was free; no other slot changed.
abbrev pub Issued : HidePipe → ℕ × HidePipe → Type 0
Issued h (t, q) =
    (t ≡ 0)
    ⊎ ((i : ℕ) × (i < kslots)
        × ((h.slot i).active ≡ false)
        × ((q.slot i).active ≡ true)
        × ((q.slot i).tok ≡ t)
        × (t ≡ h.next_tok)
        × ((j : ℕ) → (j == i) ≡ false → q.slot j ≡ h.slot j))

issue_slot-Issued :
    (ids_on : ℕ → List ℕ) (look : Bool) (ttl : ℕ) (miss : List ℕ) (i : ℕ) (h : HidePipe)
    → i < kslots
    → (h.slot i).active ≡ false
    → Issued h (issue_slot ids_on look ttl miss i h)
unfolding issue_slot
issue_slot-Issued ids_on look ttl miss i h lt free =
    let r = hide_issue ids_on (issue_mode look h) ttl miss (h.slot i) h.win h.m in
    let self : (i == i) ≡ true = ground arith in
    elim (Bool-cases r.0.active) [
      | inl on ↦
          simp on (inr (i, lt, free, simp self refl, simp self refl, refl, λ j e. simp e refl))
      | inr off ↦ simp off (inl refl)
    ]

issue_pumped-Issued :
    (ids_on : ℕ → List ℕ) (look : Bool) (pages : List ℕ) (ttl : ℕ) (h : HidePipe)
    → Issued h (issue_pumped ids_on look pages ttl h)
unfolding issue_pumped
issue_pumped-Issued ids_on look pages ttl h =
    let miss =
      select_pages (λ p. (is_window h.score && is_resident p 1 h.win) || page_in_slot p h) pages
        [] in
    elim (Bool-cases (length miss == 0)) [
      | inl nothing ↦ simp nothing (inl refl)
      | inr some_miss ↦ elim (Option-cases (find_slot (λ i. not (h.slot i).active) kslots 0)) [
        | inl full ↦ simp (some_miss, full) (inl refl)
        | inr (i, free) ↦
            let found : FirstSlot (λ i. not (h.slot i).active) kslots i =
              rw free at (find_slot-OneOf (λ i. not (h.slot i).active) kslots) in
            simp (some_miss, free)
              (issue_slot-Issued ids_on look ttl _ i h found.0 (ground (arith, found.1)))
      ]
    ]

-- An issue that does not stall first pumps every slot. It then returns 0, or it returns the
-- next token and has started a fill with it in a slot that was free; no other slot changes.
pub issue_lem :
    (ids_on : ℕ → List ℕ) (look : Bool) (pages : List ℕ) (ttl : ℕ) (h : HidePipe)
    → Issued (pump h) (issue ids_on look pages ttl h)
unfolding issue
issue_lem ids_on look pages ttl h = issue_pumped-Issued ids_on look pages ttl (pump h)
