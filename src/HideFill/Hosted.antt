-- ===== src/HideFill/Hosted.antt =====
-- The host pages of HidePipe of serving/hide_fill.hpp: which page bounce_page finds.
use cxl_anns_kx.Base.{
  ℕ, zero, suc, ◌+◌, ◌*◌, ◌<◌, ◌≤◌, ◌≡◌, ◌∙◌, refl, ap, sym, ltb, ◌==◌, Bool, true, false,
  Bool-cases, inl, inr, ◌&&◌, List, [], ◌∷◌, Option, none, some, Option-cases, arith,
}
use cxl_anns_kx.Base.Lists.{length, contains, get_or, IsDistinct}
use cxl_anns_kx.Base.Search.{find_slot, FirstSlot, find_slot-OneOf}
use cxl_anns_kx.HideFill.{HideInflight, host_page}
use cxl_anns_kx.HideFill.Pipe.{
  HidePipe, kslots, find_page, is_some, holds, holds_ready, page_ready, bounce_at, bounce_in,
  bounce_page,
}

-- Slot s holds page p at index i.
abbrev pub IsAt : ℕ → ℕ → HideInflight → Type 0
IsAt p i s = (i < length s.pages) × (get_or s.pages i 0 ≡ p)

-- No page stands in two places of the active slots, and a page reported ready has its bytes in the
-- host memory of its slot.
pub record IsHosted (ssd : ℕ → ℕ) (h : HidePipe) : Type 0 where
  pub apart :
      (p s t : ℕ)
      → s < kslots
      → t < kslots
      → holds p (h.slot s) ≡ true
      → holds p (h.slot t) ≡ true
      → s ≡ t
  pub distinct : (s : ℕ) → s < kslots → (h.slot s).active ≡ true → IsDistinct (h.slot s).pages
  pub within :
      (s : ℕ) → s < kslots → (h.slot s).active ≡ true → length (h.slot s).pages ≤ (h.slot s).host_n
  pub hosted :
      (s i : ℕ)
      → s < kslots
      → (h.slot s).active ≡ true
      → (h.slot s).ready i ≡ true
      → i < length (h.slot s).pages
      → (mem : ℕ → ℕ) × ((h.slot s).host_mem ≡ some mem)
        × ((k : ℕ)
            → k < h.win.page_bytes
            → mem (i * (h.slot s).host_pb + k) ≡ ssd (get_or (h.slot s).pages i 0 + k))

find_page_hit :
    (test : ℕ → Bool) (p i k : ℕ) (qs : List ℕ)
    → find_page test p i qs ≡ some k
    → (j : ℕ) × (k ≡ i + j) × (j < length qs) × (get_or qs j 0 ≡ p) × (test k ≡ true)
unfolding find_page
find_page_hit test p i k [] e = absurd (ground (arith, e))
find_page_hit test p i k (q ∷ qs) e = elim (Bool-cases (q == p && test i)) [
  | inl here ↦
      let same : i ≡ k = ground (arith, e) in
      (0, omega arith, omega arith, ground arith, rw (← same) (ground arith))
  | inr later ↦
      let (j, at, low, is_p, ok) = find_page_hit test p (suc i) k qs (simp later at e) in
      (suc j, omega arith, omega arith, is_p, ok)
]

find_page_found :
    (test : ℕ → Bool) (p i j : ℕ) (qs : List ℕ)
    → j < length qs
    → get_or qs j 0 ≡ p
    → test (i + j) ≡ true
    → is_some (find_page test p i qs) ≡ true
unfolding find_page
find_page_found test p i j [] low at ok = absurd (omega arith)
find_page_found test p i zero (q ∷ qs) low at ok =
    let e : i + 0 ≡ i = omega arith in
    let t : test i ≡ true = rw e at ok in let s : (q == p) ≡ true = ground arith in simp (s, t) refl
find_page_found test p i (suc j) (q ∷ qs) low at ok = elim (Bool-cases (q == p && test i)) [
  | inl here ↦ simp here refl
  | inr later ↦
      let e : i + suc j ≡ suc i + j = omega arith in
      simp later (find_page_found test p (suc i) j qs (omega arith) at (rw e at ok))
]

get_or-contains : (qs : List ℕ) (j : ℕ) → j < length qs → contains (get_or qs j 0) qs ≡ true
unfolding contains
get_or-contains [] j low = absurd (omega arith)
get_or-contains (q ∷ qs) zero low = ground arith
get_or-contains (q ∷ qs) (suc j) low = ground (arith, get_or-contains qs j (omega arith))

distinct_index :
    (qs : List ℕ) (j k : ℕ)
    → IsDistinct qs
    → j < length qs
    → k < length qs
    → get_or qs j 0 ≡ get_or qs k 0
    → j ≡ k
distinct_index [] j k d lj lk e = absurd (omega arith)
distinct_index (q ∷ qs) zero zero d lj lk e = refl
distinct_index (q ∷ qs) zero (suc k) d lj lk e =
    let there : contains q qs ≡ true = rw e (get_or-contains qs k (omega arith)) in
    absurd (ground arith)
distinct_index (q ∷ qs) (suc j) zero d lj lk e =
    let there : contains q qs ≡ true = rw (← e) (get_or-contains qs j (omega arith)) in
    absurd (ground arith)
distinct_index (q ∷ qs) (suc j) (suc k) d lj lk e =
    ap suc (distinct_index qs j k d.1 (omega arith) (omega arith) e)

is_some→ : (o : Option ℕ) → is_some o ≡ true → (i : ℕ) × (o ≡ some i)
is_some→ none e = absurd (ground arith)
is_some→ (some i) e = (i, refl)

ready_slot :
    (p : ℕ) (h : HidePipe)
    → page_ready p h ≡ true
    → (s : ℕ) × (i : ℕ) × (s < kslots)
      × ((h.slot s).active ≡ true)
      × ((h.slot s).ready i ≡ true)
      × IsAt p i (h.slot s)
unfolding page_ready
ready_slot p h e =
    let (s, at) = is_some→ (find_slot (λ s. holds_ready p (h.slot s)) kslots 0) e in
    let found : FirstSlot (λ s. holds_ready p (h.slot s)) kslots s =
      rw at at (find_slot-OneOf (λ s. holds_ready p (h.slot s)) kslots) in
    let (i, page) =
      is_some→ (find_page (h.slot s).ready p 0 (h.slot s).pages) (ground (arith, found.1)) in
    let (j, same, low, is_p, ok) = find_page_hit (h.slot s).ready p 0 i (h.slot s).pages page in
    let e : j ≡ i = omega arith in (s, j, found.0, ground (arith, found.1), rw e ok, (low, is_p))

IsAt-contains : (p i : ℕ) (s : HideInflight) → IsAt p i s → contains p s.pages ≡ true
IsAt-contains p i s (low, at) = rw (← at) (get_or-contains s.pages i low)

-- The index of a page in a slot that holds it once.
bounce_at_lem :
    (p i : ℕ) (s : HideInflight) (mem : ℕ → ℕ)
    → IsDistinct s.pages
    → length s.pages ≤ s.host_n
    → s.host_mem ≡ some mem
    → IsAt p i s
    → bounce_at p s ≡ some i
bounce_at_lem p i s mem d within m (low, at) =
    let ok : ltb (0 + i) s.host_n ≡ true = ground arith in
    let (k, found) = is_some→ _ (find_page_found (λ i. ltb i s.host_n) p 0 i s.pages low at ok) in
    let (j, same, low', at', _) = find_page_hit (λ i. ltb i s.host_n) p 0 k s.pages found in
    let e : k ≡ i = omega (arith, same, distinct_index s.pages j i d low' low (at' ∙ sym at)) in
    rw (m, bounce_at) (found ∙ ap some e)

-- Where the slot has host memory, its pages are searched.
bounce_at_some :
    (p : ℕ) (s : HideInflight)
    → is_some (bounce_at p s) ≡ true
    → is_some (find_page (λ i. ltb i s.host_n) p 0 s.pages) ≡ true
bounce_at_some p s e = elim (Option-cases s.host_mem) [
  | inl missing ↦ absurd (ground (arith, rw (missing, bounce_at) at e))
  | inr (mem, m) ↦ rw (m, bounce_at) at e
]

host_page-some :
    (i : ℕ) (s : HideInflight) (mem : ℕ → ℕ)
    → s.host_mem ≡ some mem
    → host_page i s ≡ some (λ a. mem (i * s.host_pb + a))
host_page-some i s mem m = rw (m, host_page) refl

bounce_page_at :
    (p t i : ℕ) (h : HidePipe)
    → find_slot (λ s. bounce_in p (h.slot s)) kslots 0 ≡ some t
    → bounce_at p (h.slot t) ≡ some i
    → bounce_page p h ≡ host_page i (h.slot t)
unfolding bounce_page
bounce_page_at p t i h found at = rw (found, bounce_page) (rw (at, bounce_page) refl)

bounce_in-holds : (p : ℕ) (s : HideInflight) → bounce_in p s ≡ true → holds p s ≡ true
bounce_in-holds p s e =
    let (active, found) = both s.active (is_some (bounce_at p s)) e in
    let (i, at) = is_some→ _ (bounce_at_some p s found) in
    let (j, _, low, is_p, _) = find_page_hit (λ i. ltb i s.host_n) p 0 i s.pages at in
    let there = IsAt-contains p j s (low, is_p) in ground arith
  where
    both : (a b : Bool) → (a && b) ≡ true → (a ≡ true) × (b ≡ true)
    both a b e = (ground arith, ground arith)

-- A page that is ready is found by bounce_page, with the bytes of the SSD.
pub page_ready-bounce :
    (ssd : ℕ → ℕ) (p : ℕ) (h : HidePipe)
    → IsHosted ssd h
    → page_ready p h ≡ true
    → (base : ℕ → ℕ) × (bounce_page p h ≡ some base)
      × ((k : ℕ) → k < h.win.page_bytes → base k ≡ ssd (p + k))
page_ready-bounce ssd p h v e =
    let (s, i, lt, on, ready, at) = ready_slot p h e in
    let (mem, m, bytes) = v.hosted s i lt on ready at.0 in
    let here = bounce_at_lem p i (h.slot s) mem (v.distinct s lt on) (v.within s lt on) m at in
    let passes : bounce_in p (h.slot s) ≡ true = simp (on, here) refl in
    elim (Option-cases (find_slot (λ s. bounce_in p (h.slot s)) kslots 0)) [
      | inl no_slot ↦
          let fails : bounce_in p (h.slot s) ≡ false =
            (rw no_slot at (find_slot-OneOf (λ s. bounce_in p (h.slot s)) kslots)) s lt in
          absurd (ground arith)
      | inr (t, found) ↦
          let first : FirstSlot (λ s. bounce_in p (h.slot s)) kslots t =
            rw found at (find_slot-OneOf (λ s. bounce_in p (h.slot s)) kslots) in
          let there = IsAt-contains p i (h.slot s) at in
          let same : t ≡ s =
            v.apart p t s first.0 lt (bounce_in-holds p (h.slot t) first.1) (ground arith) in
          (
            λ a. mem (i * (h.slot s).host_pb + a),
            bounce_page_at p t i h found (rw same here)
                ∙ ap (λ r. host_page i (h.slot r)) same
                ∙ host_page-some i (h.slot s) mem m,
            λ k low. bytes k low ∙ ap (λ q. ssd (q + k)) at.1,
          )
    ]
