-- ===== src/HideFill/Bundled.antt =====
-- The pages that hide_collect_bundle_pages of serving/hide_fill.hpp collects.
use cxl_anns_kx.Base.{
  ℕ, zero, suc, ◌+◌, ◌-◌, ◌*◌, ◌/◌, ◌%◌, ◌<◌, ◌≤◌, ◌≡◌, ◌∙◌, refl, ap, sym, leb, ◌==◌, true, false,
  Bool-cases, inl, inr, not, ◌||◌, ◌&&◌, List, [], ◌∷◌, some, arith, eq-or-ne, subst, ◌⊎◌,
}
use native.Mathlib.Nat.{le-div_iff_mul-le, mod-add-div', mul-mod_left}
use cxl_anns_kx.Base.Words.{u64_mod, page_floor, IsPageSize, IsPageSize-pos}
use cxl_anns_kx.Base.Lists.{length, contains, get_or}
use cxl_anns_kx.DramWindow.Promote.{page_range, pages_of}
use cxl_anns_kx.DramWindow.Copies.{page_floor_bounds, page_floor-div, pages_of-contains}
use cxl_anns_kx.Placement.{Header, Placement, has_bundle, bundle_slot, packed_vec_bytes}
use cxl_anns_kx.HideFill.Bundles.{
  UseTest, Collected, is_seen, is_empty, contains-more, visit_page, visit_pages, visit_nbrs,
  IsKnown, visit_nbrs-IsCollected, hide_collect_bundle_pages,
}

-- The page q holds the byte at x.
abbrev pub HoldsByte : ℕ → ℕ → ℕ → Type 0
HoldsByte pb q x = (q % pb ≡ 0) × (q ≤ x) × (x < q + pb)

page_range-step :
    (fuel p last pb q : ℕ)
    → contains q (page_range fuel p last pb) ≡ true
    → (j : ℕ) × (q ≡ p + j * pb) × (q ≤ last)
unfolding page_range contains
page_range-step zero p last pb q h = absurd (ground (arith, h))
page_range-step (suc fuel) p last pb q h = elim (Bool-cases (leb p last)) [
  | inr over ↦ absurd (unfold contains in ground (arith, simp over at h))
  | inl on ↦
      let there = simp on at h in
      elim (eq-or-ne q p) [
        | inl first ↦ (0, omega arith, ground arith)
        | inr later ↦
            let (j, e, le) = page_range-step fuel (p + pb) last pb q (ground (arith, there)) in
            (suc j, omega arith, le)
      ]
]

quotient : (pb q x : ℕ) → 0 < pb → HoldsByte pb q x → x / pb ≡ q / pb
quotient pb q x pos (aligned, low, high) =
    let whole : q / pb * pb ≡ q = omega (arith, mod-add-div' q pb) in
    let at_least : q / pb ≤ x / pb = (le-div_iff_mul-le pos).1 (omega arith) in
    elim (Bool-cases (leb (suc (q / pb)) (x / pb))) [
      | inl more ↦
          let le : suc (q / pb) ≤ x / pb = ground arith in
          let far : suc (q / pb) * pb ≤ x = (le-div_iff_mul-le pos).0 le in
          let next : suc (q / pb) * pb ≡ pb + q / pb * pb = omega arith in absurd (omega arith)
      | inr exact ↦ ground arith
    ]

module _ {pb : ℕ} (off n : ℕ) (page : IsPageSize pb) (fits : off + n ≤ u64_mod) where
  pub pages_of-held :
      (q c : ℕ) → c < n → HoldsByte pb q (off + c) → contains q (pages_of pb off n) ≡ true
  pages_of-held q c lt holds =
      let there = pages_of-contains off n c page fits lt in
      let floor = page_floor-div (off + c) page (omega arith) in
      let same = quotient pb q (off + c) (IsPageSize-pos page) holds in
      let whole : q / pb * pb ≡ q = omega (arith, mod-add-div' q pb, holds.0) in
      let at : page_floor pb (off + c) ≡ q = floor ∙ ap (λ (k : ℕ). k * pb) same ∙ whole in
      ap (λ x. contains x (pages_of pb off n)) (sym at) ∙ there

  pub pages_of-holds :
      (q : ℕ)
      → 0 < n
      → contains q (pages_of pb off n) ≡ true
      → (c : ℕ) × (c < n) × HoldsByte pb q (off + c)
  unfolding pages_of
  pages_of-holds q some_bytes h =
      let pos = IsPageSize-pos page in
      let last = page_floor pb (off + n - 1) in
      let (j, e, le) = page_range-step _ (page_floor pb off) last pb q h in
      let floor = page_floor-div off page (omega arith) in
      let (low, high) = page_floor_bounds off page (omega arith) in
      let (low1, high1) = page_floor_bounds (off + n - 1) page (omega arith) in
      let aligned : q % pb ≡ 0 = multiple (off / pb) j (e ∙ ap (λ a. a + j * pb) floor) in
      elim (Bool-cases (leb q off)) [
        | inl first ↦ (0, some_bytes, (aligned, ground arith, grown j e low high))
        | inr later ↦ (q - off, ground arith, (aligned, ground arith, ground arith))
      ]
    where
      multiple : (a j : ℕ) → q ≡ a * pb + j * pb → q % pb ≡ 0
      multiple a j e =
          let sum : q ≡ (a + j) * pb = omega arith in ap (λ x. x % pb) sum ∙ mul-mod_left (a + j) pb

      grown :
          (j : ℕ)
          → q ≡ page_floor pb off + j * pb
          → page_floor pb off ≤ off
          → off < page_floor pb off + pb
          → off + 0 < q + pb
      grown j e low high = omega arith

module _ (h : Header) (pl : Placement) (vb pb : ℕ) (want : List ℕ) (t : UseTest)
    (unlimited : t.has_min ≡ false) where
  visit_page-new :
      (p : ℕ) (c : Collected) (q : ℕ)
      → contains q (visit_page h pl vb pb want t p c).pages ≡ true
      → (contains q c.pages ≡ true) ⊎ (q ≡ p)
  unfolding visit_page
  visit_page-new p c q there = elim (Bool-cases (is_seen p c.seen)) [
    | inl seen ↦ inl (simp seen at there)
    | inr new ↦
        let grown = contains-more q p c.pages in
        let one : (contains q c.pages || q == p) ≡ true =
          sym grown ∙ (simp (new, unlimited) at there) in
        elim (Bool-cases (contains q c.pages)) [
          | inl old ↦ inl old
          | inr other ↦ inr (ground arith)
        ]
  ]

  visit_pages-new :
      (ps : List ℕ) (c : Collected) (q : ℕ)
      → contains q (visit_pages h pl vb pb want t ps c).pages ≡ true
      → (contains q c.pages ≡ true) ⊎ (contains q ps ≡ true)
  unfolding visit_pages contains
  visit_pages-new [] c q there = inl there
  visit_pages-new (p ∷ ps) c q there =
      elim (visit_pages-new ps (visit_page h pl vb pb want t p c) q there) [
        | inr later ↦ inr (ground arith)
        | inl now ↦ elim (visit_page-new p c q now) [
          | inl old ↦ inl old
          | inr same ↦ inr (ground arith)
        ]
      ]

  -- The i-th neighbour is wanted.
  abbrev pub IsWanted : List ℕ → ℕ → Type 0
  IsWanted nbrs i = (is_empty want || contains (get_or nbrs i 0) want) ≡ true

  visit_nbrs-new :
      (src k : ℕ) (nbrs : List ℕ) (c : Collected) (q : ℕ)
      → contains q (visit_nbrs h pl vb pb want t src k nbrs c).pages ≡ true
      → (contains q c.pages ≡ true)
        ⊎ ((i : ℕ) × (i < length nbrs)
            × IsWanted nbrs i
            × (contains q (pages_of pb (bundle_slot src (k + i) pl) (packed_vec_bytes pl)) ≡ true))
  unfolding visit_nbrs
  visit_nbrs-new src k [] c q there = inl there
  visit_nbrs-new src k (nbr ∷ nbrs) c q there =
      let slot = pages_of pb (bundle_slot src k pl) (packed_vec_bytes pl) in
      let visited = visit_pages h pl vb pb want t slot c in
      elim (Bool-cases (not (is_empty want) && not (contains nbr want))) [
        | inl skip ↦ elim (visit_nbrs-new src (suc k) nbrs c q (simp skip at there)) [
          | inl old ↦ inl old
          | inr (i, lt, wanted, on) ↦ inr (suc i, omega arith, wanted, next_slot src k i q on)
        ]
        | inr visit ↦ elim (visit_nbrs-new src (suc k) nbrs visited q (simp visit at there)) [
          | inr (i, lt, wanted, on) ↦ inr (suc i, omega arith, wanted, next_slot src k i q on)
          | inl now ↦ elim (visit_pages-new slot c q now) [
            | inl old ↦ inl old
            | inr here ↦
                let e : k ≡ k + 0 = omega arith in
                inr (
                  0,
                  omega arith,
                  ground arith,
                  ap (λ x. contains q (pages_of pb (bundle_slot src x pl) (packed_vec_bytes pl)))
                        (sym e)
                      ∙ here,
                )
          ]
        ]
      ]
    where
      next_slot :
          (src k i q : ℕ)
          → contains q (pages_of pb (bundle_slot src (suc k + i) pl) (packed_vec_bytes pl)) ≡ true
          → contains q (pages_of pb (bundle_slot src (k + suc i) pl) (packed_vec_bytes pl)) ≡ true
      next_slot src k i q on =
          let e : k + suc i ≡ suc k + i = omega arith in
          ap (λ x. contains q (pages_of pb (bundle_slot src x pl) (packed_vec_bytes pl))) e ∙ on

-- The page q holds a byte of a wanted neighbour of `src`: the vectors of the neighbours of a record
-- follow one another in its bundle.
pub record IsNeeded (h : Header) (pl : Placement) (pb : ℕ) (want : List ℕ) (src : ℕ) (nbrs : List ℕ)
    (q : ℕ) : Type 0 where
  pub i : ℕ
  pub byte : ℕ
  pub listed : i < length nbrs
  pub wanted : (is_empty want || contains (get_or nbrs i 0) want) ≡ true
  pub inside : byte < h.dim * h.vec_bytes
  pub held :
      HoldsByte pb q (pl.bundle_off + src * pl.bundle_stride + i * (h.dim * h.vec_bytes) + byte)

split_row : (i d b : ℕ) → (i + suc d) * b ≡ i * b + b + d * b
split_row i d b = omega arith

next_row : (i n b : ℕ) → i < n → i * b + b ≤ n * b
next_row i n b lt =
    let e : n ≡ i + suc (n - suc i) = omega arith in
    let all = ap (λ (t : ℕ). t * b) e ∙ split_row i (n - suc i) b in omega (arith, all)

-- For a placement with bundles, vectors that are not empty, a power of two as the page size, a
-- bundle that ends within 2^64 and no least share of use, from collected pages whose set of
-- pages seen is given: each page that holds a byte of the vector of a wanted neighbour in the
-- bundle of `src` is among the pages collected, or had been seen before; and each page
-- collected was collected before or holds such a byte. An empty set of wanted ids wants them
-- all.
pub hide_collect_bundle_pages-IsCollected :
    (h : Header) (pl : Placement) (vb pb : ℕ) (want : List ℕ) (t : UseTest) (src : ℕ)
    (nbrs before : List ℕ) (c : Collected) (q : ℕ)
    → t.has_min ≡ false
    → c.seen ≡ some before
    → has_bundle pl ≡ true
    → pl.hdr ≡ some h
    → 0 < h.dim * h.vec_bytes
    → IsPageSize pb
    → pl.bundle_off + src * pl.bundle_stride + length nbrs * (h.dim * h.vec_bytes) ≤ u64_mod
    → let d = hide_collect_bundle_pages h pl vb pb want t src nbrs c in
      (IsNeeded h pl pb want src nbrs q → (contains q d.pages || contains q before) ≡ true)
      × (contains q d.pages ≡ true → (contains q c.pages ≡ true) ⊎ IsNeeded h pl pb want src nbrs q)
unfolding hide_collect_bundle_pages
hide_collect_bundle_pages-IsCollected h pl vb pb want t src nbrs before c q unlimited seen bundle
      hdr some_bytes page fits =
    let size : packed_vec_bytes pl ≡ h.dim * h.vec_bytes = unfold packed_vec_bytes in rw hdr refl in
    let slot : (i : ℕ)
        → bundle_slot src i pl
          ≡ pl.bundle_off + src * pl.bundle_stride + i * (h.dim * h.vec_bytes) =
      λ i. unfold bundle_slot in ap (λ x. pl.bundle_off + src * pl.bundle_stride + i * x) size in
    let low : (i : ℕ) → i < length nbrs → bundle_slot src i pl + packed_vec_bytes pl ≤ u64_mod =
      λ i lt.
        let room = next_row i (length nbrs) (h.dim * h.vec_bytes) lt in
        omega (arith, slot i, size, room) in
    let from_zero : (i : ℕ)
        → contains q (pages_of pb (bundle_slot src (0 + i) pl) (packed_vec_bytes pl))
          ≡ contains q (pages_of pb (bundle_slot src i pl) (packed_vec_bytes pl)) =
      λ i.
        let e : 0 + i ≡ i = omega arith in
        ap (λ x. contains q (pages_of pb (bundle_slot src x pl) (packed_vec_bytes pl))) e in
    let known : IsKnown h pl vb pb want t before c =
      λ p s. let old = ap (λ o. is_seen p o) seen in ground (arith, old, s) in
    elim (Bool-cases (length nbrs == 0)) [
      | inl none_listed ↦
          simp (bundle, none_listed)
            (λ r. let lt = r.listed in absurd (ground arith), λ old. inl old)
      | inr some_nbrs ↦
          simp (bundle, some_nbrs)
            (
              λ r.
                  let at =
                    pages_of-held (bundle_slot src r.i pl) (packed_vec_bytes pl) page
                      (low r.i r.listed) q r.byte (omega (arith, size, r.inside))
                      (subst (λ x. HoldsByte pb q (x + r.byte)) (sym (slot r.i)) r.held) in
                  visit_nbrs-IsCollected h pl vb pb want t unlimited before src 0 nbrs c q r.i known
                    r.listed r.wanted (from_zero r.i ∙ at),
              λ there. elim (visit_nbrs-new h pl vb pb want t unlimited src 0 nbrs c q there) [
                | inl old ↦ inl old
                | inr (i, lt, wanted, on) ↦
                    let (byte, inside, held) =
                      pages_of-holds (bundle_slot src i pl) (packed_vec_bytes pl) page (low i lt) q
                        (omega (arith, size)) (sym (from_zero i) ∙ on) in
                    inr (record {
                      i = i;
                      byte = byte;
                      listed = lt;
                      wanted = wanted;
                      inside = omega (arith, size);
                      held = subst (λ x. HoldsByte pb q (x + byte)) (slot i) held;
                    })
              ],
            )
    ]
