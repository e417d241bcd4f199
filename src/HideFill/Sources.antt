-- ===== src/HideFill/Sources.antt =====
-- What the jobs of serving/hide_fill.hpp copy: the device's reads and the copies from the mapped SSD
-- bring the same bytes to the destination of a page.
use cxl_anns_kx.Base.{
  ℕ, zero, suc, ◌+◌, ◌<◌, ◌≤◌, ◌≡◌, ◌⊎◌, ◌∙◌, refl, ap, sym, ◌==◌, true, false, inl, inr, List, [],
  ◌∷◌, ◌++◌, map, none, some, arith, eq-or-ne, subst,
}
use cxl_anns_kx.Base.Words.{add64}
use cxl_anns_kx.Base.Lists.{length, All}
use cxl_anns_kx.DramWindow.State.{blit}
use cxl_anns_kx.DramWindow.Coherence.{blit_self}
use cxl_anns_kx.PageCopyPool.{Memory}
use cxl_anns_kx.Vmem.{VmemIo, Request, request}
use cxl_anns_kx.HideFill.Jobs.{Ioctl, FillTask, page_of, dest_of, requests, copy_pages}

-- A source that has the bytes of page j at `from`.
abbrev pub Supplies : FillTask → (ℕ → ℕ) → ℕ → ℕ → Type 0
Supplies t src from j = (k : ℕ) → k < t.page_bytes → src (from + k) ≡ t.ssd (page_of t j + k)

-- The device has the bytes of each page at its offset in the image.
abbrev pub IsMappedBy : FillTask → (ℕ → ℕ) → VmemIo → Type 0
IsMappedBy t disk io =
    (j : ℕ) → j < length t.pages → Supplies t disk (add64 io.image_off (page_of t j)) j

-- What the device has at an offset goes to the destination of a request.
abbrev pub copied : (ℕ → ℕ) → ℕ → Request → Memory → Memory
copied disk page_bytes (off, none) m = m
copied disk page_bytes (off, some d) m = record m { bytes = blit m.bytes d disk off page_bytes }

abbrev pub copy_all : (ℕ → ℕ) → ℕ → List Request → Memory → Memory
copy_all disk page_bytes [] m = m
copy_all disk page_bytes (r ∷ rs) m = copy_all disk page_bytes rs (copied disk page_bytes r m)

-- A batched read copies the pages of the batch in turn; one that fails stops after some of them.
abbrev pub Reads : (ℕ → ℕ) → ℕ → Ioctl → Type 0
Reads disk page_bytes ioctl =
    (batch : List Request) (m : Memory)
    → (sent : List Request) × (left : List Request) × (sent ++ left ≡ batch)
      × ((ioctl batch m).1 ≡ copy_all disk page_bytes sent m)
      × ((ioctl batch m).0 ≡ true → left ≡ [])

-- A prefetch fills the cache of the device, and no memory of the program.
abbrev pub IsQuiet : Ioctl → Type 0
IsQuiet ioctl = (batch : List Request) (m : Memory) → (ioctl batch m).1 ≡ m

-- The destination of page j holds the page.
abbrev pub IsFilledAt : FillTask → ℕ → Memory → Type 0
IsFilledAt t j m = (k : ℕ) → k < t.page_bytes → m.bytes (dest_of t j + k) ≡ t.ssd (page_of t j + k)

-- No two destinations share a byte.
abbrev pub AreApart : FillTask → Type 0
AreApart t =
    (i j : ℕ)
    → i < length t.pages
    → j < length t.pages
    → (i == j) ≡ false
    → (dest_of t i + t.page_bytes ≤ dest_of t j) ⊎ (dest_of t j + t.page_bytes ≤ dest_of t i)

-- The flags are those of before, and a page that was there still is.
abbrev pub Keeps : FillTask → Memory → Memory → Type 0
Keeps t m m' =
    ((a : ℕ) → m'.flag a ≡ m.flag a)
    × ((i : ℕ) → i < length t.pages → IsFilledAt t i m → IsFilledAt t i m')

pub Keeps-trans : (t : FillTask) (l m n : Memory) → Keeps t l m → Keeps t m n → Keeps t l n
Keeps-trans t l m n h k = (λ a. k.0 a ∙ h.0 a, λ i lt f. k.1 i lt (h.1 i lt f))

-- A copy into one destination leaves the others.
blit_beside :
    (bytes src : ℕ → ℕ) (a d from pb k : ℕ)
    → (a + pb ≤ d) ⊎ (d + pb ≤ a)
    → k < pb
    → blit bytes d src from pb (a + k) ≡ bytes (a + k)
unfolding blit
blit_beside bytes src a d from pb k gap low = ground arith

module _ (t : FillTask) (apart : AreApart t) where
  -- Page j, from a source that has its bytes at `from`.
  abbrev put : ℕ → (ℕ → ℕ) → ℕ → Memory → Memory
  put j src from m = record m { bytes = blit m.bytes (dest_of t j) src from t.page_bytes }

  put-fills :
      (src : ℕ → ℕ) (from j : ℕ) (m : Memory)
      → Supplies t src from j
      → IsFilledAt t j (put j src from m)
  put-fills src from j m has k lt =
      blit_self m.bytes src (dest_of t j) from t.page_bytes k lt ∙ has k lt

  put-Keeps :
      (src : ℕ → ℕ) (from j : ℕ) (m : Memory)
      → Supplies t src from j
      → j < length t.pages
      → Keeps t m (put j src from m)
  put-Keeps src from j m has lt = (
    λ a. refl,
    λ i li f. elim (eq-or-ne i j) [
      | inl same ↦
          subst (λ x. IsFilledAt t x (put j src from m)) (sym same) (put-fills src from j m has)
      | inr other ↦ λ k low.
          blit_beside m.bytes src (dest_of t i) (dest_of t j) from t.page_bytes k
            (apart i j li lt other) low
          ∙ f k low
    ],
  )

  -- The copies from the mapped SSD keep every page, and bring those of the job.
  pub copy_pages-Keeps :
      (rounds j : ℕ) (m : Memory)
      → j + rounds ≤ length t.pages
      → Keeps t m (copy_pages t rounds j m)
        × ((i : ℕ) → j ≤ i → i < j + rounds → IsFilledAt t i (copy_pages t rounds j m))
  unfolding copy_pages
  copy_pages-Keeps zero j m fits = ((λ a. refl, λ i lt f. f), λ i lo hi. absurd (omega arith))
  copy_pages-Keeps (suc rounds) j m fits =
      let m1 = put j t.ssd (page_of t j) m in
      let here : Keeps t m m1 = put-Keeps t.ssd (page_of t j) j m (λ k lt. refl) (omega arith) in
      let (kept, brought) = copy_pages-Keeps rounds (suc j) m1 (omega arith) in
      (
        Keeps-trans t m m1 (copy_pages t rounds (suc j) m1) here kept,
        λ i lo hi. elim (eq-or-ne i j) [
          | inl same ↦ kept.1 i (omega arith) (
              subst (λ x. IsFilledAt t x m1) (sym same)
                (put-fills t.ssd (page_of t j) j m (λ k lt. refl)))
          | inr other ↦ brought i (ground arith) (omega arith)
        ],
      )

  module _ (disk : ℕ → ℕ) where
    -- The request asks the device for a page of the issue, where the device has its bytes.
    abbrev pub IsGood : Request → Type 0
    IsGood r = (j : ℕ) × (j < length t.pages) × (r.1 ≡ some (dest_of t j)) × Supplies t disk r.0 j

    copied-put :
        (r : Request) (j : ℕ) (m : Memory)
        → r.1 ≡ some (dest_of t j)
        → copied disk t.page_bytes r m ≡ put j disk r.0 m
    copied-put r j m e = ap (λ d. copied disk t.page_bytes (r.0, d) m) e

    copied-Keeps : (r : Request) (m : Memory) → IsGood r → Keeps t m (copied disk t.page_bytes r m)
    copied-Keeps r m (j, lt, at, has) =
        subst (λ x. Keeps t m x) (sym (copied-put r j m at)) (put-Keeps disk r.0 j m has lt)

    pub copy_all-Keeps :
        (rs : List Request) (m : Memory)
        → All IsGood rs
        → Keeps t m (copy_all disk t.page_bytes rs m)
    copy_all-Keeps [] m good = (λ a. refl, λ i lt f. f)
    copy_all-Keeps (r ∷ rs) m good =
        let m1 = copied disk t.page_bytes r m in
        Keeps-trans t m m1 (copy_all disk t.page_bytes rs m1) (copied-Keeps r m good.0)
          (copy_all-Keeps rs m1 good.1)

    pub All-left : (xs ys : List Request) → All IsGood (xs ++ ys) → All IsGood xs
    All-left [] ys h = tt
    All-left (x ∷ xs) ys h = (h.0, All-left xs ys h.1)

    module _ (io : VmemIo) (mapped : IsMappedBy t disk io) where
      pub requests-IsGood :
          (rounds j : ℕ)
          → j + rounds ≤ length t.pages
          → All IsGood (map (request io) (requests t rounds j))
      unfolding requests
      requests-IsGood zero j fits = tt
      requests-IsGood (suc rounds) j fits =
          let lt : j < length t.pages = omega arith in
          ((j, lt, refl, mapped j lt), requests-IsGood rounds (suc j) (omega arith))

      pub requests-fill :
          (rounds j i : ℕ) (m : Memory)
          → j + rounds ≤ length t.pages
          → j ≤ i
          → i < j + rounds
          → IsFilledAt t i (copy_all disk t.page_bytes (map (request io) (requests t rounds j)) m)
      unfolding requests
      requests-fill zero j i m fits lo hi = absurd (omega arith)
      requests-fill (suc rounds) j i m fits lo hi =
          let lt : j < length t.pages = omega arith in
          let m1 = put j disk (add64 io.image_off (page_of t j)) m in
          elim (eq-or-ne i j) [
            | inl same ↦
                let later =
                  copy_all-Keeps (map (request io) (requests t rounds (suc j))) m1
                    (requests-IsGood rounds (suc j) (omega arith)) in
                later.1 i (omega arith) (
                  subst (λ x. IsFilledAt t x m1) (sym same)
                    (put-fills disk (add64 io.image_off (page_of t j)) j m (mapped j lt)))
            | inr other ↦
                requests-fill rounds (suc j) i m1 (omega arith) (ground arith) (omega arith)
          ]
