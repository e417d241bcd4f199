-- ===== src/HideFill/Vectors.antt =====
-- The vectors read through HidePipe of serving/hide_fill.hpp, under each score.
use cxl_anns_kx.Base.{
  ℕ, ◌+◌, ◌-◌, ◌<◌, ◌≤◌, ◌≡◌, refl, ap, ltb, true, Bool-cases, inl, inr, List, [], ◌∷◌, Option,
  some, Option-cases, arith, max,
}
use cxl_anns_kx.Base.Words.{u64_mod, page_floor, IsPageSize}
use cxl_anns_kx.Base.Lists.{contains}
use cxl_anns_kx.Base.Search.{bytes_at}
use cxl_anns_kx.Base.Dict.{lookup, has}
use cxl_anns_kx.DramWindow.State.{Window}
use cxl_anns_kx.DramWindow.Promote.{pages_of}
use cxl_anns_kx.DramWindow.Coherence.{IsCoherent}
use cxl_anns_kx.DramWindow.Reads.{all_mapped, is_resident, try_ptr_resident}
use cxl_anns_kx.DramWindow.Copies.{try_copy_resident_lem, bytes_at_eq, page_floor_bounds}
use cxl_anns_kx.HideFill.{HideScore}
use cxl_anns_kx.HideFill.Pipe.{HidePipe, covers, covers_all, bounce_page, vec_src, source_on}
use cxl_anns_kx.HideFill.Reads.{copy_on, copy_vec, source_bytes, read_from, read_vec}
use cxl_anns_kx.HideFill.Hosted.{page_ready-bounce}
use cxl_anns_kx.HideFill.Ranges.{
  bounce_loop_lem, Needs, IsTrue, covers_all_at, page_floor_idem, Hosts, is_resident_page,
  pages_of_offset, try_ptr_lem,
}

-- What is read under a score.
abbrev Read : HideScore → (ℕ → ℕ) → ℕ → ℕ → HidePipe → HidePipe × Option (List ℕ)
Read s ssd off vb h = read_from ssd vb h (source_on s off vb h) (copy_on s ssd off vb h)

module _ (ssd : ℕ → ℕ) (off vb : ℕ) (h : HidePipe) (page : IsPageSize h.win.page_bytes)
    (pos : 0 < vb) (fits : off + vb ≤ u64_mod) where
  -- A range of which each page is in the window is read from the window.
  window_read :
      IsCoherent ssd h.win.frames
      → is_resident off vb h.win ≡ true
      → Read HideScore.window ssd off vb h ≡ (h, some (bytes_at ssd off vb))
  unfolding source_on copy_on read_from source_bytes
  window_read coherent all =
      let pb = h.win.page_bytes in
      let copied = try_copy_resident_lem ssd off vb h.win pos fits page coherent in
      elim (Bool-cases (ltb pb (off - page_floor pb off + vb))) [
        | inl spans ↦ simp (spans, copied, all) refl
        | inr one ↦ elim (Option-cases (try_ptr_resident off vb h.win)) [
          | inl absent ↦ simp (one, absent, copied, all) refl
          | inr (a, at) ↦
              let bytes = try_ptr_lem ssd off vb h.win pos fits page coherent (ground arith) a at in
              simp (one, at) (ap (λ b. (h, some b)) bytes)
        ]
      ]

  bounce_read :
      ((c : ℕ)
        → c < vb
        → Hosts ssd (λ p. bounce_page p h) h.win.page_bytes (page_floor h.win.page_bytes (off + c)))
      → Read HideScore.bounce ssd off vb h ≡ (h, some (bytes_at ssd off vb))
  unfolding source_on copy_on read_from source_bytes
  bounce_read hosted =
      let pb = h.win.page_bytes in
      let z : off + 0 ≡ off = omega arith in
      let y : vb - 0 ≡ vb = omega arith in
      elim (Bool-cases (ltb pb (off - page_floor pb off + vb))) [
        | inl spans ↦
            let copied =
              rw (z, y) at
                (bounce_loop_lem ssd (λ p. bounce_page p h) pb off vb page fits hosted vb 0
                  (omega arith)) in
            simp (spans, copied) refl
        | inr one ↦
            let (base, at, bytes) = rw z at (hosted 0 pos) in
            let (low, high) = page_floor_bounds off page (omega arith) in
            let read : bytes_at (λ a. base (off - page_floor pb off + a)) 0 vb
                ≡ bytes_at ssd off vb =
              bytes_at_eq _ _ 0 off vb (λ j lt.
                let e : off + j ≡ page_floor pb off + (off - page_floor pb off + j) = omega arith in
                let first : 0 + j ≡ j = omega arith in
                rw (first, e) (bytes (off - page_floor pb off + j) (ground arith))) in
            simp (one, at) (ap (λ b. (h, some b)) read)
      ]

all_mapped_lem :
    (ps : List ℕ) (w : Window)
    → ((p : ℕ) → contains p ps ≡ true → (fr : ℕ) × (lookup p w.map ≡ some fr))
    → all_mapped ps w ≡ true
unfolding all_mapped contains
all_mapped_lem [] w h = refl
all_mapped_lem (p ∷ ps) w h =
    let (fr, at) = h p (ground arith) in
    let here : has p w.map ≡ true = ground (arith, at) in
    let later = all_mapped_lem ps w (λ q there. h q (ground (arith, there))) in ground arith

module _ (ssd : ℕ → ℕ) (off vb : ℕ) (h : HidePipe) (need : List ℕ)
    (page : IsPageSize h.win.page_bytes) (pos : 0 < vb) (fits : off + vb ≤ u64_mod)
    (all : covers_all need h ≡ true) (needs : Needs h.win.page_bytes off vb need) where
  covered_page : (c : ℕ) → c < vb → covers (page_floor h.win.page_bytes (off + c)) h ≡ true
  covered_page c lt = covers_all_at need _ h all (needs c lt)

  window_resident : h.score ≡ HideScore.window → is_resident off vb h.win ≡ true
  unfolding is_resident covers
  window_resident sc =
      let whole : max vb 1 ≡ vb = omega arith in
      let pb = h.win.page_bytes in
      rw whole (
        all_mapped_lem (pages_of pb off vb) h.win (λ p there.
          let (c, lt, at) = pages_of_offset off vb p page pos fits there in
          let (low, high) = page_floor_bounds (off + c) page (omega arith) in
          let res : is_resident (page_floor pb (off + c)) 1 h.win ≡ true =
            simp sc at (covered_page c lt) in
          rw at (
            is_resident_page _ h.win page (omega arith)
              (page_floor_idem (off + c) page (omega arith)) res)))

  read_on :
      (s : HideScore)
      → h.score ≡ s
      → IsTrue s ssd h
      → Read s ssd off vb h ≡ (h, some (bytes_at ssd off vb))
  unfolding source_on read_from source_bytes covers
  read_on HideScore.vmem sc v = refl
  read_on HideScore.window sc v = window_read ssd off vb h page pos fits v (window_resident sc)
  read_on HideScore.bounce sc v = bounce_read ssd off vb h page pos fits (λ c lt.
      page_ready-bounce ssd (page_floor h.win.page_bytes (off + c)) h v
        (simp sc at (covered_page c lt)))

  -- A vector of which each page is named and covered is read, with the bytes of the SSD, and the
  -- pipe is as before, if what its score relies on holds.
  pub read_vec_lem : IsTrue h.score ssd h → read_vec ssd off vb h ≡ (h, some (bytes_at ssd off vb))
  unfolding read_vec vec_src copy_vec
  read_vec_lem v = read_on h.score refl v
