-- ===== src/Hop/Drains.antt =====
-- p3q_drain of serving/search_beam.cpp: the entries that are scored and those that stay.
use cxl_anns_kx.Base.{
  ℕ, ◌+◌, ◌<◌, ◌≤◌, ◌≡◌, ◌∙◌, refl, ap, sym, if◌then◌else◌, ltb, ◌==◌, false, Bool-cases, inl, inr,
  List, [], ◌∷◌, ◌++◌, Option, none, some, arith,
}
use cxl_anns_kx.Base.Words.{u64_mod, IsPageSize}
use cxl_anns_kx.Base.Lists.{length, All}
use cxl_anns_kx.Base.Search.{bytes_at}
use cxl_anns_kx.Metrics.{Metrics}
use cxl_anns_kx.Placement.{vec}
use cxl_anns_kx.DramWindow.State.{Window, with_met}
use cxl_anns_kx.DramWindow.Coherence.{IsCoherent}
use cxl_anns_kx.DramWindow.Reads.{is_resident, all_mapped, try_copy_resident}
use cxl_anns_kx.DramWindow.Copies.{try_copy_resident_lem}
use cxl_anns_kx.Beam.{Search}
use cxl_anns_kx.Query.{Image}
use cxl_anns_kx.Hop.{
  Pend, P3Q, erase_id, p3q_insert, note_drained, drain_one, drain_loop, p3q_drain,
}

-- The entries whose vectors are not in the window, in order.
unfoldable pub absent : Image → Window → List Pend → List Pend
absent im w [] = []
absent im w (e ∷ es) =
    let rest = absent im w es in
    if is_resident (vec im.hdr e.id im.pl) im.vb w then rest else e ∷ rest

-- The query after the entries whose vectors are in the window were scored on the bytes of the SSD, in
-- order.
unfoldable pub scored :
    {D : Type 0} → Search D → (List ℕ → D) → Image → Window → List Pend → P3Q D → P3Q D
unfolding p3q_insert erase_id
scored s mips im w [] q = q
scored s mips im w (e ∷ es) q =
    let at = vec im.hdr e.id im.pl in
    let taken =
      p3q_insert s e.id (mips (bytes_at im.ssd at im.vb))
        (record q { pending_set = erase_id e.id q.pending_set }) in
    scored s mips im w es (if is_resident at im.vb w then taken else q)

-- The window, with what was counted meanwhile.
abbrev counted : Window → Option Metrics → Window
counted w m = record w { met = m }

append_nil : {A : Type 0} (xs : List A) → xs ++ [] ≡ xs
append_nil [] = refl
append_nil (x ∷ xs) = ap (◌∷◌ x) (append_nil xs)

append_one : {A : Type 0} (xs : List A) (x : A) (ys : List A) → (xs ++ x ∷ []) ++ ys ≡ xs ++ x ∷ ys
append_one [] x ys = refl
append_one (z ∷ xs) x ys = ap (◌∷◌ z) (append_one xs x ys)

mapped_met :
    (ps : List ℕ) (w : Window) (m : Option Metrics) → all_mapped ps (counted w m) ≡ all_mapped ps w
unfolding all_mapped
mapped_met [] w m = refl
mapped_met (p ∷ ps) w m = simp (mapped_met ps w m) refl

resident_met :
    (off n : ℕ) (w : Window) (m : Option Metrics)
    → is_resident off n (counted w m) ≡ is_resident off n w
unfolding is_resident
resident_met off n w m = mapped_met _ w m

no_entries : (es : List Pend) → length es ≡ 0 → es ≡ []
no_entries [] e = refl
no_entries (x ∷ xs) e = absurd (omega arith)

module _ {D : Type 0} (s : Search D) (mips : List ℕ → D) (im : Image) (w : Window) (pos : 0 < im.vb)
    (page : IsPageSize w.page_bytes) (coherent : IsCoherent im.ssd w.frames) where
  drain_loop_lem :
      (es still : List Pend) (q : P3Q D) (m : Option Metrics)
      → All (λ e. vec im.hdr e.id im.pl + im.vb ≤ u64_mod) es
      → (m1 : Option Metrics) × (drain_loop s mips im w.page_bytes es (still, q, counted w m)
          ≡ (still ++ absent im w es, scored s mips im w es q, counted w m1))
  unfolding drain_loop drain_one absent scored
  drain_loop_lem [] still q m fits = (m, simp (append_nil still) refl)
  drain_loop_lem (e ∷ es) still q m (fit, fits) =
      let at = vec im.hdr e.id im.pl in
      let read = try_copy_resident_lem im.ssd at im.vb (counted w m) pos fit page coherent in
      let same = resident_met at im.vb w m in
      let rest = drain_loop s mips im w.page_bytes es in
      elim (Bool-cases (is_resident at im.vb w)) [
        | inl here ↦
            let got : try_copy_resident at im.vb (counted w m)
                ≡ (counted w m, some (bytes_at im.ssd at im.vb)) =
              read
              ∙ ap (λ b. (counted w m, if b then some (bytes_at im.ssd at im.vb) else none))
                  (same ∙ here) in
            let (m1, r) =
              drain_loop_lem es still
                (p3q_insert s e.id (mips (bytes_at im.ssd at im.vb))
                  (record q { pending_set = erase_id e.id q.pending_set }))
                (with_met (note_drained im w.page_bytes e.id) m) fits in
            (
              m1,
              simp here
                  (ap (λ t. rest (drain_one s mips im w.page_bytes e t.1 (still, q, t.0))) got ∙ r),
            )
        | inr gone ↦
            let got : try_copy_resident at im.vb (counted w m) ≡ (counted w m, none) =
              read
              ∙ ap (λ b. (counted w m, if b then some (bytes_at im.ssd at im.vb) else none))
                  (same ∙ gone) in
            let (m1, r) = drain_loop_lem es (still ++ e ∷ []) q m fits in
            (
              m1,
              simp gone (
                  ap (λ t. rest (drain_one s mips im w.page_bytes e t.1 (still, q, t.0))) got
                  ∙ r
                  ∙ ap (λ l. (l, scored s mips im w es q, counted w m1))
                      (append_one still e (absent im w es))),
            )
      ]

  -- With non-empty vectors that fit the buffer and end within 2^64, a power of two as the
  -- page size and a window whose frames hold the bytes of the SSD, a drain keeps pending, in
  -- order, exactly the entries whose vectors are not in the window. It scores the others in
  -- order on the bytes of their vectors on the SSD, and changes nothing of the window but
  -- what it counts.
  pub p3q_drain_lem :
      (q : P3Q D)
      → im.vb ≤ 4096
      → All (λ e. vec im.hdr e.id im.pl + im.vb ≤ u64_mod) q.pending
      → (m1 : Option Metrics) × (p3q_drain s mips im q w
          ≡ some (
            record (scored s mips im w q.pending q) { pending = absent im w q.pending },
            record w { met = m1 },
          ))
  unfolding p3q_drain absent scored
  p3q_drain_lem q small fits =
      let (m1, r) = drain_loop_lem q.pending [] q w.met fits in
      let big : ltb 4096 im.vb ≡ false = ground arith in
      elim (Bool-cases (length q.pending == 0)) [
        | inr some_left ↦
            (m1, simp (some_left, big) (ap (λ t. some (record (t.1) { pending = t.0 }, t.2)) r))
        | inl empty ↦
            let nothing = no_entries q.pending (ground arith) in
            (
              w.met,
              simp empty (
                  ap (λ ps. some (record q { pending = ps }, w)) nothing
                  ∙ ap
                      (λ ps.
                        some (record (scored s mips im w ps q) { pending = absent im w ps }, w))
                      (sym nothing)),
            )
      ]
