-- ===== src/HideFill/Pump.antt =====
-- hide_pump of serving/hide_fill.hpp: the three scores take the same pages from the workers, and
-- `ready_n`, on which hide_wait loops, counts them.
use cxl_anns_kx.Base.{
  ℕ, zero, suc, ◌+◌, ◌<◌, ◌≤◌, ◌≡◌, refl, ap, true, false, Bool-cases, inl, inr, ◌==◌, ◌||◌, not,
  [], ◌∷◌, ◌++◌, arith, eq-or-ne, leb, ◌∙◌, sym,
}
use cxl_anns_kx.Base.Lists.{length, length-append, get_or}
use cxl_anns_kx.Base.Dict.{has}
use cxl_anns_kx.Base.Counts.{taken, taken-update, taken-all}
use cxl_anns_kx.DramWindow.State.{Window, no_key, set_soft_ttl}
use cxl_anns_kx.DramWindow.Fills.{commit_fill}
use cxl_anns_kx.DramWindow.Residency.{IsSound}
use cxl_anns_kx.DramWindow.FillLaws.{IsFilled, commit_fill-IsSound}
use cxl_anns_kx.HideFill.{
  HideScore, is_window, HideInflight, host_page, is_due, consume, add_ready, mark_loop, commit_loop,
  install_loop, flush_batch, kbatch, Batch, hide_pump,
}

abbrev pub IsCounted : HideInflight → Type 0
IsCounted inf = inf.ready_n ≡ taken inf.consumed (length inf.pages)

abbrev Marked : ℕ → ℕ → HideInflight → HideInflight → Type 0
Marked n i inf q =
    (q.pages ≡ inf.pages)
    × (q.ready_n ≡ taken q.consumed n)
    × ((j : ℕ) → inf.consumed j ≡ true → q.consumed j ≡ true)
    × ((j : ℕ) → i ≤ j → j < n → inf.ready j ≡ true → q.consumed j ≡ true)

mark_loop-Marked :
    (n rounds i : ℕ) (inf : HideInflight)
    → i + rounds ≡ n
    → inf.ready_n ≡ taken inf.consumed n
    → Marked n i inf (mark_loop rounds i inf)
unfolding mark_loop
mark_loop-Marked n zero i inf e counted = (refl, counted, λ j h. h, λ j lo hi. absurd (omega arith))
mark_loop-Marked n (suc rounds) i inf e counted = elim (Bool-cases (is_due i inf)) [
  | inl due ↦
      let step =
        mark_loop-Marked n rounds (suc i) (add_ready 1 (consume i inf)) (omega arith)
          (omega (arith, taken-update inf.consumed n i (omega arith) (ground arith))) in
      rw (due, mark_loop)
        (
          step.0,
          step.1,
          λ j h. step.2 j (ground arith),
          λ j lo hi r. elim (eq-or-ne j i) [
            | inl same ↦ step.2 j (ground arith)
            | inr other ↦ step.3 j (ground arith) hi r
          ],
        )
  | inr idle ↦
      let step = mark_loop-Marked n rounds (suc i) inf (omega arith) counted in
      rw (idle, mark_loop)
        (
          step.0,
          step.1,
          step.2,
          λ j lo hi r. elim (eq-or-ne j i) [
            | inl same ↦ step.2 j (at_idle j same idle r)
            | inr other ↦ step.3 j (ground arith) hi r
          ],
        )
]
  where
    at_idle : (j : ℕ) → j ≡ i → is_due i inf ≡ false → inf.ready j ≡ true → inf.consumed j ≡ true
    at_idle j same idle r =
        let a = ap inf.consumed same in let b = ap inf.ready same in ground arith

commit_loop-mark :
    (rounds i : ℕ) (inf : HideInflight) (w : Window)
    → (commit_loop rounds i inf w).0 ≡ mark_loop rounds i inf
unfolding commit_loop mark_loop
commit_loop-mark zero i inf w = refl
commit_loop-mark (suc rounds) i inf w = commit_loop-mark rounds (suc i) _ _

install_loop-mark :
    (rounds i : ℕ) (batch : Batch) (inf : HideInflight) (w : Window)
    → (install_loop rounds i batch inf w).0 ≡ mark_loop rounds i (add_ready (length batch) inf)
unfolding install_loop mark_loop flush_batch
install_loop-mark zero i batch inf w = refl
install_loop-mark (suc rounds) i batch inf w = elim (Bool-cases (is_due i inf)) [
  | inl due ↦
      let grown = batch ++ (get_or inf.pages i 0, host_page i inf) ∷ [] in
      let one : inf.ready_n + length grown ≡ inf.ready_n + length batch + 1 =
        omega (arith, length-append batch ((get_or inf.pages i 0, host_page i inf) ∷ [])) in
      let same : mark_loop rounds (suc i) (add_ready (length grown) (consume i inf))
          ≡ mark_loop rounds (suc i) (add_ready 1 (consume i (add_ready (length batch) inf))) =
        ap (λ k. mark_loop rounds (suc i) (record (consume i inf) { ready_n = k })) one in
      elim (Bool-cases (length grown == kbatch)) [
        | inl full ↦
            rw (due, full)
              (install_loop-mark rounds (suc i) [] _ _
                ∙ ap (λ k. mark_loop rounds (suc i) (record (consume i inf) { ready_n = k }))
                    (omega arith)
                ∙ same)
        | inr open_yet ↦ rw (due, open_yet) (install_loop-mark rounds (suc i) grown _ _ ∙ same)
      ]
  | inr idle ↦ rw idle (install_loop-mark rounds (suc i) batch inf w)
]

-- What a pump does to an active fill is the same under each score and for each window: it marks
-- the pages that are ready.
pub hide_pump_same :
    (score : HideScore) (inf : HideInflight) (w : Window)
    → inf.active ≡ true
    → (hide_pump score inf w).0 ≡ mark_loop (length inf.pages) 0 inf
unfolding hide_pump
hide_pump_same score inf w on =
    let n = length inf.pages in
    let none_yet : mark_loop n 0 (record inf { ready_n = inf.ready_n + 0 }) ≡ mark_loop n 0 inf =
      ap (λ k. mark_loop n 0 (record inf { ready_n = k })) (omega arith) in
    simp on (elim (Bool-cases (is_window score)) [
      | inr out ↦ simp out refl
      | inl win ↦ elim (Bool-cases inf.direct) [
        | inl straight ↦ simp (win, straight) (commit_loop-mark n 0 inf w)
        | inr copied ↦ simp (win, copied) (install_loop-mark n 0 [] inf w ∙ none_yet)
      ]
    ])

-- A pump of an active fill keeps its pages, and keeps `ready_n` the number of pages taken,
-- under each score.
pub hide_pump-IsCounted :
    (score : HideScore) (inf : HideInflight) (w : Window)
    → IsCounted inf
    → inf.active ≡ true
    → IsCounted (hide_pump score inf w).0 × ((hide_pump score inf w).0.pages ≡ inf.pages)
hide_pump-IsCounted score inf w counted on =
    let n = length inf.pages in
    let m = mark_loop-Marked n n 0 inf (omega arith) counted in
    simp (hide_pump_same score inf w on)
      (m.1 ∙ ap (λ ps. taken ((mark_loop n 0 inf).consumed) (length ps)) (sym m.0), m.0)

-- If every page of an active fill whose `ready_n` counts the pages taken is ready, then
-- `ready_n` is the number of its pages after one pump, under each score: the loop of hide_wait
-- ends.
pub hide_pump_finishes :
    (score : HideScore) (inf : HideInflight) (w : Window)
    → IsCounted inf
    → inf.active ≡ true
    → ((j : ℕ) → j < length inf.pages → inf.ready j ≡ true)
    → (hide_pump score inf w).0.ready_n ≡ length inf.pages
hide_pump_finishes score inf w counted on ready =
    let n = length inf.pages in
    let m = mark_loop-Marked n n 0 inf (omega arith) counted in
    simp (hide_pump_same score inf w on)
      (m.1 ∙ taken-all _ n (λ j lt. m.3 j (omega arith) lt (ready j lt)))

commit_fill-IsFilled :
    (ssd : ℕ → ℕ) (q g p i ttl : ℕ) (w : Window)
    → IsFilled ssd q g w
    → IsFilled ssd q g (commit_fill p i ttl w)
unfolding commit_fill set_soft_ttl
commit_fill-IsFilled ssd q g p i ttl w h =
    elim (Bool-cases (leb w.n_frames i || not (w.frame_filling i))) [
      | inl off ↦ rw off h
      | inr on ↦ elim (Bool-cases (has p w.map)) [
        | inl there ↦ rw (on, there) h
        | inr absent ↦ rw (on, absent) h
      ]
    ]

commit_loop-IsSound :
    (ssd : ℕ → ℕ) (rounds i : ℕ) (inf : HideInflight) (w : Window)
    → IsSound ssd w.frames
    → ((j : ℕ)
        → i ≤ j
        → is_due j inf ≡ true
        → ((get_or inf.pages j 0 == no_key) ≡ false)
          × IsFilled ssd (get_or inf.pages j 0) (get_or inf.frames j no_key) w)
    → IsSound ssd (commit_loop rounds i inf w).1.frames
unfolding commit_loop
commit_loop-IsSound ssd zero i inf w s filled = s
commit_loop-IsSound ssd (suc rounds) i inf w s filled = elim (Bool-cases (is_due i inf)) [
  | inl due ↦
      let now = filled i (omega arith) due in
      let p = get_or inf.pages i 0 in
      let fr = get_or inf.frames i no_key in
      simp due (
        commit_loop-IsSound ssd rounds (suc i) _ _
          (commit_fill-IsSound ssd p fr inf.ttl w s now.0 now.1)
          (λ j lo h.
            let old = filled j (omega arith) (ground arith) in
            (old.0, commit_fill-IsFilled ssd _ _ p fr inf.ttl w old.1)))
  | inr idle ↦
      simp idle
        (commit_loop-IsSound ssd rounds (suc i) inf w s (λ j lo h. filled j (omega arith) h))
]

-- A pump that commits reserved frames keeps a sound window sound, if each page that a worker
-- reports and no pump has taken was read into its frame and is not the key of a free frame.
pub hide_pump-IsSound :
    (ssd : ℕ → ℕ) (inf : HideInflight) (w : Window)
    → IsSound ssd w.frames
    → inf.direct ≡ true
    → ((j : ℕ)
        → is_due j inf ≡ true
        → ((get_or inf.pages j 0 == no_key) ≡ false)
          × IsFilled ssd (get_or inf.pages j 0) (get_or inf.frames j no_key) w)
    → IsSound ssd (hide_pump HideScore.window inf w).1.frames
unfolding hide_pump
hide_pump-IsSound ssd inf w s straight filled = elim (Bool-cases inf.active) [
  | inl on ↦
      simp (on, straight)
        (commit_loop-IsSound ssd (length inf.pages) 0 inf w s (λ j lo h. filled j h))
  | inr off ↦ simp off s
]
