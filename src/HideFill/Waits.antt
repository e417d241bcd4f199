-- ===== src/HideFill/Waits.antt =====
-- hide_wait of serving/hide_fill.hpp. The workers set the ready flags while it loops: `now` is what the
-- flags are at a pump, and a list of these is how they come. The hook that it calls between pumps is
-- left out, and so is the time it returns.
use cxl_anns_kx.Base.{
  ℕ, zero, suc, ◌<◌, ◌≤◌, ◌≡◌, ◌∙◌, refl, ap, sym, if◌then◌else◌, ltb, Bool, true, false,
  Bool-cases, inl, inr, not, List, [], ◌∷◌, ◌++◌, Option, none, some, arith, subst,
}
use cxl_anns_kx.Base.Lists.{length}
use cxl_anns_kx.DramWindow.State.{Window}
use cxl_anns_kx.HideFill.{
  HideScore, is_window, HideInflight, is_due, consume, add_ready, clear, mark_loop, hide_pump,
}
use cxl_anns_kx.HideFill.Pump.{IsCounted, hide_pump_same, hide_pump-IsCounted, hide_pump_finishes}

abbrev pub Flags : Type 0
Flags = ℕ → Bool

-- The fill with the flags as they are now.
abbrev pub seen_now : Flags → HideInflight → HideInflight
seen_now now inf = record inf { ready = now }

abbrev pub waits : HideInflight → Bool
waits inf = ltb inf.ready_n (length inf.pages)

-- while (ready_n < pages.size()): none where the wait goes on after the flags given.
unfoldable pub wait_loop :
    HideScore → List Flags → HideInflight → Window → Option (HideInflight × Window)
unfolding hide_pump
wait_loop score [] inf w = if waits inf then none else some (inf, w)
wait_loop score (now ∷ later) inf w =
    let (pumped, v) = hide_pump score (seen_now now inf) w in
    let rest = wait_loop score later pumped v in if waits inf then rest else some (inf, w)

-- `if (score == HideScore::Window) inf.clear()`
unfoldable pub settle : HideScore → HideInflight → HideInflight
unfolding clear
settle score inf = if is_window score then clear inf else inf

-- The pump after the loop, and the reset.
unfoldable pub end_wait :
    HideScore → Option (HideInflight × Window) → Option (HideInflight × Window)
unfolding hide_pump settle
end_wait score none = none
end_wait score (some (inf, w)) =
    let (pumped, v) = hide_pump score inf w in some (settle score pumped, v)

unfoldable pub hide_wait :
    HideScore → List Flags → HideInflight → Window → Option (HideInflight × Window)
unfolding wait_loop end_wait
hide_wait score flags inf w =
    if not inf.active then some (inf, w) else end_wait score (wait_loop score flags inf w)

mark_loop-active :
    (rounds i : ℕ) (inf : HideInflight) → (mark_loop rounds i inf).active ≡ inf.active
unfolding mark_loop
mark_loop-active zero i inf = refl
mark_loop-active (suc rounds) i inf = elim (Bool-cases (is_due i inf)) [
  | inl due ↦ simp due (mark_loop-active rounds (suc i) (add_ready 1 (consume i inf)))
  | inr idle ↦ simp idle (mark_loop-active rounds (suc i) inf)
]

hide_pump-active :
    (score : HideScore) (inf : HideInflight) (w : Window)
    → inf.active ≡ true
    → (hide_pump score inf w).0.active ≡ true
hide_pump-active score inf w on =
    ap (λ x. x.active) (hide_pump_same score inf w on)
    ∙ mark_loop-active (length inf.pages) 0 inf
    ∙ on

-- An active fill of these pages, whose `ready_n` is the number of pages taken.
abbrev pub IsGoing : List ℕ → HideInflight → Type 0
IsGoing pages inf = (inf.active ≡ true) × IsCounted inf × (inf.pages ≡ pages)

hide_pump-IsGoing :
    (score : HideScore) (pages : List ℕ) (inf : HideInflight) (w : Window)
    → IsGoing pages inf
    → IsGoing pages (hide_pump score inf w).0
hide_pump-IsGoing score pages inf w (on, counted, same) =
    let (counted1, kept) = hide_pump-IsCounted score inf w counted on in
    (hide_pump-active score inf w on, counted1, kept ∙ same)

-- What the loop leaves: every page has been taken.
abbrev Taken : List ℕ → Option (HideInflight × Window) → Type 0
Taken pages r =
    (inf : HideInflight) × (w : Window) × (r ≡ some (inf, w))
    × IsGoing pages inf
    × (length pages ≤ inf.ready_n)

wait_loop-Taken :
    (score : HideScore) (pages : List ℕ) (flags : List Flags) (full : Flags) (inf : HideInflight)
    (w : Window)
    → IsGoing pages inf
    → ((j : ℕ) → j < length pages → full j ≡ true)
    → Taken pages (wait_loop score (flags ++ full ∷ []) inf w)
unfolding wait_loop
wait_loop-Taken score pages [] full inf w going all =
    let seen = seen_now full inf in
    let size : length inf.pages ≡ length pages = ap (λ (l : List ℕ). length l) going.2 in
    let done : (hide_pump score seen w).0.ready_n ≡ length inf.pages =
      hide_pump_finishes score seen w going.1 going.0 (λ j lt. all j (omega (arith, size))) in
    let next = hide_pump-IsGoing score pages seen w going in
    let size1 = ap (λ (l : List ℕ). length l) next.2 in
    let enough : length pages ≤ (hide_pump score seen w).0.ready_n = omega (arith, done, size) in
    let stop : waits (hide_pump score seen w).0 ≡ false = ground (arith, enough, size1) in
    elim (Bool-cases (waits inf)) [
      | inl more ↦ (
        (hide_pump score seen w).0,
        (hide_pump score seen w).1,
        simp (more, stop) refl,
        next,
        enough,
      )
      | inr over ↦ (inf, w, simp over refl, going, ground (arith, over, size))
    ]
wait_loop-Taken score pages (now ∷ later) full inf w going all =
    let seen = seen_now now inf in
    let size : length inf.pages ≡ length pages = ap (λ (l : List ℕ). length l) going.2 in
    elim (Bool-cases (waits inf)) [
      | inl more ↦
          let (end, v, e, rest, enough) =
            wait_loop-Taken score pages later full (hide_pump score seen w).0
              (hide_pump score seen w).1 (hide_pump-IsGoing score pages seen w going) all in
          (end, v, simp more e, rest, enough)
      | inr over ↦ (inf, w, simp over refl, going, ground (arith, over, size))
    ]

mark_loop-grows :
    (rounds i : ℕ) (inf : HideInflight) → inf.ready_n ≤ (mark_loop rounds i inf).ready_n
unfolding mark_loop
mark_loop-grows zero i inf = omega arith
mark_loop-grows (suc rounds) i inf = elim (Bool-cases (is_due i inf)) [
  | inl due ↦ simp due (omega (arith, mark_loop-grows rounds (suc i) (add_ready 1 (consume i inf))))
  | inr idle ↦ simp idle (mark_loop-grows rounds (suc i) inf)
]

settle-reset :
    (score : HideScore) (inf : HideInflight)
    → is_window score ≡ true
    → (settle score inf).active ≡ false
unfolding settle
settle-reset score inf win = simp win refl

settle-same :
    (score : HideScore) (inf : HideInflight) → is_window score ≡ false → settle score inf ≡ inf
unfolding settle
settle-same score inf other = simp other refl

-- When hide_wait is called on an active fill whose `ready_n` counts the pages taken, and the
-- workers have set every flag by some pump, then it returns: under the window score the fill is
-- reset, and under the others it is as active as before, with the same pages, all of them
-- taken.
pub hide_wait-Taken :
    (score : HideScore) (flags : List Flags) (full : Flags) (inf : HideInflight) (w : Window)
    → inf.active ≡ true
    → IsCounted inf
    → ((j : ℕ) → j < length inf.pages → full j ≡ true)
    → (end : HideInflight) × (v : Window) × (hide_wait score (flags ++ full ∷ []) inf w
        ≡ some (end, v))
      × (is_window score ≡ true → end.active ≡ false)
      × (is_window score ≡ false → IsGoing inf.pages end × (length inf.pages ≤ end.ready_n))
unfolding hide_wait end_wait
hide_wait-Taken score flags full inf w on counted all =
    let (last, v, e, going, enough) =
      wait_loop-Taken score inf.pages flags full inf w (on, counted, refl) all in
    let pumped = (hide_pump score last v).0 in
    let grown : last.ready_n ≤ pumped.ready_n =
      subst (λ x. last.ready_n ≤ x.ready_n) (sym (hide_pump_same score last v going.0))
        (mark_loop-grows (length last.pages) 0 last) in
    (
      settle score pumped,
      (hide_pump score last v).1,
      simp on (ap (λ r. end_wait score r) e),
      settle-reset score pumped,
      λ other.
          subst (λ x. IsGoing inf.pages x × (length inf.pages ≤ x.ready_n))
            (sym (settle-same score pumped other))
            (hide_pump-IsGoing score inf.pages last v going, omega (arith, enough, grown)),
    )
