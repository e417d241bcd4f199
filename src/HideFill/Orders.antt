-- ===== src/HideFill/Orders.antt =====
-- The jobs of one issue of serving/hide_fill.hpp, run by the workers in any order, one at a time.
use cxl_anns_kx.Base.{
  ℕ, zero, suc, ◌+◌, ◌-◌, ◌<◌, ◌≤◌, ◌≡◌, ◌⊎◌, ◌∙◌, refl, sym, if◌then◌else◌, ltb, leb, ◌==◌, true,
  false, Bool-cases, inl, inr, ◌&&◌, List, [], ◌∷◌, ◌++◌, map, some, arith, subst, Permᴰ,
}
use cxl_anns_kx.Base.Lists.{length, All}
use cxl_anns_kx.Base.Dict.{update}
use cxl_anns_kx.PageCopyPool.{Memory, fn_job, run_job}
use cxl_anns_kx.Vmem.{VmemIo}
use cxl_anns_kx.HideFill.Jobs.{
  Ioctl, FillTask, set_ready, device, fill_job, chunk, chunks, fill_jobs,
}
use cxl_anns_kx.HideFill.Sources.{Reads, IsQuiet, IsFilledAt, AreApart, IsMappedBy}
use cxl_anns_kx.HideFill.Filled.{fill-Fetches}

-- The workers run one job after the other.
unfoldable pub run_jobs : List (Memory → Memory) → Memory → Memory
unfolding run_job
run_jobs [] m = m
run_jobs (f ∷ fs) m = run_jobs fs (run_job (fn_job f) m)

-- A page whose flag is set is there.
abbrev pub IsFilled : FillTask → Memory → Type 0
IsFilled t m = (j : ℕ) → j < length t.pages → m.flag (t.ready + j) ≡ 1 → IsFilledAt t j m

abbrev IsReady : FillTask → ℕ → Memory → Type 0
IsReady t j m = m.flag (t.ready + j) ≡ 1

-- The flags of the job are set, and nothing else changes.
set_ready_lem :
    (t : FillTask) (rounds j : ℕ) (m : Memory)
    → ((a : ℕ) → (set_ready t rounds j m).bytes a ≡ m.bytes a)
      × ((x : ℕ)
          → (set_ready t rounds j m).flag (t.ready + x)
            ≡ (if leb j x && ltb x (j + rounds) then 1 else m.flag (t.ready + x)))
unfolding set_ready
set_ready_lem t zero j m = (λ a. refl, λ x. ground arith)
set_ready_lem t (suc rounds) j m =
    let m1 = record m { flag = update m.flag (t.ready + j) 1 } in
    let (same, flags) = set_ready_lem t rounds (suc j) m1 in
    (
      same,
      λ x.
          let at = flags x in
          let now : (t.ready + x == t.ready + j) ≡ (x == j) = ground arith in
          ground (arith, at, now),
    )

module _ (t : FillTask) where
  -- A job keeps what is ready and what is there, and makes its own pages ready.
  abbrev IsSound : (Memory → Memory) → Type 0
  IsSound f =
      (m : Memory) → IsFilled t m → IsFilled t (f m) × ((j : ℕ) → IsReady t j m → IsReady t j (f m))

  abbrev Covers : ℕ → (Memory → Memory) → Type 0
  Covers j f = (m : Memory) → IsFilled t m → IsReady t j (f m)

  abbrev Some : ((Memory → Memory) → Type 0) → List (Memory → Memory) → Type 0
  Some P [] = ⊥
  Some P (f ∷ fs) = P f ⊎ Some P fs

  run_jobs-IsReady :
      (fs : List (Memory → Memory)) (m : Memory)
      → All IsSound fs
      → IsFilled t m
      → IsFilled t (run_jobs fs m)
        × ((j : ℕ) → IsReady t j m ⊎ Some (Covers j) fs → IsReady t j (run_jobs fs m))
  unfolding run_jobs run_job
  run_jobs-IsReady [] m sound filled =
      (filled, λ j one. elim one [ inl r ↦ r | inr missing ↦ absurd missing ])
  run_jobs-IsReady (f ∷ fs) m sound filled =
      let (next, kept) = sound.0 m filled in
      let (end, ready) = run_jobs-IsReady fs (f m) sound.1 next in
      (
        end,
        λ j one. ready j (elim one [
          | inl r ↦ inl (kept j r)
          | inr some_job ↦ elim some_job [ inl here ↦ inl (here m filled) | inr later ↦ inr later ]
        ]),
      )

  module _ (P : (Memory → Memory) → Type 0) where
    All-perm : {fs gs : List (Memory → Memory)} → Permᴰ fs gs → All P fs → All P gs
    All-perm Permᴰ.nil h = h
    All-perm (Permᴰ.cons e p) h = (subst P e h.0, All-perm p h.1)
    All-perm (Permᴰ.swap e e') h = (subst P e' h.1.0, (subst P e h.0, h.1.1))
    All-perm (Permᴰ.trans p q) h = All-perm q (All-perm p h)

    Some-perm : {fs gs : List (Memory → Memory)} → Permᴰ fs gs → Some P fs → Some P gs
    Some-perm Permᴰ.nil h = h
    Some-perm (Permᴰ.cons e p) (inl h) = inl (subst P e h)
    Some-perm (Permᴰ.cons e p) (inr h) = inr (Some-perm p h)
    Some-perm (Permᴰ.swap e e') (inl h) = inr (inl (subst P e h))
    Some-perm (Permᴰ.swap e e') (inr (inl h)) = inl (subst P e' h)
    Some-perm (Permᴰ.swap e e') (inr (inr h)) = inr (inr h)
    Some-perm (Permᴰ.trans p q) h = Some-perm q (Some-perm p h)

module _ (t : FillTask) (apart : AreApart t) (disk : ℕ → ℕ) (read prefetch : Ioctl)
    (reads : Reads disk t.page_bytes read) (quiet : IsQuiet prefetch) (real : t.only_pf ≡ false)
    (mapped : (io : VmemIo) → device t.vio ≡ some io → IsMappedBy t disk io) where
  fill_job-Sound :
      (off n1 : ℕ)
      → off + n1 ≤ length t.pages
      → IsSound t (fill_job read prefetch t off n1)
        × ((j : ℕ) → off ≤ j → j < off + n1 → Covers t j (fill_job read prefetch t off n1))
  fill_job-Sound off n1 fits =
      let inside = λ (m : Memory).
        fill-Fetches t apart disk read prefetch reads quiet off n1 m real mapped fits in
      (
        λ m filled.
            let (m1, e, kept, brought) = inside m in
            let (same, flags) = set_ready_lem t n1 off m1 in
            let there : IsFilled t m1 = λ j lt r. kept.1 j lt (filled j lt (sym (kept.0 _) ∙ r)) in
            simp e (
              λ j lt r k low. same _ ∙ elim (Bool-cases (leb off j && ltb j (off + n1))) [
                | inl own ↦ brought j (ground arith) (ground arith) k low
                | inr other ↦ let old = flags j in there j lt (ground (arith, old, r)) k low
              ],
              λ j r.
                  let now = flags j in
                  let before = kept.0 (t.ready + j) in ground (arith, now, before),
            ),
        λ j lo hi m filled.
            let (m1, e, kept, brought) = inside m in
            let (same, flags) = set_ready_lem t n1 off m1 in
            let now = flags j in simp e (ground (arith, now)),
      )

  abbrev job : ℕ × ℕ → Memory → Memory
  job c = fill_job read prefetch t c.0 c.1

  chunks-Sound : (rounds off : ℕ) → All (IsSound t) (map job (chunks rounds off (length t.pages)))
  unfolding chunks
  chunks-Sound zero off = tt
  chunks-Sound (suc rounds) off = elim (Bool-cases (ltb off (length t.pages))) [
    | inl more ↦
        simp more ((fill_job-Sound off _ (ground arith)).0, chunks-Sound rounds (off + chunk))
    | inr done ↦ simp done tt
  ]

  chunks-Covers :
      (rounds off j : ℕ)
      → length t.pages ≤ off + rounds
      → off ≤ j
      → j < length t.pages
      → Some t (Covers t j) (map job (chunks rounds off (length t.pages)))
  unfolding chunks
  chunks-Covers zero off j enough lo lt = absurd (omega arith)
  chunks-Covers (suc rounds) off j enough lo lt =
      let more : ltb off (length t.pages) ≡ true = ground arith in
      let own = if ltb (length t.pages - off) chunk then length t.pages - off else chunk in
      let fits : off + own ≤ length t.pages = ground arith in
      elim (Bool-cases (ltb j (off + own))) [
        | inl here ↦ simp more (inl ((fill_job-Sound off own fits).1 j lo (ground arith)))
        | inr later ↦
            let beyond : off + chunk ≤ j = ground arith in
            simp more (inr (chunks-Covers rounds (off + chunk) j (omega arith) beyond lt))
      ]

  -- When the read ioctl copies the pages of its batch in turn, and stops after some of them
  -- where it fails, the prefetch ioctl writes no memory of the program, the device has at the
  -- offsets of the image what is mapped from the SSD, the destinations do not overlap, and
  -- the issue is no mere prefetch: from a memory in which each page whose flag is set is at
  -- its destination, whichever jobs of the issue have run, in whatever order and one at a
  -- time, a page whose flag is set is at its destination.
  pub fill_jobs-IsFilled :
      (xs ys : List (Memory → Memory)) (m : Memory)
      → Permᴰ (fill_jobs read prefetch t) (xs ++ ys)
      → IsFilled t m
      → IsFilled t (run_jobs xs m)
  unfolding fill_jobs
  fill_jobs-IsFilled xs ys m order filled =
      let all = All-perm t (IsSound t) order (chunks-Sound (length t.pages) 0) in
      (run_jobs-IsReady t xs m (first xs ys all) filled).0
    where
      first : (xs ys : List (Memory → Memory)) → All (IsSound t) (xs ++ ys) → All (IsSound t) xs
      first [] ys h = tt
      first (x ∷ xs) ys h = (h.0, first xs ys h.1)

  -- When the read ioctl copies the pages of its batch in turn, and stops after some of them
  -- where it fails, the prefetch ioctl writes no memory of the program, the device has at the
  -- offsets of the image what is mapped from the SSD, the destinations do not overlap, and
  -- the issue is no mere prefetch: from a memory in which each page whose flag is set is at
  -- its destination, when all jobs of the issue have run, in whatever order and one at a
  -- time, every page has its flag set and is at its destination.
  pub fill_jobs-IsReady :
      (js : List (Memory → Memory)) (m : Memory) (j : ℕ)
      → Permᴰ (fill_jobs read prefetch t) js
      → IsFilled t m
      → j < length t.pages
      → ((run_jobs js m).flag (t.ready + j) ≡ 1) × IsFilledAt t j (run_jobs js m)
  unfolding fill_jobs
  fill_jobs-IsReady js m j order filled lt =
      let all = All-perm t (IsSound t) order (chunks-Sound (length t.pages) 0) in
      let covered =
        Some-perm t (Covers t j) order
          (chunks-Covers (length t.pages) 0 j (omega arith) (omega arith) lt) in
      let (end, ready) = run_jobs-IsReady t js m all filled in
      let set = ready j (inr covered) in (set, end j lt set)
