-- ===== src/Bundle/Ends.antt =====
-- The main loop of tools/pack_layout_bundle.cpp ends: each entry of the buckets is popped once, and a
-- record enters them again only when a neighbour fewer is left.
use cxl_anns_kx.Base.{
  ℕ, zero, suc, ◌+◌, ◌-◌, ◌*◌, ◌<◌, ◌≤◌, ◌≡◌, ◌∙◌, ◌⊎◌, refl, ◌==◌, Bool, true, false, Bool-cases,
  inl, inr, ◌&&◌, List, [], ◌∷◌, arith,
}
use cxl_anns_kx.Base.Lists.{length}
use cxl_anns_kx.Base.Dict.{update}
use cxl_anns_kx.Base.Sums.{sum, sum-same, sum-update}
use cxl_anns_kx.Bundle.Buckets.{
  Packing, kranks, hot_bit, is_empty, seek_rank, seek, Popped, best, nothing, unfinished, take_back,
  pop_best,
}

-- The number of buckets.
abbrev pub nbuckets : ℕ
nbuckets = 66

abbrev pub entries : (ℕ → List ℕ) → ℕ
entries b = sum (λ i. length (b i)) nbuckets

-- The cursor is in the array, and so is the bucket of each record.
pub record IsRanked (s : Packing) : Type 0 where
  pub hot : s.cur_h1 ≤ 2
  pub rank : s.cur_r1 ≤ kranks
  pub left : (u : ℕ) → s.left u < kranks

pub entries-update :
    (b : ℕ → List ℕ) (i : ℕ) (us : List ℕ)
    → i < nbuckets
    → entries (update b i us) + length (b i) ≡ entries b + length us
entries-update b i us lt =
    let same : entries (update b i us) ≡ sum (update (λ j. length (b j)) i (length us)) nbuckets =
      sum-same _ _ nbuckets (λ j low. ground arith) in
    rw same (sum-update (λ j. length (b j)) nbuckets i (length us) lt)

seek_rank-found :
    (b : ℕ → List ℕ) (h r1 : ℕ)
    → (seek_rank b h r1 ≡ 0)
      ⊎ ((1 ≤ seek_rank b h r1)
          × (seek_rank b h r1 ≤ r1)
          × (is_empty (b (h * kranks + (seek_rank b h r1 - 1))) ≡ false))
unfolding seek_rank
seek_rank-found b h zero = inl refl
seek_rank-found b h (suc r) = elim (Bool-cases (is_empty (b (h * kranks + r)))) [
  | inl empty ↦ elim (seek_rank-found b h r) [
    | inl none_found ↦ simp empty (inl none_found)
    | inr found ↦ simp empty (inr (found.0, omega (arith, found.1), found.2))
  ]
  | inr full ↦
      let e : suc r - 1 ≡ r = omega arith in simp full (inr (omega arith, omega arith, rw e full))
]

-- The cursor finds a bucket that is not empty, or that all are empty.
seek-found :
    (b : ℕ → List ℕ) (h1 r1 : ℕ)
    → r1 ≤ kranks
    → let c = seek b h1 r1 in
      (c.0 ≤ h1)
      × (c.1 ≤ kranks)
      × ((c.0 ≡ 0)
          ⊎ ((1 ≤ c.0) × (1 ≤ c.1) × (is_empty (b ((c.0 - 1) * kranks + (c.1 - 1))) ≡ false)))
unfolding seek
seek-found b zero r1 low = (omega arith, low, inl refl)
seek-found b (suc h) r1 low = elim (seek_rank-found b h r1) [
  | inl none_found ↦
      let gone : (seek_rank b h r1 == 0) ≡ true = ground arith in
      let (less, small, one) = seek-found b h kranks (omega arith) in
      simp gone (omega arith, small, one)
  | inr (pos, least, full) ↦
      let found : (seek_rank b h r1 == 0) ≡ false = ground arith in
      let e : suc h - 1 ≡ h = omega arith in
      simp found (omega arith, omega arith, inr (omega arith, pos, rw e full))
]

-- The entries after a pop: fewer where there is a best record, and no more where there is none.
abbrev pub Pops : ℕ → ℕ → Popped → Type 0
Pops before after (best u) = after < before
Pops before after nothing = after ≤ before
Pops before after unfinished = ⊥

Pops-trans : (p : Popped) (a b c : ℕ) → b ≤ a → Pops b c p → Pops a c p
Pops-trans (best u) a b c le h = omega arith
Pops-trans nothing a b c le h = omega arith
Pops-trans unfinished a b c le h = h

take_back-entries :
    (h1 r1 : ℕ) (s : Packing)
    → h1 ≤ 2
    → r1 ≤ kranks
    → 1 ≤ r1
    → is_empty (s.buckets ((h1 - 1) * kranks + (r1 - 1))) ≡ false
    → suc (entries (take_back h1 r1 s).1.buckets) ≡ entries s.buckets
unfolding take_back
take_back-entries h1 r1 s hot rank pos full =
    let i = (h1 - 1) * kranks + (r1 - 1) in
    let shorter = entries-update s.buckets i (rest (s.buckets i)) (omega arith) in
    let one = length-rest (s.buckets i) full in omega (arith, shorter, one)
  where
    rest : List ℕ → List ℕ
    rest [] = []
    rest (u ∷ us) = us

    length-rest : (us : List ℕ) → is_empty us ≡ false → suc (length (rest us)) ≡ length us
    length-rest [] h = absurd (ground (arith, h))
    length-rest (u ∷ us) h = refl

-- With more rounds than entries pop_best ends; it keeps `rem`.
pub pop_best-Pops :
    (is_hot : ℕ → Bool) (rounds : ℕ) (s : Packing)
    → IsRanked s
    → entries s.buckets < rounds
    → let r = pop_best is_hot rounds s in
      IsRanked r.1
      × ((u : ℕ) → r.1.left u ≡ s.left u)
      × Pops (entries s.buckets) (entries r.1.buckets) r.0
unfolding pop_best
pop_best-Pops is_hot zero s v enough = absurd (omega arith)
pop_best-Pops is_hot (suc rounds) s v enough =
    let h1 = (seek s.buckets s.cur_h1 s.cur_r1).0 in
    let r1 = (seek s.buckets s.cur_h1 s.cur_r1).1 in
    let (hot, rank, one) = seek-found s.buckets s.cur_h1 s.cur_r1 v.rank in
    let small : h1 ≤ 2 = omega (arith, v.hot) in
    elim one [
      | inl gone ↦
          let none_left : (h1 == 0) ≡ true = ground arith in
          simp none_left
            (record { hot = small; rank = rank; left = v.left }, λ u. refl, omega arith)
      | inr (some_h, some_r, full) ↦
          let u = (take_back h1 r1 s).0 in
          let popped = (take_back h1 r1 s).1 in
          let some_left : (h1 == 0) ≡ false = ground arith in
          let fewer = take_back-entries h1 r1 s small rank some_r full in
          let kept : IsRanked popped =
            unfold take_back in record { hot = small; rank = rank; left = v.left } in
          let same : (x : ℕ) → popped.left x ≡ s.left x = unfold take_back in λ x. refl in
          elim (Bool-cases (hot_bit is_hot u == h1 - 1 && s.left u == r1 - 1)) [
            | inl fresh ↦ simp (some_left, fresh) (kept, same, omega (arith, fewer))
            | inr stale ↦
                let (kept1, same1, later) =
                  pop_best-Pops is_hot rounds popped kept (omega (arith, fewer, enough)) in
                simp (some_left, stale)
                  (
                    kept1,
                    λ x. same1 x ∙ same x,
                    Pops-trans (pop_best is_hot rounds popped).0 _ _ _ (omega (arith, fewer)) later,
                  )
          ]
    ]
