-- ===== src/Beam/Ends.antt =====
-- The rounds of the loop of pqq_beam of serving/search_beam.cpp.
use cxl_anns_kx.Base.{
  ℕ, zero, suc, ◌<◌, ◌≤◌, ◌≡◌, ◌⊎◌, refl, ap, sym, subst, ◌∙◌, if◌then◌else◌, leb, ◌==◌, true,
  false, Bool-cases, inl, inr, ◌||◌, List, [], ◌∷◌, Option, none, some, Option-cases, arith,
  eq-or-ne,
}
use cxl_anns_kx.Base.Lists.{contains}
use cxl_anns_kx.Beam.{
  Cand, Beam, Search, closer, pick_best, pqq_insert, see, see_all, expand, beam_loop, pqq_beam,
  pqq_init, next_pick, at_limit, cand_ids,
}
use cxl_anns_kx.Beam.Insert.{IsOrder}
use cxl_anns_kx.Beam.Nearest.{IsNearest, expand-IsNearest, pqq_init-IsNearest}

-- The numbers below n that a list lacks.
unfoldable pub missing : List ℕ → ℕ → ℕ
missing xs zero = 0
missing xs (suc n) = if contains n xs then missing xs n else suc (missing xs n)

missing_beyond : (xs : List ℕ) (n x : ℕ) → n ≤ x → missing (x ∷ xs) n ≡ missing xs n
unfolding missing contains
missing_beyond xs zero x h = refl
missing_beyond xs (suc n) x h =
    let other : (n == x) ≡ false = ground arith in
    rw other (ground (arith, missing_beyond xs n x (omega arith)))

missing-cons :
    (xs : List ℕ) (n x : ℕ)
    → x < n
    → contains x xs ≡ false
    → suc (missing (x ∷ xs) n) ≡ missing xs n
unfolding missing contains
missing-cons xs zero x h e = absurd (omega arith)
missing-cons xs (suc n) x h e = elim (eq-or-ne n x) [
  | inl same ↦
      let hit : (n == x) ≡ true = ground arith in
      let off : contains n xs ≡ false = ap (λ k. contains k xs) same ∙ e in
      rw (hit, off) (ap suc (missing_beyond xs n x (omega arith)))
  | inr other ↦ rw other (ground (arith, missing-cons xs n x (ground arith) e))
]

missing-le : (xs : List ℕ) (n : ℕ) → missing xs n ≤ n
unfolding missing
missing-le xs zero = omega arith
missing-le xs (suc n) = ground (arith, missing-le xs n)

closer-cases :
    {D : Type 0} (s : Search D) (best : Option (Cand D)) (b : Cand D)
    → (closer s best b ≡ some b) ⊎ (closer s best b ≡ best)
closer-cases s none b = inl refl
closer-cases s (some a) b = elim (Bool-cases (s.lt b.dist a.dist)) [
  | inl less ↦ inl (rw less refl)
  | inr more ↦ inr (rw more refl)
]

pub some-inj : {A : Type 0} (d a b : A) → some a ≡ some b → a ≡ b
some-inj d a b e = ap (λ found. elim found [ none ↦ d | some v ↦ v ]) e

pub none≢some : {A : Type 0} (a : A) → none ≡ some a → ⊥
none≢some a e = absurd (ground arith)

module _ {D : Type 0} (s : Search D) where
  -- What a pick of a list is: the candidate met before, or one of the list that is not expanded.
  unfoldable pub IsFresh : List ℕ → List (Cand D) → Cand D → Type 0
  IsFresh ex cs c = (contains c.id ex ≡ false) × (contains c.id (cand_ids cs) ≡ true)

  IsFresh-cons :
      (ex : List ℕ) (b : Cand D) (cs : List (Cand D)) (c : Cand D)
      → IsFresh ex cs c
      → IsFresh ex (b ∷ cs) c
  unfolding IsFresh contains
  IsFresh-cons ex b cs c (new, there) = (new, ground (arith, there))

  pick_best_lem :
      (ex : List ℕ) (best : Option (Cand D)) (cs : List (Cand D)) (c : Cand D)
      → pick_best s ex best cs ≡ some c
      → (best ≡ some c) ⊎ IsFresh ex cs c
  unfolding pick_best contains IsFresh
  pick_best_lem ex best [] c e = inl e
  pick_best_lem ex best (b ∷ bs) c e = elim (Bool-cases (contains b.id ex)) [
    | inl old ↦ elim (pick_best_lem ex best bs c (rw old at e)) [
      | inl kept ↦ inl kept
      | inr fresh ↦ inr (IsFresh-cons ex b bs c fresh)
    ]
    | inr new ↦ elim (pick_best_lem ex (closer s best b) bs c (rw new at e)) [
      | inr fresh ↦ inr (IsFresh-cons ex b bs c fresh)
      | inl kept ↦ elim (closer-cases s best b) [
        | inr same ↦ inl (sym same ∙ kept)
        | inl taken ↦
            let is_b : b ≡ c = some-inj b b c (sym taken ∙ kept) in
            inr (subst (IsFresh ex (b ∷ bs)) is_b (new, ground arith))
      ]
    ]
  ]

  pub next_pick_lem :
      (q : Beam D) (c : Cand D) → next_pick s q ≡ some c → IsFresh q.expanded q.cand c
  next_pick_lem q c e = elim (Bool-cases (at_limit s q)) [
    | inl stop ↦ absurd (none≢some c (simp stop at e))
    | inr more ↦ elim (pick_best_lem q.expanded none q.cand c (simp more at e)) [
      | inl kept ↦ absurd (none≢some c kept)
      | inr fresh ↦ fresh
    ]
  ]

  insert_expanded : (id : ℕ) (q : Beam D) → (pqq_insert s id q).expanded ≡ q.expanded
  unfolding pqq_insert
  insert_expanded id q = ground arith

  see_all-expanded : (nbs : List ℕ) (q : Beam D) → (see_all s nbs q).expanded ≡ q.expanded
  unfolding see_all see
  see_all-expanded [] q = refl
  see_all-expanded (nb ∷ nbs) q = elim (Bool-cases (leb s.n nb || contains nb q.seen)) [
    | inl skip ↦ simp skip (see_all-expanded nbs q)
    | inr new ↦ simp new (see_all-expanded nbs _ ∙ insert_expanded nb _)
  ]

  expand_expanded : (cur : ℕ) (q : Beam D) → (expand s cur q).expanded ≡ cur ∷ q.expanded
  unfolding expand
  expand_expanded cur q = see_all-expanded (s.nbrs cur) _

  beam_loop_stop :
      (fuel : ℕ) (q : Beam D) → next_pick s q ≡ none → next_pick s (beam_loop s fuel q) ≡ none
  unfolding beam_loop
  beam_loop_stop zero q e = e
  beam_loop_stop (suc fuel) q e = rw (e, beam_loop) e

module _ {D : Type 0} (s : Search D) (o : IsOrder s) (pos : 0 < s.list_size) where
  beam_loop-ends :
      (fuel : ℕ) (q : Beam D)
      → IsNearest s q
      → missing q.expanded s.pq_n ≤ fuel
      → next_pick s (beam_loop s fuel q) ≡ none
  unfolding beam_loop IsFresh
  beam_loop-ends zero q v few = elim (Option-cases (next_pick s q)) [
    | inl stop ↦ stop
    | inr (c, e) ↦
        let (new, there) = next_pick_lem s q c e in
        absurd (omega (arith, few, missing-cons q.expanded s.pq_n c.id (v.low c.id there) new))
  ]
  beam_loop-ends (suc fuel) q v few = elim (Option-cases (next_pick s q)) [
    | inl stop ↦ beam_loop_stop s (suc fuel) q stop
    | inr (c, e) ↦
        let (new, there) = next_pick_lem s q c e in
        let fewer = missing-cons q.expanded s.pq_n c.id (v.low c.id there) new in
        let was : (expand s c.id q).expanded ≡ c.id ∷ q.expanded = expand_expanded s c.id q in
        let fits : missing (expand s c.id q).expanded s.pq_n ≤ fuel =
          subst (λ ex. missing ex s.pq_n ≤ fuel) (sym was) (omega (arith, few, fewer)) in
        rw (e, beam_loop)
          (beam_loop-ends fuel (expand s c.id q) (expand-IsNearest s o pos c.id q v) fits)
  ]

  -- With distances that are ordered and a list size above 0, as many rounds as the table of
  -- codes has records are enough from any entry: the bound on expansions is then reached, or
  -- no candidate is left that is not expanded.
  pub pqq_beam-ends : (entry_id : ℕ) → next_pick s (pqq_beam s (pqq_init s entry_id)) ≡ none
  unfolding pqq_beam
  pqq_beam-ends entry_id =
      beam_loop-ends s.pq_n _ (pqq_init-IsNearest s o pos entry_id) (missing-le _ s.pq_n)
