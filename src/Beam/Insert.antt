-- ===== src/Beam/Insert.antt =====
-- Inserting into the candidate list of serving/search_beam.cpp: a full list gives up its worst.
use cxl_anns_kx.Base.{
  ℕ, zero, suc, ◌+◌, ◌<◌, ◌≤◌, ◌≡◌, ◌⊎◌, refl, ap, sym, ◌∙◌, if◌then◌else◌, leb, ◌==◌, Bool, true,
  false, Bool-cases, inl, inr, not, ◌||◌, List, [], ◌∷◌, ◌++◌, none, some, arith,
}
use cxl_anns_kx.Base.Lists.{
  length, set, get_elem?, contains, length-append, length-set, All, All-append, IsDistinct,
}
use cxl_anns_kx.Beam.{Cand, Search, max_at, insert_full, insert_cand, cand_ids}

-- The tests of a distance type without NaN: `<` is asymmetric, its negation is transitive, and `>=`
-- is its negation.
pub record IsOrder {D : Type 0} (s : Search D) : Type 0 where
  pub asym : (a b : D) → s.lt a b ≡ true → s.lt b a ≡ false
  pub trans : (a b c : D) → s.lt a b ≡ false → s.lt b c ≡ false → s.lt a c ≡ false
  pub ge_lt : (a b : D) → s.ge a b ≡ not (s.lt a b)

module _ {D : Type 0} where
  -- A write to a list loses at most the element at that place.
  All-set :
      (P : Cand D → Type 0) (cs : List (Cand D)) (i : ℕ) (c : Cand D)
      → All P cs
      → P c
      → All P (set cs i c)
  All-set P [] i c a h = tt
  All-set P (x ∷ cs) zero c a h = (h, a.1)
  All-set P (x ∷ cs) (suc i) c a h = (a.0, All-set P cs i c a.1 h)

  cand_ids-set :
      (cs : List (Cand D)) (i x : ℕ) (c w : Cand D)
      → get_elem? cs i ≡ some w
      → contains x (cand_ids cs) ≡ true
      → (x ≡ w.id) ⊎ (contains x (cand_ids (set cs i c)) ≡ true)
  unfolding contains
  cand_ids-set [] i x c w e h = absurd (ground arith)
  cand_ids-set (y ∷ cs) zero x c w e h =
      let same : y.id ≡ w.id = ap (λ found. elim found [ none ↦ y.id | some v ↦ v.id ]) e in
      elim (Bool-cases (x == y.id)) [ inl hit ↦ inl (ground arith) | inr miss ↦ inr (ground arith) ]
  cand_ids-set (y ∷ cs) (suc i) x c w e h = elim (Bool-cases (x == y.id)) [
    | inl same ↦ inr (ground arith)
    | inr other ↦ elim (cand_ids-set cs i x c w e (ground arith)) [
      | inl gone ↦ inl gone
      | inr kept ↦ inr (ground arith)
    ]
  ]

  set-contains :
      (cs : List (Cand D)) (i x : ℕ) (c : Cand D)
      → contains x (cand_ids (set cs i c)) ≡ true
      → (x ≡ c.id) ⊎ (contains x (cand_ids cs) ≡ true)
  unfolding contains
  set-contains [] i x c h = absurd (ground arith)
  set-contains (y ∷ cs) zero x c h = ground arith
  set-contains (y ∷ cs) (suc i) x c h = elim (Bool-cases (x == y.id)) [
    | inl same ↦ inr (ground arith)
    | inr other ↦ elim (set-contains cs i x c (ground arith)) [
      | inl new ↦ inl new
      | inr old ↦ inr (ground arith)
    ]
  ]

  set-contains_self :
      (cs : List (Cand D)) (i : ℕ) (c w : Cand D)
      → get_elem? cs i ≡ some w
      → contains c.id (cand_ids (set cs i c)) ≡ true
  unfolding contains
  set-contains_self [] i c w e = ground arith
  set-contains_self (y ∷ cs) zero c w e = ground arith
  set-contains_self (y ∷ cs) (suc i) c w e = ground (arith, set-contains_self cs i c w e)

  set-IsDistinct :
      (cs : List (Cand D)) (i : ℕ) (c : Cand D)
      → IsDistinct (cand_ids cs)
      → contains c.id (cand_ids cs) ≡ false
      → IsDistinct (cand_ids (set cs i c))
  unfolding contains
  set-IsDistinct [] i c d h = tt
  set-IsDistinct (y ∷ cs) zero c d h = (ground arith, d.1)
  set-IsDistinct (y ∷ cs) (suc i) c d h = (
    elim (Bool-cases (contains y.id (cand_ids (set cs i c)))) [
      | inr out ↦ out
      | inl back ↦ elim (set-contains cs i y.id c back) [
        | inl same ↦ absurd (ground arith)
        | inr old ↦ absurd (ground (arith, d.0))
      ]
    ],
    set-IsDistinct cs i c d.1 (ground arith),
  )

  cand_ids-append :
      (x : ℕ) (cs : List (Cand D)) (c : Cand D)
      → contains x (cand_ids (cs ++ c ∷ [])) ≡ (contains x (cand_ids cs) || x == c.id)
  unfolding contains
  cand_ids-append x [] c = ground arith
  cand_ids-append x (y ∷ cs) c = ground (arith, cand_ids-append x cs c)

  append-IsDistinct :
      (cs : List (Cand D)) (c : Cand D)
      → IsDistinct (cand_ids cs)
      → contains c.id (cand_ids cs) ≡ false
      → IsDistinct (cand_ids (cs ++ c ∷ []))
  unfolding contains
  append-IsDistinct [] c d h = (refl, tt)
  append-IsDistinct (y ∷ cs) c d h =
      (ground (arith, d.0, cand_ids-append y.id cs c), append-IsDistinct cs c d.1 (ground arith))

module _ {D : Type 0} (s : Search D) where
  -- d is at least as far as each candidate.
  abbrev pub IsBeyond : D → List (Cand D) → Type 0
  IsBeyond d = All (λ c. s.lt d c.dist ≡ false)

  -- What inserting a candidate does to a list whose distances are those of its ids.
  pub record Inserted (new : Cand D) (before after : List (Cand D)) : Type 0 where
    pub size : length after ≤ s.list_size
    pub exact : All (λ c. c.dist ≡ s.dist c.id) after
    pub only :
        (x : ℕ)
        → contains x (cand_ids after) ≡ true
        → (x ≡ new.id) ⊎ (contains x (cand_ids before) ≡ true)
    pub distinct : IsDistinct (cand_ids after)
    pub kept :
        (x : ℕ)
        → contains x (cand_ids before) ≡ true
        → (contains x (cand_ids after) ≡ true)
          ⊎ ((length after ≡ s.list_size) × IsBeyond (s.dist x) after)
    pub taken :
        (contains new.id (cand_ids after) ≡ true)
        ⊎ ((length after ≡ s.list_size) × IsBeyond new.dist after)
    pub beyond :
        (d : D)
        → length before ≡ s.list_size
        → IsBeyond d before
        → (length after ≡ s.list_size) × IsBeyond d after

module _ {D : Type 0} (s : Search D) (o : IsOrder s) where
  IsBeyond-trans :
      (a b : D) (cs : List (Cand D)) → s.lt a b ≡ false → IsBeyond s b cs → IsBeyond s a cs
  IsBeyond-trans a b [] h k = tt
  IsBeyond-trans a b (c ∷ cs) h k = (o.trans a b c.dist h k.0, IsBeyond-trans a b cs h k.1)

  not_self : (d : D) → s.lt d d ≡ false
  not_self d = elim (Bool-cases (s.lt d d)) [ inl t ↦ o.asym d d t | inr f ↦ f ]

  -- The element found stands at the index found, and no element met is farther.
  abbrev IsMax : List (Cand D) → Cand D → List (Cand D) → ℕ × Cand D → Type 0
  IsMax all best cs (at, w) =
      (get_elem? all at ≡ some w) × (s.lt w.dist best.dist ≡ false) × IsBeyond s w.dist cs

  IsMax-cons :
      (all : List (Cand D)) (best c : Cand D) (cs : List (Cand D)) (r : Bool → ℕ × Cand D)
      (b : Bool)
      → s.lt best.dist c.dist ≡ b
      → IsMax all c cs (r true)
      → IsMax all best cs (r false)
      → IsMax all best (c ∷ cs) (r b)
  IsMax-cons all best c cs r true e took kept = (
    took.0,
    o.trans (r true).1.dist c.dist best.dist took.1 (o.asym best.dist c.dist e),
    (took.1, took.2),
  )
  IsMax-cons all best c cs r false e took kept =
      (kept.0, kept.1, (o.trans (r false).1.dist best.dist c.dist kept.1 e, kept.2))

  max_at-IsMax :
      (i at : ℕ) (best : Cand D) (cs all : List (Cand D))
      → get_elem? all at ≡ some best
      → ((j : ℕ) → get_elem? cs j ≡ get_elem? all (i + j))
      → IsMax all best cs (max_at s i at best cs)
  unfolding max_at
  max_at-IsMax i at best [] all here rest = (here, not_self best.dist, tt)
  max_at-IsMax i at best (c ∷ cs) all here rest =
      let first : get_elem? all i ≡ some c = ap (get_elem? all) (omega arith) ∙ sym (rest 0) in
      let later : (j : ℕ) → get_elem? cs j ≡ get_elem? all (suc i + j) =
        λ j. rest (suc j) ∙ ap (get_elem? all) (omega arith) in
      IsMax-cons all best c cs
        (λ b. max_at s (suc i) (if b then i else at) (if b then c else best) cs)
        (s.lt best.dist c.dist) refl (max_at-IsMax (suc i) i c cs all first later)
        (max_at-IsMax (suc i) at best cs all here later)

  All_at :
      (cs : List (Cand D)) (i : ℕ) (w : Cand D) (x : D)
      → IsBeyond s x cs
      → get_elem? cs i ≡ some w
      → s.lt x w.dist ≡ false
  All_at [] i w x a e = absurd (ground arith)
  All_at (c ∷ cs) zero w x a e =
      ap (λ found. elim found [ none ↦ s.lt x c.dist | some v ↦ s.lt x v.dist ]) (sym e) ∙ a.0
  All_at (c ∷ cs) (suc i) w x a e = All_at cs i w x a.1 e

  dist_at :
      (cs : List (Cand D)) (i : ℕ) (w : Cand D)
      → All (λ c. c.dist ≡ s.dist c.id) cs
      → get_elem? cs i ≡ some w
      → w.dist ≡ s.dist w.id
  dist_at [] i w a e = absurd (ground arith)
  dist_at (c ∷ cs) zero w a e =
      let at = λ (f : Cand D → D). ap (λ found. elim found [ none ↦ f c | some v ↦ f v ]) e in
      sym (at (λ v. v.dist)) ∙ a.0 ∙ at (λ v. s.dist v.id)
  dist_at (c ∷ cs) (suc i) w a e = dist_at cs i w a.1 e

  module _ (new : Cand D) (cs : List (Cand D)) (pos : 0 < s.list_size)
      (fits : length cs ≤ s.list_size) (ex : new.dist ≡ s.dist new.id)
      (all : All (λ c. c.dist ≡ s.dist c.id) cs) (d : IsDistinct (cand_ids cs))
      (fresh : contains new.id (cand_ids cs) ≡ false) where
    append-Inserted : length cs < s.list_size → Inserted s new cs (cs ++ new ∷ [])
    append-Inserted room = record {
      size = omega (arith, length-append cs (new ∷ []));
      exact = All-append (λ c. c.dist ≡ s.dist c.id) cs (new ∷ []) all (ex, tt);
      only = λ x h. grind (arith, cand_ids-append x cs new);
      distinct = append-IsDistinct cs new d fresh;
      kept = λ x h. inl (ground (arith, cand_ids-append x cs new));
      taken = inl (ground (arith, cand_ids-append new.id cs new));
      beyond = λ x e h. absurd (omega arith);
    }

    reject-Inserted : length cs ≡ s.list_size → IsBeyond s new.dist cs → Inserted s new cs cs
    reject-Inserted full far = record {
      size = fits;
      exact = all;
      only = λ x h. inr h;
      distinct = d;
      kept = λ x h. inl h;
      taken = inr (full, far);
      beyond = λ x e h. (e, h);
    }

    replace-Inserted :
        (i : ℕ) (w : Cand D)
        → length cs ≡ s.list_size
        → get_elem? cs i ≡ some w
        → IsBeyond s w.dist cs
        → s.lt new.dist w.dist ≡ true
        → Inserted s new cs (set cs i new)
    replace-Inserted i w full at far near =
        let same = length-set cs i new in
        let out : IsBeyond s w.dist (set cs i new) =
          All-set (λ c. s.lt w.dist c.dist ≡ false) cs i new far (o.asym new.dist w.dist near) in
        record {
          size = omega arith;
          exact = All-set (λ c. c.dist ≡ s.dist c.id) cs i new all ex;
          only = λ x h. set-contains cs i x new h;
          distinct = set-IsDistinct cs i new d fresh;
          kept = λ x h. elim (cand_ids-set cs i x new w at h) [
            | inl gone ↦
                let e : s.dist x ≡ w.dist = ap s.dist gone ∙ sym (dist_at cs i w all at) in
                inr (same ∙ full, rw e out)
            | inr stays ↦ inl stays
          ];
          taken = inl (set-contains_self cs i new w at);
          beyond = λ x e h.
              let away : s.lt x w.dist ≡ false = All_at cs i w x h at in
              (same ∙ full, IsBeyond-trans x w.dist (set cs i new) away out);
        }

  pub insert_cand-Inserted :
      (new : Cand D) (cs : List (Cand D))
      → 0 < s.list_size
      → length cs ≤ s.list_size
      → new.dist ≡ s.dist new.id
      → All (λ c. c.dist ≡ s.dist c.id) cs
      → IsDistinct (cand_ids cs)
      → contains new.id (cand_ids cs) ≡ false
      → Inserted s new cs (insert_cand s new cs)
  unfolding insert_cand insert_full
  insert_cand-Inserted new [] pos fits ex all d fresh =
      let room : leb s.list_size 0 ≡ false = ground arith in
      rw room (append-Inserted new [] pos fits ex all d fresh pos)
  insert_cand-Inserted new (c ∷ cs) pos fits ex all d fresh =
      elim (Bool-cases (leb s.list_size (length (c ∷ cs)))) [
        | inr room ↦ rw room (append-Inserted new (c ∷ cs) pos fits ex all d fresh (ground arith))
        | inl full ↦
            let later : (j : ℕ) → get_elem? cs j ≡ get_elem? (c ∷ cs) (1 + j) =
              λ j. let e : suc j ≡ 1 + j = omega arith in ap (get_elem? (c ∷ cs)) e in
            let m = max_at-IsMax 1 0 c cs (c ∷ cs) refl later in
            let far : IsBeyond s (max_at s 1 0 c cs).1.dist (c ∷ cs) = (m.1, m.2) in
            elim (Bool-cases (s.ge new.dist (max_at s 1 0 c cs).1.dist)) [
              | inl above ↦
                  let not_near : s.lt new.dist (max_at s 1 0 c cs).1.dist ≡ false =
                    ground (arith, o.ge_lt new.dist (max_at s 1 0 c cs).1.dist) in
                  rw (full, above)
                    (reject-Inserted new (c ∷ cs) pos fits ex all d fresh (ground arith)
                      (IsBeyond-trans _ _ (c ∷ cs) not_near far))
              | inr near ↦
                  rw (full, near)
                    (replace-Inserted new (c ∷ cs) pos fits ex all d fresh _ _ (ground arith) m.0
                      far (ground (arith, o.ge_lt new.dist (max_at s 1 0 c cs).1.dist)))
            ]
      ]
