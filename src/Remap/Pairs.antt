-- ===== src/Remap/Pairs.antt =====
-- The matchings of tools/remap_diskann_pages.cpp: each mode pairs records two by two.
use cxl_anns_kx.Base.{
  ℕ, zero, suc, ◌+◌, ◌<◌, ◌≤◌, ◌≡◌, refl, ap, ltb, leb, ◌==◌, true, false, Bool-cases, inl, inr,
  not, ◌||◌, ◌&&◌, List, [], ◌∷◌, Option, none, some, arith, eq-or-ne, subst, ◌⊎◌,
}
use cxl_anns_kx.Base.Lists.{All}
use cxl_anns_kx.Reorder.{unset}
use cxl_anns_kx.Remap.{
  Matching, unmatched, pair, find_mate, pair_with, pair_neighbors, coexpand_row, coexpand,
  match_edges, cooccur,
}

-- A used record has another record as its mate, whose mate it is; the others have none.
pub record IsMatching (n : ℕ) (m : Matching) : Type 0 where
  pub low : (u : ℕ) → m.used u ≡ true → (u < n) × (m.mate u < n)
  pub other : (u : ℕ) → m.used u ≡ true → (m.mate u == u) ≡ false
  pub back : (u : ℕ) → m.used u ≡ true → (m.used (m.mate u) ≡ true) × (m.mate (m.mate u) ≡ u)
  pub alone : (u : ℕ) → m.used u ≡ false → m.mate u ≡ unset

abbrev CanPair : ℕ → ℕ → ℕ → Matching → Type 0
CanPair n a b m = (a < n) × (b < n) × ((a == b) ≡ false) × (m.used a ≡ false) × (m.used b ≡ false)

pair-back :
    (n a b x : ℕ) (m : Matching)
    → IsMatching n m
    → CanPair n a b m
    → (pair a b m).used x ≡ true
    → ((pair a b m).used ((pair a b m).mate x) ≡ true)
      × ((pair a b m).mate ((pair a b m).mate x) ≡ x)
unfolding pair
pair-back n a b x m v can h = elim (eq-or-ne x b) [
  | inl is_b ↦
      let e : (pair a b m).mate x ≡ a = unfold pair in ground arith in rw e (ground (arith, can))
  | inr not_b ↦ elim (eq-or-ne x a) [
    | inl is_a ↦
        let e : (pair a b m).mate x ≡ b = unfold pair in ground (arith, can) in
        rw e (ground (arith, can))
    | inr not_a ↦
        let e : (pair a b m).mate x ≡ m.mate x = unfold pair in ground arith in
        let old : m.used x ≡ true = ground arith in
        let (used, same) = v.back x old in
        let away : (y : ℕ) → m.used y ≡ false → (m.mate x == y) ≡ false = λ y off.
          elim (eq-or-ne (m.mate x) y) [
            | inl at ↦ let f = ap m.used at in absurd (ground arith)
            | inr apart ↦ apart
          ] in
        let from_a = away a can.3 in let from_b = away b can.4 in rw e (ground (arith, used, same))
  ]
]

pair-IsMatching :
    (n a b : ℕ) (m : Matching) → IsMatching n m → CanPair n a b m → IsMatching n (pair a b m)
pair-IsMatching n a b m v can = record {
  low = λ x h. unfold pair in ground (arith, can, v.low x, h);
  other = λ x h. unfold pair in ground (arith, can, v.other x, h);
  back = λ x h. pair-back n a b x m v can h;
  alone = λ x h. unfold pair in ground (arith, can, v.alone x, h);
}

find_mate-CanPair :
    (n u v : ℕ) (m : Matching) (vs : List ℕ)
    → u < n
    → m.used u ≡ false
    → find_mate n u m.used vs ≡ some v
    → CanPair n u v m
unfolding find_mate
find_mate-CanPair n u v m [] lt free e = absurd (ground (arith, e))
find_mate-CanPair n u v m (x ∷ xs) lt free e =
    elim (Bool-cases (ltb x n && not (x == u) && not (m.used x))) [
      | inl good ↦
          let same : x ≡ v = ground (arith, simp good at e) in
          subst (λ y. CanPair n u y m) same (lt, ground arith, ground arith, free, ground arith)
      | inr bad ↦ find_mate-CanPair n u v m xs lt free (simp bad at e)
    ]

pair_with-IsMatching :
    (n u : ℕ) (o : Option ℕ) (m : Matching)
    → IsMatching n m
    → ((v : ℕ) → o ≡ some v → CanPair n u v m)
    → IsMatching n (pair_with u o m)
pair_with-IsMatching n u none m v can = v
pair_with-IsMatching n u (some x) m v can = pair-IsMatching n u x m v (can x refl)

pub pair_neighbors-IsMatching :
    (n : ℕ) (row : ℕ → List ℕ) (rounds u : ℕ) (m : Matching)
    → u + rounds ≤ n
    → IsMatching n m
    → IsMatching n (pair_neighbors n row rounds u m)
unfolding pair_neighbors
pair_neighbors-IsMatching n row zero u m fits v = v
pair_neighbors-IsMatching n row (suc rounds) u m fits v = elim (Bool-cases (m.used u)) [
  | inl used ↦ simp used (pair_neighbors-IsMatching n row rounds (suc u) m (omega arith) v)
  | inr free ↦ simp free (
      pair_neighbors-IsMatching n row rounds (suc u) _ (omega arith) (
        pair_with-IsMatching n u (find_mate n u m.used (row u)) m v
          (λ x e. find_mate-CanPair n u x m (row u) (omega arith) free e)))
]

-- What waits for a second record is a record that is not used.
abbrev CanWait : ℕ → ℕ → Matching → Type 0
CanWait n pending m = (pending ≡ unset) ⊎ ((pending < n) × (m.used pending ≡ false))

coexpand_row-IsMatching :
    (n u pending : ℕ) (vs : List ℕ) (m : Matching)
    → n ≤ unset
    → IsMatching n m
    → CanWait n pending m
    → IsMatching n (coexpand_row n u pending vs m)
unfolding coexpand_row
coexpand_row-IsMatching n u pending [] m small v wait = v
coexpand_row-IsMatching n u pending (x ∷ xs) m small v wait =
    elim (Bool-cases (leb n x || x == u || m.used x || x == pending)) [
      | inl skip ↦ simp skip (coexpand_row-IsMatching n u pending xs m small v wait)
      | inr good ↦ elim (Bool-cases (pending == unset)) [
        | inl empty ↦
            simp (good, empty)
              (coexpand_row-IsMatching n u x xs m small v (inr (ground arith, ground arith)))
        | inr waits ↦
            let (lt, free) = waiting pending m wait waits in
            simp (good, waits)
              (coexpand_row-IsMatching n u unset xs (pair pending x m) small
                (pair-IsMatching n pending x m v
                  (lt, ground arith, ground arith, free, ground arith))
                (inl refl))
      ]
    ]
  where
    waiting :
        (pending : ℕ) (m : Matching)
        → CanWait n pending m
        → (pending == unset) ≡ false
        → (pending < n) × (m.used pending ≡ false)
    waiting pending m (inl e) waits = absurd (ground (arith, e, waits))
    waiting pending m (inr h) waits = h

pub coexpand-IsMatching :
    (n : ℕ) (row : ℕ → List ℕ) (rounds u : ℕ) (m : Matching)
    → n ≤ unset
    → IsMatching n m
    → IsMatching n (coexpand n row rounds u m)
unfolding coexpand
coexpand-IsMatching n row zero u m small v = v
coexpand-IsMatching n row (suc rounds) u m small v =
    coexpand-IsMatching n row rounds (suc u) (coexpand_row n u unset (row u) m) small
      (coexpand_row-IsMatching n u unset (row u) m small v (inl refl))

-- Edges between two records.
abbrev pub IsEdge : ℕ → ℕ × ℕ → Type 0
IsEdge n (a, b) = (a < n) × (b < n) × ((a == b) ≡ false)

match_edges-IsMatching :
    (n : ℕ) (es : List (ℕ × ℕ)) (m : Matching)
    → All (IsEdge n) es
    → IsMatching n m
    → IsMatching n (match_edges es m)
unfolding match_edges
match_edges-IsMatching n [] m real v = v
match_edges-IsMatching n ((a, b) ∷ es) m real v = elim (Bool-cases (m.used a || m.used b)) [
  | inl taken ↦ simp taken (match_edges-IsMatching n es m real.1 v)
  | inr free ↦ simp free (
      match_edges-IsMatching n es (pair a b m) real.1
        (pair-IsMatching n a b m v (real.0.0, real.0.1, real.0.2, ground arith, ground arith)))
]

pub unmatched-IsMatching : (n : ℕ) → IsMatching n unmatched
unmatched-IsMatching n = record {
  low = λ u h. absurd (ground (arith, h));
  other = λ u h. absurd (ground (arith, h));
  back = λ u h. absurd (ground (arith, h));
  alone = λ u h. refl;
}

pub cooccur-IsMatching :
    (n : ℕ) (row : ℕ → List ℕ) (edges : List (ℕ × ℕ))
    → All (IsEdge n) edges
    → IsMatching n (cooccur n row edges)
unfolding cooccur
cooccur-IsMatching n row edges real =
    pair_neighbors-IsMatching n row n 0 (match_edges edges unmatched) (omega arith)
      (match_edges-IsMatching n edges unmatched real (unmatched-IsMatching n))

-- For at most 2^32 - 1 records, whatever the rows name, the modes neighbor and coexpand pair
-- records two by two, and so does cooccur with any edges between two records.
pub every_mode-IsMatching :
    (n : ℕ) (row : ℕ → List ℕ) (edges : List (ℕ × ℕ))
    → n ≤ unset
    → All (IsEdge n) edges
    → IsMatching n (pair_neighbors n row n 0 unmatched)
      × IsMatching n (coexpand n row n 0 unmatched)
      × IsMatching n (cooccur n row edges)
every_mode-IsMatching n row edges small real = (
  pair_neighbors-IsMatching n row n 0 unmatched (omega arith) (unmatched-IsMatching n),
  coexpand-IsMatching n row n 0 unmatched small (unmatched-IsMatching n),
  cooccur-IsMatching n row edges real,
)
