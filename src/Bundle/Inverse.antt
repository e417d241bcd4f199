-- ===== src/Bundle/Inverse.antt =====
-- The inverted edges of tools/pack_layout_bundle.cpp against the list of those who point at a record.
use cxl_anns_kx.Base.{
  ℕ, zero, suc, ◌+◌, ◌*◌, ◌<◌, ◌≤◌, ◌≡◌, ◌∙◌, refl, ap, sym, if◌then◌else◌, ltb, ◌==◌, true,
  Bool-cases, inl, inr, List, [], ◌∷◌, ◌++◌, arith,
}
use cxl_anns_kx.Base.Words.{add32}
use cxl_anns_kx.Base.Lists.{length, length-append}
use cxl_anns_kx.Base.Dict.{update}
use cxl_anns_kx.Bundle.Edges.{count_row, count_rows, Filling, fill_row, fill_rows}

-- The words of row u that name v, a u for each.
unfoldable pub row_pointers : (ℕ → ℕ) → ℕ → ℕ → ℕ → ℕ → List ℕ
row_pointers row u v zero k = []
row_pointers row u v (suc rounds) k =
    let rest = row_pointers row u v rounds (suc k) in if row k == v then u ∷ rest else rest

-- The records that point at v, from record u on, each as often as its row names v.
unfoldable pub pointers_to : (ℕ → ℕ → ℕ) → ℕ → ℕ → ℕ → ℕ → List ℕ
unfolding row_pointers
pointers_to graph degree v zero u = []
pointers_to graph degree v (suc rounds) u =
    row_pointers (graph u) u v degree 0 ++ pointers_to graph degree v rounds (suc u)

-- The edges that the loops visit, each with the record it points at first.
abbrev pub Edge : Type 0
Edge = ℕ × ℕ

unfoldable pub row_edges : (ℕ → ℕ) → ℕ → ℕ → ℕ → ℕ → List Edge
row_edges row n u zero k = []
row_edges row n u (suc rounds) k =
    let rest = row_edges row n u rounds (suc k) in if ltb (row k) n then (row k, u) ∷ rest else rest

unfoldable pub all_edges : (ℕ → ℕ → ℕ) → ℕ → ℕ → ℕ → ℕ → List Edge
unfolding row_edges
all_edges graph n degree zero u = []
all_edges graph n degree (suc rounds) u =
    row_edges (graph u) n u degree 0 ++ all_edges graph n degree rounds (suc u)

abbrev pub count_edges : List Edge → (ℕ → ℕ) → ℕ → ℕ
count_edges [] f = f
count_edges ((v, u) ∷ es) f = count_edges es (update f v (add32 (f v) 1))

abbrev pub put_edge : Edge → Filling → Filling
put_edge (v, u) f = record {
  cur = update f.cur v (f.cur v + 1);
  inadj = update f.inadj (f.cur v) u;
}

abbrev pub fill_edges : List Edge → Filling → Filling
fill_edges [] f = f
fill_edges (e ∷ es) f = fill_edges es (put_edge e f)

abbrev pub sources : ℕ → List Edge → List ℕ
sources v [] = []
sources v ((w, u) ∷ es) = if w == v then u ∷ sources v es else sources v es

count_edges-append :
    (es fs : List Edge) (f : ℕ → ℕ) → count_edges (es ++ fs) f ≡ count_edges fs (count_edges es f)
count_edges-append [] fs f = refl
count_edges-append ((v, u) ∷ es) fs f = count_edges-append es fs (update f v (add32 (f v) 1))

fill_edges-append :
    (es fs : List Edge) (f : Filling) → fill_edges (es ++ fs) f ≡ fill_edges fs (fill_edges es f)
fill_edges-append [] fs f = refl
fill_edges-append (e ∷ es) fs f = fill_edges-append es fs (put_edge e f)

count_row-edges :
    (row : ℕ → ℕ) (n u rounds k : ℕ) (f : ℕ → ℕ)
    → count_row row n rounds k f ≡ count_edges (row_edges row n u rounds k) f
unfolding count_row row_edges
count_row-edges row n u zero k f = refl
count_row-edges row n u (suc rounds) k f = elim (Bool-cases (ltb (row k) n)) [
  | inl edge ↦
      simp edge (count_row-edges row n u rounds (suc k) (update f (row k) (add32 (f (row k)) 1)))
  | inr out ↦ simp out (count_row-edges row n u rounds (suc k) f)
]

fill_row-edges :
    (row : ℕ → ℕ) (n u rounds k : ℕ) (f : Filling)
    → fill_row row n u rounds k f ≡ fill_edges (row_edges row n u rounds k) f
unfolding fill_row row_edges
fill_row-edges row n u zero k f = refl
fill_row-edges row n u (suc rounds) k f = elim (Bool-cases (ltb (row k) n)) [
  | inl edge ↦ simp edge (fill_row-edges row n u rounds (suc k) (put_edge (row k, u) f))
  | inr out ↦ simp out (fill_row-edges row n u rounds (suc k) f)
]

pub count_rows-edges :
    (graph : ℕ → ℕ → ℕ) (n degree rounds u : ℕ) (f : ℕ → ℕ)
    → count_rows graph n degree rounds u f ≡ count_edges (all_edges graph n degree rounds u) f
unfolding count_rows all_edges
count_rows-edges graph n degree zero u f = refl
count_rows-edges graph n degree (suc rounds) u f =
    let es = row_edges (graph u) n u degree 0 in
    let fs = all_edges graph n degree rounds (suc u) in
    count_rows-edges graph n degree rounds (suc u) (count_row (graph u) n degree 0 f)
    ∙ ap (λ g. count_edges fs g) (count_row-edges (graph u) n u degree 0 f)
    ∙ sym (count_edges-append es fs f)

pub fill_rows-edges :
    (graph : ℕ → ℕ → ℕ) (n degree rounds u : ℕ) (f : Filling)
    → fill_rows graph n degree rounds u f ≡ fill_edges (all_edges graph n degree rounds u) f
unfolding fill_rows all_edges
fill_rows-edges graph n degree zero u f = refl
fill_rows-edges graph n degree (suc rounds) u f =
    let es = row_edges (graph u) n u degree 0 in
    let fs = all_edges graph n degree rounds (suc u) in
    fill_rows-edges graph n degree rounds (suc u) (fill_row (graph u) n u degree 0 f)
    ∙ ap (λ g. fill_edges fs g) (fill_row-edges (graph u) n u degree 0 f)
    ∙ sym (fill_edges-append es fs f)

sources-append : (v : ℕ) (es fs : List Edge) → sources v (es ++ fs) ≡ sources v es ++ sources v fs
sources-append v [] fs = refl
sources-append v ((w, u) ∷ es) fs = elim (Bool-cases (w == v)) [
  | inl here ↦ simp here (ap (λ l. u ∷ l) (sources-append v es fs))
  | inr other ↦ simp other (sources-append v es fs)
]

row_edges-sources :
    (row : ℕ → ℕ) (n u v rounds k : ℕ)
    → v < n
    → sources v (row_edges row n u rounds k) ≡ row_pointers row u v rounds k
unfolding row_edges row_pointers
row_edges-sources row n u v zero k lt = refl
row_edges-sources row n u v (suc rounds) k lt =
    let rest = row_edges-sources row n u v rounds (suc k) lt in
    elim (Bool-cases (row k == v)) [
      | inl here ↦
          let edge : ltb (row k) n ≡ true = ground arith in simp (edge, here) (ap (λ l. u ∷ l) rest)
      | inr other ↦ elim (Bool-cases (ltb (row k) n)) [
        | inl edge ↦ simp (edge, other) rest
        | inr out ↦ simp (out, other) rest
      ]
    ]

pub all_edges-sources :
    (graph : ℕ → ℕ → ℕ) (n degree v rounds u : ℕ)
    → v < n
    → sources v (all_edges graph n degree rounds u) ≡ pointers_to graph degree v rounds u
unfolding all_edges pointers_to
all_edges-sources graph n degree v zero u lt = refl
all_edges-sources graph n degree v (suc rounds) u lt =
    let es = row_edges (graph u) n u degree 0 in
    let fs = all_edges graph n degree rounds (suc u) in
    sources-append v es fs
    ∙ ap (λ l. l ++ sources v fs) (row_edges-sources (graph u) n u v degree 0 lt)
    ∙ ap (λ l. row_pointers (graph u) u v degree 0 ++ l)
        (all_edges-sources graph n degree v rounds (suc u) lt)

length-row_edges : (row : ℕ → ℕ) (n u rounds k : ℕ) → length (row_edges row n u rounds k) ≤ rounds
unfolding row_edges
length-row_edges row n u zero k = omega arith
length-row_edges row n u (suc rounds) k = ground (arith, length-row_edges row n u rounds (suc k))

-- There are at most as many edges as words.
pub length-all_edges :
    (graph : ℕ → ℕ → ℕ) (n degree rounds u : ℕ)
    → length (all_edges graph n degree rounds u) ≤ rounds * degree
unfolding all_edges
length-all_edges graph n degree zero u = omega arith
length-all_edges graph n degree (suc rounds) u =
    let es = row_edges (graph u) n u degree 0 in
    let fs = all_edges graph n degree rounds (suc u) in
    let more : suc rounds * degree ≡ degree + rounds * degree = omega arith in
    omega (
      arith,
      more,
      length-append es fs,
      length-row_edges (graph u) n u degree 0,
      length-all_edges graph n degree rounds (suc u),
    )

pub length-sources : (v : ℕ) (es : List Edge) → length (sources v es) ≤ length es
length-sources v [] = omega arith
length-sources v ((w, u) ∷ es) = ground (arith, length-sources v es)
