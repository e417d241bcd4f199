-- ===== src/Bundle/Segments.antt =====
-- The array of the inverted edges of tools/pack_layout_bundle.cpp: the segment of a record holds who
-- points at it.
use cxl_anns_kx.Base.{
  ℕ, zero, suc, ◌+◌, ◌-◌, ◌*◌, ◌<◌, ◌≤◌, ◌≡◌, ◌∙◌, ◌⊎◌, refl, ap, sym, ltb, ◌==◌, true, false,
  Bool-cases, inl, inr, List, [], ◌∷◌, arith, eq-or-ne,
}
use cxl_anns_kx.Base.Lists.{length, get_or}
use cxl_anns_kx.Base.Words.{u32_mod, add32, add32_small}
use cxl_anns_kx.Base.Dict.{update}
use cxl_anns_kx.Bundle.Edges.{count_rows, offsets, Filling, invert}
use cxl_anns_kx.Bundle.Inverse.{
  pointers_to, Edge, all_edges, count_edges, put_edge, fill_edges, sources, count_rows-edges,
  fill_rows-edges, all_edges-sources, length-all_edges, length-sources,
}

-- Counts that fit 32 bits count the sources.
count_edges_lem :
    (es : List Edge) (f : ℕ → ℕ) (v : ℕ)
    → f v + length (sources v es) < u32_mod
    → count_edges es f v ≡ f v + length (sources v es)
count_edges_lem [] f v fits = omega arith
count_edges_lem ((w, u) ∷ es) f v fits =
    let g = update f w (add32 (f w) 1) in
    let rest = count_edges_lem es g v in
    elim (eq-or-ne w v) [
      | inl same ↦
          let hit : (w == v) ≡ true = ground arith in
          let hit1 : (v == w) ≡ true = ground arith in
          let e : f v ≡ f w = ap f (sym same) in
          let low : f v + suc (length (sources v es)) < u32_mod = simp hit at fits in
          let sum : add32 (f w) 1 ≡ f w + 1 = add32_small (f w) 1 (omega arith) in
          let grown : g v ≡ f v + 1 = simp hit1 (sum ∙ omega arith) in
          simp hit (rest (omega arith) ∙ omega arith)
      | inr other ↦
          let miss : (v == w) ≡ false = ground arith in
          let kept : g v ≡ f v = rw miss refl in
          let low : f v + length (sources v es) < u32_mod = simp other at fits in
          simp other (rest (omega arith) ∙ omega arith)
    ]

offsets_mono : (f : ℕ → ℕ) (v d : ℕ) → offsets f v ≤ offsets f (v + d)
unfolding offsets
offsets_mono f v zero = let e : v + 0 ≡ v = omega arith in rw e (omega arith)
offsets_mono f v (suc d) =
    let e : v + suc d ≡ suc (v + d) = omega arith in rw e (omega (arith, offsets_mono f v d))

-- The segments of two records do not meet.
offsets_apart :
    (f : ℕ → ℕ) (v w x : ℕ)
    → (v == w) ≡ false
    → offsets f v ≤ x
    → x < offsets f (suc v)
    → (x < offsets f w) ⊎ (offsets f (suc w) ≤ x)
offsets_apart f v w x apart lo hi = elim (Bool-cases (ltb v w)) [
  | inl below ↦
      let e : suc v + (w - suc v) ≡ w = ground arith in
      let up = rw e at (offsets_mono f (suc v) (w - suc v)) in inl (omega arith)
  | inr above ↦
      let e : suc w + (v - suc w) ≡ v = ground arith in
      let up = rw e at (offsets_mono f (suc w) (v - suc w)) in inr (omega arith)
]

module _ (indeg : ℕ → ℕ) where
  abbrev start : ℕ → ℕ
  start v = offsets indeg v

  -- The cursor of each record is in its segment, with room for the edges to come.
  abbrev HasRoom : List Edge → Filling → Type 0
  HasRoom es f = (v : ℕ) → (start v ≤ f.cur v) × (f.cur v + length (sources v es) ≤ start (suc v))

  HasRoom-put :
      (w u : ℕ) (es : List Edge) (f : Filling)
      → HasRoom ((w, u) ∷ es) f
      → HasRoom es (put_edge (w, u) f)
  HasRoom-put w u es f room v =
      let (lo, hi) = room v in
      elim (eq-or-ne w v) [
        | inl same ↦
            let hit : (w == v) ≡ true = ground arith in
            let hit1 : (v == w) ≡ true = ground arith in
            let e : f.cur w ≡ f.cur v = ap f.cur same in
            let hi1 = simp hit at hi in (ground arith, ground arith)
        | inr other ↦
            let miss : (v == w) ≡ false = ground arith in
            let hi1 = simp other at hi in (ground arith, ground arith)
      ]

  -- What lies between the start of a segment and its cursor stays.
  fill_edges-keeps :
      (es : List Edge) (f : Filling) (v x : ℕ)
      → HasRoom es f
      → start v ≤ x
      → x < f.cur v
      → (fill_edges es f).inadj x ≡ f.inadj x
  fill_edges-keeps [] f v x room lo hi = refl
  fill_edges-keeps ((w, u) ∷ es) f v x room lo hi =
      let (lo_w, hi_w) = room w in
      let (lo_v, hi_v) = room v in
      let self : (w == w) ≡ true = ground arith in
      let full = simp self at hi_w in
      let other : (x == f.cur w) ≡ false = elim (eq-or-ne v w) [
        | inl same ↦ let e : f.cur v ≡ f.cur w = ap f.cur same in ground arith
        | inr apart ↦ let out = offsets_apart indeg v w x apart lo (omega arith) in ground arith
      ] in
      let above : x < (put_edge (w, u) f).cur v = elim (eq-or-ne v w) [
        | inl same ↦
            let hit : (v == w) ≡ true = ground arith in
            let e : f.cur v ≡ f.cur w = ap f.cur same in rw hit (omega arith)
        | inr apart ↦ rw apart hi
      ] in
      fill_edges-keeps es (put_edge (w, u) f) v x (HasRoom-put w u es f room) lo above
      ∙ rw other refl

  -- After an edge to v is put down, it stands first and the later ones follow.
  own_segment :
      (w u : ℕ) (es : List Edge) (f : Filling) (v i : ℕ)
      → HasRoom ((w, u) ∷ es) f
      → f.cur v ≡ f.cur w
      → (put_edge (w, u) f).cur v ≡ suc (f.cur v)
      → i < suc (length (sources v es))
      → ((j : ℕ)
          → j < length (sources v es)
          → (fill_edges es (put_edge (w, u) f)).inadj ((put_edge (w, u) f).cur v + j)
            ≡ get_or (sources v es) j 0)
      → (fill_edges es (put_edge (w, u) f)).inadj (f.cur v + i) ≡ get_or (u ∷ sources v es) i 0
  own_segment w u es f v zero room c e lt later =
      let f1 = put_edge (w, u) f in
      let here : (f.cur v + 0 == f.cur w) ≡ true = ground arith in
      fill_edges-keeps es f1 v (f.cur v + 0) (HasRoom-put w u es f room) (omega (arith, (room v).0))
        (omega (arith, e))
      ∙ rw here refl
  own_segment w u es f v (suc j) room c e lt later =
      let f1 = put_edge (w, u) f in
      let at : f.cur v + suc j ≡ f1.cur v + j = omega (arith, e) in
      ap (λ x. (fill_edges es f1).inadj x) at ∙ later j (omega arith)

  -- The edges of a record go to its segment in turn.
  fill_edges_lem :
      (es : List Edge) (f : Filling) (v i : ℕ)
      → HasRoom es f
      → i < length (sources v es)
      → (fill_edges es f).inadj (f.cur v + i) ≡ get_or (sources v es) i 0
  fill_edges_lem [] f v i room lt = absurd (omega arith)
  fill_edges_lem ((w, u) ∷ es) f v i room lt =
      let f1 = put_edge (w, u) f in
      let room1 = HasRoom-put w u es f room in
      elim (eq-or-ne w v) [
        | inr other ↦
            let miss : (v == w) ≡ false = ground arith in
            let e : f1.cur v ≡ f.cur v = rw miss refl in
            let later = fill_edges_lem es f1 v i room1 (simp other at lt) in
            simp other (ap (λ c. (fill_edges es f1).inadj (c + i)) (sym e) ∙ later)
        | inl same ↦
            let hit : (w == v) ≡ true = ground arith in
            let hit1 : (v == w) ≡ true = ground arith in
            let c : f.cur v ≡ f.cur w = ap f.cur (sym same) in
            let e : f1.cur v ≡ suc (f.cur v) = rw hit1 (omega arith) in
            simp hit (
              own_segment w u es f v i room c e (simp hit at lt)
                (λ j low. fill_edges_lem es f1 v j room1 low))
      ]

-- With a row of `degree` words for each of n records, and fewer than 2^32 words in all, the
-- segment of a record v in the array of the inverted edges is as long as the list of the
-- records that point at v, and holds that list in order.
pub invert-pointers :
    (graph : ℕ → ℕ → ℕ) (n degree v : ℕ)
    → v < n
    → n * degree < u32_mod
    → let inv = invert graph n degree in
      let to = pointers_to graph degree v n 0 in
      (inv.inoff (suc v) ≡ inv.inoff v + length to)
      × ((i : ℕ) → i < length to → inv.inadj (inv.inoff v + i) ≡ get_or to i 0)
unfolding invert offsets
invert-pointers graph n degree v lt few =
    let es = all_edges graph n degree n 0 in
    let indeg = count_rows graph n degree n 0 (λ x. 0) in
    let counted : (x : ℕ) → indeg x ≡ length (sources x es) = λ x.
      ap (λ g. g x) (count_rows-edges graph n degree n 0 (λ y. 0))
      ∙ count_edges_lem es (λ y. 0) x
          (omega (arith, length-sources x es, length-all_edges graph n degree n 0))
      ∙ omega arith in
    let f0 : Filling = record { cur = offsets indeg; inadj = λ e. 0 } in
    let room : HasRoom indeg es f0 = λ x. let c = counted x in (omega arith, omega (arith, c)) in
    let same = all_edges-sources graph n degree v n 0 lt in
    let c = counted v in
    let size = ap (λ (l : List ℕ). length l) same in
    let all = fill_rows-edges graph n degree n 0 f0 in
    (
      omega (arith, c, size),
      λ i low.
          ap (λ g. g.inadj (offsets indeg v + i)) all
          ∙ fill_edges_lem indeg es f0 v i room (omega (arith, size, low))
          ∙ ap (λ l. get_or l i 0) same,
    )
