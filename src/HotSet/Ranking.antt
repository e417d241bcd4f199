-- ===== src/HotSet/Ranking.antt =====
-- The table of serving/hot_set.hpp after a read and after ageing, and what top_ids takes from it.
use cxl_anns_kx.Base.{
  ℕ, ◌+◌, ◌*◌, ◌/◌, ◌%◌, ◌<◌, ◌≤◌, ◌≡◌, refl, if◌then◌else◌, ltb, ◌==◌, Bool, true, false,
  Bool-cases, inl, inr, not, ◌||◌, [], ◌∷◌, Option, none, some, arith,
}
use cxl_anns_kx.Base.Words.{add32}
use cxl_anns_kx.Base.Lists.{length, All}
use cxl_anns_kx.HotSet.{
  Ent, HotSet, Table, find, touch, on_touch, halve, on_query_end, hotter, insert_row, sort_rows,
  fitting, top_ids,
}

-- An entry after a read in query q.
abbrev pub counted : ℕ → Option Ent → Ent
counted q none = record { freq = 1; last_q = q }
counted q (some e) = record { freq = add32 e.freq 1; last_q = q }

find-touch :
    (q id j : ℕ) (t : Table)
    → find j (touch q id t) ≡ (if j == id then some (counted q (find id t)) else find j t)
unfolding find touch
find-touch q id j [] = refl
find-touch q id j ((k, e) ∷ rest) = elim (Bool-cases (id == k)) [
  | inl here ↦
      let same : (j == id) ≡ (j == k) = ground arith in rw (here, same) (within (j == k) _ _ _)
  | inr on ↦ rw on (elim (Bool-cases (j == k)) [
    | inl hit ↦ let other : (j == id) ≡ false = ground arith in rw (hit, other) refl
    | inr miss ↦ rw miss (find-touch q id j rest)
  ])
]
  where
    within :
        (b : Bool) (x y z : Option Ent)
        → (if b then x else y) ≡ (if b then x else (if b then z else y))
    within true x y z = refl
    within false x y z = refl

-- A read counts one entry up and changes no other.
pub find-on_touch :
    (id j : ℕ) (h : HotSet)
    → find j (on_touch id h).tab
      ≡ (if j == id then some (counted h.queries (find id h.tab)) else find j h.tab)
unfolding on_touch
find-on_touch id j h = find-touch h.queries id j h.tab

-- No entry of the table has frequency 0.
abbrev pub IsWarm : Table → Type 0
IsWarm t = All (λ r. 0 < r.1.freq) t

halve-IsWarm : (t : Table) → IsWarm (halve t)
unfolding halve
halve-IsWarm [] = tt
halve-IsWarm ((k, e) ∷ rest) = elim (Bool-cases (e.freq / 2 == 0)) [
  | inl cold ↦ rw cold (halve-IsWarm rest)
  | inr warm ↦ rw warm (ground arith, halve-IsWarm rest)
]

-- The sum of the frequencies.
unfoldable pub heat : Table → ℕ
heat [] = 0
heat ((k, e) ∷ rest) = e.freq + heat rest

-- The query that ends now is the last of an ageing period.
abbrev pub ages : HotSet → Bool
ages h = not (h.aging_period == 0 || not (add32 h.queries 1 % h.aging_period == 0))

heat-halve : (t : Table) → heat (halve t) * 2 ≤ heat t
unfolding heat halve
heat-halve [] = omega arith
heat-halve ((k, e) ∷ rest) = ground (arith, heat-halve rest)

-- The end of a query keeps a table without entries of frequency 0 so, and never adds to the sum
-- of the frequencies; at the end of an ageing period the sum is at most half of what it was.
pub on_query_end_lem :
    (h : HotSet)
    → IsWarm h.tab
    → IsWarm (on_query_end h).tab
      × (heat (on_query_end h).tab * (if ages h then 2 else 1) ≤ heat h.tab)
unfolding on_query_end
on_query_end_lem h warm =
    elim (Bool-cases (h.aging_period == 0 || not (add32 h.queries 1 % h.aging_period == 0))) [
      | inl young ↦ rw young (warm, omega arith)
      | inr old ↦ rw old (halve-IsWarm h.tab, heat-halve h.tab)
    ]

length-fitting :
    (nbytes vec_bytes used : ℕ) (t : Table)
    → used ≤ nbytes
    → used + length (fitting nbytes vec_bytes used t) * vec_bytes ≤ nbytes
unfolding fitting
length-fitting nbytes vec_bytes used [] h = omega arith
length-fitting nbytes vec_bytes used ((id, e) ∷ rest) h =
    elim (Bool-cases (ltb nbytes (used + vec_bytes))) [
      | inl full ↦ rw full (omega arith)
      | inr fits ↦
          rw fits
            (omega (arith, length-fitting nbytes vec_bytes (used + vec_bytes) rest (ground arith)))
    ]

-- The vectors of top_ids fit in the bytes given.
pub length-top_ids :
    (nbytes vec_bytes : ℕ) (h : HotSet) → length (top_ids nbytes vec_bytes h) * vec_bytes ≤ nbytes
unfolding top_ids
length-top_ids nbytes vec_bytes h = elim (Bool-cases (nbytes == 0 || vec_bytes == 0)) [
  | inl nothing ↦ rw nothing (omega arith)
  | inr some_room ↦
      rw some_room
        (omega (arith, length-fitting nbytes vec_bytes 0 (sort_rows h.tab) (omega arith)))
]

-- No row is hotter than one before it.
abbrev pub IsRanked : Table → Type 0
IsRanked [] = Unit
IsRanked (r ∷ rest) = All (λ s. hotter s.1 r.1 ≡ false) rest × IsRanked rest

hotter_trans : (a b c : Ent) → hotter b a ≡ false → hotter c b ≡ false → hotter c a ≡ false
unfolding hotter
hotter_trans a b c h k = ground arith

hotter_antisym : (a b : Ent) → hotter a b ≡ true → hotter b a ≡ false
unfolding hotter
hotter_antisym a b h = ground arith

insert_row-All :
    (r s : ℕ × Ent) (t : Table)
    → hotter s.1 r.1 ≡ false
    → All (λ x. hotter x.1 r.1 ≡ false) t
    → All (λ x. hotter x.1 r.1 ≡ false) (insert_row s t)
unfolding insert_row
insert_row-All r s [] h a = (h, tt)
insert_row-All r s (x ∷ rest) h a = elim (Bool-cases (hotter x.1 s.1)) [
  | inl after ↦ rw after (a.0, insert_row-All r s rest h a.1)
  | inr before ↦ rw before (h, a)
]

colder-All :
    (r x : ℕ × Ent) (t : Table)
    → hotter x.1 r.1 ≡ false
    → All (λ y. hotter y.1 x.1 ≡ false) t
    → All (λ y. hotter y.1 r.1 ≡ false) t
colder-All r x [] h a = tt
colder-All r x (y ∷ rest) h a = (hotter_trans r.1 x.1 y.1 h a.0, colder-All r x rest h a.1)

insert_row-IsRanked : (r : ℕ × Ent) (t : Table) → IsRanked t → IsRanked (insert_row r t)
unfolding insert_row
insert_row-IsRanked r [] s = (tt, tt)
insert_row-IsRanked r (x ∷ rest) s = elim (Bool-cases (hotter x.1 r.1)) [
  | inl after ↦
      rw after
        (insert_row-All x r rest (hotter_antisym x.1 r.1 after) s.0, insert_row-IsRanked r rest s.1)
  | inr before ↦ rw before ((before, colder-All r x rest before s.0), s)
]

-- The rows that top_ids takes its ids from, from the first on, are ranked: none is hotter than one
-- before it.
pub sort_rows-IsRanked : (t : Table) → IsRanked (sort_rows t)
unfolding sort_rows
sort_rows-IsRanked [] = tt
sort_rows-IsRanked (r ∷ rest) = insert_row-IsRanked r (sort_rows rest) (sort_rows-IsRanked rest)
