-- ===== src/Placement/Refused.antt =====
-- load_id_slot_map of serving/placement.hpp where it fails on a slot.
use cxl_anns_kx.Base.{
  ℕ, zero, suc, ◌+◌, ◌<◌, ◌≤◌, ◌≡◌, ◌⊎◌, refl, sym, ◌∙◌, Bool, true, false, Bool-cases, inl, inr,
  ◌||◌, leb, ◌==◌, List, [], ◌∷◌, some, arith, eq-or-ne, not,
}
use cxl_anns_kx.Base.Lists.{
  length, get_or, set, replicate, length-set, get_or-set_self, get_or-set_ne, length-replicate,
}
use cxl_anns_kx.Placement.{Header, Placement, slot_loop, load_id_slot_map, slot_of, id_of_slot}
use cxl_anns_kx.Placement.Slots.{slot_loop-length, id_of_slot_listed, get_or-replicate}

-- A slot that the loop refuses at place k: out of range, or also at an earlier place.
abbrev pub IsRefused : ℕ → List ℕ → ℕ → Type 0
IsRefused n slots k =
    (n ≤ get_or slots k 0) ⊎ ((j : ℕ) × (j < k) × (get_or slots j 0 ≡ get_or slots k 0))

-- Where the loop stops, at the k-th slot from here: which it refuses, and what it has written.
record IsStopped (n i : ℕ) (slots : List ℕ) (seen : ℕ → Bool) (out ids : List ℕ) (k : ℕ)
    : Type 0 where
  here : k < length slots
  refused :
      (n ≤ get_or slots k 0)
      ⊎ (seen (get_or slots k 0) ≡ true)
      ⊎ ((j : ℕ) × (j < k) × (get_or slots j 0 ≡ get_or slots k 0))
  passed :
      (j : ℕ)
      → j < k
      → (get_or slots j 0 < n)
        × (seen (get_or slots j 0) ≡ false)
        × ((t : ℕ) → t < j → (get_or slots t 0 == get_or slots j 0) ≡ false)
  written : (j d : ℕ) → j < k → get_or ids (get_or slots j 0) d ≡ i + j
  others :
      (t d : ℕ)
      → ((j : ℕ) → j < k → (t == get_or slots j 0) ≡ false)
      → get_or ids t d ≡ get_or out t d

-- A slot that the loop passes comes before those of the rest.
pass_slot :
    (n i s k : ℕ) (slots : List ℕ) (seen : ℕ → Bool) (out ids : List ℕ)
    → length out ≡ n
    → s < n
    → seen s ≡ false
    → IsStopped n (suc i) slots (λ j. j == s || seen j) (set out s i) ids k
    → IsStopped n i (s ∷ slots) seen out ids (suc k)
pass_slot n i s k slots seen out ids size low new r = record {
  here = omega (arith, r.here);
  refused = elim r.refused [
    | inl high ↦ inl high
    | inr (inr (j, lt, same)) ↦ inr (inr (suc j, omega arith, same))
    | inr (inl marked) ↦ elim (eq-or-ne (get_or slots k 0) s) [
      | inl same ↦ inr (inr (0, omega arith, sym same))
      | inr other ↦ inr (inl (ground arith))
    ]
  ];
  passed = passed;
  written = written;
  others = λ t d apart.
      r.others t d (λ j lt. apart (suc j) (omega arith))
      ∙ get_or-set_ne out s t i d (apart 0 (omega arith));
}
  where
    first_apart : (j : ℕ) → j < k → (get_or slots j 0 == s) ≡ false
    first_apart j lt = let h = (r.passed j lt).1 in ground arith

    earlier :
        (j : ℕ)
        → j < k
        → (t : ℕ) → t < suc j
        → (get_or (s ∷ slots) t 0 == get_or (s ∷ slots) (suc j) 0) ≡ false
    earlier j lt zero h = let no_s = first_apart j lt in ground arith
    earlier j lt (suc t) h = (r.passed j lt).2 t (omega arith)

    passed :
        (j : ℕ)
        → j < suc k
        → (get_or (s ∷ slots) j 0 < n)
          × (seen (get_or (s ∷ slots) j 0) ≡ false)
          × ((t : ℕ) → t < j → (get_or (s ∷ slots) t 0 == get_or (s ∷ slots) j 0) ≡ false)
    passed zero lt = (low, new, λ t h. absurd (omega arith))
    passed (suc j) lt =
        let (a, b, c) = r.passed j (omega arith) in
        let no_s = first_apart j (omega arith) in (a, ground arith, earlier j (omega arith))

    written : (j d : ℕ) → j < suc k → get_or ids (get_or (s ∷ slots) j 0) d ≡ i + j
    written zero d lt =
        r.others s d (λ j h. let no_s = first_apart j h in ground arith)
        ∙ get_or-set_self out s i d (omega arith)
        ∙ omega arith
    written (suc j) d lt = r.written j d (omega arith) ∙ omega arith

slot_loop-IsStopped :
    (n i : ℕ) (slots : List ℕ) (seen : ℕ → Bool) (out : List ℕ)
    → length out ≡ n
    → (slot_loop n i slots seen out).0 ≡ false
    → (k : ℕ) × IsStopped n i slots seen out (slot_loop n i slots seen out).1 k
unfolding slot_loop
slot_loop-IsStopped n i [] seen out size stopped = absurd (ground (arith, stopped))
slot_loop-IsStopped n i (s ∷ slots) seen out size stopped = elim (Bool-cases (leb n s || seen s)) [
  | inl bad ↦ rw bad (
    0,
    record {
      here = omega arith;
      refused = ground arith;
      passed = λ j lt. absurd (omega arith);
      written = λ j d lt. absurd (omega arith);
      others = λ t d apart. refl;
    },
  )
  | inr good ↦
      let (k, r) =
        slot_loop-IsStopped n (suc i) slots (λ j. j == s || seen j) (set out s i)
          (length-set out s i ∙ size) (rw good at stopped) in
      rw good (suc k, pass_slot n i s k slots seen out _ size (ground arith) (ground arith) r)
]

stopped_load :
    (h : Header) (slots : List ℕ) (p : Placement)
    → p.hdr ≡ some h
    → length slots ≡ h.n
    → (load_id_slot_map (some slots) p).1 ≡ false
    → ((slot_loop h.n 0 slots (λ j. false) (replicate h.n 0)).0 ≡ false)
      × ((load_id_slot_map (some slots) p).0.slot_to_id
          ≡ (slot_loop h.n 0 slots (λ j. false) (replicate h.n 0)).1)
      × ((load_id_slot_map (some slots) p).0.id_to_slot ≡ p.id_to_slot)
unfolding load_id_slot_map
stopped_load h slots p e size failed =
    let whole : not (length slots == h.n) ≡ false = ground arith in
    elim (Bool-cases (slot_loop h.n 0 slots (λ j. false) (replicate h.n 0)).0) [
      | inl done ↦ absurd (ground (arith, rw (e, load_id_slot_map, whole, done) at failed))
      | inr stop ↦ (
        stop,
        rw (e, load_id_slot_map, whole, stop) refl,
        rw (e, load_id_slot_map, whole, stop) refl,
      )
    ]

-- Where the file has n slots and the load fails, it does so at the first place k whose slot is
-- out of range or stands at an earlier place too. By then it has replaced slot_to_id: the slot
-- of each place before k maps to that place, and each other slot below n to id 0, while the
-- slots of the ids are as before.
pub load_id_slot_map_failed :
    (h : Header) (slots : List ℕ) (p : Placement)
    → p.hdr ≡ some h
    → length slots ≡ h.n
    → (load_id_slot_map (some slots) p).1 ≡ false
    → let r = (load_id_slot_map (some slots) p).0 in
      (k : ℕ) × (k < h.n)
      × IsRefused h.n slots k
      × ((j : ℕ) → j < k → IsRefused h.n slots j → ⊥)
      × ((j : ℕ) → j < k → id_of_slot (get_or slots j 0) r ≡ j)
      × ((slot : ℕ)
          → slot < h.n
          → ((j : ℕ) → j < k → (slot == get_or slots j 0) ≡ false)
          → id_of_slot slot r ≡ 0)
      × ((id : ℕ) → slot_of id r ≡ slot_of id p)
unfolding slot_of
load_id_slot_map_failed h slots p e size failed =
    let r = (load_id_slot_map (some slots) p).0 in
    let (stop, listed, same) = stopped_load h slots p e size failed in
    let ids = (slot_loop h.n 0 slots (λ j. false) (replicate h.n 0)).1 in
    let blank : length (replicate {A = ℕ} h.n 0) ≡ h.n = length-replicate h.n 0 in
    let (k, at) = slot_loop-IsStopped h.n 0 slots (λ j. false) (replicate h.n 0) blank stop in
    let whole : length ids ≡ h.n =
      slot_loop-length h.n 0 slots (λ j. false) (replicate h.n 0) ∙ blank in
    (
      k,
      omega (arith, at.here),
      elim at.refused [
        | inl high ↦ inl high
        | inr (inl marked) ↦ absurd (ground (arith, marked))
        | inr (inr twice) ↦ inr twice
      ],
      λ j lt bad.
          let (low, new, apart) = at.passed j lt in
          elim bad [
            | inl high ↦ absurd (omega arith)
            | inr (t, early, twice) ↦ absurd (ground (arith, apart t early, twice))
          ],
      λ j lt.
          let (low, new, apart) = at.passed j lt in
          id_of_slot_listed (get_or slots j 0) ids r listed (omega arith)
          ∙ at.written j (get_or slots j 0) lt
          ∙ omega arith,
      λ slot low apart.
          id_of_slot_listed slot ids r listed (omega arith)
          ∙ at.others slot slot apart
          ∙ get_or-replicate h.n slot slot low,
      λ id. rw same refl,
    )
