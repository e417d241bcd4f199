-- ===== src/Placement/Slots.antt =====
-- The slot map of serving/placement.hpp.
use cxl_anns_kx.Base.{
  ℕ, zero, suc, ◌+◌, ◌<◌, ◌≡◌, refl, ap, ◌∙◌, Bool, true, false, Bool-cases, inl, inr, ◌||◌, leb,
  ◌==◌, List, [], ◌∷◌, some, arith, eq-or-ne,
}
use cxl_anns_kx.Base.Lists.{
  length, get_or, set, replicate, length-set, get_or-set_self, get_or-set_ne, length-replicate,
}
use cxl_anns_kx.Placement.{Header, Placement, slot_loop, load_id_slot_map, slot_of, id_of_slot}

-- A slot that is marked when the loop starts keeps its id.
slot_loop-keeps :
    (n i : ℕ) (slots : List ℕ) (seen : ℕ → Bool) (out : List ℕ) (t d : ℕ)
    → (slot_loop n i slots seen out).0 ≡ true
    → seen t ≡ true
    → get_or (slot_loop n i slots seen out).1 t d ≡ get_or out t d
unfolding slot_loop
slot_loop-keeps n i [] seen out t d ok mark = refl
slot_loop-keeps n i (s ∷ slots) seen out t d ok mark = elim (Bool-cases (leb n s || seen s)) [
  | inl bad ↦ absurd (ground arith)
  | inr good ↦
      let apart : (t == s) ≡ false = differ t s mark (ground arith) in
      let rest =
        slot_loop-keeps n (suc i) slots (λ j. j == s || seen j) (set out s i) t d (rw good at ok)
          (ground arith) in
      rw good (rest ∙ get_or-set_ne out s t i d apart)
]
  where
    differ : (t s : ℕ) → seen t ≡ true → seen s ≡ false → (t == s) ≡ false
    differ t s yes' no' = elim (eq-or-ne t s) [
      | inl e ↦ absurd (ground (arith, ap seen e))
      | inr e ↦ e
    ]

-- If the loop runs to the end, the k-th slot is one of the n, and has the id i + k.
slot_loop-inverts :
    (n i : ℕ) (slots : List ℕ) (seen : ℕ → Bool) (out : List ℕ) (k d : ℕ)
    → (slot_loop n i slots seen out).0 ≡ true
    → length out ≡ n
    → k < length slots
    → (get_or slots k d < n)
      × (get_or (slot_loop n i slots seen out).1 (get_or slots k d) d ≡ i + k)
unfolding slot_loop
slot_loop-inverts n i [] seen out k d ok size lt = absurd (omega arith)
slot_loop-inverts n i (s ∷ slots) seen out zero d ok size lt =
    elim (Bool-cases (leb n s || seen s)) [
      | inl bad ↦ absurd (ground arith)
      | inr good ↦
          let low : s < n = ground arith in
          let kept =
            slot_loop-keeps n (suc i) slots (λ j. j == s || seen j) (set out s i) s d
              (rw good at ok) (ground arith) in
          let wrote = get_or-set_self out s i d (omega arith) in
          rw good (low, kept ∙ wrote ∙ omega arith)
    ]
slot_loop-inverts n i (s ∷ slots) seen out (suc k) d ok size lt =
    elim (Bool-cases (leb n s || seen s)) [
      | inl bad ↦ absurd (ground arith)
      | inr good ↦
          let (low, at) =
            slot_loop-inverts n (suc i) slots (λ j. j == s || seen j) (set out s i) k d
              (rw good at ok) (length-set out s i ∙ size) (omega arith) in
          rw good (low, at ∙ omega arith)
    ]

pub slot_loop-length :
    (n i : ℕ) (slots : List ℕ) (seen : ℕ → Bool) (out : List ℕ)
    → length (slot_loop n i slots seen out).1 ≡ length out
unfolding slot_loop
slot_loop-length n i [] seen out = refl
slot_loop-length n i (s ∷ slots) seen out = ground (
  arith,
  slot_loop-length n (suc i) slots (λ j. j == s || seen j) (set out s i),
  length-set out s i,
)

pub get_or_default : (xs : List ℕ) (i d e : ℕ) → i < length xs → get_or xs i d ≡ get_or xs i e
get_or_default [] i d e h = absurd (omega arith)
get_or_default (x ∷ xs) zero d e h = refl
get_or_default (x ∷ xs) (suc i) d e h = get_or_default xs i d e (omega arith)

-- What a successful load leaves: the slots of the file, and their inverse.
loaded :
    (h : Header) (slots : List ℕ) (p : Placement)
    → p.hdr ≡ some h
    → (load_id_slot_map (some slots) p).1 ≡ true
    → (length slots ≡ h.n)
      × ((slot_loop h.n 0 slots (λ j. false) (replicate h.n 0)).0 ≡ true)
      × ((load_id_slot_map (some slots) p).0.id_to_slot ≡ slots)
      × ((load_id_slot_map (some slots) p).0.slot_to_id
          ≡ (slot_loop h.n 0 slots (λ j. false) (replicate h.n 0)).1)
unfolding load_id_slot_map
loaded h slots p e =
    rw (e, load_id_slot_map) (λ ok. (ground arith, ground arith, ground arith, ground arith))

slot_of_listed :
    (id : ℕ) (slots : List ℕ) (q : Placement)
    → q.id_to_slot ≡ slots
    → id < length slots
    → slot_of id q ≡ get_or slots id id
unfolding slot_of
slot_of_listed id slots q e lt = rw e (ground arith)

pub id_of_slot_listed :
    (slot : ℕ) (ids : List ℕ) (q : Placement)
    → q.slot_to_id ≡ ids
    → slot < length ids
    → id_of_slot slot q ≡ get_or ids slot slot
unfolding id_of_slot
id_of_slot_listed slot ids q e lt = rw e (ground arith)

pub get_or-replicate : (n i d : ℕ) → i < n → get_or (replicate n 0) i d ≡ 0
get_or-replicate zero i d h = absurd (omega arith)
get_or-replicate (suc n) zero d h = refl
get_or-replicate (suc n) (suc i) d h = get_or-replicate n i d (omega arith)

-- After a slot map has loaded, each id below n has a slot below n, and that slot has the id
-- back.
pub load_id_slot_map_inverts :
    (h : Header) (slots : List ℕ) (p : Placement) (id : ℕ)
    → p.hdr ≡ some h
    → (load_id_slot_map (some slots) p).1 ≡ true
    → id < h.n
    → let q = (load_id_slot_map (some slots) p).0 in
      (slot_of id q < h.n) × (id_of_slot (slot_of id q) q ≡ id)
load_id_slot_map_inverts h slots p id e ok lt =
    let (size, done, a, b) = loaded h slots p e ok in
    let blank : List ℕ = replicate h.n 0 in
    let empty : length blank ≡ h.n = length-replicate h.n 0 in
    let zeroth : 0 + id ≡ id = omega arith in
    let (low, back) =
      slot_loop-inverts h.n 0 slots (λ j. false) (replicate h.n 0) id id done empty (omega arith) in
    let ids = (slot_loop h.n 0 slots (λ j. false) (replicate h.n 0)).1 in
    let whole : length ids ≡ h.n =
      slot_loop-length h.n 0 slots (λ j. false) (replicate h.n 0) ∙ empty in
    let first : slot_of id (load_id_slot_map (some slots) p).0 ≡ get_or slots id id =
      slot_of_listed id slots _ a (omega arith) in
    let second = id_of_slot_listed (get_or slots id id) ids _ b (omega arith) in
    let same = get_or_default ids (get_or slots id id) (get_or slots id id) id (omega arith) in
    rw first (low, second ∙ same ∙ back ∙ zeroth)
