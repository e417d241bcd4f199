-- ===== src/Store/Eviction.antt =====
-- Insertions and evictions of RecordCache of motivation_exps/include/store.hpp.
use cxl_anns_kx.Base.{
  ℕ, zero, suc, ◌+◌, ◌<◌, ◌≡◌, ◌∙◌, refl, ap, sym, if◌then◌else◌, leb, ltb, ◌==◌, true, false,
  Bool-cases, inl, inr, List, [], ◌∷◌, ◌++◌, none, some, Option-cases, arith, eq-or-ne,
}
use cxl_anns_kx.Base.Lists.{length, contains, contains-append}
use cxl_anns_kx.Base.Dict.{lookup, insert, erase, lookup-insert, lookup-erase}
use cxl_anns_kx.Store.{
  RecordCache, slab, init, evict_from, evict_one, make_room, fill_slot, insert_slot,
}
use cxl_anns_kx.Store.Slots.{
  is_same, held, spare, IsMap, IsMap-erase, erase-IsLarger, IsMap-insert, insert-IsLarger,
}

-- Each slot of the slab stands once in the map or the free list, the map has no more records than
-- the capacity allows, and each record in it is in the order.
pub record IsCache (c : RecordCache) : Type 0 where
  pub is_map : IsMap c.map
  pub full : length c.map + length c.free_list ≡ c.capacity_vecs
  pub once : (x : ℕ) → held x c.map + spare x c.free_list ≡ (if ltb x c.capacity_vecs then 1 else 0)
  pub queued : (k s : ℕ) → lookup k c.map ≡ some s → contains k c.lru_order ≡ true

some_key : (m : List (ℕ × ℕ)) → 0 < length m → (k : ℕ) × (s : ℕ) × (lookup k m ≡ some s)
unfolding lookup
some_key [] pos = absurd (omega arith)
some_key ((k, s) ∷ m) pos = let self : (k == k) ≡ true = ground arith in (k, s, simp self refl)

still_there :
    (v k s : ℕ) (m : List (ℕ × ℕ))
    → lookup k (erase v m) ≡ some s
    → (lookup k m ≡ some s) × ((k == v) ≡ false)
still_there v k s m h = ground (arith, h, lookup-erase v k m)

record IsEvicted (c d : RecordCache) : Type 0 where
  kept : IsCache d
  fewer : length c.map ≡ suc (length d.map)
  cap : d.capacity_vecs ≡ c.capacity_vecs
  old : (k s : ℕ) → lookup k d.map ≡ some s → lookup k c.map ≡ some s

evict_from-IsEvicted :
    (order : List ℕ) (c : RecordCache)
    → IsCache c
    → ((k s : ℕ) → lookup k c.map ≡ some s → contains k order ≡ true)
    → 0 < length c.map
    → IsEvicted c (evict_from order c)
unfolding evict_from contains
evict_from-IsEvicted [] c v q pos =
    let (k, s, e) = some_key c.map pos in absurd (ground (arith, q k s e))
evict_from-IsEvicted (victim ∷ order) c v q pos = elim (Option-cases (lookup victim c.map)) [
  | inl stale ↦
      rw (stale, evict_from)
        (evict_from-IsEvicted order c v
          (λ k s at. elim (eq-or-ne k victim) [
            | inl same ↦
                let same_at : lookup k c.map ≡ lookup victim c.map =
                  ap (λ i. lookup i c.map) same in
                absurd (ground (arith, same_at, at, stale))
            | inr other ↦ ground (arith, q k s at)
          ])
          pos)
  | inr (slot, e) ↦
      let r = erase-IsLarger victim slot c.map v.is_map e in
      rw (e, evict_from)
        (record {
          kept = record {
            is_map = IsMap-erase victim c.map v.is_map;
            full = omega (arith, v.full, r.size);
            once = λ x. unfold spare in omega (arith, v.once x, r.counts x);
            queued =
                λ k s h. let (at, ne) = still_there victim k s c.map h in ground (arith, q k s at);
          };
          fewer = r.size;
          cap = refl;
          old = λ k s h. (still_there victim k s c.map h).0;
        })
]

make_room-IsCache :
    (fuel : ℕ) (c : RecordCache)
    → IsCache c
    → 0 < c.capacity_vecs
    → length c.map < fuel
    → (d : RecordCache) × (make_room fuel c ≡ some d)
      × IsCache d
      × (length d.map < d.capacity_vecs)
      × ((k s : ℕ) → lookup k d.map ≡ some s → lookup k c.map ≡ some s)
unfolding make_room evict_one
make_room-IsCache zero c v pos enough = absurd (omega arith)
make_room-IsCache (suc fuel) c v pos enough =
    elim (Bool-cases (leb c.capacity_vecs (length c.map))) [
      | inr room ↦ (c, simp room refl, v, ground arith, λ k s h. h)
      | inl more ↦
          let r = evict_from-IsEvicted c.lru_order c v v.queued (ground arith) in
          let (d, e, kept, room, old) =
            make_room-IsCache fuel (evict_one c) r.kept (omega (arith, r.cap))
              (omega (arith, r.fewer)) in
          (d, simp more e, kept, room, λ k s h. r.old k s (old k s h))
    ]

-- What an insertion promises: the record is in the map, the cache is as it should be, and no other
-- record comes or moves.
pub record IsInserted (id slot : ℕ) (c d : RecordCache) : Type 0 where
  pub cache : IsCache d
  pub here : lookup id d.map ≡ some slot
  pub old : (k s : ℕ) → lookup k d.map ≡ some s → (k == id) ≡ false → lookup k c.map ≡ some s

filled :
    (id slot : ℕ) (c : RecordCache) (rest : List ℕ)
    → IsCache c
    → lookup id c.map ≡ none
    → c.free_list ≡ slot ∷ rest
    → IsInserted id slot c (record c {
      map = insert id slot c.map;
      lru_order = c.lru_order ++ id ∷ [];
      free_list = rest;
    })
filled id slot c rest v absent e =
    let r = insert-IsLarger id slot c.map absent in
    let one = ap (λ (l : List ℕ). length l) e in
    let count : (x : ℕ) → spare x c.free_list ≡ is_same x slot + spare x rest =
      λ x. ap (spare x) e ∙ (unfold spare in refl) in
    record {
      cache = record {
        is_map = IsMap-insert id slot c.map v.is_map absent;
        full = omega (arith, v.full, one, r.size);
        once = λ x. omega (arith, v.once x, count x, r.counts x);
        queued = λ k s h.
            unfold contains in
            ground (
              arith,
              lookup-insert id k slot c.map,
              h,
              v.queued k s,
              contains-append k c.lru_order (id ∷ []),
            );
      };
      here = ground (arith, lookup-insert id id slot c.map);
      old = λ k s h ne. ground (arith, lookup-insert id k slot c.map, h);
    }

fill_slot-IsInserted :
    (id : ℕ) (c : RecordCache)
    → IsCache c
    → lookup id c.map ≡ none
    → length c.map < c.capacity_vecs
    → (slot : ℕ) × (d : RecordCache) × (fill_slot id c ≡ some (slot, d)) × IsInserted id slot c d
unfolding fill_slot
fill_slot-IsInserted id c v absent room = at c.free_list refl
  where
    at :
        (free : List ℕ)
        → c.free_list ≡ free
        → (slot : ℕ) × (d : RecordCache) × (fill_slot id c ≡ some (slot, d))
          × IsInserted id slot c d
    at [] e = absurd (omega (arith, v.full, ap (λ (l : List ℕ). length l) e))
    at (slot ∷ rest) e =
        let d : RecordCache = record c {
          map = insert id slot c.map;
          lru_order = c.lru_order ++ id ∷ [];
          free_list = rest;
        } in
        let result : fill_slot id c ≡ some (slot, d) = rw (e, fill_slot) refl in
        (slot, d, result, filled id slot c rest v absent e)

none≢some : (s : ℕ) → none ≡ some s → ⊥
none≢some s e = absurd (ground (arith, e))

-- With a capacity above 0, an insertion ends and finds a slot. The record is then in the map,
-- each slot of the slab stands once in the map or the free list, and no other record comes or
-- moves.
pub insert_slot-IsInserted :
    (id : ℕ) (c : RecordCache)
    → IsCache c
    → 0 < c.capacity_vecs
    → (slot : ℕ) × (d : RecordCache) × (insert_slot id c ≡ some (slot, d)) × IsInserted id slot c d
unfolding insert_slot
insert_slot-IsInserted id c v pos = elim (Option-cases (lookup id c.map)) [
  | inr (slot, e) ↦
      (slot, c, rw (e, insert_slot) refl, record { cache = v; here = e; old = λ k s h ne. h })
  | inl e ↦
      let (room, made, kept, space, old) =
        make_room-IsCache (suc (length c.map)) c v pos (omega arith) in
      let absent : lookup id room.map ≡ none = elim (Option-cases (lookup id room.map)) [
        | inl gone ↦ gone
        | inr (s, h) ↦ absurd (none≢some s (sym e ∙ old id s h))
      ] in
      let (slot, d, fills, r) = fill_slot-IsInserted id room kept absent space in
      (
        slot,
        d,
        rw (e, insert_slot) (rw (made, insert_slot) fills),
        record { cache = r.cache; here = r.here; old = λ k s h ne. old k s (r.old k s h ne) },
      )
]

spare_slab : (n x : ℕ) → spare x (slab n) ≡ (if ltb x n then 1 else 0)
unfolding spare slab
spare_slab zero x = ground arith
spare_slab (suc n) x = ground (arith, spare_slab n x)

length-slab : (n : ℕ) → length (slab n) ≡ n
unfolding slab
length-slab zero = refl
length-slab (suc n) = ap suc (length-slab n)

pub init-IsCache : (cap : ℕ) → IsCache (init cap)
unfolding init lookup held IsMap
init-IsCache size = record {
  is_map = tt;
  full = omega (arith, length-slab size);
  once = λ x. omega (arith, spare_slab size x);
  queued = λ k s h. absurd (ground (arith, h));
}
