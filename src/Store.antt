-- ===== src/Store.antt =====
-- The caches of motivation_exps/include/store.hpp and the fetches of motivation_exps/include/beam.hpp
-- that go through RecordCache. A slot is named by its index in the slab, and the free list is a
-- stack with its back first. The pread of the file is a parameter.
pub mod Eviction
pub mod Slots
pub mod Fetches
use cxl_anns_kx.Base.{
  ℕ, zero, suc, ◌+◌, ◌-◌, ◌*◌, ◌/◌, ◌%◌, if◌then◌else◌, ltb, leb, ◌==◌, Bool, true, false, not,
  ◌&&◌, List, [], ◌∷◌, ◌++◌, Option, none, some,
}
use cxl_anns_kx.Base.Words.{add64}
use cxl_anns_kx.Base.Lists.{length, take, drop}
use cxl_anns_kx.Base.Dict.{lookup, insert, erase, has, update}

pub record RecordCache : Type 0 where
  pub capacity_vecs : ℕ
  pub map : List (ℕ × ℕ)
  pub lru_order : List ℕ
  pub free_list : List ℕ

-- for (i = 0; i < cap; ++i) free_list.push_back(i)
unfoldable pub slab : ℕ → List ℕ
slab zero = []
slab (suc n) = n ∷ slab n

unfoldable pub init : ℕ → RecordCache
unfolding slab
init cap = record { capacity_vecs = cap; map = []; lru_order = []; free_list = slab cap }

unfoldable pub find : ℕ → RecordCache → Option ℕ × RecordCache
find id c =
    (lookup id c.map, if has id c.map then record c { lru_order = c.lru_order ++ id ∷ [] } else c)

-- The loop of evict_one over the order from its front.
unfoldable pub evict_from : List ℕ → RecordCache → RecordCache
evict_from [] c = record c { lru_order = [] }
evict_from (victim ∷ order) c = elim (lookup victim c.map) [
  | none ↦ evict_from order c
  | some slot ↦ record c {
    map = erase victim c.map;
    lru_order = order;
    free_list = slot ∷ c.free_list;
  }
]

unfoldable pub evict_one : RecordCache → RecordCache
unfolding evict_from
evict_one c = evict_from c.lru_order c

-- while (map.size() >= capacity_vecs) evict_one(), with fuel; none where it still runs.
unfoldable pub make_room : ℕ → RecordCache → Option RecordCache
unfolding evict_one
make_room zero c = none
make_room (suc fuel) c =
    let more = make_room fuel (evict_one c) in
    if leb c.capacity_vecs (length c.map) then more else some c

-- `free_list.back()`; none where the list is empty, which the program may not do.
unfoldable pub fill_slot : ℕ → RecordCache → Option (ℕ × RecordCache)
fill_slot id c = elim c.free_list [
  | [] ↦ none
  | slot ∷ rest ↦ some (
    slot,
    record c { map = insert id slot c.map; lru_order = c.lru_order ++ id ∷ []; free_list = rest },
  )
]

-- Each round evicts a record, so that a round for each record and one more are enough.
unfoldable pub insert_slot : ℕ → RecordCache → Option (ℕ × RecordCache)
unfolding make_room fill_slot
insert_slot id c = elim (lookup id c.map) [
  | some slot ↦ some (slot, c)
  | none ↦ elim (make_room (suc (length c.map)) c) [ none ↦ none | some room ↦ fill_slot id room ]
]

-- What pread_vec asks for and counts: with O_DIRECT the 4 KiB pages around the vector.
unfoldable pub pread_bytes : Bool → ℕ → ℕ → ℕ
pread_bytes odirect vec_bytes id =
    let off = id * vec_bytes in
    let pad = off % 4096 in if odirect then (pad + vec_bytes + 4095) / 4096 * 4096 else vec_bytes

-- The bytes that pread_vec asks for before those of the vector.
unfoldable pub pread_pad : Bool → ℕ → ℕ → ℕ
pread_pad odirect vec_bytes id = if odirect then id * vec_bytes % 4096 else 0

-- The vector among the bytes that pread got; none where the program ends with "pread short".
unfoldable pub vector_of : Bool → ℕ → ℕ → Option (List ℕ) → Option (List ℕ)
vector_of odirect vec_bytes pad none = none
vector_of odirect vec_bytes pad (some bytes) =
    if odirect
    then if ltb (length bytes) (pad + vec_bytes)
      then none
      else some (take vec_bytes (drop pad bytes))
    else if length bytes == vec_bytes
    then some bytes
    else none

-- The context of a fetch, `vectors` the bytes that the slots hold.
pub record FetchCtx : Type 0 where
  pub rec : RecordCache
  pub vectors : ℕ → List ℕ
  pub vector_fetches : ℕ
  pub cxl_hits : ℕ
  pub cxl_misses : ℕ
  pub ssd_reads : ℕ
  pub ssd_bytes : ℕ

-- pread(count, offset) is a parameter: the bytes that it got, or none for an error.
module _ (pread : ℕ → ℕ → Option (List ℕ)) (odirect : Bool) (vec_bytes : ℕ) where
  unfoldable pub read_vector : ℕ → Option (List ℕ)
  unfolding vector_of pread_bytes pread_pad
  read_vector id =
      let pad = pread_pad odirect vec_bytes id in
      vector_of odirect vec_bytes pad
        (pread (pread_bytes odirect vec_bytes id) (id * vec_bytes - pad))

  -- none where the program ends.
  unfoldable pub pread_vec : ℕ → ℕ → FetchCtx → Option FetchCtx
  unfolding read_vector
  pread_vec id slot f = elim (read_vector id) [
    | none ↦ none
    | some bytes ↦ some (record f {
      vectors = update f.vectors slot bytes;
      ssd_reads = add64 f.ssd_reads 1;
      ssd_bytes = add64 f.ssd_bytes (pread_bytes odirect vec_bytes id);
    })
  ]

  -- fetch in the modes that go through RecordCache: the slot that holds the vector; none where the
  -- program ends, or never leaves insert_slot.
  unfoldable pub fetch_miss : ℕ → FetchCtx → Option (ℕ × RecordCache) → Option (ℕ × FetchCtx)
  unfolding pread_vec
  fetch_miss id f none = none
  fetch_miss id f (some (slot, c)) =
      elim (pread_vec id slot (record f { rec = c; cxl_misses = add64 f.cxl_misses 1 })) [
        | none ↦ none
        | some g ↦ some (slot, g)
      ]

  unfoldable pub fetch_found : ℕ → FetchCtx → Option ℕ → RecordCache → Option (ℕ × FetchCtx)
  unfolding fetch_miss insert_slot
  fetch_found id f (some slot) c = some (slot, record f { rec = c; cxl_hits = add64 f.cxl_hits 1 })
  fetch_found id f none c = fetch_miss id (record f { rec = c }) (insert_slot id c)

  unfoldable pub fetch : ℕ → FetchCtx → Option (ℕ × FetchCtx)
  unfolding fetch_found find
  fetch id f =
      fetch_found id (record f { vector_fetches = add64 f.vector_fetches 1 }) (find id f.rec).0
        (find id f.rec).1
