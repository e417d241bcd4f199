-- ===== src/Store/Fetches.antt =====
-- The fetches of motivation_exps/include/beam.hpp through RecordCache.
use cxl_anns_kx.Base.{
  ℕ, zero, suc, ◌+◌, ◌-◌, ◌*◌, ◌<◌, ◌≤◌, ◌≡◌, ◌∙◌, ◌⊎◌, refl, ap, sym, subst, ◌==◌, ltb, Bool, true,
  false, Bool-cases, inl, inr, List, [], ◌∷◌, Option, none, some, Option-cases, arith, eq-or-ne,
}
use cxl_anns_kx.Base.Words.{add64}
use cxl_anns_kx.Base.Lists.{length, take, drop, contains-append}
use cxl_anns_kx.Base.Search.{bytes_at}
use cxl_anns_kx.Base.Dict.{lookup, erase, lookup-erase, has, update}
use cxl_anns_kx.Store.{
  RecordCache, find, insert_slot, FetchCtx, pread_bytes, pread_pad, vector_of, read_vector,
  pread_vec, fetch_miss, fetch_found, fetch,
}
use cxl_anns_kx.Store.Slots.{held, is_same, IsMap, erase-IsLarger, IsMap-erase}
use cxl_anns_kx.Store.Eviction.{IsCache, IsInserted, insert_slot-IsInserted}

find-IsCache : (id : ℕ) (c : RecordCache) → IsCache c → IsCache (find id c).1
unfolding find
find-IsCache id c v = elim (Bool-cases (has id c.map)) [
  | inr missing ↦ simp missing v
  | inl here ↦ simp here (record {
    is_map = v.is_map;
    full = v.full;
    once = v.once;
    queued = λ k s h. ground (arith, v.queued k s h, contains-append k c.lru_order (id ∷ []));
  })
]

held_pos : (k s : ℕ) (m : List (ℕ × ℕ)) → IsMap m → lookup k m ≡ some s → 0 < held s m
held_pos k s m d e =
    let self : is_same s s ≡ 1 = ground arith in
    omega (arith, (erase-IsLarger k s m d e).counts s, self)

-- Two records have two slots.
apart :
    (j k s t : ℕ) (c : RecordCache)
    → IsCache c
    → lookup j c.map ≡ some s
    → lookup k c.map ≡ some t
    → (j == k) ≡ false
    → (s == t) ≡ false
apart j k s t c v at_j at_k ne = elim (eq-or-ne s t) [
  | inr other ↦ other
  | inl same ↦
      let at : lookup j c.map ≡ some t = at_j ∙ ap some same in
      let there : lookup j (erase k c.map) ≡ some t = ground (arith, lookup-erase k j c.map) in
      let one = held_pos j t (erase k c.map) (IsMap-erase k c.map v.is_map) there in
      let self : is_same t t ≡ 1 = ground arith in
      let two = (erase-IsLarger k t c.map v.is_map at_k).counts t in
      absurd (ground (arith, v.once t, one, two, self))
]

find_miss : (id : ℕ) (c : RecordCache) → lookup id c.map ≡ none → (find id c).1 ≡ c
unfolding find
find_miss id c e = let missing : has id c.map ≡ false = ground (arith, e) in simp missing refl

take-bytes_at : (mem : ℕ → ℕ) (a n l : ℕ) → n ≤ l → take n (bytes_at mem a l) ≡ bytes_at mem a n
unfolding bytes_at
take-bytes_at mem a zero l le = refl
take-bytes_at mem a (suc n) zero le = absurd (omega arith)
take-bytes_at mem a (suc n) (suc l) le =
    ap (λ (bs : List ℕ). mem a ∷ bs) (take-bytes_at mem (suc a) n l (omega arith))

drop-bytes_at :
    (mem : ℕ → ℕ) (a p l : ℕ) → p ≤ l → drop p (bytes_at mem a l) ≡ bytes_at mem (a + p) (l - p)
unfolding bytes_at
drop-bytes_at mem a zero l le =
    let e : a + 0 ≡ a = omega arith in let f : l - 0 ≡ l = omega arith in rw (e, f) refl
drop-bytes_at mem a (suc p) zero le = absurd (omega arith)
drop-bytes_at mem a (suc p) (suc l) le =
    let e : suc a + p ≡ a + suc p = omega arith in
    let f : suc l - suc p ≡ l - p = omega arith in
    rw f (drop-bytes_at mem (suc a) p l (omega arith) ∙ ap (λ x. bytes_at mem x (l - p)) e)

-- What pread promises: at most as many bytes as asked for, those of the file at the offset.
abbrev pub IsPread : (ℕ → ℕ) → (ℕ → ℕ → Option (List ℕ)) → Type 0
IsPread file pread =
    (count off : ℕ) (bytes : List ℕ)
    → pread count off ≡ some bytes
    → (length bytes ≤ count) × (bytes ≡ bytes_at file off (length bytes))

-- A read that does not reach the end of the vector.
abbrev pub IsShort : Option (List ℕ) → ℕ → Type 0
IsShort none need = Unit
IsShort (some bytes) need = length bytes < need

abbrev IsVector : (ℕ → ℕ) → ℕ → ℕ → ℕ → Option (List ℕ) → Option (List ℕ) → Type 0
IsVector file off pad vec_bytes got none = IsShort got (pad + vec_bytes)
IsVector file off pad vec_bytes got (some v) = v ≡ bytes_at file (off + pad) vec_bytes

vector_of-IsVector :
    (file : ℕ → ℕ) (odirect : Bool) (off pad vec_bytes : ℕ) (got : Option (List ℕ))
    → (odirect ≡ true) ⊎ (pad ≡ 0)
    → ((bytes : List ℕ)
        → got ≡ some bytes
        → (odirect ≡ false → length bytes ≤ vec_bytes) × (bytes ≡ bytes_at file off (length bytes)))
    → IsVector file off pad vec_bytes got (vector_of odirect vec_bytes pad got)
unfolding vector_of
vector_of-IsVector file odirect off pad vec_bytes none kind honest = tt
vector_of-IsVector file true off pad vec_bytes (some bytes) kind honest =
    let (most, same) = honest bytes refl in
    elim (Bool-cases (ltb (length bytes) (pad + vec_bytes))) [
      | inl short ↦ rw short (ground arith)
      | inr whole ↦
          let enough : pad + vec_bytes ≤ length bytes = ground arith in
          rw whole (
            ap (λ (bs : List ℕ). take vec_bytes (drop pad bs)) same
            ∙ ap (λ (bs : List ℕ). take vec_bytes bs)
                (drop-bytes_at file off pad (length bytes) (omega arith))
            ∙ take-bytes_at file (off + pad) vec_bytes (length bytes - pad) (omega arith))
    ]
vector_of-IsVector file false off pad vec_bytes (some bytes) kind honest =
    let (most, same) = honest bytes refl in
    let none_before : pad ≡ 0 = elim kind [ inl e ↦ absurd (ground (arith, e)) | inr e ↦ e ] in
    let le = most refl in
    elim (Bool-cases (length bytes == vec_bytes)) [
      | inr short ↦ rw short (ground arith)
      | inl whole ↦
          let size : length bytes ≡ vec_bytes = ground arith in
          let at : off ≡ off + pad = omega arith in
          rw whole
            (same ∙ ap (λ n. bytes_at file off n) size ∙ ap (λ x. bytes_at file x vec_bytes) at)
    ]

module _ (file : ℕ → ℕ) (pread : ℕ → ℕ → Option (List ℕ)) (odirect : Bool) (vec_bytes : ℕ) where
  -- The bytes of the vector of a record in the file.
  abbrev pub vector_at : ℕ → List ℕ
  vector_at id = bytes_at file (id * vec_bytes) vec_bytes

  -- The read of a record that ends the program: an error, or too few bytes.
  abbrev pub ReadsShort : ℕ → Type 0
  ReadsShort id =
      let pad = pread_pad odirect vec_bytes id in
      IsShort (pread (pread_bytes odirect vec_bytes id) (id * vec_bytes - pad)) (pad + vec_bytes)

  -- Each record in the cache has its vector in its slot.
  pub record IsFaithful (f : FetchCtx) : Type 0 where
    pub cache : IsCache f.rec
    pub held_true : (k s : ℕ) → lookup k f.rec.map ≡ some s → f.vectors s ≡ vector_at k

  -- A fetch ends the program only with a record that is not cached and is read short. Otherwise the
  -- slot that it returns is that of the record and holds its vector, and the cache stays faithful.
  abbrev pub IsFetched : ℕ → FetchCtx → Option (ℕ × FetchCtx) → Type 0
  IsFetched id f none = (lookup id f.rec.map ≡ none) × ReadsShort id
  IsFetched id f (some (slot, g)) =
      IsFaithful g × (lookup id g.rec.map ≡ some slot) × (g.vectors slot ≡ vector_at id)

  find-map : (id : ℕ) (c : RecordCache) → (find id c).1.map ≡ c.map
  unfolding find
  find-map id c = elim (Bool-cases (has id c.map)) [
    | inl here ↦ simp here refl
    | inr missing ↦ simp missing refl
  ]

  module _ (honest : IsPread file pread) where
    read_vector-IsVector :
        (id : ℕ)
        → let pad = pread_pad odirect vec_bytes id in
          IsVector file
            (id * vec_bytes - pad)
            pad
            vec_bytes
            (pread (pread_bytes odirect vec_bytes id) (id * vec_bytes - pad))
            (read_vector pread odirect vec_bytes id)
    unfolding read_vector pread_pad pread_bytes
    read_vector-IsVector id =
        let pad = pread_pad odirect vec_bytes id in
        let count = pread_bytes odirect vec_bytes id in
        vector_of-IsVector file odirect (id * vec_bytes - pad) pad vec_bytes
          (pread count (id * vec_bytes - pad))
          (elim (Bool-cases odirect) [
            | inl direct ↦ inl direct
            | inr buffered ↦ inr (ground arith)
          ])
          (λ bytes e.
            let (most, same) = honest count (id * vec_bytes - pad) bytes e in
            (λ buffered. ground arith, same))

    pad_within : (id : ℕ) → pread_pad odirect vec_bytes id ≤ id * vec_bytes
    unfolding pread_pad
    pad_within id = elim (Bool-cases odirect) [
      | inl direct ↦ rw direct (omega arith)
      | inr buffered ↦ rw buffered (omega arith)
    ]

    -- A record is put into its slot.
    put_vector :
        (id slot : ℕ) (f g : FetchCtx) (d : RecordCache) (bytes : List ℕ)
        → IsFaithful f
        → IsInserted id slot f.rec d
        → bytes ≡ vector_at id
        → g.rec ≡ d
        → g.vectors ≡ update f.vectors slot bytes
        → IsFaithful g × (lookup id g.rec.map ≡ some slot) × (g.vectors slot ≡ vector_at id)
    put_vector id slot f g d bytes v r same is_d filled = (
      record {
        cache = subst (λ c. IsCache c) (sym is_d) r.cache;
        held_true = λ k s h0.
            let h : lookup k d.map ≡ some s =
              ap (λ (c : RecordCache). lookup k c.map) (sym is_d) ∙ h0 in
            elim (eq-or-ne k id) [
              | inl is_id ↦
                  let at : lookup id d.map ≡ some s = ap (λ i. lookup i d.map) (sym is_id) ∙ h in
                  let is_slot : s ≡ slot = ground (arith, at, r.here) in
                  let hit : (s == slot) ≡ true = ground arith in
                  ap (λ w. w s) filled ∙ simp hit refl ∙ same ∙ ap (λ i. vector_at i) (sym is_id)
              | inr other ↦
                  let ne = apart k id s slot d r.cache h r.here other in
                  ap (λ w. w s) filled ∙ simp ne (v.held_true k s (r.old k s h other))
            ];
      },
      ap (λ (c : RecordCache). lookup id c.map) is_d ∙ r.here,
      let self : (slot == slot) ≡ true = ground arith in
          ap (λ w. w slot) filled ∙ simp self refl ∙ same,
    )

    fetch_miss-IsFetched :
        (id : ℕ) (f : FetchCtx)
        → IsFaithful f
        → 0 < f.rec.capacity_vecs
        → lookup id f.rec.map ≡ none
        → IsFetched id f (fetch_miss pread odirect vec_bytes id f (insert_slot id f.rec))
    unfolding fetch_miss pread_vec
    fetch_miss-IsFetched id f v pos missing =
        let (slot, d, e, r) = insert_slot-IsInserted id f.rec v.cache pos in
        let read = read_vector-IsVector id in
        let start : id * vec_bytes - pread_pad odirect vec_bytes id + pread_pad odirect vec_bytes id
            ≡ id * vec_bytes =
          omega (arith, pad_within id) in
        elim (Option-cases (read_vector pread odirect vec_bytes id)) [
          | inl short ↦ rw (e, fetch_miss) (rw (short, pread_vec) (missing, rw short at read))
          | inr (bytes, got) ↦
              let same : bytes ≡ vector_at id =
                (rw got at read) ∙ ap (λ a. bytes_at file a vec_bytes) start in
              rw (e, fetch_miss)
                (rw (got, pread_vec) (put_vector id slot f _ d bytes v r same refl refl))
        ]

    fetch_found-IsFetched :
        (id : ℕ) (f : FetchCtx) (o : Option ℕ)
        → lookup id f.rec.map ≡ o
        → IsFaithful f
        → 0 < f.rec.capacity_vecs
        → IsFetched id f (fetch_found pread odirect vec_bytes id f o (find id f.rec).1)
    unfolding fetch_found
    fetch_found-IsFetched id f (some slot) e v pos =
        let same = ap (λ m. lookup id m) (find-map id f.rec) ∙ e in
        (
          record {
            cache = find-IsCache id f.rec v.cache;
            held_true =
                λ k s h. v.held_true k s (ap (λ m. lookup k m) (sym (find-map id f.rec)) ∙ h);
          },
          same,
          v.held_true id slot e,
        )
    fetch_found-IsFetched id f none e v pos =
        let same : (find id f.rec).1 ≡ f.rec = find_miss id f.rec e in
        rw same (fetch_miss-IsFetched id f v pos e)

    -- With a pread that returns at most the bytes asked for, those of the file at the
    -- offset, a capacity above 0 and a cache in which each record has its vector: a fetch
    -- ends the program only when the record is not cached and its read is an error or ends
    -- before the vector does. Otherwise it returns the slot of the record, which holds the
    -- bytes of its vector in the file, and keeps the vector of each record in its slot.
    pub fetch-IsFetched :
        (id : ℕ) (f : FetchCtx)
        → IsFaithful f
        → 0 < f.rec.capacity_vecs
        → IsFetched id f (fetch pread odirect vec_bytes id f)
    unfolding fetch find
    fetch-IsFetched id f v pos =
        fetch_found-IsFetched id (record f { vector_fetches = add64 f.vector_fetches 1 })
          (lookup id f.rec.map) refl (record { cache = v.cache; held_true = v.held_true }) pos
