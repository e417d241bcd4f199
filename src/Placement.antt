-- ===== src/Placement.antt =====
-- serving/placement.hpp: where the records of the image lie. Pointers are offsets into the image or
-- into the host copy of the graph; a callback over ids is the list of the ids it is called with.
-- Sizes are products of 32-bit fields and are not wrapped; narrowing to uint32_t is written out.
pub mod Slots
pub mod Refused
pub mod Strides
pub mod Spans
use Prim.Native.Nat.{bit_xor}
use cxl_anns_kx.Base.{
  ℕ, zero, suc, ◌+◌, ◌-◌, ◌*◌, ◌/◌, ◌%◌, Bool, true, false, ◌&&◌, ◌||◌, not, ltb, leb, ◌==◌,
  if◌then◌else◌, List, [], ◌∷◌, map, Option, none, some,
}
use cxl_anns_kx.Base.Words.{u32_mod}
use cxl_anns_kx.Base.Lists.{length, get_or, set, replicate}

-- The fields of CxanLayoutHeader that the placement reads.
pub record Header : Type 0 where
  pub version : ℕ
  pub n : ℕ
  pub dim : ℕ
  pub degree : ℕ
  pub pq_bytes : ℕ
  pub vec_bytes : ℕ
  pub off_pq : ℕ
  pub off_graph : ℕ
  pub len_graph : ℕ
  pub off_vectors : ℕ
  pub len_vectors : ℕ

-- `image` reads a uint32_t at an offset of the mapped image; `graph_host` is whether a host copy of
-- the graph is set.
pub record Placement : Type 0 where
  pub hdr : Option Header
  pub image : ℕ → ℕ
  pub vec_stride : ℕ
  pub graph_host : Bool
  pub graph_host_bytes : ℕ
  pub graph_word : ℕ → ℕ
  pub diskann_layout : Bool
  pub id_to_slot : List ℕ
  pub slot_to_id : List ℕ
  pub bundle_off : ℕ
  pub bundle_stride : ℕ
  pub bundle_bytes : ℕ

unfoldable pub set_graph_host : (ℕ → ℕ) → ℕ → Placement → Placement
set_graph_host word n p = record p { graph_host = true; graph_word = word; graph_host_bytes = n }

unfoldable pub diskann_payload_bytes : ℕ → ℕ → ℕ → ℕ
diskann_payload_bytes dim vec_bytes degree = dim * vec_bytes + 4 + degree * 4

-- while (s < need) s *= 2
unfoldable pub double_until : ℕ → ℕ → ℕ → ℕ
double_until zero s need = s
double_until (suc fuel) s need =
    let more = double_until fuel (s * 2) need in if ltb s need then more else s

-- Each round adds 1 at least, so `need` rounds are enough.
unfoldable pub diskann_stride_for : ℕ → ℕ → ℕ → ℕ → ℕ
unfolding double_until diskann_payload_bytes
diskann_stride_for dim vec_bytes degree want =
    let need = diskann_payload_bytes dim vec_bytes degree in
    double_until need (if want == 0 then 4096 else want) need

unfoldable pub set_header : Header → Placement → Placement
unfolding diskann_payload_bytes
set_header h p =
    let packed = h.dim * h.vec_bytes in
    let stride = h.len_vectors / h.n in
    let vec_stride =
      if not (h.n == 0) && not (h.len_vectors == 0)
      then (if leb packed stride then stride else packed)
      else packed in
    record p {
      hdr = some h;
      vec_stride = vec_stride;
      diskann_layout =
          leb 2 h.version
          || (h.len_graph == 0
              && leb (diskann_payload_bytes h.dim h.vec_bytes h.degree) vec_stride);
    }

unfoldable pub slot_of : ℕ → Placement → ℕ
slot_of id p = if leb (length p.id_to_slot) id then id else get_or p.id_to_slot id id

unfoldable pub id_of_slot : ℕ → Placement → ℕ
id_of_slot slot p = if leb (length p.slot_to_id) slot then slot else get_or p.slot_to_id slot slot

-- Narrowing to uint32_t.
abbrev pub cast32 : ℕ → ℕ
cast32 x = x % u32_mod

unfoldable pub page_sibling : ℕ → Placement → ℕ
unfolding slot_of id_of_slot
page_sibling id p = elim p.hdr [
  | none ↦ id
  | some h ↦
      let sib_slot = bit_xor (slot_of id p) 1 in
      if p.vec_stride == 0 || ltb (cast32 (4096 / p.vec_stride)) 2 || leb h.n sib_slot
      then id
      else id_of_slot sib_slot p
]

-- The loop of load_id_slot_map from id `i` on: whether it ran to the end, and slot_to_id after it.
unfoldable pub slot_loop : ℕ → ℕ → List ℕ → (ℕ → Bool) → List ℕ → Bool × List ℕ
slot_loop n i [] seen out = (true, out)
slot_loop n i (s ∷ slots) seen out =
    let rest = slot_loop n (suc i) slots (λ j. j == s || seen j) (set out s i) in
    if leb n s || seen s then (false, out) else rest

-- What the file holds: none where it cannot be opened, else the words that fread got, at most n.
unfoldable pub load_id_slot_map : Option (List ℕ) → Placement → Placement × Bool
unfolding slot_loop
load_id_slot_map none p = (p, false)
load_id_slot_map (some slots) p = elim p.hdr [
  | none ↦ (p, false)
  | some h ↦
      let (done, ids) = slot_loop h.n 0 slots (λ j. false) (replicate h.n 0) in
      if not (length slots == h.n)
      then (p, false)
      else if done
      then (record p { slot_to_id = ids; id_to_slot = slots }, true)
      else (record p { slot_to_id = ids }, false)
]

-- The offset of an entry in the image; these are called with a header only.
unfoldable pub entry : Header → ℕ → Placement → ℕ
unfolding slot_of
entry h id p = h.off_vectors + slot_of id p * p.vec_stride

unfoldable pub pq : Header → ℕ → ℕ
pq h id = h.off_pq + id * h.pq_bytes

pub data Place : Type 0 where
  in_graph : ℕ → Place
  in_image : ℕ → Place

unfoldable pub nbrs : Header → ℕ → Placement → Place
unfolding entry
nbrs h id p =
    let off = id * h.degree * 4 in
    let in_record = in_image (entry h id p + h.dim * h.vec_bytes + 4) in
    if p.diskann_layout
    then (if p.graph_host && leb (off + h.degree * 4) p.graph_host_bytes
        then in_graph off
        else in_record)
    else if p.graph_host
    then in_graph off
    else in_image (h.off_graph + off)

unfoldable pub nnbrs : Header → ℕ → Placement → ℕ
unfolding entry
nnbrs h id p =
    if p.diskann_layout && not p.graph_host
    then p.image (entry h id p + h.dim * h.vec_bytes)
    else h.degree

unfoldable pub vec : Header → ℕ → Placement → ℕ
unfolding entry
vec h id p = if p.diskann_layout then entry h id p else h.off_vectors + id * p.vec_stride

unfoldable pub packed_vec_bytes : Placement → ℕ
packed_vec_bytes p = elim p.hdr [ none ↦ 0 | some h ↦ h.dim * h.vec_bytes ]

unfoldable pub has_bundle : Placement → Bool
has_bundle p = not (p.bundle_stride == 0) && not (p.bundle_bytes == 0)

unfoldable pub bundle_slot : ℕ → ℕ → Placement → ℕ
unfolding packed_vec_bytes
bundle_slot src k p = p.bundle_off + src * p.bundle_stride + k * packed_vec_bytes p

-- for (i = i0; i <= i1; ++i): the ids in order.
unfoldable pub id_range : ℕ → ℕ → List ℕ
id_range zero i = []
id_range (suc rounds) i = i ∷ id_range rounds (suc i)

-- The last id, where `i1` may lie beyond the ids; n is at least 1.
abbrev pub last_id : ℕ → ℕ → ℕ
last_id n i1 = if leb n i1 then n - 1 else i1

-- for_ids_touching_pages.
unfoldable pub ids_touching_pages : ℕ → ℕ → ℕ → Placement → List ℕ
unfolding id_range packed_vec_bytes
ids_touching_pages page_lo page_hi page_bytes p = elim p.hdr [
  | none ↦ []
  | some h ↦
      let v0 = h.off_vectors in
      let v1 = v0 + h.len_vectors in
      let lo = if ltb v0 page_lo then page_lo else v0 in
      let hi = if ltb v1 (page_hi + page_bytes) then v1 else page_hi + page_bytes in
      let packed = packed_vec_bytes p in
      let i0 =
        if leb packed (lo - v0)
        then cast32 ((lo - v0 - packed + 1 + p.vec_stride - 1) / p.vec_stride)
        else 0 in
      let i1 = last_id h.n (cast32 ((hi - v0 - 1) / p.vec_stride)) in
      if p.vec_stride == 0 || page_bytes == 0 || leb hi lo then [] else id_range (suc i1 - i0) i0
]

-- The ids of a range whose bytes [off i, off i + len) lie within a page.
unfoldable pub within_page : (ℕ → ℕ) → ℕ → ℕ → ℕ → List ℕ → List ℕ
within_page off len page_off page_bytes [] = []
within_page off len page_off page_bytes (i ∷ is) =
    let rest = within_page off len page_off page_bytes is in
    if leb page_off (off i) && leb (off i + len) (page_off + page_bytes) then i ∷ rest else rest

-- The branch of for_ids_contained_in_page for the packed-entry layout: the slots visited.
unfoldable pub slots_in_page : Header → ℕ → ℕ → ℕ → List ℕ
unfolding within_page id_range
slots_in_page h stride page_off page_bytes =
    let v0 = h.off_vectors in
    let i0 = if ltb v0 page_off then cast32 ((page_off - v0 + stride - 1) / stride) else 0 in
    let i1 = last_id h.n (cast32 ((page_off + page_bytes - v0) / stride) - 1) in
    if leb (page_off + page_bytes) v0
    then []
    else within_page (λ i. v0 + i * stride) stride page_off page_bytes (id_range (suc i1 - i0) i0)

-- The word k at a place.
abbrev word_at : Place → ℕ → Placement → ℕ
word_at (in_graph off) k p = p.graph_word (off + k * 4)
word_at (in_image off) k p = p.image (off + k * 4)

-- The neighbours of `u` whose packed vectors lie in the part [local, local + page_bytes) of its bundle.
unfoldable pub bundle_ids : Header → ℕ → ℕ → ℕ → Placement → List ℕ
unfolding within_page id_range nbrs
bundle_ids h u local page_bytes p =
    let packed = h.dim * h.vec_bytes in
    map (λ k. word_at (nbrs h u p) k p)
      (within_page (λ k. k * packed) packed local page_bytes (id_range h.degree 0))

-- The branch of the packed vectors.
unfoldable pub packed_ids : Header → ℕ → ℕ → ℕ → ℕ → List ℕ
unfolding within_page id_range
packed_ids h stride packed page_off page_bytes =
    let v0 = h.off_vectors in
    let vlo = if ltb v0 page_off then page_off else v0 in
    let vhi = page_off + page_bytes in
    let i0 = cast32 ((vlo - v0 + stride - 1) / stride) in
    let i1 = last_id h.n (cast32 ((vhi - v0) / stride) - 1) in
    if leb (v0 + h.len_vectors) vlo || leb vhi vlo
    then []
    else within_page (λ i. v0 + i * stride) packed page_off page_bytes (id_range (suc i1 - i0) i0)

-- for_ids_contained_in_page, with at least one id.
unfoldable pub ids_contained_in_page : ℕ → ℕ → Placement → List ℕ
unfolding slots_in_page bundle_ids packed_ids has_bundle id_of_slot
ids_contained_in_page page_off page_bytes p = elim p.hdr [
  | none ↦ []
  | some h ↦
      let packed = h.dim * h.vec_bytes in
      let rel = page_off - p.bundle_off in
      let u = cast32 (rel / p.bundle_stride) in
      let in_bundle =
        has_bundle p && leb p.bundle_off page_off && ltb page_off (p.bundle_off + p.bundle_bytes) in
      if page_bytes == 0
      then []
      else if p.diskann_layout && not (p.vec_stride == 0)
      then map (λ s. id_of_slot s p) (slots_in_page h p.vec_stride page_off page_bytes)
      else if packed == 0 || ltb page_bytes packed
      then []
      else if in_bundle
      then (if leb h.n u then [] else bundle_ids h u (rel % p.bundle_stride) page_bytes p)
      else if p.vec_stride == 0
      then []
      else packed_ids h p.vec_stride packed page_off page_bytes
]
