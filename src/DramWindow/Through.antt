-- ===== src/DramWindow/Through.antt =====
-- copy_through and lookup_or_promote of serving/dram_window.hpp, on a range within one page.
use cxl_anns_kx.Base.{
  ℕ, ◌+◌, ◌-◌, ◌*◌, ◌<◌, ◌≤◌, ◌≡◌, ◌∙◌, refl, ap, Bool, true, false, inl, inr, ◌==◌, [], ◌∷◌,
  Option, none, some, arith, Option-cases, suc, max, ==_refl,
}
use cxl_anns_kx.Base.Words.{u64_mod, page_floor, IsPageSize}
use cxl_anns_kx.Base.Search.{bytes_at}
use cxl_anns_kx.Base.Dict.{lookup}
use cxl_anns_kx.DramWindow.State.{Window, no_key, unmapped, clear_soft_ttl}
use cxl_anns_kx.DramWindow.Frames.{alloc_frame, evict_frame, first_pass, second_pass, unmap_frame}
use cxl_anns_kx.DramWindow.Promote.{
  install, installed, pin_frame, promote_hit, promote_miss, promote_page, promote_all, page_range,
  pages_of,
}
use cxl_anns_kx.DramWindow.Reads.{in_arena, copy_out, copy_through, lookup_or_promote}
use cxl_anns_kx.DramWindow.Copies.{
  copy_loop_lem, page_floor_bounds, page_floor_mono, map_at_hit, round_bytes,
}
use cxl_anns_kx.DramWindow.Residency.{IsSound, HasRoom, promote_page-IsPromoted}

second_pass-size : (r : Option ℕ × ℕ) (w : Window) → (second_pass r w).1.page_bytes ≡ w.page_bytes
unfolding second_pass unmap_frame unmapped
second_pass-size (none, h) w = refl
second_pass-size (some i, h) w = refl

first_pass-size : (r : Option ℕ × ℕ) (w : Window) → (first_pass r w).1.page_bytes ≡ w.page_bytes
unfolding first_pass unmap_frame unmapped
first_pass-size (none, h) w = second_pass-size _ w
first_pass-size (some i, h) w = refl

promote_miss-size :
    (ssd : ℕ → ℕ) (p : ℕ) (pin : Bool) (r : ℕ × Window)
    → (promote_miss ssd p pin r).1.page_bytes ≡ r.1.page_bytes
unfolding promote_miss install installed clear_soft_ttl pin_frame
promote_miss-size ssd p true (fr, w) = ground arith
promote_miss-size ssd p false (fr, w) = refl

promote_hit-size :
    (p fr : ℕ) (pin : Bool) (w : Window) → (promote_hit p pin fr w).page_bytes ≡ w.page_bytes
unfolding promote_hit pin_frame
promote_hit-size p fr pin w = ground arith

promote_page-size :
    (ssd : ℕ → ℕ) (p : ℕ) (pin : Bool) (w : Window)
    → (promote_page ssd p pin w).1.page_bytes ≡ w.page_bytes
unfolding promote_page alloc_frame evict_frame
promote_page-size ssd p pin w = elim (Option-cases (lookup p w.map)) [
  | inl e ↦ rw (e, promote_page) (promote_miss-size ssd p pin (alloc_frame w) ∙ first_pass-size _ w)
  | inr (fr, e) ↦ rw (e, promote_page) (promote_hit-size p fr pin w)
]

pages_of_one :
    (pb off len : ℕ)
    → page_floor pb (off + len - 1) ≡ page_floor pb off
    → pages_of pb off len ≡ page_floor pb off ∷ []
unfolding pages_of page_range
pages_of_one pb off len e =
    let one : suc (page_floor pb off) - page_floor pb off ≡ 1 = omega arith in
    rw (e, one) (ground arith)

on_page :
    (off len c : ℕ) (w : Window)
    → IsPageSize w.page_bytes
    → off + len < u64_mod
    → c < len
    → page_floor w.page_bytes (off + len - 1) ≡ page_floor w.page_bytes off
    → page_floor w.page_bytes (off + c) ≡ page_floor w.page_bytes off
on_page off len c w page fits lt same = omega (
  arith,
  page_floor_mono off (off + c) page (omega arith) (omega arith),
  page_floor_mono (off + c) (off + len - 1) page (omega arith) (omega arith),
)

-- On a sound window with a frame to evict and a power of two as the page size, copying a
-- non-empty range that lies within one page, ends below 2^64 and whose page is not the key of a
-- free frame gives the bytes of the SSD, whether the page was resident or not.
pub copy_through_page :
    (ssd : ℕ → ℕ) (off len : ℕ) (w : Window)
    → 0 < len
    → off + len < u64_mod
    → IsPageSize w.page_bytes
    → page_floor w.page_bytes (off + len - 1) ≡ page_floor w.page_bytes off
    → IsSound ssd w.frames
    → HasRoom w
    → (page_floor w.page_bytes off == no_key) ≡ false
    → (copy_through ssd off len w).1 ≡ bytes_at ssd off len
unfolding copy_through promote_all copy_out
copy_through_page ssd off len w pos fits page same s room named =
    let nonzero : (len == 0) ≡ false = ground arith in
    let first = page_floor w.page_bytes off in
    let done = promote_page-IsPromoted ssd first false w s room named in
    let v : Window = (promote_page ssd first false w).1 in
    let size : v.page_bytes ≡ w.page_bytes = promote_page-size ssd first false w in
    let page' : IsPageSize v.page_bytes = rw size page in
    let f : off + 0 ≡ off = omega arith in
    let g : len - 0 ≡ len = omega arith in
    let covered : (c : ℕ)
        → 0 ≤ c
        → c < len
        → (fr : ℕ) × (lookup (page_floor v.page_bytes (off + c)) v.map ≡ some fr) =
      λ c _ lt.
        let at = on_page off len c w page (omega arith) lt same in
        ((promote_page ssd first false w).0, rw (size, at) done.resident) in
    let copied =
      rw (f, g) at
        (copy_loop_lem ssd off len v page' (omega arith) done.sound.coherent len 0 (omega arith)
          covered) in
    rw (nonzero, pages_of_one w.page_bytes off len same) (ap (λ r. r.1) copied)

-- On a sound window with a frame to evict and a power of two as the page size, looking up a
-- non-empty range that lies within one page, ends below 2^64 and whose page is not the key of a
-- free frame returns a place in the arena that holds the bytes of the SSD.
pub lookup_or_promote_page :
    (ssd : ℕ → ℕ) (off len : ℕ) (w : Window)
    → 0 < len
    → off + len < u64_mod
    → IsPageSize w.page_bytes
    → page_floor w.page_bytes (off + len - 1) ≡ page_floor w.page_bytes off
    → IsSound ssd w.frames
    → HasRoom w
    → (page_floor w.page_bytes off == no_key) ≡ false
    → let r = lookup_or_promote ssd off len w in
      (a : ℕ) × (r.1 ≡ in_arena a) × (bytes_at r.0.arena a len ≡ bytes_at ssd off len)
unfolding lookup_or_promote promote_all
lookup_or_promote_page ssd off len w pos fits page same s room named =
    let whole : max len 1 ≡ len = omega arith in
    let first = page_floor w.page_bytes off in
    let done = promote_page-IsPromoted ssd first false w s room named in
    let v : Window = (promote_page ssd first false w).1 in
    let fr : ℕ = (promote_page ssd first false w).0 in
    let size : v.page_bytes ≡ w.page_bytes = promote_page-size ssd first false w in
    let page' : IsPageSize v.page_bytes = rw size page in
    let (low, high) = page_floor_bounds off page (omega arith) in
    let (low', high') = page_floor_bounds (off + len - 1) page (omega arith) in
    let e : off + 0 ≡ off = omega arith in
    let at : lookup (page_floor v.page_bytes (off + 0)) v.map ≡ some fr =
      rw (e, size) done.resident in
    let room' : off + 0 - page_floor v.page_bytes (off + 0) + len ≤ v.page_bytes =
      rw (e, size) (omega arith) in
    let bytes =
      round_bytes ssd off len v page' (omega arith) done.sound.coherent 0 fr len (omega arith) pos
        at room' in
    let a : ℕ = fr * v.page_bytes + (off - first) in
    let place : off + 0 - page_floor v.page_bytes (off + 0) ≡ off - first = rw (e, size) in
    let bytes' : bytes_at v.arena a len ≡ bytes_at ssd off len = rw (place, e) at bytes in
    let result : lookup_or_promote ssd off len w ≡ (v, in_arena a) = rw (
      whole,
      pages_of_one w.page_bytes off len same,
      map_at_hit first fr v done.resident,
      same,
      ==_refl first,
    ) in
    (a, ap (λ r. r.1) result, ap (λ r. bytes_at r.0.arena a len) result ∙ bytes')
