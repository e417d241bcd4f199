-- ===== src/Tests/Windows.antt =====
-- Windows of four frames of 4096 bytes, for serving/dram_window.hpp.
use cxl_anns_kx.Base.{
  ℕ, ◌+◌, ◌-◌, ◌*◌, ◌%◌, ◌≡◌, refl, true, false, ◌==◌, if◌then◌else◌, [], ◌∷◌, none, some, arith,
  ap,
}
use cxl_anns_kx.Base.Words.{kpage_IsPageSize, page_floor, page_floor-mod}
use cxl_anns_kx.Base.Dict.{lookup}
use cxl_anns_kx.Base.Search.{bytes_at}
use cxl_anns_kx.DramWindow.State.{Window, Frames, no_key}
use cxl_anns_kx.DramWindow.Frames.{evict_frame}
use cxl_anns_kx.DramWindow.Frames.Eviction.{TakesFree, evict_frame-TakesFree}
use cxl_anns_kx.DramWindow.Fills.{commit_fill}
use cxl_anns_kx.DramWindow.FillLaws.{commit_fill-IsSound}
use cxl_anns_kx.DramWindow.Promote.{promote_page}
use cxl_anns_kx.DramWindow.Reads.{
  is_resident, try_copy_resident, copy_through, lookup_or_promote, in_arena,
}
use cxl_anns_kx.DramWindow.Residency.{IsSound, HasRoom, IsPromoted, promote_page-IsPromoted}
use cxl_anns_kx.DramWindow.Copies.{try_copy_resident_lem}
use cxl_anns_kx.DramWindow.Budgets.{IsWithin}
use cxl_anns_kx.DramWindow.Through.{copy_through_page, lookup_or_promote_page}
use cxl_anns_kx.DramWindow.Faults.{promote_page_full}

abbrev pub ssd : ℕ → ℕ
ssd a = a % 251

-- Page 4096 is in frame 0; frame 1 is being filled with page 8192, whose bytes have been read; the
-- other frames are free.
abbrev filling : Frames
filling = record {
  page_bytes = 4096;
  n_frames = 4;
  map = (4096, 0) ∷ [];
  frame_key = λ i. if i == 0 then 4096 else (if i == 1 then 8192 else no_key);
  frame_pinned = λ i. false;
  frame_filling = λ i. i == 1;
  arena = λ a. (4096 + a) % 251;
}

abbrev pub w : Window
w = record {
  frames = filling;
  soft = record {
    frame_soft_ttl = λ i. if i == 2 then 3 else 0;
    soft_pin_frames = 2 ∷ [];
    soft_pin_bytes_used = 4096;
    soft_pin_bytes_cap = 8192;
  };
  capacity = 16384;
  soft_pin_neighbors = true;
  met = none;
  pinned_pages = [];
  clock_hand = 1;
  pin_bytes_used = 0;
  pin_bytes_cap = 4096;
  spill = [];
  spill_hand = 0;
}

pub w-IsSound : IsSound ssd w.frames
unfolding lookup
w-IsSound = record {
  consistent = record {
    in_range = λ p fr h. ground (arith, h);
    keyed = λ p fr h. ground (arith, h);
    settled = λ p fr h. ground (arith, h);
    real = λ p fr h. ground (arith, h);
    mapped = λ fr lt idle key. ground (arith, idle, key);
  };
  coherent = λ p fr k h lt. ap ssd (ground (arith, h));
}

w-HasRoom : HasRoom w
w-HasRoom = record { spare = 0; spare_low = omega arith; spare_free = refl; no_wrap = omega arith }

w-IsWithin : IsWithin w
w-IsWithin = record { hard = omega arith; soft_ok = omega arith }

try_copy_resident_lem_example :
    try_copy_resident 4100 8 w
    ≡ (w, if is_resident 4100 8 w then some (bytes_at ssd 4100 8) else none)
try_copy_resident_lem_example =
    try_copy_resident_lem ssd 4100 8 w (omega arith) (omega arith) kpage_IsPageSize
      w-IsSound.coherent

same_page : page_floor 4096 (12290 + 5 - 1) ≡ page_floor 4096 12290
same_page = omega (
  arith,
  page_floor-mod 12294 kpage_IsPageSize (omega arith),
  page_floor-mod 12290 kpage_IsPageSize (omega arith),
)

real_page : (page_floor 4096 12290 == no_key) ≡ false
real_page = ground (arith, page_floor-mod 12290 kpage_IsPageSize (omega arith))

copy_through_page_example : (copy_through ssd 12290 5 w).1 ≡ bytes_at ssd 12290 5
copy_through_page_example =
    copy_through_page ssd 12290 5 w (omega arith) (omega arith) kpage_IsPageSize same_page w-IsSound
      w-HasRoom real_page

lookup_or_promote_page_example :
    (a : ℕ) × ((lookup_or_promote ssd 12290 5 w).1 ≡ in_arena a)
    × (bytes_at (lookup_or_promote ssd 12290 5 w).0.arena a 5 ≡ bytes_at ssd 12290 5)
lookup_or_promote_page_example =
    lookup_or_promote_page ssd 12290 5 w (omega arith) (omega arith) kpage_IsPageSize same_page
      w-IsSound w-HasRoom real_page

promote_page-IsPromoted_example : IsPromoted ssd 12288 (promote_page ssd 12288 true w)
promote_page-IsPromoted_example = promote_page-IsPromoted ssd 12288 true w w-IsSound w-HasRoom refl

evict_frame-TakesFree_example : TakesFree w (evict_frame w)
evict_frame-TakesFree_example = evict_frame-TakesFree w 3 (omega arith) refl (omega arith)

commit_fill-IsSound_example : IsSound ssd (commit_fill 8192 1 16 w).frames
commit_fill-IsSound_example =
    commit_fill-IsSound ssd 8192 1 16 w w-IsSound refl (λ k lt. ap ssd (omega arith))

-- Every frame is pinned.
abbrev full : Window
full = record w {
  frames = record filling { n_frames = 1; frame_pinned = λ i. true; frame_filling = λ i. false };
}

promote_page_full_example :
    (lookup 4096 (promote_page ssd 12288 false full).1.map ≡ some 0)
    × (lookup 12288 (promote_page ssd 12288 false full).1.map ≡ some 0)
    × ((promote_page ssd 12288 false full).1.arena (0 * 4096 + 7) ≡ ssd (12288 + 7))
promote_page_full_example =
    promote_page_full ssd 12288 4096 7 full (omega arith) (λ i lt. refl) (unfold lookup in refl)
      (unfold lookup in refl) refl (omega arith)
