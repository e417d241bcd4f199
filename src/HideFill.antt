-- ===== src/HideFill.antt =====
-- The fills of serving/hide_fill.hpp: HideInflight, the pages that an issue asks for, hide_pump and
-- HidePipe. The workers of the copy pool only set `ready` flags and write host pages.
pub mod Issue
pub mod Jobs
pub mod Sources
pub mod Filled
pub mod Orders
pub mod Pipe
pub mod Pump
pub mod Extents
pub mod Stripes
pub mod Rounded
pub mod Rounding
pub mod StripeFill
pub mod Covering
pub mod Collect
pub mod Bundles
pub mod Bundled
pub mod Reads
pub mod Hosted
pub mod Vectors
pub mod Ranges
pub mod Waits
use cxl_anns_kx.Base.{
  ℕ, ◌+◌, ◌-◌, ◌*◌, if◌then◌else◌, ltb, leb, ◌==◌, Bool, true, false, not, ◌||◌, ◌&&◌, List, [],
  ◌∷◌, ◌++◌, zero, suc, Option, none, some,
}
use cxl_anns_kx.Base.Lists.{length, get_or}
use cxl_anns_kx.Base.Dict.{update}
use cxl_anns_kx.DramWindow.State.{Window, no_key}
use cxl_anns_kx.DramWindow.Fills.{commit_fill}
use cxl_anns_kx.DramWindow.Promote.{install_full_pages}

pub data HideScore : Type 0 where
  window : HideScore
  bounce : HideScore
  vmem : HideScore

abbrev pub is_window : HideScore → Bool
is_window s = elim s [ HideScore.window ↦ true | _ ↦ false ]

-- `host_mem` is none where the pointer is null; `dests` are offsets in the window's arena.
pub record HideInflight : Type 0 where
  pub pages : List ℕ
  pub host_mem : Option (ℕ → ℕ)
  pub host_n : ℕ
  pub host_pb : ℕ
  pub dests : List ℕ
  pub frames : List ℕ
  pub ready : ℕ → Bool
  pub consumed : ℕ → Bool
  pub ready_n : ℕ
  pub ttl : ℕ
  pub active : Bool
  pub direct : Bool
  pub tok : ℕ

unfoldable pub clear : HideInflight → HideInflight
clear inf = record inf {
  pages = [];
  host_mem = none;
  host_n = 0;
  host_pb = 0;
  dests = [];
  frames = [];
  ready = λ i. false;
  consumed = λ i. false;
  ready_n = 0;
  active = false;
  direct = false;
  tok = 0;
}

-- The bytes from host_page(i) on.
abbrev pub host_page : ℕ → HideInflight → Option (ℕ → ℕ)
host_page i inf = elim inf.host_mem [
  | none ↦ none
  | some mem ↦ some (λ a. mem (i * inf.host_pb + a))
]

-- The page has arrived and no pump has taken it.
abbrev pub is_due : ℕ → HideInflight → Bool
is_due i inf = not (inf.consumed i) && inf.ready i

-- `consumed[i] = 1`
abbrev pub consume : ℕ → HideInflight → HideInflight
consume i inf = record inf { consumed = update inf.consumed i true }

abbrev pub add_ready : ℕ → HideInflight → HideInflight
add_ready n inf = record inf { ready_n = inf.ready_n + n }

-- The loop of hide_pump for the scores that leave the window alone.
unfoldable pub mark_loop : ℕ → ℕ → HideInflight → HideInflight
mark_loop zero i inf = inf
mark_loop (suc rounds) i inf =
    mark_loop rounds (suc i) (if is_due i inf then add_ready 1 (consume i inf) else inf)

-- Its loop over fills that were read straight into reserved frames.
unfoldable pub commit_loop : ℕ → ℕ → HideInflight → Window → HideInflight × Window
commit_loop zero i inf w = (inf, w)
commit_loop (suc rounds) i inf w =
    let filled = commit_fill (get_or inf.pages i 0) (get_or inf.frames i no_key) inf.ttl w in
    commit_loop rounds (suc i) (if is_due i inf then add_ready 1 (consume i inf) else inf)
      (if is_due i inf then filled else w)

abbrev pub Batch : Type 0
Batch = List (ℕ × Option (ℕ → ℕ))

-- The lambda `flush`.
unfoldable pub flush_batch : Batch → HideInflight → Window → HideInflight × Window
flush_batch batch inf w = (add_ready (length batch) inf, install_full_pages batch inf.ttl w)

abbrev pub kbatch : ℕ
kbatch = 256

-- Its loop over fills that were read into host pages: they are installed 256 at a time.
unfoldable pub install_loop : ℕ → ℕ → Batch → HideInflight → Window → HideInflight × Window
unfolding flush_batch
install_loop zero i batch inf w = flush_batch batch inf w
install_loop (suc rounds) i batch inf w =
    let grown = batch ++ (get_or inf.pages i 0, host_page i inf) ∷ [] in
    let full = length grown == kbatch in
    let (inf1, w1) = flush_batch grown (consume i inf) w in
    if is_due i inf
    then install_loop rounds (suc i) (if full then [] else grown)
        (if full then inf1 else consume i inf) (if full then w1 else w)
    else install_loop rounds (suc i) batch inf w

unfoldable pub hide_pump : HideScore → HideInflight → Window → HideInflight × Window
unfolding mark_loop commit_loop install_loop
hide_pump score inf w =
    let n = length inf.pages in
    if not inf.active
    then (inf, w)
    else if not (is_window score)
    then (mark_loop n 0 inf, w)
    else if inf.direct
    then commit_loop n 0 inf w
    else install_loop n 0 [] inf w
