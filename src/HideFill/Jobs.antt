-- ===== src/HideFill/Jobs.antt =====
-- The jobs that hide_issue of serving/hide_fill.hpp hands to the copy pool, which fill the pages of an
-- issue 32 at a time. A job is a function on the memory: `bytes` holds the destinations, the host
-- pages or the window's arena, and `flag` the ready flags. The two ioctls are parameters.
use cxl_anns_kx.Base.{
  ℕ, zero, suc, ◌+◌, ◌-◌, ◌*◌, if◌then◌else◌, ltb, ◌==◌, Bool, true, List, [], ◌∷◌, map, Option,
  none, some,
}
use cxl_anns_kx.Base.Lists.{length, get_or}
use cxl_anns_kx.Base.Dict.{update}
use cxl_anns_kx.DramWindow.State.{blit}
use cxl_anns_kx.PageCopyPool.{Memory}
use cxl_anns_kx.Vmem.{VmemIo, is_open, Request, vmem_read_pages, vmem_prefetch_pages}

abbrev pub Ioctl : Type 0
Ioctl = List Request → Memory → Bool × Memory

-- What the jobs of one issue capture: `ssd` is what is mapped from the SSD's base on, `slab` and
-- `ready` are the addresses of the host pages and of the flags.
pub record FillTask : Type 0 where
  pub ssd : ℕ → ℕ
  pub pages : List ℕ
  pub dests : List ℕ
  pub slab : ℕ
  pub host_pb : ℕ
  pub page_bytes : ℕ
  pub ready : ℕ
  pub use_direct : Bool
  pub only_pf : Bool
  pub vio : Option VmemIo

abbrev pub page_of : FillTask → ℕ → ℕ
page_of t j = get_or t.pages j 0

unfoldable pub dest_of : FillTask → ℕ → ℕ
dest_of t j = if t.use_direct then get_or t.dests j 0 else t.slab + j * t.host_pb

-- `pages->data() + off` and `dests`, n1 entries of each.
unfoldable pub requests : FillTask → ℕ → ℕ → List Request
unfolding dest_of
requests t zero j = []
requests t (suc rounds) j = (page_of t j, some (dest_of t j)) ∷ requests t rounds (suc j)

unfoldable pub page_span : FillTask → ℕ → ℕ → List ℕ
page_span t zero j = []
page_span t (suc rounds) j = page_of t j ∷ page_span t rounds (suc j)

-- for (i = 0; i < n1; ++i) ready[off + i].store(1)
unfoldable pub set_ready : FillTask → ℕ → ℕ → Memory → Memory
set_ready t zero j m = m
set_ready t (suc rounds) j m =
    set_ready t rounds (suc j) (record m { flag = update m.flag (t.ready + j) 1 })

-- for (i = 0; i < n1; ++i) memcpy(dests[i], base + (*pages)[off + i], pb)
unfoldable pub copy_pages : FillTask → ℕ → ℕ → Memory → Memory
unfolding dest_of
copy_pages t zero j m = m
copy_pages t (suc rounds) j m =
    copy_pages t rounds (suc j)
      (record m { bytes = blit m.bytes (dest_of t j) t.ssd (page_of t j) t.page_bytes })

-- `vio_c && vio_c->fd >= 0`
unfoldable pub device : Option VmemIo → Option VmemIo
device none = none
device (some io) = if is_open io then some io else none

unfoldable pub prefetch_on : Ioctl → Option VmemIo → List ℕ → Memory → Memory
unfolding vmem_prefetch_pages
prefetch_on prefetch none pages m = m
prefetch_on prefetch (some io) pages m = (vmem_prefetch_pages prefetch io pages m).1

-- `rd`, with -1 where there is no device.
unfoldable pub read_on : Ioctl → Option VmemIo → List Request → Memory → Option ℕ × Memory
unfolding vmem_read_pages
read_on read none pages m = (none, m)
read_on read (some io) pages m = vmem_read_pages read io pages m

-- `rd <= 0`
abbrev pub is_unread : Option ℕ → Bool
is_unread rd = elim rd [ none ↦ true | some k ↦ k == 0 ]

module _ (read prefetch : Ioctl) where
  -- The job of the n1 pages from `off` on.
  unfoldable pub fill_job : FillTask → ℕ → ℕ → Memory → Memory
  unfolding requests page_span set_ready copy_pages device prefetch_on read_on
  fill_job t off n1 m =
      let fetched = prefetch_on prefetch (device t.vio) (page_span t n1 off) m in
      let (rd, tried) = read_on read (device t.vio) (requests t n1 off) m in
      let again = prefetch_on prefetch (device t.vio) (page_span t n1 off) tried in
      set_ready t n1 off
        (if t.only_pf then fetched else if is_unread rd then copy_pages t n1 off again else tried)

abbrev pub chunk : ℕ
chunk = 32

-- for (off = 0; off < n; off += chunk): the first page of each job, and its number of pages.
unfoldable pub chunks : ℕ → ℕ → ℕ → List (ℕ × ℕ)
chunks zero off n = []
chunks (suc rounds) off n =
    let rest = chunks rounds (off + chunk) n in
    if ltb off n then (off, if ltb (n - off) chunk then n - off else chunk) ∷ rest else []

-- One round for each page is enough.
unfoldable pub fill_jobs : Ioctl → Ioctl → FillTask → List (Memory → Memory)
unfolding fill_job chunks
fill_jobs read prefetch t =
    map (λ c. fill_job read prefetch t c.0 c.1) (chunks (length t.pages) 0 (length t.pages))
