-- ===== src/Vmem.antt =====
-- serving/vmem_prefetch.hpp: the batches of pages that go to the device. The ioctl is a parameter,
-- which returns whether it was successful and the state that it leaves.
pub mod Batches
pub mod Cached
use cxl_anns_kx.Base.{
  ℕ, zero, suc, ◌+◌, if◌then◌else◌, ◌==◌, Bool, true, false, not, ◌||◌, List, [], ◌∷◌, map, Option,
  none, some,
}
use cxl_anns_kx.Base.Words.{add64}
use cxl_anns_kx.Base.Lists.{length}
use cxl_anns_kx.Base.Dict.{update}

-- A negative descriptor is none.
pub record VmemIo : Type 0 where
  pub fd : Option ℕ
  pub image_off : ℕ
  pub prefetch : Bool

abbrev pub is_open : VmemIo → Bool
is_open io = elim io.fd [ none ↦ false | some fd ↦ true ]

-- VMEM_BATCH_MAX
abbrev pub batch_max : ℕ
batch_max = 256

-- An offset and a destination, and no destination for a prefetch.
abbrev pub Request : Type 0
Request = ℕ × Option ℕ

abbrev pub request : VmemIo → Request → Request
request io (p, dest) = (add64 io.image_off p, dest)

module _ {A : Type 0} where
  -- while (i < n && c < VMEM_BATCH_MAX): the batch, and the pages that are left.
  unfoldable pub gather : ℕ → List A → List A × List A
  gather zero xs = ([], xs)
  gather (suc room) [] = ([], [])
  gather (suc room) (x ∷ xs) = let (batch, rest) = gather room xs in (x ∷ batch, rest)

  -- while (i < n), with a round for each page; -1 is none.
  unfoldable pub send_batches :
      {S : Type 0} → (List A → S → Bool × S) → ℕ → List A → ℕ → S → Option ℕ × S
  unfolding gather
  send_batches ioctl zero xs issued s = (some issued, s)
  send_batches ioctl (suc rounds) [] issued s = (some issued, s)
  send_batches ioctl (suc rounds) (x ∷ xs) issued s =
      let (batch, rest) = gather batch_max (x ∷ xs) in
      let (ok, t) = ioctl batch s in
      let later = send_batches ioctl rounds rest (issued + length batch) t in
      if ok then later else (none, t)

module _ {S : Type 0} (ioctl : List Request → S → Bool × S) where
  -- Both functions that read or prefetch send the pages in the same way.
  unfoldable pub vmem_read_pages : VmemIo → List Request → S → Option ℕ × S
  unfolding send_batches
  vmem_read_pages io pages s =
      if not io.prefetch || not (is_open io) || length pages == 0
      then (some 0, s)
      else send_batches ioctl (length pages) (map (request io) pages) 0 s

  unfoldable pub vmem_prefetch_pages : VmemIo → List ℕ → S → Option ℕ × S
  unfolding send_batches
  vmem_prefetch_pages io pages s =
      if not io.prefetch || not (is_open io) || length pages == 0
      then (some 0, s)
      else send_batches ioctl (length pages) (map (λ p. request io (p, none)) pages) 0 s

-- for (k = 0; k < c; ++k) hit[done + k] = br.hit[k]
unfoldable pub copy_hits : ℕ → ℕ → ℕ → (ℕ → Bool) → (ℕ → Bool) → ℕ → Bool
copy_hits zero k done br hit = hit
copy_hits (suc rounds) k done br hit =
    copy_hits rounds (suc k) done br (update hit (done + k) (br k))

-- The device's answer to a cached read, which names the pages that it had, and the state it leaves.
abbrev pub CachedRead : Type 0 → Type 0
CachedRead S = List Request → S → Bool × (ℕ → Bool) × S

module _ {S : Type 0} (ioctl : CachedRead S) where
  -- Whether the batches were read, the hits, and the state.
  unfoldable pub read_cached : ℕ → List Request → ℕ → (ℕ → Bool) → S → Bool × (ℕ → Bool) × S
  unfolding gather copy_hits
  read_cached zero xs done hit s = (true, hit, s)
  read_cached (suc rounds) [] done hit s = (true, hit, s)
  read_cached (suc rounds) (x ∷ xs) done hit s =
      let (batch, rest) = gather batch_max (x ∷ xs) in
      let (ok, br, t) = ioctl batch s in
      let later =
        read_cached rounds rest (done + length batch) (copy_hits (length batch) 0 done br hit) t in
      if ok then later else (false, hit, t)

  unfoldable pub vmem_read_cached : VmemIo → List Request → (ℕ → Bool) → S → Bool × (ℕ → Bool) × S
  unfolding read_cached
  vmem_read_cached io pages hit s =
      if not (is_open io) || length pages == 0
      then (false, hit, s)
      else read_cached (length pages) (map (request io) pages) 0 hit s
