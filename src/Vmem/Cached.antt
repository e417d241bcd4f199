-- ===== src/Vmem/Cached.antt =====
-- The hits that vmem_read_cached of serving/vmem_prefetch.hpp reports.
use cxl_anns_kx.Base.{
  ℕ, zero, suc, ◌+◌, ◌≤◌, ◌<◌, ◌≡◌, refl, ap, if◌then◌else◌, ltb, leb, ◌==◌, ◌-◌, ◌&&◌, Bool, true,
  false, Bool-cases, inl, inr, List, [], ◌∷◌, ◌++◌, map, none, arith, eq-or-ne, subst,
}
use cxl_anns_kx.Base.Words.{add64}
use cxl_anns_kx.Base.Lists.{length, length-append, get_or}
use cxl_anns_kx.Base.Dict.{update}
use cxl_anns_kx.Vmem.{
  VmemIo, is_open, batch_max, Request, request, gather, copy_hits, CachedRead, read_cached,
  vmem_read_cached,
}
use cxl_anns_kx.Vmem.Batches.{gather-append, gather_grows, gather-size, rest_le, length-map}

abbrev pub nowhere : Request
nowhere = (0, none)

-- The entries of a batch are the device's answer, and the others are unchanged.
copy_hits_lem :
    (rounds k done : ℕ) (br hit : ℕ → Bool) (x : ℕ)
    → copy_hits rounds k done br hit x
      ≡ (if leb (done + k) x && ltb x (done + k + rounds) then br (x - done) else hit x)
unfolding copy_hits
copy_hits_lem zero k done br hit x = ground arith
copy_hits_lem (suc rounds) k done br hit x =
    let later = copy_hits_lem rounds (suc k) done br (update hit (done + k) (br k)) x in
    elim (eq-or-ne x (done + k)) [
      | inl here ↦
          let e : x - done ≡ k = ground arith in
          let same : br (x - done) ≡ br k = ap br e in ground (arith, later, same)
      | inr other ↦ ground (arith, later)
    ]

module _ {A : Type 0} where
  get_or-append :
      (xs ys : List A) (j : ℕ) (d : A)
      → get_or (xs ++ ys) j d
        ≡ (if ltb j (length xs) then get_or xs j d else get_or ys (j - length xs) d)
  get_or-append [] ys j d =
      let none_left : ltb j 0 ≡ false = ground arith in
      let same : j ≡ j - 0 = omega arith in rw none_left (ap (λ i. get_or ys i d) same)
  get_or-append (x ∷ xs) ys zero d = ground arith
  get_or-append (x ∷ xs) ys (suc j) d =
      let less : ltb (suc j) (suc (length xs)) ≡ ltb j (length xs) = ground arith in
      let left : suc j - suc (length xs) ≡ j - length xs = omega arith in
      rw (less, left) (get_or-append xs ys j d)

-- The device reads every batch that it is given, and says of each page whether it had it, which
-- the offset decides.
abbrev pub Answers : {S : Type 0} → CachedRead S → (ℕ → Bool) → Type 0
Answers {S} ioctl had =
    (batch : List Request) (s : S)
    → ((ioctl batch s).0 ≡ true)
      × ((k : ℕ) → k < length batch → (ioctl batch s).1 k ≡ had (get_or batch k nowhere).0)

-- The hits after a read of pages xs: from entry `done` on they say what the device had.
abbrev Reported : (ℕ → Bool) → List Request → ℕ → (ℕ → Bool) → (ℕ → Bool) → Type 0
Reported had xs done hit hit' =
    (x : ℕ)
    → hit' x ≡ (
        if leb done x && ltb x (done + length xs)
        then had (get_or xs (x - done) nowhere).0
        else hit x)

module _ (had : ℕ → Bool) where
  Reported-append :
      (xs ys : List Request) (done : ℕ) (br hit hit' : ℕ → Bool)
      → ((k : ℕ) → k < length xs → br k ≡ had (get_or xs k nowhere).0)
      → Reported had ys (done + length xs) (copy_hits (length xs) 0 done br hit) hit'
      → Reported had (xs ++ ys) done hit hit'
  Reported-append xs ys done br hit hit' answers later x =
      let at = later x in
      let copied = copy_hits_lem (length xs) 0 done br hit x in
      let here = answers (x - done) in
      let size = length-append xs ys in
      let whole = get_or-append xs ys (x - done) nowhere in
      elim (Bool-cases (leb (done + length xs) x)) [
        | inl high ↦
            let out : ltb (x - done) (length xs) ≡ false = ground arith in
            let left : x - done - length xs ≡ x - (done + length xs) = omega arith in
            let page : had (get_or (xs ++ ys) (x - done) nowhere).0
                ≡ had (get_or ys (x - (done + length xs)) nowhere).0 =
              ap (λ (r : Request). had r.0) (rw (out, left) at whole) in
            ground (arith, at, copied, page)
        | inr low ↦ elim (Bool-cases (leb done x)) [
          | inl inside ↦
              let in_xs : ltb (x - done) (length xs) ≡ true = ground arith in
              let page : had (get_or (xs ++ ys) (x - done) nowhere).0
                  ≡ had (get_or xs (x - done) nowhere).0 =
                ap (λ (r : Request). had r.0) (rw in_xs at whole) in
              let answered = answers (x - done) (ground arith) in
              ground (arith, at, copied, page, answered)
          | inr before ↦ ground (arith, at, copied)
        ]
      ]

  module _ {S : Type 0} (ioctl : CachedRead S) (answers : Answers ioctl had) where
    read_cached-Reported :
        (rounds : ℕ) (xs : List Request) (done : ℕ) (hit : ℕ → Bool) (s : S)
        → length xs ≤ rounds
        → ((read_cached ioctl rounds xs done hit s).0 ≡ true)
          × Reported had xs done hit (read_cached ioctl rounds xs done hit s).1
    unfolding read_cached
    read_cached-Reported zero [] done hit s enough = (refl, λ x. ground arith)
    read_cached-Reported zero (r ∷ xs) done hit s enough = absurd (omega arith)
    read_cached-Reported (suc rounds) [] done hit s enough = (refl, λ x. ground arith)
    read_cached-Reported (suc rounds) (r ∷ xs) done hit s enough =
        let batch = (gather batch_max (r ∷ xs)).0 in
        let rest = (gather batch_max (r ∷ xs)).1 in
        let whole = gather-append batch_max (r ∷ xs) in
        let fewer : length rest ≤ rounds =
          rest_le (gather_grows 255 r xs) (gather-size batch_max r xs) enough in
        let (ok, said) = answers batch s in
        let br = (ioctl batch s).1 in
        let copied = copy_hits (length batch) 0 done br hit in
        let t = (ioctl batch s).2 in
        let next = (read_cached ioctl rounds rest (done + length batch) copied t).1 in
        let (read, later) = read_cached-Reported rounds rest (done + length batch) copied t fewer in
        simp ok (
          read,
          subst (λ ys. Reported had ys done hit next) whole
              (Reported-append batch rest done br hit next said later),
        )

get_or-request :
    (io : VmemIo) (pages : List Request) (i : ℕ)
    → i < length pages
    → (get_or (map (request io) pages) i nowhere).0 ≡ add64 io.image_off (get_or pages i nowhere).0
get_or-request io [] i lt = absurd (omega arith)
get_or-request io (p ∷ ps) zero lt = refl
get_or-request io (p ∷ ps) (suc i) lt = get_or-request io ps i (omega arith)

-- Where the device reads every batch and says of each page whether it had it: with an open
-- device and at least one page a cached read succeeds, entry i of the hits says whether the
-- device had page i at its offset in the image, and no entry behind the pages is written.
pub vmem_read_cached-Reported :
    {S : Type 0} (had : ℕ → Bool) (ioctl : CachedRead S) (io : VmemIo) (pages : List Request)
    (hit : ℕ → Bool) (s : S)
    → Answers ioctl had
    → is_open io ≡ true
    → 0 < length pages
    → let r = vmem_read_cached ioctl io pages hit s in
      (r.0 ≡ true)
      × ((i : ℕ) → i < length pages → r.1 i ≡ had (add64 io.image_off (get_or pages i nowhere).0))
      × ((i : ℕ) → length pages ≤ i → r.1 i ≡ hit i)
unfolding vmem_read_cached
vmem_read_cached-Reported had ioctl io pages hit s answers opened some_pages =
    let same = length-map (request io) pages in
    let (ok, reported) =
      read_cached-Reported had ioctl answers (length pages) (map (request io) pages) 0 hit s
        (omega arith) in
    let empty : (length pages == 0) ≡ false = ground arith in
    simp (opened, empty)
      (
        ok,
        λ i lt.
            let page = ap had (get_or-request io pages i lt) in
            let e : i - 0 ≡ i = omega arith in
            let at = rw e at (reported i) in ground (arith, at, page, same),
        λ i hi. let at = reported i in ground (arith, at, same),
      )
