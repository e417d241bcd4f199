-- ===== src/Vmem/Batches.antt =====
-- How serving/vmem_prefetch.hpp splits its pages into batches.
use cxl_anns_kx.Base.{
  ℕ, zero, suc, ◌+◌, ◌≤◌, ◌<◌, ◌≡◌, ◌∙◌, refl, ap, sym, if◌then◌else◌, ◌==◌, Bool, true, false,
  Bool-cases, inl, inr, List, [], ◌∷◌, ◌++◌, map, Option, none, some, arith,
}
use cxl_anns_kx.Base.Lists.{length, length-append, All}
use cxl_anns_kx.Vmem.{
  VmemIo, is_open, batch_max, Request, request, gather, send_batches, vmem_read_pages,
}

-- The number of pages sent where every call was successful, and -1 elsewhere.
abbrev pub outcome : {S : Type 0} → ℕ → Bool × S → Option ℕ × S
outcome total (ok, s) = (if ok then some total else none, s)

pub rest_le : {a b n rounds : ℕ} → 1 ≤ a → a + b ≡ suc n → suc n ≤ suc rounds → b ≤ rounds
rest_le pos e enough = omega arith

total_eq : (a b n issued : ℕ) → a + b ≡ suc n → issued + a + b ≡ issued + suc n
total_eq a b n issued e = omega arith

module _ {A : Type 0} where
  abbrev pub concat : List (List A) → List A
  concat [] = []
  concat (xs ∷ xss) = xs ++ concat xss

  pub gather-append : (room : ℕ) (xs : List A) → (gather room xs).0 ++ (gather room xs).1 ≡ xs
  unfolding gather
  gather-append zero xs = refl
  gather-append (suc room) [] = refl
  gather-append (suc room) (x ∷ xs) = ap (λ ys. x ∷ ys) (gather-append room xs)

  pub gather-size :
      (room : ℕ) (x : A) (xs : List A)
      → length (gather room (x ∷ xs)).0 + length (gather room (x ∷ xs)).1 ≡ suc (length xs)
  gather-size room x xs =
      sym (length-append (gather room (x ∷ xs)).0 (gather room (x ∷ xs)).1)
      ∙ ap (λ (ys : List A). length ys) (gather-append room (x ∷ xs))

  pub length-gather : (room : ℕ) (xs : List A) → length (gather room xs).0 ≤ room
  unfolding gather
  length-gather zero xs = omega arith
  length-gather (suc room) [] = omega arith
  length-gather (suc room) (x ∷ xs) = omega (arith, length-gather room xs)

  pub gather_grows : (room : ℕ) (x : A) (xs : List A) → 1 ≤ length (gather (suc room) (x ∷ xs)).0
  unfolding gather
  gather_grows room x xs = omega arith

  -- What the device is given, one call after the other, until one fails.
  unfoldable pub run_all : {S : Type 0} → (List A → S → Bool × S) → List (List A) → S → Bool × S
  run_all ioctl [] s = (true, s)
  run_all ioctl (batch ∷ batches) s =
      let (ok, t) = ioctl batch s in
      let later = run_all ioctl batches t in if ok then later else (false, t)

  -- One to 256 pages in each batch.
  abbrev pub IsSized : List A → Type 0
  IsSized batch = (1 ≤ length batch) × (length batch ≤ batch_max)

  pub send_batches-Sized :
      {S : Type 0} (ioctl : List A → S → Bool × S) (rounds : ℕ) (xs : List A) (issued : ℕ) (s : S)
      → length xs ≤ rounds
      → (batches : List (List A)) × (concat batches ≡ xs)
        × All IsSized batches
        × (send_batches ioctl rounds xs issued s
            ≡ outcome (issued + length xs) (run_all ioctl batches s))
  unfolding send_batches run_all
  send_batches-Sized ioctl zero [] issued s enough =
      ([], refl, tt, ap (λ n. (some n, s)) (omega arith))
  send_batches-Sized ioctl zero (x ∷ xs) issued s enough = absurd (omega arith)
  send_batches-Sized ioctl (suc rounds) [] issued s enough =
      ([], refl, tt, ap (λ n. (some n, s)) (omega arith))
  send_batches-Sized ioctl (suc rounds) (x ∷ xs) issued s enough =
      let batch = (gather batch_max (x ∷ xs)).0 in
      let rest = (gather batch_max (x ∷ xs)).1 in
      let whole : batch ++ rest ≡ x ∷ xs = gather-append batch_max (x ∷ xs) in
      let size = gather-size batch_max x xs in
      let some_sent : 1 ≤ length batch = gather_grows 255 x xs in
      let (batches, all, sized, same) =
        send_batches-Sized ioctl rounds rest (issued + length batch) (ioctl batch s).1
          (rest_le some_sent size enough) in
      (
        batch ∷ batches,
        ap (λ ys. batch ++ ys) all ∙ whole,
        ((some_sent, length-gather batch_max (x ∷ xs)), sized),
        elim (Bool-cases (ioctl batch s).0) [
          | inl ok ↦ simp ok (
              same
              ∙ ap (λ n. outcome n (run_all ioctl batches (ioctl batch s).1))
                  (total_eq _ _ _ issued size))
          | inr fails ↦ simp fails refl
        ],
      )

module _ {A B : Type 0} where
  pub length-map : (f : A → B) (xs : List A) → length (map f xs) ≡ length xs
  length-map f [] = refl
  length-map f (x ∷ xs) = ap suc (length-map f xs)

-- With the prefetch on, an open device and at least one page, a read gives the device every
-- page, at its offset in the image and with its destination, in order and once, in batches of 1
-- to 256; it stops at the first batch that fails. It returns the number of pages where none
-- fails, and -1 elsewhere.
pub vmem_read_pages-Sized :
    {S : Type 0} (ioctl : List Request → S → Bool × S) (io : VmemIo) (pages : List Request) (s : S)
    → io.prefetch ≡ true
    → is_open io ≡ true
    → 0 < length pages
    → (batches : List (List Request)) × (concat batches ≡ map (request io) pages)
      × All IsSized batches
      × (vmem_read_pages ioctl io pages s ≡ outcome (length pages) (run_all ioctl batches s))
unfolding vmem_read_pages
vmem_read_pages-Sized ioctl io pages s on opened some_pages =
    let same : 0 + length (map (request io) pages) ≡ length pages =
      omega (arith, length-map (request io) pages) in
    let (batches, all, sized, e) =
      send_batches-Sized ioctl (length pages) (map (request io) pages) 0 s (omega arith) in
    let empty : (length pages == 0) ≡ false = ground arith in
    (
      batches,
      all,
      sized,
      simp (on, opened, empty) (e ∙ ap (λ n. outcome n (run_all ioctl batches s)) same),
    )
