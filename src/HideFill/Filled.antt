-- ===== src/HideFill/Filled.antt =====
-- The jobs of serving/hide_fill.hpp: a flag that is set means that the page is there, in whatever
-- order the workers run them.
use cxl_anns_kx.Base.{
  ℕ, ◌+◌, ◌<◌, ◌≤◌, ◌≡◌, ◌∙◌, refl, ap, sym, ◌==◌, true, false, Bool-cases, inl, inr, not, ◌||◌,
  List, [], ◌∷◌, ◌++◌, map, Option, none, some, arith, subst,
}
use cxl_anns_kx.Base.Lists.{length, All}
use cxl_anns_kx.PageCopyPool.{Memory}
use cxl_anns_kx.Vmem.{VmemIo, is_open, Request, request, vmem_read_pages, vmem_prefetch_pages}
use cxl_anns_kx.Vmem.Batches.{concat, run_all, outcome, send_batches-Sized, length-map}
use cxl_anns_kx.HideFill.Jobs.{
  Ioctl, FillTask, requests, page_span, set_ready, copy_pages, device, prefetch_on, read_on,
  is_unread, fill_job,
}
use cxl_anns_kx.HideFill.Sources.{
  copied, copy_all, Reads, IsQuiet, IsFilledAt, IsMappedBy, AreApart, Keeps, Keeps-trans, IsGood,
  copy_pages-Keeps, copy_all-Keeps, All-left, requests-IsGood, requests-fill,
}

++-assoc : {A : Type 0} (xs ys zs : List A) → (xs ++ ys) ++ zs ≡ xs ++ (ys ++ zs)
++-assoc [] ys zs = refl
++-assoc (x ∷ xs) ys zs = ap (λ l. x ∷ l) (++-assoc xs ys zs)

append-empty : {A : Type 0} (xs : List A) → xs ++ [] ≡ xs
append-empty [] = refl
append-empty (x ∷ xs) = ap (λ l. x ∷ l) (append-empty xs)

module _ (disk : ℕ → ℕ) (page_bytes : ℕ) where
  copy_all-append :
      (xs ys : List Request) (m : Memory)
      → copy_all disk page_bytes (xs ++ ys) m
        ≡ copy_all disk page_bytes ys (copy_all disk page_bytes xs m)
  copy_all-append [] ys m = refl
  copy_all-append (x ∷ xs) ys m = copy_all-append xs ys (copied disk page_bytes x m)

  -- Batch after batch, a device that reads copies the pages in turn.
  run_all-copies :
      (ioctl : Ioctl) (batches : List (List Request)) (m : Memory)
      → Reads disk page_bytes ioctl
      → (sent : List Request) × (left : List Request) × (sent ++ left ≡ concat batches)
        × ((run_all ioctl batches m).1 ≡ copy_all disk page_bytes sent m)
        × ((run_all ioctl batches m).0 ≡ true → left ≡ [])
  unfolding run_all
  run_all-copies ioctl [] m reads = ([], [], refl, refl, λ ok. refl)
  run_all-copies ioctl (batch ∷ batches) m reads =
      let (sent, left, whole, state, done) = reads batch m in
      elim (Bool-cases (ioctl batch m).0) [
        | inl ok ↦
            let (more, rest, whole1, state1, done1) =
              run_all-copies ioctl batches (ioctl batch m).1 reads in
            let all : sent ≡ batch =
              sym (append-empty sent) ∙ ap (λ l. sent ++ l) (sym (done ok)) ∙ whole in
            simp ok (
              batch ++ more,
              rest,
              ++-assoc batch more rest ∙ ap (λ l. batch ++ l) whole1,
              state1
                  ∙ ap (λ x. copy_all disk page_bytes more x)
                      (state ∙ ap (λ l. copy_all disk page_bytes l m) all)
                  ∙ sym (copy_all-append batch more m),
              done1,
            )
        | inr fails ↦ simp fails (
          sent,
          left ++ concat batches,
          sym (++-assoc sent left (concat batches)) ∙ ap (λ l. l ++ concat batches) whole,
          state,
          λ ok. absurd (ground (arith, ok)),
        )
      ]

  run_all-quiet :
      (ioctl : Ioctl) (batches : List (List Request)) (m : Memory)
      → IsQuiet ioctl
      → (run_all ioctl batches m).1 ≡ m
  unfolding run_all
  run_all-quiet ioctl [] m quiet = refl
  run_all-quiet ioctl (batch ∷ batches) m quiet =
      let later = run_all-quiet ioctl batches (ioctl batch m).1 quiet in
      elim (Bool-cases (ioctl batch m).0) [
        | inl ok ↦ simp ok (later ∙ quiet batch m)
        | inr fails ↦ simp fails (quiet batch m)
      ]

module _ (t : FillTask) (apart : AreApart t) (disk : ℕ → ℕ) (read prefetch : Ioctl)
    (reads : Reads disk t.page_bytes read) (quiet : IsQuiet prefetch) where
  -- The pages are kept, and those of the job are there where the read says so.
  abbrev Fetches : ℕ → ℕ → Memory → Option ℕ × Memory → Type 0
  Fetches off n1 m (rd, m1) =
      Keeps t m m1 × (is_unread rd ≡ false → (i : ℕ) → off ≤ i → i < off + n1 → IsFilledAt t i m1)

  outcome-Fetches :
      (io : VmemIo) (off n1 total : ℕ) (m : Memory) (batches : List (List Request))
      → IsMappedBy t disk io
      → off + n1 ≤ length t.pages
      → concat batches ≡ map (request io) (requests t n1 off)
      → Fetches off n1 m (outcome total (run_all read batches m))
  outcome-Fetches io off n1 total m batches mapped fits all =
      let (sent, left, whole, state, done) =
        run_all-copies disk t.page_bytes read batches m reads in
      let good = requests-IsGood t apart disk io mapped n1 off fits in
      let some_good : All (IsGood t apart disk) sent =
        All-left t apart disk sent left
          (subst (λ l. All (IsGood t apart disk) l) (sym (whole ∙ all)) good) in
      let kept = copy_all-Keeps t apart disk sent m some_good in
      (
        subst (λ x. Keeps t m x) (sym state) kept,
        λ some_read i lo hi. elim (Bool-cases (run_all read batches m).0) [
          | inl ok ↦
              let every : sent ≡ map (request io) (requests t n1 off) =
                sym (append-empty sent) ∙ ap (λ l. sent ++ l) (sym (done ok)) ∙ whole ∙ all in
              let end : (run_all read batches m).1
                  ≡ copy_all disk t.page_bytes (map (request io) (requests t n1 off)) m =
                state ∙ ap (λ l. copy_all disk t.page_bytes l m) every in
              subst (λ x. IsFilledAt t i x) (sym end)
                (requests-fill t apart disk io mapped n1 off i m fits lo hi)
          | inr fails ↦ absurd (ground (arith, rw fails at some_read))
        ],
      )

  same_memory :
      (off n1 : ℕ) (m : Memory) (rd : Option ℕ) → is_unread rd ≡ true → Fetches off n1 m (rd, m)
  same_memory off n1 m rd none_read =
      ((λ a. refl, λ i lt f. f), λ h. absurd (ground (arith, none_read, h)))

  read-Fetches :
      (io : VmemIo) (off n1 : ℕ) (m : Memory)
      → IsMappedBy t disk io
      → off + n1 ≤ length t.pages
      → Fetches off n1 m (vmem_read_pages read io (requests t n1 off) m)
  unfolding vmem_read_pages
  read-Fetches io off n1 m mapped fits =
      let reqs = requests t n1 off in
      elim (Bool-cases (not io.prefetch || not (is_open io) || length reqs == 0)) [
        | inl idle ↦ simp idle (same_memory off n1 m (some 0) refl)
        | inr busy ↦
            let (batches, all, sized, e) =
              send_batches-Sized read (length reqs) (map (request io) reqs) 0 m
                (omega (arith, length-map (request io) reqs)) in
            simp busy (
              subst (λ r. Fetches off n1 m r) (sym e)
                (outcome-Fetches io off n1 _ m batches mapped fits all))
      ]

  read_on-Fetches :
      (vio : Option VmemIo) (off n1 : ℕ) (m : Memory)
      → ((io : VmemIo) → vio ≡ some io → IsMappedBy t disk io)
      → off + n1 ≤ length t.pages
      → Fetches off n1 m (read_on read vio (requests t n1 off) m)
  unfolding read_on
  read_on-Fetches none off n1 m mapped fits = same_memory off n1 m none refl
  read_on-Fetches (some io) off n1 m mapped fits = read-Fetches io off n1 m (mapped io refl) fits

  prefetch-quiet :
      (io : VmemIo) (pages : List ℕ) (m : Memory) → (vmem_prefetch_pages prefetch io pages m).1 ≡ m
  unfolding vmem_prefetch_pages
  prefetch-quiet io pages m =
      elim (Bool-cases (not io.prefetch || not (is_open io) || length pages == 0)) [
        | inl idle ↦ simp idle refl
        | inr busy ↦
            let reqs = map (λ p. request io (p, none)) pages in
            let (batches, all, sized, e) =
              send_batches-Sized prefetch (length pages) reqs 0 m
                (omega (arith, length-map (λ p. request io (p, none)) pages)) in
            simp busy (
              ap (λ (r : Option ℕ × Memory). r.1) e
              ∙ run_all-quiet disk t.page_bytes prefetch batches m quiet)
      ]

  prefetch_on-quiet :
      (vio : Option VmemIo) (pages : List ℕ) (m : Memory) → prefetch_on prefetch vio pages m ≡ m
  unfolding prefetch_on
  prefetch_on-quiet none pages m = refl
  prefetch_on-quiet (some io) pages m = prefetch-quiet io pages m

  -- What a job has done before it sets its flags.
  pub fill-Fetches :
      (off n1 : ℕ) (m : Memory)
      → t.only_pf ≡ false
      → ((io : VmemIo) → device t.vio ≡ some io → IsMappedBy t disk io)
      → off + n1 ≤ length t.pages
      → (m1 : Memory) × (fill_job read prefetch t off n1 m ≡ set_ready t n1 off m1)
        × Keeps t m m1
        × ((i : ℕ) → off ≤ i → i < off + n1 → IsFilledAt t i m1)
  unfolding fill_job
  fill-Fetches off n1 m real mapped fits =
      let (rd, tried) = read_on read (device t.vio) (requests t n1 off) m in
      let (kept, brought) = read_on-Fetches (device t.vio) off n1 m mapped fits in
      let again = prefetch_on prefetch (device t.vio) (page_span t n1 off) tried in
      let same : again ≡ tried = prefetch_on-quiet (device t.vio) (page_span t n1 off) tried in
      elim (Bool-cases (is_unread rd)) [
        | inl unread ↦
            let (kept1, brought1) = copy_pages-Keeps t apart n1 off again fits in
            let first : Keeps t m again = subst (λ x. Keeps t m x) (sym same) kept in
            (
              copy_pages t n1 off again,
              simp (real, unread) refl,
              Keeps-trans t m again (copy_pages t n1 off again) first kept1,
              brought1,
            )
        | inr has_read ↦ (tried, simp (real, has_read) refl, kept, brought has_read)
      ]
