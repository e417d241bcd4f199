-- ===== src/PromotePipe/Requests.antt =====
-- The runs of serving/promote_pipe.hpp: the search thread and the workers take steps in any order. The
-- requests that were accepted are noted beside the pipe.
use cxl_anns_kx.Base.{
  ℕ, zero, suc, ◌+◌, ◌<◌, ◌≡◌, ◌∙◌, refl, ap, sym, true, false, Bool-cases, inl, inr, subst, ◌==◌,
  ◌||◌, not, List, [], ◌∷◌, Option, none, some, Option-cases, arith, eq-or-ne, leb,
}
use cxl_anns_kx.Base.Lists.{contains}
use cxl_anns_kx.Base.Dict.{update}
use cxl_anns_kx.Base.Search.{find_slot, bytes_at}
use cxl_anns_kx.PromotePipe.{
  St, Slot, Pipe, is_free, is_done, start, enqueue, try_submit, release, take_job, finish, copied,
  done_slots, poll_done,
}
use cxl_anns_kx.PromotePipe.Runs.{
  Inv, is_queued, start-Inv, take_job-cases, submit-cases, finish-Inv, release-Inv,
}

-- What try_submit is called with.
pub record Request : Type 0 where
  pub id : ℕ
  pub ptr : Option ℕ
  pub len : ℕ

-- The bytes of the SSD that a request names.
abbrev pub wanted : (ℕ → ℕ) → Request → List ℕ
wanted ssd r = elim r.ptr [ none ↦ [] | some at ↦ bytes_at ssd at r.len ]

-- A pipe, and the last request that each slot was returned for.
pub record Run : Type 0 where
  pub pipe : Pipe
  pub asked : ℕ → Request

abbrev noted : Option ℕ → Request → (ℕ → Request) → ℕ → Request
noted none r asked = asked
noted (some i) r asked = update asked i r

abbrev pub submitted : Request → Run → Run
submitted r x = record {
  pipe = (try_submit r.id r.ptr r.len x.pipe).1;
  asked = noted (try_submit r.id r.ptr r.len x.pipe).0 r x.asked;
}

pub data Step (ssd : ℕ → ℕ) : Run → Run → Type 0 where
  submits : (x : Run) (r : Request) → Step ssd x (submitted r x)
  takes : (x : Run) → Step ssd x (record x { pipe = take_job x.pipe })
  finishes :
      (x : Run) (i : ℕ)
      → contains i x.pipe.taken ≡ true
      → Step ssd x (record x { pipe = finish ssd i x.pipe })
  releases :
      (x : Run) (i : ℕ)
      → i < x.pipe.width
      → is_done (x.pipe.slots i).state ≡ true
      → Step ssd x (record x { pipe = release i x.pipe })

pub data Reach (ssd : ℕ → ℕ) (x : Run) : Run → Type 0 where
  here : Reach ssd x x
  next : {y z : Run} → Reach ssd x y → Step ssd y z → Reach ssd x z

-- A slot in use has the id, the pointer and the length of its request; one that is done holds the
-- bytes of the request.
pub record IsServed (ssd : ℕ → ℕ) (r : Request) (s : Slot) : Type 0 where
  pub id : is_free s.state ≡ false → s.id ≡ r.id
  pub ptr : is_free s.state ≡ false → s.ssd_ptr ≡ r.ptr
  pub len : is_free s.state ≡ false → s.len ≡ r.len
  pub bytes : is_done s.state ≡ true → s.host ≡ wanted ssd r

pub record Sound (ssd : ℕ → ℕ) (x : Run) : Type 0 where
  pub inv : Inv ssd x.pipe
  pub served : (i : ℕ) → i < x.pipe.width → IsServed ssd (x.asked i) (x.pipe.slots i)

queued_busy : (s : St) → is_queued s ≡ true → is_free s ≡ false
queued_busy St.queued h = refl
queued_busy St.free h = absurd (ground (arith, h))
queued_busy St.done h = absurd (ground (arith, h))

done_busy : (s : St) → is_done s ≡ true → is_free s ≡ false
done_busy St.done h = refl
done_busy St.free h = absurd (ground (arith, h))
done_busy St.queued h = absurd (ground (arith, h))

module _ (ssd : ℕ → ℕ) (x : Run) (v : Sound ssd x) where
  abbrev AllServed : Option ℕ × Pipe → Request → Type 0
  AllServed (o, q) r = (j : ℕ) → j < q.width → IsServed ssd (noted o r x.asked j) (q.slots j)

  enqueue-IsServed :
      (r : Request) (ptr i : ℕ)
      → r.ptr ≡ some ptr
      → AllServed (some i, enqueue r.id ptr r.len i x.pipe) r
  unfolding enqueue
  enqueue-IsServed r ptr i e j lt = elim (eq-or-ne j i) [
    | inr other ↦ rw other (v.served j lt)
    | inl same ↦
        let hit : (j == i) ≡ true = ground arith in
        rw hit (record {
          id = λ busy. refl;
          ptr = λ busy. sym e;
          len = λ busy. refl;
          bytes = λ done. absurd (ground (arith, done));
        })
  ]

  submit-IsServed :
      (r : Request) (o : Option ℕ) → r.ptr ≡ o → AllServed (try_submit r.id o r.len x.pipe) r
  unfolding try_submit
  submit-IsServed r none e = v.served
  submit-IsServed r (some ptr) e =
      elim (Bool-cases (not x.pipe.started || r.len == 0 || leb x.pipe.width x.pipe.inflight)) [
        | inl refused ↦ rw refused v.served
        | inr open_now ↦
            elim (Option-cases (find_slot (λ i. is_free (x.pipe.slots i).state) x.pipe.width 0)) [
              | inl full ↦ rw (open_now, full) v.served
              | inr (i, found) ↦ rw (open_now, found) (enqueue-IsServed r ptr i e)
            ]
      ]

  take-IsServed :
      (i : ℕ) → i < (take_job x.pipe).width → IsServed ssd (x.asked i) ((take_job x.pipe).slots i)
  unfolding take_job
  take-IsServed = taking x.pipe.job_q refl
    where
      taking :
          (js : List ℕ)
          → x.pipe.job_q ≡ js
          → (i : ℕ) → i < (take_job x.pipe).width
          → IsServed ssd (x.asked i) ((take_job x.pipe).slots i)
      taking [] e = rw (e, take_job) v.served
      taking (j ∷ js) e = rw (e, take_job) v.served

  copied-wanted :
      (r : Request) (s : Slot) → s.ssd_ptr ≡ r.ptr → s.len ≡ r.len → copied ssd s ≡ wanted ssd r
  copied-wanted r s ptr len =
      ap (λ o. elim o as (λ z. List ℕ) [ none ↦ [] | some at ↦ bytes_at ssd at s.len ]) ptr
      ∙ ap (λ n. elim r.ptr as (λ z. List ℕ) [ none ↦ [] | some at ↦ bytes_at ssd at n ]) len

  finish-IsServed :
      (i : ℕ)
      → contains i x.pipe.taken ≡ true
      → (j : ℕ) → j < x.pipe.width
      → IsServed ssd (x.asked j) ((finish ssd i x.pipe).slots j)
  unfolding finish
  finish-IsServed i mine j lt = elim (eq-or-ne j i) [
    | inr other ↦ rw other (v.served j lt)
    | inl same ↦
        let hit : (j == i) ≡ true = ground arith in
        let at : (k : ℕ) → j ≡ k → IsServed ssd (x.asked j) (x.pipe.slots k) =
          λ k e. subst (λ y. IsServed ssd (x.asked j) (x.pipe.slots y)) e (v.served j lt) in
        let old = at i same in
        let there = v.inv.owned i (ground arith) in
        let busy = queued_busy (x.pipe.slots i).state (ground arith) in
        rw hit (record {
          id = λ b. old.id busy;
          ptr = λ b. old.ptr busy;
          len = λ b. old.len busy;
          bytes = λ d. copied-wanted (x.asked j) (x.pipe.slots i) (old.ptr busy) (old.len busy);
        })
  ]

  release-IsServed :
      (i j : ℕ) → j < x.pipe.width → IsServed ssd (x.asked j) ((release i x.pipe).slots j)
  unfolding release
  release-IsServed i j lt = elim (eq-or-ne j i) [
    | inr other ↦ rw other (v.served j lt)
    | inl same ↦
        let hit : (j == i) ≡ true = ground arith in
        rw hit (record {
          id = λ busy. absurd (ground (arith, busy));
          ptr = λ busy. absurd (ground (arith, busy));
          len = λ busy. absurd (ground (arith, busy));
          bytes = λ done. absurd (ground (arith, done));
        })
  ]

-- Every step of the search thread or of a worker keeps the invariant, where the search thread
-- releases only a slot that is done: inflight counts the slots in use, each queued slot is one
-- job of the queue or of a worker and no other slot is, a slot in use has the id, the pointer
-- and the length that try_submit was last called with when it returned this slot, and a slot
-- that is done holds the bytes of the SSD that this call named.
pub Step-Sound : (ssd : ℕ → ℕ) (x y : Run) → Step ssd x y → Sound ssd x → Sound ssd y
unfolding finish release
Step-Sound ssd x y (submits _ r) v = record {
  inv = submit-cases ssd x.pipe r.id r.ptr r.len v.inv;
  served = submit-IsServed ssd x v r r.ptr refl;
}
Step-Sound ssd x y (takes _) v = record {
  inv = take_job-cases ssd x.pipe x.pipe.job_q refl v.inv;
  served = take-IsServed ssd x v;
}
Step-Sound ssd x y (finishes _ i mine) v = record {
  inv = finish-Inv ssd x.pipe i v.inv mine;
  served = finish-IsServed ssd x v i mine;
}
Step-Sound ssd x y (releases _ i lt ready) v = record {
  inv = release-Inv ssd x.pipe i v.inv lt ready;
  served = release-IsServed ssd x v i;
}

pub Reach-Sound : (ssd : ℕ → ℕ) {x y : Run} → Sound ssd x → Reach ssd x y → Sound ssd y
Reach-Sound ssd v here = v
Reach-Sound ssd v (next r st) = Step-Sound ssd _ _ st (Reach-Sound ssd v r)

-- A pipe that starts, whatever was asked of it before.
abbrev pub started : ℕ → Pipe → (ℕ → Request) → Run
started width p asked = record { pipe = start width p; asked = asked }

start_idle :
    (width : ℕ) (p : Pipe) (i : ℕ)
    → p.started ≡ false
    → i < (start width p).width
    → is_free ((start width p).slots i).state ≡ true
unfolding start
start_idle width p i off = rw off (λ lt. ground (arith, lt))

pub started-Sound :
    (ssd : ℕ → ℕ) (width : ℕ) (p : Pipe) (asked : ℕ → Request)
    → p.started ≡ false
    → Sound ssd (started width p asked)
started-Sound ssd width p asked off =
    let inv = start-Inv ssd width p off in
    record { inv = inv; served = λ i lt. idle i (start_idle width p i off lt) }
  where
    idle :
        (i : ℕ)
        → is_free ((start width p).slots i).state ≡ true
        → IsServed ssd (asked i) ((start width p).slots i)
    idle i free = record {
      id = λ busy. absurd (ground (arith, free, busy));
      ptr = λ busy. absurd (ground (arith, free, busy));
      len = λ busy. absurd (ground (arith, free, busy));
      bytes = λ done. absurd (ground (arith, free, done_busy ((start width p).slots i).state done));
    }

done_slots_lem :
    (slots : ℕ → Slot) (rounds i0 i : ℕ)
    → contains i (done_slots slots rounds i0) ≡ true
    → (i < i0 + rounds) × (is_done (slots i).state ≡ true)
unfolding done_slots contains
done_slots_lem slots zero i0 i h = absurd (ground arith)
done_slots_lem slots (suc rounds) i0 i h =
    let same : i ≡ i0 → is_done (slots i).state ≡ is_done (slots i0).state =
      λ e. ap (λ k. is_done (slots k).state) e in
    elim (Bool-cases (contains i (done_slots slots rounds (suc i0)))) [
      | inl later ↦
          let (lt, done) = done_slots_lem slots rounds (suc i0) i later in (omega arith, done)
      | inr other ↦ (ground arith, ground arith)
    ]

-- However the threads interleave from the start of a pipe that was not started, where the
-- search thread releases only a slot that is done: each slot that poll_done reports holds the
-- bytes of the SSD that try_submit was last called with when it returned this slot, with the id
-- and the length of that call.
pub poll_done_filled :
    (ssd : ℕ → ℕ) (width : ℕ) (p : Pipe) (asked : ℕ → Request) (x : Run) (i : ℕ)
    → p.started ≡ false
    → Reach ssd (started width p asked) x
    → contains i (poll_done x.pipe) ≡ true
    → ((x.pipe.slots i).host ≡ wanted ssd (x.asked i))
      × ((x.pipe.slots i).id ≡ (x.asked i).id)
      × ((x.pipe.slots i).len ≡ (x.asked i).len)
unfolding poll_done
poll_done_filled ssd width p asked x i off r h =
    let v = Reach-Sound ssd (started-Sound ssd width p asked off) r in
    let (lt, done) = done_slots_lem x.pipe.slots x.pipe.width 0 i h in
    let s = v.served i (omega arith) in
    let busy = done_busy (x.pipe.slots i).state done in (s.bytes done, s.id busy, s.len busy)
