-- ===== src/Bundle/Buckets.antt =====
-- The bucket queue of tools/pack_layout_bundle.cpp: buckets[h][r] for h < 2 and r <= 32 is entry
-- 33 h + r, a list with the back of the vector first. cur_h and cur_r are kept with one added, so
-- that -1 is 0. The array is that of the source for rows of at most 32 words.
use cxl_anns_kx.Base.{
  ℕ, zero, suc, ◌+◌, ◌-◌, ◌*◌, if◌then◌else◌, ◌==◌, Bool, true, false, ◌&&◌, List, [], ◌∷◌,
}
use cxl_anns_kx.Base.Dict.{update}
use cxl_anns_kx.Reorder.{Order}

pub record Packing : Type 0 where
  pub order : Order
  pub left : ℕ → ℕ
  pub buckets : ℕ → List ℕ
  pub cur_h1 : ℕ
  pub cur_r1 : ℕ

abbrev pub kranks : ℕ
kranks = 33

abbrev pub hot_bit : (ℕ → Bool) → ℕ → ℕ
hot_bit is_hot u = if is_hot u then 1 else 0

unfoldable pub push_bucket : ℕ → ℕ → (ℕ → List ℕ) → ℕ → List ℕ
push_bucket i u b = update b i (u ∷ b i)

-- buckets[is_hot[u]][rem[u]].push_back(u), for each record.
unfoldable pub fill_buckets : (ℕ → Bool) → (ℕ → ℕ) → ℕ → ℕ → (ℕ → List ℕ) → ℕ → List ℕ
unfolding push_bucket
fill_buckets is_hot left zero u b = b
fill_buckets is_hot left (suc rounds) u b =
    fill_buckets is_hot left rounds (suc u) (push_bucket (hot_bit is_hot u * kranks + left u) u b)

abbrev pub is_empty : List ℕ → Bool
is_empty [] = true
is_empty (u ∷ us) = false

-- while (cur_r >= 0 && buckets[cur_h][cur_r].empty()) cur_r--
unfoldable pub seek_rank : (ℕ → List ℕ) → ℕ → ℕ → ℕ
seek_rank b h zero = zero
seek_rank b h (suc r) =
    let below = seek_rank b h r in if is_empty (b (h * kranks + r)) then below else suc r

-- while (cur_h >= 0): the cursor on the first bucket that is not empty.
unfoldable pub seek : (ℕ → List ℕ) → ℕ → ℕ → ℕ × ℕ
unfolding seek_rank
seek b zero r1 = (zero, r1)
seek b (suc h) r1 =
    let found = seek_rank b h r1 in
    let below = seek b h kranks in if found == 0 then below else (suc h, found)

-- The record that pop_best returns, UINT32_MAX, or that the rounds were not enough.
pub data Popped : Type 0 where
  best : ℕ → Popped
  nothing : Popped
  unfinished : Popped

abbrev back : List ℕ → ℕ
back [] = 0
back (u ∷ us) = u

abbrev pop_back : List ℕ → List ℕ
pop_back [] = []
pop_back (u ∷ us) = us

-- The record at the back of the bucket under the cursor, which is popped.
unfoldable pub take_back : ℕ → ℕ → Packing → ℕ × Packing
take_back h1 r1 s =
    let i = (h1 - 1) * kranks + (r1 - 1) in
    (
      back (s.buckets i),
      record s { buckets = update s.buckets i (pop_back (s.buckets i)); cur_h1 = h1; cur_r1 = r1 },
    )

unfoldable pub pop_best : (ℕ → Bool) → ℕ → Packing → Popped × Packing
unfolding seek take_back
pop_best is_hot zero s = (unfinished, s)
pop_best is_hot (suc rounds) s =
    let (h1, r1) = seek s.buckets s.cur_h1 s.cur_r1 in
    let (u, popped) = take_back h1 r1 s in
    let again = pop_best is_hot rounds popped in
    if h1 == 0
    then (nothing, record s { cur_h1 = h1; cur_r1 = r1 })
    else if hot_bit is_hot u == h1 - 1 && s.left u == r1 - 1
    then (best u, popped)
    else again
