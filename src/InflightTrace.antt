-- ===== src/InflightTrace.antt =====
-- serving/inflight_trace.hpp: a trace of the fills and of the load of the software queue.
use cxl_anns_kx.Base.{
  ℕ, ◌≤◌, if◌then◌else◌, leb, Bool-cases, inl, inr, List, [], ◌∷◌, ◌++◌, max, arith,
}
use cxl_anns_kx.Base.Lists.{length, length-append}

pub record FillRec : Type 0 where
  pub qi : ℕ
  pub cand_n : ℕ
  pub page_n : ℕ
  pub miss_n : ℕ
  pub issue_n : ℕ
  pub extent_extra_n : ℕ
  pub fill_wait_ns : ℕ

pub record InflightSample : Type 0 where
  pub t_ns : ℕ
  pub sw_pages : ℕ
  pub sw_slots : ℕ
  pub q_wait : ℕ

pub record InflightTrace : Type 0 where
  pub max_samples : ℕ
  pub fills : List FillRec
  pub samples : List InflightSample

unfoldable note_query_fill : FillRec → InflightTrace → InflightTrace
note_query_fill r t = record t { fills = t.fills ++ r ∷ [] }

unfoldable sample : InflightSample → InflightTrace → InflightTrace
sample s t =
    if leb t.max_samples (length t.samples) then t else record t { samples = t.samples ++ s ∷ [] }

unfoldable peak_of : List InflightSample → ℕ → ℕ
peak_of [] p = p
peak_of (s ∷ rest) p = peak_of rest (max p s.sw_pages)

unfoldable peak_sw_pages : InflightTrace → ℕ
unfolding peak_of
peak_sw_pages t = peak_of t.samples 0

-- Taking a sample keeps a trace within its cap.
sample_capped :
    (s : InflightSample) (t : InflightTrace)
    → length t.samples ≤ t.max_samples
    → length (sample s t).samples ≤ t.max_samples
unfolding sample
sample_capped s t h = elim (Bool-cases (leb t.max_samples (length t.samples))) [
  | inl at_cap ↦ rw at_cap h
  | inr below ↦ rw below (ground (arith, length-append t.samples (s ∷ [])))
]
