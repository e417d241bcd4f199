-- ===== src/Placement/Strides.antt =====
-- diskann_stride_for of serving/placement.hpp: the stride of a packed record.
use cxl_anns_kx.Base.{
  ℕ, zero, suc, ◌+◌, ◌*◌, ◌<◌, ◌≤◌, ◌≡◌, refl, ◌⊎◌, inl, inr, Bool-cases, ltb, ◌==◌, arith,
  if◌then◌else◌,
}
use cxl_anns_kx.Placement.{diskann_payload_bytes, double_until, diskann_stride_for}

-- With enough rounds the loop ends at or above `need`, and it never doubles beyond that.
double_until_lem :
    (fuel s need : ℕ)
    → 0 < s
    → need ≤ fuel + s
    → (need ≤ double_until fuel s need)
      × ((double_until fuel s need ≡ s) ⊎ (double_until fuel s need < need * 2))
unfolding double_until
double_until_lem zero s need pos enough = (omega arith, inl refl)
double_until_lem (suc fuel) s need pos enough = elim (Bool-cases (ltb s need)) [
  | inl more ↦ rw more (
      let (low, high) = double_until_lem fuel (s * 2) need (omega arith) (omega arith) in
      (low, inr (ground arith)))
  | inr done ↦ rw done (ground arith, inl refl)
]

abbrev wanted : ℕ → ℕ
wanted want = if want == 0 then 4096 else want

-- The stride holds the record. It is the wanted one, 4096 where that is 0, or less than twice
-- the record.
pub diskann_stride_for_lem :
    (dim vec_bytes degree want : ℕ)
    → let need = diskann_payload_bytes dim vec_bytes degree in
      let stride = diskann_stride_for dim vec_bytes degree want in
      (need ≤ stride) × ((stride ≡ (if want == 0 then 4096 else want)) ⊎ (stride < need * 2))
unfolding diskann_stride_for
diskann_stride_for_lem dim vec_bytes degree want =
    double_until_lem (diskann_payload_bytes dim vec_bytes degree) (wanted want)
      (diskann_payload_bytes dim vec_bytes degree) (ground arith) (omega arith)
