-- ===== src/DramWindow/Start.antt =====
-- The window that init of serving/dram_window.hpp leaves behind.
use cxl_anns_kx.Base.{ℕ, ◌*◌, ◌/◌, ◌<◌, ◌≡◌, refl, Option, some, arith, []}
use cxl_anns_kx.Base.Words.{u64_mod}
use cxl_anns_kx.Base.Dict.{lookup}
use cxl_anns_kx.Metrics.{Metrics}
use cxl_anns_kx.DramWindow.State.{Window, init}
use cxl_anns_kx.DramWindow.Residency.{IsSound, HasRoom}
use cxl_anns_kx.DramWindow.Budgets.{IsWithin}

-- Whatever the window was before, it is sound after init, and within both pin budgets.
pub init-IsSound :
    (ssd : ℕ → ℕ) (w : Window) (bytes : ℕ) (m : Option Metrics) (page : ℕ)
    → IsSound ssd (init w bytes m page).frames × IsWithin (init w bytes m page)
unfolding init
init-IsSound ssd w bytes m page = (
  record {
    consistent = record {
      in_range = λ p fr h. unmapped_yet p fr h;
      keyed = λ p fr h. unmapped_yet p fr h;
      settled = λ p fr h. unmapped_yet p fr h;
      real = λ p fr h. unmapped_yet p fr h;
      mapped = λ fr lt idle key. absurd (ground (arith, key));
    };
    coherent = λ p fr k h lt. unmapped_yet p fr h;
  },
  record { hard = omega arith; soft_ok = omega arith },
)
  where
    unmapped_yet : {A : Type 0} (p fr : ℕ) → lookup p [] ≡ some fr → A
    unmapped_yet p fr h = unfold lookup in absurd (ground arith)

-- A window of at least one frame has room after init.
pub init-HasRoom :
    (w : Window) (bytes : ℕ) (m : Option Metrics) (page : ℕ)
    → 0 < bytes / page
    → bytes / page * 2 < u64_mod
    → HasRoom (init w bytes m page)
unfolding init
init-HasRoom w bytes m page pos few = record {
  spare = 0;
  spare_low = pos;
  spare_free = refl;
  no_wrap = omega (arith, few);
}
