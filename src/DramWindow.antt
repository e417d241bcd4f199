-- ===== src/DramWindow.antt =====
-- serving/dram_window.hpp: the window of SSD pages in CXL-DRAM. Its state and its operations are in
-- `State`, `Frames` (eviction), `Fills`, `Promote` and `Reads`; the laws are in
-- the other children. Every operation runs under the window's mutex, so an operation is a step.
pub mod State
pub mod Frames
pub mod Fills
pub mod Promote
pub mod Reads
pub mod Coherence
pub mod Residency
pub mod Copies
pub mod Budgets
pub mod Faults
pub mod Flushing
pub mod FillLaws
pub mod Start
pub mod Installs
pub mod Through
