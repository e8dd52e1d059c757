-- ===== src/CompositionPlanner.antt =====
-- compositor/GenericCompositionPlanner.cpp and compositor/CompositionPlanner.cpp: which layers of a frame
-- the hardware shows, and which are left to the client.
pub mod Layers
pub mod Ranges
pub mod Validate
pub mod Scans
pub mod Windows
pub mod Budgets
pub mod Extra
pub mod Fits
pub mod Kept
mod Tests
