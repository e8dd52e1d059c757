-- ===== src/JoiningPlan.antt =====
-- compositor/LayerToPlaneJoiningPlan.cpp: which layer is shown by which plane.
pub mod Fit
pub mod Steer
pub mod Create
pub mod Places
pub mod Seats
pub mod Picks
pub mod Made
pub mod Plans
pub mod Enough
pub mod Runs
mod Tests
