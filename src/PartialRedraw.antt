-- ===== src/PartialRedraw.antt =====
-- compositor/PartialRedraw.cpp: redrawing only what changed, in a buffer drawn before. `Gather` and
-- `History` are the parts to draw and the damage that the clients sent; `Plans` decides on a drawing, and
-- `Slots` keeps what each buffer of an engine holds. Coordinates are integers without bound; what the
-- code computes of a member in floats is a parameter.
pub mod Gather
pub mod Covers
pub mod Near
pub mod Few
pub mod Parts
pub mod History
pub mod Plans
pub mod Slots
pub mod Shown
pub mod Painter
pub mod Redraws
pub mod Refines
pub mod Recorded
mod Turns
mod Tests
