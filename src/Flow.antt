-- ===== src/Flow.antt =====
-- The flow of decisions through a day: what the owner is shown now, next and later.
pub mod Rhythm
pub mod Phases
pub mod Cards
pub mod Pick
pub mod Now
pub mod Project
