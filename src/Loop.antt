-- ===== src/Loop.antt =====
-- app/services/closed_loop.py: one operating matter from its discovery to its result.
pub mod Thread
pub mod State
pub mod Rows
pub mod Execute
pub mod Observe
pub mod Ensure
pub mod Invariant
pub mod Consistent
pub mod Projection
