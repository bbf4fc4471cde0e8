-- ===== src/Platform.antt =====
-- The connections of a store to the delivery platforms.
pub mod Modes
pub mod Codes
