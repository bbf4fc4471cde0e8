-- ===== src/Mos.antt =====
-- What the system may do before it knows enough of a store: the minimum operating state and the profit gate.
pub mod Mode
pub mod Gate
