-- ===== src/Ticks.antt =====
-- The clock of app/services/operating_clock.py: its markers and pins, which are settings
-- (app/services/settings_store.py), the light tick of a page, and the heavy tick of a phase.
pub mod Settings
pub mod Light
pub mod Heavy
