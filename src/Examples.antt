-- ===== src/Examples.antt =====
-- Runs of the theorems on small databases.
pub mod Menu
pub mod Approval
pub mod Matters
pub mod Data
pub mod Day
pub mod Commerce
pub mod Phone
pub mod Models
pub mod Start
pub mod Experience
pub mod Notices
pub mod Stories
pub mod Clockwork
pub mod Company
