-- ===== src/Commercial.antt =====
-- Prices, commissions and the budget of the language models (app/services/commercial/).
pub mod Policy
pub mod Pricing
pub mod Partner
pub mod Router
