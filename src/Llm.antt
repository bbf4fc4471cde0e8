-- ===== src/Llm.antt =====
-- The choice of language models (app/services/llm_engine/).
pub mod Bindings
pub mod Failover
