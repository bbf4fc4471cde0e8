-- ===== src/Actions.antt =====
-- Actions: the registry of action types, what may be executed, and the pipeline that executes.
pub mod Registry
pub mod Capability
pub mod Executor
pub mod Pipeline
