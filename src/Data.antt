-- ===== src/Data.antt =====
-- Which figures of a store become facts: app/services/truth_resolution.py,
-- app/services/data_acquisition_pipeline.py and app/services/data_acquisition_ingest.py.
pub mod Sources
pub mod Acquisition
pub mod Reports
pub mod Ingest
