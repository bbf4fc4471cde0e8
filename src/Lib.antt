-- ===== src/Lib.antt =====
-- MealKey turns a store's business data into recommendations, carries them out on the menu or hands
-- them to the owner, and follows each one until its result is known. This library models the part
-- that decides and acts: what may change, who must agree, and what happens to a matter afterwards.
--
-- The parts, with the file that models each (paths of code from the repository's root):
-- - Models: the rows of app/models/ohre.py and app/models/entities.py. `Db` holds the menu tables; a
--   query is a search of the list of rows, and an assignment to a row is `set_active`,
--   `set_version` or `add_version`.
-- - Plan: app/services/execution_plan.py. `build_change_plan` reads the database and proposes field
--   changes; Plan/Apply has `apply_plan`, and Plan/Apply/Undo has `rollback_recommendation`. What
--   `content_json` keeps between the two is `Content.domain_execution`.
-- - Actions: app/services/action_registry.py (Actions/Registry, one constant for each entry),
--   action_capability.py (Actions/Capability), recommendation_executor.py (Actions/Executor) and
--   action_pipeline.py (Actions/Pipeline), all under app/services. The pipeline calls the executor,
--   the executor builds and applies a plan, and the pipeline commits the result. The guard on
--   `Recommendation.status` is `assign_status`, which returns `none` where the listener raises.
-- - Policy: app/services/execution_policy.py. `core_arbitrate` and its four tests are in Policy, the
--   reading of the strategy memory in Policy/Memory, `auto_execute_recommendations` in
--   Policy/AutoPilot. Policy/Lessons is app/services/strategy_memory.py and
--   app/services/memory_lifecycle.py: how lessons are written and how they age.
-- - Loop: app/services/closed_loop.py. Loop/Thread has the states and the history of a pack,
--   Loop/State the rows and queries, Loop/Ensure `ensure_now_loop`, Loop/Execute what the owner does
--   with a matter, Loop/Observe the end of the observation window, Loop/Projection the three columns
--   of the workspace. Loop/Consistent puts the operations together as events.
-- - Data: app/services/truth_resolution.py (Data/Sources), data_acquisition_pipeline.py
--   (Data/Acquisition, its review of a trial in Data/Acquisition/Review) and
--   data_acquisition_ingest.py (Data/Reports, Data/Ingest), all under app/services. The ingestion reads
--   the funnel and the reports and writes the funnel, the run and its rows.
-- - Flow: app/services/operating_rhythm.py (Flow/Rhythm) and app/services/decision_flow.py
--   (Flow/Phases the table of phases, Flow/Cards the tests on a card, Flow/Pick the choice of one,
--   Flow/Now the step of the moment, Flow/Project the whole flow). `flow_at` is
--   `build_decision_flow` once the texts of the rhythm are read as hours.
-- - Threads: app/services/thread_engine.py. Threads/Sync is `sync_threads_from_agents`, a thread for
--   each goal; Threads/Mirror is `sync_loop_thread`, which writes a matter of Loop into a thread.
-- - Notify: app/services/notification_service.py, the notices to the owner with their digests (texts
--   in Notify/Merge), and Notify/Inbox, where they are read and released; Notify/Inbox/Rounds puts a
--   day's notices, flushes and readings together.
-- - Ticks: app/services/operating_clock.py. Ticks/Settings has its markers and pins
--   (app/services/settings_store.py), Ticks/Light the light tick of a page, which calls
--   Policy/AutoPilot, Notify and the pin on the flow of Flow, and Ticks/Heavy the tick of a phase.
-- - Poie: app/services/poie/arbitrate.py, which turns candidates into cards of the queue that Flow
--   reads.
-- - Org: app/services/tenant_service.py (Org/Tenants) and app/services/org_tree.py (Org/Tree): which
--   stores and brands a merchant has, and which tenants reach a store.
-- - Mos: app/services/mos_engine.py (Mos/Mode) and app/services/profit_gate.py (Mos/Gate). The gate
--   asks the engine which actions are allowed in safe mode.
-- - Platform: app/services/connector_mode.py (Platform/Modes) and app/services/connect_codes.py
--   (Platform/Codes).
-- - Commercial: policy.py, pricing.py, partner.py, and model_router.py with the budget of
--   ai_ledger.py, all under app/services/commercial.
-- - Llm: bindings.py and failover.py of app/services/llm_engine.
-- - Base: texts, numbers and lists that the parts share. Examples: runs on small databases.
--
-- An exception is a constructor of a result type, or `none`. Times are seconds, prices cents, ids
-- numbers that `next_id` hands out; confidences and rates are millionths, hundredths, percent or
-- fractions, as each file says. Recursion is on a list, but for the loop that draws a connection
-- code: it has fuel, one unit for each draw, and ends within the fuel once a free code is drawn. A
-- change of the database is a function to a new database; one session at a time is modelled, as the
-- code has no concurrency of its own.
--
-- Parameters: `platform` is the writeback of app/services/platform_write.py, which talks to a
-- delivery platform, and `Evaluators` holds the two evaluations of a window
-- (app/services/store_ops.py, app/services/experiment_attribution.py), which read business data.
-- `parse_day` is Python's reading of a date, `round` its rounding (`IsRounding` says to a nearest
-- number, never falling), `draws` the random texts of a connection code, `env` the environment with
-- the settings, and `run` the call of a language model or the analysis of a phase.
--
-- Not modelled: the prose of details, the audit of day 0 (app/services/seed_store.py), the execution
-- pack of a card, the analysis of a phase (`_run_clock_phase` of app/jobs/tasks.py, the parameter
-- `run` of Ticks/Heavy), the sensing, diagnosis and agent services, the calls of language models and
-- platforms, the HTTP routes, and the web page.
pub mod Base
pub mod Models
pub mod Plan
pub mod Actions
pub mod Policy
pub mod Commercial
pub mod Data
pub mod Mos
pub mod Llm
pub mod Platform
pub mod Flow
pub mod Notify
pub mod Loop
pub mod Threads
pub mod Ticks
pub mod Poie
pub mod Org
pub mod Examples
