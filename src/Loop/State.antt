-- ===== src/Loop/State.antt =====
-- The rows of the closed loop (app/models/closed_loop.py, app/models/ohre.py, app/models/thread.py) and
-- the queries of app/services/closed_loop.py. A table lists its rows in the order of their creation.
pub mod Lookup
use meal_key_ecosystem.Base.{
  ℕ, String, Bool, true, false, ◌&&◌, ◌||◌, Option, none, some, List, ◌==◌, eq_nat, first,
  last_such, update, upper, if◌then◌else◌,
}
use meal_key_ecosystem.Models.{RowId, Time, Recommendation, Db}
use meal_key_ecosystem.Loop.Thread.{Pack, ThreadState, requires_approval, is_canonical, Lift}

-- `ClosedLoopItem.status`
pub data LoopStatus : Type 0 where
  at_now was_executed not_executed in_observation result_ready closed : LoopStatus

-- `ClosedLoopItem.result` and `Experiment.result`
pub data LoopResult : Type 0 where
  pending positive negative neutral unknown : LoopResult

pub record Item : Type 0 where
  pub id : RowId
  pub store_id : RowId
  pub fingerprint : String
  pub source_card_id : String
  pub from_ingest : Bool  -- `source_card_id` starts with `ingest:`
  pub title : String
  pub finding : String
  pub judgment : String
  pub action_type : String
  pub object_name : String
  pub pack : Pack
  pub status : LoopStatus
  pub executed_at : Option Time
  pub executor : String
  pub execution_mode : String
  pub due_at : Option Time
  pub has_evidence : Bool  -- a row of `evidence_json` has a note or a picture
  pub observe_hours : ℕ
  pub observe_until : Option Time
  pub metric_label : String  -- `success_metric`, as `humanize_operator_text` writes it
  pub success_target : String
  pub guardrail : String
  pub recommendation_id : Option RowId
  pub experiment_id : Option RowId
  pub result : LoopResult
  pub notes : String

pub record Experiment : Type 0 where
  pub id : RowId
  pub recommendation_id : RowId
  pub store_id : RowId
  pub item_id : Option RowId
  pub observe_from : ℕ  -- a day
  pub observe_to : ℕ
  pub result : LoopResult
  pub executor : String
  pub lift_pct : Option Lift

pub record LoopDb : Type 0 where
  pub menu : Db
  pub loops : List Item
  pub recs : List Recommendation
  pub exps : List Experiment
  pub next_id : RowId

unfoldable pub is_open : LoopStatus → Bool
is_open closed = false
is_open _ = true

-- `BLOCKING_NOW`
unfoldable pub is_blocking : LoopStatus → Bool
is_blocking was_executed = true
is_blocking in_observation = true
is_blocking result_ready = true
is_blocking _ = false

-- `WAITING`
unfoldable pub is_waiting : LoopStatus → Bool
is_waiting was_executed = true
is_waiting in_observation = true
is_waiting _ = false

unfoldable pub is_now : LoopStatus → Bool
is_now at_now = true
is_now _ = false

-- `get_loop`: the row with the id, if it is the store's
unfoldable pub get_loop : LoopDb → RowId → RowId → Option Item
get_loop db store i = elim (first (λ x. eq_nat x.id i) db.loops) [
  | none ↦ none
  | some x ↦ if eq_nat x.store_id store then some x else none
]

-- the row of an object that the session flushes
unfoldable pub put_loop : LoopDb → Item → LoopDb
put_loop db x = record db { loops = update (λ y. eq_nat y.id x.id) (λ _. x) db.loops }

unfoldable pub latest_blocking_loop : LoopDb → RowId → Option Item
latest_blocking_loop db store =
    last_such (λ x. eq_nat x.store_id store && is_blocking x.status) db.loops

unfoldable pub latest_ingest_now : LoopDb → RowId → Option Item
latest_ingest_now db store =
    last_such (λ x. eq_nat x.store_id store && is_now x.status && x.from_ingest) db.loops

unfoldable pub latest_open_loop : LoopDb → RowId → Option Item
latest_open_loop db store = last_such (λ x. eq_nat x.store_id store && is_open x.status) db.loops

-- `is_human_task` of app/services/store_ops.py
unfoldable pub is_human_task : Item → Bool
is_human_task x =
    upper x.execution_mode == "HUMAN_TASK" || upper x.pack.execution_mode == "HUMAN_TASK"

no_effect_result : LoopResult → Bool
no_effect_result negative = true
no_effect_result neutral = true
no_effect_result _ = false

-- the state in which a result is filed
unfoldable pub filed_state : LoopResult → ThreadState
unfolding no_effect_result
filed_state r = if no_effect_result r then ThreadState.no_effect else ThreadState.completed

status_state : LoopStatus → LoopResult → Pack → ThreadState
unfolding filed_state
status_state not_executed r p = ThreadState.cancelled
status_state was_executed r p = ThreadState.observing
status_state in_observation r p = ThreadState.waiting_result
status_state result_ready r p = filed_state r
status_state closed r p = filed_state r
status_state at_now r p =
    if requires_approval p then ThreadState.need_approval else ThreadState.ready_to_execute

-- `_canonical_status`: the pack's state, or the state that the row's status stands for
unfoldable pub canonical_status : Item → ThreadState
unfolding status_state
canonical_status x =
    let fallback = status_state x.status x.result x.pack in
    elim x.pack.thread_status [ none ↦ fallback | some s ↦ if is_canonical s then s else fallback ]
