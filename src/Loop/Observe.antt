-- ===== src/Loop/Observe.antt =====
-- The end of the observation window, of app/services/closed_loop.py: `_close_observation` and
-- `tick_observing_loops`. The two evaluations (app/services/store_ops.py and
-- app/services/experiment_attribution.py) are parameters: they read the business data of the store.
-- `now` is the clock of the tick and of the rows that it writes.
-- The notes are their fixed texts, without the metric's name and value. Strategy memories, result cards and notifications, which the loop does not read, are left out.
pub mod Window
pub mod Keeps
use meal_key_ecosystem.Loop.Thread.{append_thread_state, ThreadState, Lift}
use meal_key_ecosystem.Base.{
  ℕ, List, [], ◌∷◌, leb, update, keep, Option, Bool, if◌then◌else◌, String, eq_nat, length, true,
  some, ◌==◌, or_text, ◌&&◌, is_some, first, none, or_else, false,
}
use meal_key_ecosystem.Models.{RowId, Time}
use meal_key_ecosystem.Loop.State.{
  LoopDb, Item, Experiment, LoopResult, result_ready, unknown, pending, put_loop, is_waiting,
  is_human_task,
}

-- what `verify_ops_result` returns
pub record Verdict : Type 0 where
  pub result : LoopResult
  pub summary : String
  pub lift_pct : Option Lift

-- what `evaluate_experiment` does to the experiment, and what it returns
pub record Evaluation : Type 0 where
  pub experiment : Experiment
  pub result : Option LoopResult
  pub lift_pct : Option Lift
  pub summary : String

-- `none` is an exception
pub record Evaluators : Type 0 where
  pub verify_ops_result : LoopDb → Item → Verdict
  pub evaluate_experiment : LoopDb → Experiment → Option Evaluation

is_pending : LoopResult → Bool
is_pending pending = true
is_pending _ = false

find_experiment : LoopDb → Option RowId → Option Experiment
find_experiment db none = none
find_experiment db (some i) = first (λ (e : Experiment). eq_nat e.id i) db.exps

unfoldable put_experiment : LoopDb → Experiment → LoopDb
put_experiment db e = record db {
  exps = update (λ (y : Experiment). eq_nat y.id e.id) (λ _. e) db.exps;
}

-- a store's own task
judged_task : LoopDb → Verdict → Option Experiment → LoopDb
unfolding put_experiment
judged_task db v none = db
judged_task db v (some e) =
    let lift = if is_some v.lift_pct then v.lift_pct else e.lift_pct in
    put_experiment db (record e { result = v.result; lift_pct = lift })

-- the evaluation of a pending experiment
evaluated : LoopDb → Experiment → String → Option Evaluation → LoopDb × Verdict
unfolding put_experiment
evaluated db e label none = (
  put_experiment db (record e { result = unknown }),
  record {
    result = unknown;
    summary = "观察窗已到，但自动归因失败。已标记 FAILED_VERIFICATION，请人工核对平台数据。";
    lift_pct = none;
  },
)
evaluated db e label (some v) = (
  put_experiment db v.experiment,
  record {
    result = or_else v.result v.experiment.result;
    summary = or_text v.summary label;
    lift_pct = v.lift_pct;
  },
)

attributed : Evaluators → LoopDb → String → Option Experiment → LoopDb × Verdict
unfolding is_pending evaluated
attributed env db label none = (db, record { result = unknown; summary = label; lift_pct = none })
attributed env db label (some e) =
    if is_pending e.result
    then evaluated db e label (env.evaluate_experiment db e)
    else (db, record { result = e.result; summary = label; lift_pct = e.lift_pct })

pub judge : Evaluators → LoopDb → Item → LoopDb × Verdict
unfolding judged_task attributed find_experiment
judge env db x =
    let label : String = "观察窗已到。请对照平台数据确认这次有没有效。" in
    if is_human_task x
    then (let v = env.verify_ops_result db x in
        (judged_task db v (find_experiment db x.experiment_id), v))
    else attributed env db label (find_experiment db x.experiment_id)

-- an appeal that the platform holds has no result yet
appeal_pending : Item → Bool
appeal_pending x =
    x.action_type == "appeal_pack" && elim x.pack.writeback [ none ↦ false | some w ↦ w.ok ]

-- the columns that the end of the window writes
pub closed_item : Item → Verdict → Time → Item
unfolding appeal_pending
closed_item x v now =
    let waiting =
      append_thread_state x.pack ThreadState.waiting_result now "观察窗已结束，等待老板确认结果。"
        (or_text x.executor "OWNER") in
    record x {
      status = result_ready;
      result = if appeal_pending x then unknown else v.result;
      notes = if appeal_pending x then "平台最终处理结果还没自动接入，先记为待继续跟进。" else v.summary;
      pack = record waiting {
        lift_pct = if is_some v.lift_pct then v.lift_pct else waiting.lift_pct;
      };
    }

-- `_close_observation`
pub close_observation : Evaluators → LoopDb → Item → Time → LoopDb
unfolding judge closed_item
close_observation env db x now = let (db', v) = judge env db x in put_loop db' (closed_item x v now)

-- the rows that the query of the tick selects
unfoldable pub watched : Item → Bool
watched x = is_waiting x.status && is_some x.observe_until

-- the window of the row has ended
unfoldable pub ended : Item → Time → Bool
ended x now = elim x.observe_until [ none ↦ false | some t ↦ leb t now ]

-- the loop over the selected rows
tick : Evaluators → Time → List Item → LoopDb → LoopDb × List RowId
unfolding close_observation ended
tick env now [] db = (db, [])
tick env now (x ∷ xs) db =
    if ended x now
    then (let (db', ready) = tick env now xs (close_observation env db x now) in
        (db', x.id ∷ ready))
    else tick env now xs db

-- what `tick_observing_loops` returns
pub record Ticked : Type 0 where
  pub checked : ℕ
  pub ready : List RowId

unfoldable pub tick_observing_loops : Evaluators → LoopDb → Time → LoopDb × Ticked
unfolding tick watched
tick_observing_loops env db now =
    let due = keep watched db.loops in
    let (db', ready) = tick env now due db in (db', record { checked = length due; ready = ready })
