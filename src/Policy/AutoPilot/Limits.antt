-- ===== src/Policy/AutoPilot/Limits.antt =====
-- How far the automatic execution goes.
use meal_key_ecosystem.Policy.{drop_action, auto_and_report, ask_approval, observe, Mode}
use meal_key_ecosystem.Actions.Pipeline.{commit_recommendation_executed}
use meal_key_ecosystem.Plan.Apply.{apply_plan}
use meal_key_ecosystem.Policy.AutoPilot.{
  State, dispatch, visit, loop, carry_out, auto_execute_recommendations, report_done, request_for,
  candidates,
}
use meal_key_ecosystem.Plan.{ChangePlan, build_change_plan}
use meal_key_ecosystem.Policy.Memory.{StrategyMemory, arbitrate_execution_mode, get_trust_level}
use meal_key_ecosystem.Models.{Time, Recommendation, Db, RowId}
use meal_key_ecosystem.Base.{
  ℕ, length-append, List, length, ◌≤◌, ◌∷◌, ◌+◌, arith, String, Option, true, [], ◌≡◌, some, ◌-◌,
  none, ◌*◌,
}

report_done_grows :
    (s : State) (db : Db) (trust : ℕ) (o : Option Recommendation)
    → length (report_done s db trust o).done ≤ length s.done + 1
unfolding report_done
report_done_grows s db trust none = omega arith
report_done_grows s db trust (some r) = omega (arith, length-append {0})

module _ (now : Time) (trust : ℕ) (rec : Recommendation) (plan : ChangePlan) (s : State) where
  carry_out_grows : length (carry_out now trust rec plan s).done ≤ length s.done + 1
  unfolding carry_out
  carry_out_grows =
      let (db', rec', e) = apply_plan s.db rec plan in
      ground (
        arith,
        report_done_grows s db' trust (commit_recommendation_executed rec' now "auto_pilot" true),
      )

  dispatch_grows :
      (mode : Mode) → length (dispatch mode now trust rec plan s).done ≤ length s.done + 1
  unfolding dispatch
  dispatch_grows drop_action = omega (arith, length-append {0})
  dispatch_grows auto_and_report = carry_out_grows
  dispatch_grows ask_approval = omega arith
  dispatch_grows observe = omega arith

visit_grows :
    (rows : List StrategyMemory) (store : RowId) (now : Time) (trust : ℕ) (rec : Recommendation)
    (s : State)
    → length (visit rows store now trust rec s).done ≤ length s.done + 1
unfolding visit
visit_grows rows store now trust rec s =
    let plan = build_change_plan s.db rec now in
    let (mode, log) = arbitrate_execution_mode rows store (request_for rec trust) s.log in
    ground (arith, dispatch_grows now trust rec plan (record s { log = log }) mode)

module _ (rows : List StrategyMemory) (store : RowId) (now : Time) (trust max_actions : ℕ) where
  loop_bounded :
      (recs : List Recommendation) (s : State)
      → length s.done ≤ max_actions
      → length (loop rows store now trust max_actions recs s).done ≤ max_actions
  unfolding loop
  loop_bounded [] s h = h
  loop_bounded (rec ∷ recs) s h = ground (
    arith,
    visit_grows rows store now trust rec s,
    loop_bounded recs (visit rows store now trust rec s),
  )

-- An automatic run reports at most `max_actions` recommendations, whatever it finds.
pub auto_execute_bounded :
    (rows : List StrategyMemory) (store : RowId) (now : Time) (setting : String)
    (max_actions lookback : ℕ) (recs : List Recommendation) (db : Db)
    → length (auto_execute_recommendations rows store now setting max_actions lookback recs db).done
      ≤ max_actions
unfolding auto_execute_recommendations
auto_execute_bounded rows store now setting max_actions lookback recs db =
    let start : State = record { db = db; log = []; done = [] } in
    ground (
      arith,
      loop_bounded rows store now (get_trust_level setting) max_actions
          (candidates recs store (now - lookback * 86400)) start (omega arith),
    )

-- At trust level 0, which any setting but "1", "2" and "3" means, nothing is carried out.
pub auto_execute_untrusted :
    (rows : List StrategyMemory) (store : RowId) (now : Time) (setting : String)
    (max_actions lookback : ℕ) (recs : List Recommendation) (db : Db)
    → get_trust_level setting ≡ 0
    → auto_execute_recommendations rows store now setting max_actions lookback recs db
      ≡ record { db = db; log = []; done = [] }
unfolding auto_execute_recommendations
auto_execute_untrusted rows store now setting max_actions lookback recs db h = rw h
