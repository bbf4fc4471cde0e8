-- ===== src/Policy/AutoPilot.antt =====
-- `auto_execute_recommendations` of app/services/execution_policy.py: the loop over the proposed
-- recommendations of a store. The notifications that it sends are left out.
pub mod Limits
pub mod Allowed
use meal_key_ecosystem.Base.{
  ℕ, ◌-◌, String, Bool, true, false, not, ◌&&◌, ◌||◌, Option, none, some, List, [], ◌∷◌, ◌++◌, ◌==◌,
  leb, ltb, eq_nat, is_in, keep, take, length, or_else, if◌then◌else◌, ◌*◌,
}
use meal_key_ecosystem.Models.{
  RowId, Time, RecStatus, proposed, adopted, executed, archived, Recommendation, Db,
}
use meal_key_ecosystem.Plan.{
  PlanMode, in_system, awaiting_platform, failed, ChangePlan, build_change_plan,
}
use meal_key_ecosystem.Plan.Apply.{apply_plan}
use meal_key_ecosystem.Actions.Pipeline.{commit_recommendation_executed}
use meal_key_ecosystem.Policy.{
  Mode, auto_and_report, ask_approval, observe, drop_action, Request, auto_executable_actions,
}
use meal_key_ecosystem.Policy.Memory.{
  StrategyMemory, MemoryChanged, get_trust_level, arbitrate_execution_mode,
}

is_proposed : RecStatus → Bool
is_proposed proposed = true
is_proposed _ = false

-- `.order_by(Recommendation.confidence.desc())`
insert_by_confidence : Recommendation → List Recommendation → List Recommendation
insert_by_confidence r [] = r ∷ []
insert_by_confidence r (x ∷ xs) =
    let rest = insert_by_confidence r xs in
    if ltb x.confidence r.confidence then r ∷ x ∷ xs else x ∷ rest

sort_by_confidence : List Recommendation → List Recommendation
unfolding insert_by_confidence
sort_by_confidence [] = []
sort_by_confidence (r ∷ rs) = insert_by_confidence r (sort_by_confidence rs)

-- the query: recent proposals of the store whose action may run by itself, at most 20
candidates : List Recommendation → RowId → Time → List Recommendation
unfolding is_proposed sort_by_confidence
candidates rows store cutoff = take 20 (
    sort_by_confidence (
      keep
        (λ r.
          eq_nat r.store_id store
          && is_proposed r.status
          && is_in r.action_type auto_executable_actions
          && leb cutoff r.created_at)
        rows))

-- `_ACTION_RISK.get(action, ("medium", "medium"))`
action_risk : String → String × String
action_risk action =
    if is_in action ("change_title" ∷ "change_main_image" ∷ "add_set_meal" ∷ "menu_patch" ∷ [])
    then ("low", "easy")
    else if is_in action ("adjust_price_value" ∷ "menu_cleanup" ∷ [])
    then ("medium", "easy")
    else ("medium", "medium")

request_for : Recommendation → ℕ → Request
unfolding action_risk
request_for rec trust =
    let (risk, reversibility) = action_risk rec.action_type in
    record {
      action_type = rec.action_type;
      risk_level = risk;
      reversibility = reversibility;
      confidence = if eq_nat rec.confidence 0 then 700000 else rec.confidence;
      profit_gate_passed = true;
      trust_level = trust;
      is_in_system = true;
    }

-- one entry of the returned list, with the row that was written
pub record Entry : Type 0 where
  pub row : Recommendation
  pub mode : Mode
  pub applied : Bool

pub record State : Type 0 where
  pub db : Db
  pub log : List MemoryChanged
  pub done : List Entry

is_in_system_mode : PlanMode → Bool
is_in_system_mode in_system = true
is_in_system_mode _ = false

-- the audit that the automatic execution adds to the content
sign : Recommendation → ℕ → Recommendation
sign rec trust = record rec {
  content = record rec.content {
    execution_mode = "AUTO_AND_REPORT";
    executor = "AI";
    trust_level = some trust;
  };
}

-- the audit and the entry of a committed recommendation
report_done : State → Db → ℕ → Option Recommendation → State
unfolding sign
report_done s db trust none = record s { db = db }
report_done s db trust (some r) = record s {
  db = db;
  done = s.done ++ record { row = sign r trust; mode = auto_and_report; applied = true } ∷ [];
}

-- the branch `AUTO_AND_REPORT`: apply, commit, report
carry_out : Time → ℕ → Recommendation → ChangePlan → State → State
carry_out now trust rec plan s =
    let (db', rec', e) = apply_plan s.db rec plan in
    if e.applied
    then report_done s db' trust (commit_recommendation_executed rec' now "auto_pilot" true)
    else record s { db = db' }

dispatch : Mode → Time → ℕ → Recommendation → ChangePlan → State → State
dispatch drop_action now trust rec plan s = record s {
  done =
      s.done
      ++ record { row = record rec { status = archived }; mode = drop_action; applied = false }
        ∷ [];
}
dispatch auto_and_report now trust rec plan s = carry_out now trust rec plan s
dispatch ask_approval now trust rec plan s = s
dispatch observe now trust rec plan s = s

-- the body of the loop
visit : List StrategyMemory → RowId → Time → ℕ → Recommendation → State → State
unfolding is_in_system_mode
visit rows store now trust rec s =
    let plan = build_change_plan s.db rec now in
    if not (is_in_system_mode plan.mode) || not plan.reversible
    then s
    else (let (mode, log) = arbitrate_execution_mode rows store (request_for rec trust) s.log in
        dispatch mode now trust rec plan (record s { log = log }))

loop : List StrategyMemory → RowId → Time → ℕ → ℕ → List Recommendation → State → State
loop rows store now trust max_actions [] s = s
loop rows store now trust max_actions (rec ∷ recs) s =
    let rest = loop rows store now trust max_actions recs (visit rows store now trust rec s) in
    if leb max_actions (length s.done) then s else rest

pub auto_execute_recommendations :
    List StrategyMemory → RowId → Time → String → ℕ → ℕ → List Recommendation → Db → State
auto_execute_recommendations rows store now setting max_actions lookback_days recs db =
    let trust = get_trust_level setting in
    let start : State = record { db = db; log = []; done = [] } in
    if eq_nat trust 0
    then start
    else loop rows store now trust max_actions (candidates recs store (now - lookback_days * 86400))
        start
