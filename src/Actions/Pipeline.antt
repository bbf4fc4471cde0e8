-- ===== src/Actions/Pipeline.antt =====
-- app/services/action_pipeline.py: the choke point through which a recommendation becomes `executed`.
pub mod Gates
use meal_key_ecosystem.Base.{
  String, Bool, true, false, not, ◌&&◌, Option, none, some, ◌==◌, strip, or_text, or_else,
  if◌then◌else◌,
}
use meal_key_ecosystem.Models.{
  Time, RecStatus, proposed, adopted, executed, archived, ExecutionCommit, Execution,
  Recommendation, Db,
}
use meal_key_ecosystem.Plan.Apply.{Outcome}
use meal_key_ecosystem.Actions.Registry.{build_action_spec}
use meal_key_ecosystem.Actions.Capability.{BlockCode, assert_action_executable}
use meal_key_ecosystem.Actions.Executor.{execute_recommendation_domain}

-- the codes of `ActionPipelineError`, each raised at one stage
pub data PipelineError : Type 0 where
  verify_required invalid_action need_approval platform_unavailable : PipelineError
  awaiting execute_not_applied : PipelineError
  capability_check : BlockCode → PipelineError

pub data Result : Type 0 where
  committed : Execution → Result
  raised : PipelineError → Result

-- the settings that the pipeline reads
pub record Settings : Type 0 where
  pub is_dev : Bool
  pub platform_connector_url : String

abbrev pub is_executed : RecStatus → Bool
is_executed executed = true
is_executed _ = false

-- `_forbid_direct_executed`: `true` is the `RuntimeError`. `old` is `none` where the column was never
-- set, and `commit` is the context variable of the commit function.
unfoldable pub forbid_direct_executed : Bool → Option RecStatus → RecStatus → Bool
forbid_direct_executed commit none new = false
forbid_direct_executed commit (some old) new =
    if not (is_executed new) then false else if is_executed old then false else not commit

-- an assignment to `rec.status`; `none` is the listener's exception
unfoldable pub assign_status : Bool → Recommendation → RecStatus → Option Recommendation
assign_status commit rec new =
    if forbid_direct_executed commit (some rec.status) new
    then none
    else some (record rec { status = new })

unfoldable pub stamp_commit : Recommendation → Time → String → Recommendation
stamp_commit rec now actor = record rec {
  executed_at = some (or_else rec.executed_at now);
  adopted_at = some (or_else rec.adopted_at now);
  content = record rec.content {
    execution_commit =
        some
          (record { by_whom = "action_pipeline"; actor = actor; at_time = now; verified = true });
  };
}

-- `none` is `VERIFY_REQUIRED`, or the listener's exception
unfoldable pub commit_recommendation_executed :
    Recommendation → Time → String → Bool → Option Recommendation
unfolding assign_status forbid_direct_executed stamp_commit
commit_recommendation_executed rec now actor verified =
    if verified
    then elim (assign_status true rec executed) [
      | none ↦ none
      | some r ↦ some (stamp_commit r now actor)
    ]
    else none

platform_unavailable_here : Settings → Bool
platform_unavailable_here s = if s.is_dev then false else strip s.platform_connector_url == ""

-- VERIFY and COMMIT
verify_and_commit : Settings → Time → String → Outcome → Result × Db × Recommendation
unfolding platform_unavailable_here commit_recommendation_executed
verify_and_commit s now actor (db, rec, domain) =
    if domain.mode == "awaiting_platform"
    then (raised (if platform_unavailable_here s then platform_unavailable else awaiting), db, rec)
    else if not domain.applied
    then (raised execute_not_applied, db, rec)
    else elim (commit_recommendation_executed rec now actor true) [
      | none ↦ (raised verify_required, db, rec)
      | some r ↦ (committed domain, db, r)
    ]

-- AUTHORIZE and EXECUTE
authorize :
    Settings → Db → Recommendation → Time → String → Bool → Bool → Result × Db × Recommendation
authorize s db rec now actor requires approved =
    if requires && not approved
    then (raised need_approval, db, rec)
    else verify_and_commit s now actor (execute_recommendation_domain db rec now)

unfoldable pub run_recommendation_pipeline :
    Settings → Db → Recommendation → Time → String → Bool → Result × Db × Recommendation
unfolding authorize verify_and_commit
run_recommendation_pipeline s db rec now actor approved =
    let action = or_text rec.action_type "ops_hint" in
    if strip action == ""
    then (raised invalid_action, db, rec)
    else elim (assert_action_executable action) [
      | some code ↦ (raised (capability_check code), db, rec)
      | none ↦
          authorize s db rec now actor (build_action_spec action none).requires_approval approved
    ]
