-- ===== src/Examples/Approval.antt =====
-- The approval gates, the arbitration and the automatic execution on one recommendation.
use meal_key_ecosystem.Policy.Arbitration.{core_arbitrate_auto}
use meal_key_ecosystem.Base.{
  first, [], ◌∷◌, strip, All, none, ◌≡◌, false, true, ◌≤◌, is_some, refl, ◌⊎◌, ◌==◌, some, List,
}
use meal_key_ecosystem.Models.{proposed, get_item, Recommendation, Execution, executed}
use meal_key_ecosystem.Actions.Executor.{normalize_action, execute_recommendation_domain}
use meal_key_ecosystem.Plan.{build_change_plan}
use meal_key_ecosystem.Plan.Apply.{apply_plan}
use meal_key_ecosystem.Actions.Pipeline.Gates.{
  pipeline_raised_early, pipeline_again, pipeline_committed,
}
use meal_key_ecosystem.Policy.AutoPilot.Allowed.{IsAllowed, auto_execute-IsAllowed}
use meal_key_ecosystem.Policy.AutoPilot.{Entry, auto_execute_recommendations}
use meal_key_ecosystem.Actions.Pipeline.{Settings, run_recommendation_pipeline, need_approval}
use meal_key_ecosystem.Policy.{
  Request, core_arbitrate, auto_zero_risk, auto_remembered, auto_low_risk, auto_trusted,
}
use meal_key_ecosystem.Actions.Registry.{build_action_spec, lookup_action}
use meal_key_ecosystem.Actions.Capability.{assert_action_executable, execution_capability}
use meal_key_ecosystem.Examples.Menu.{shop, new_title, plain}

abbrev dev : Settings
dev = record { is_dev = true; platform_connector_url = "" }

abbrev carried_out : Execution
carried_out = (execute_recommendation_domain shop new_title 100).2

-- its change was carried out, and rolled back since
abbrev taken_back : Recommendation
taken_back = record new_title {
  content = record plain { executed_in_system = true; rolled_back = true };
}

title_passes : assert_action_executable "change_title" ≡ none
unfolding assert_action_executable execution_capability lookup_action strip
title_passes = refl

pipeline_committed_example :
    (true ≡ true)
    × (assert_action_executable "change_title" ≡ none)
    × (carried_out ≡ (execute_recommendation_domain shop new_title 100).2)
    × (carried_out.applied ≡ true)
    × ((carried_out.mode == "awaiting_platform") ≡ false)
    × ((run_recommendation_pipeline dev shop new_title 100 "owner" true).1
        ≡ (execute_recommendation_domain shop new_title 100).0)
    × ((run_recommendation_pipeline dev shop new_title 100 "owner" true).2.status ≡ executed)
    × ((run_recommendation_pipeline dev shop new_title 100 "owner" true).2.content.execution_commit
        ≡ some (record {
          by_whom = "action_pipeline";
          actor = "owner";
          at_time = 100;
          verified = true;
        }))
    × (is_some (run_recommendation_pipeline dev shop new_title 100 "owner" true).2.adopted_at
        ≡ true)
    × (is_some (run_recommendation_pipeline dev shop new_title 100 "owner" true).2.executed_at
        ≡ true)
unfolding run_recommendation_pipeline strip assert_action_executable execution_capability
    lookup_action build_action_spec execute_recommendation_domain apply_plan build_change_plan
    normalize_action get_item first
pipeline_committed_example = pipeline_committed dev shop new_title 100 "owner" true carried_out refl

pipeline_raised_early_example :
    ((run_recommendation_pipeline dev shop new_title 100 "owner" false).1 ≡ shop)
    × ((run_recommendation_pipeline dev shop new_title 100 "owner" false).2 ≡ new_title)
unfolding run_recommendation_pipeline strip assert_action_executable execution_capability
    lookup_action build_action_spec
pipeline_raised_early_example =
    pipeline_raised_early dev shop new_title 100 "owner" false need_approval refl refl

pipeline_again_example :
    ((run_recommendation_pipeline dev shop taken_back 100 "owner" true).2.status ≡ executed)
    × ((run_recommendation_pipeline dev shop taken_back 100 "owner" true).1 ≡ shop)
unfolding strip
pipeline_again_example =
    pipeline_again dev shop taken_back 100 "owner" true refl refl title_passes refl

-- a confident change of a title
abbrev confident : Request
confident = record {
  action_type = "change_title";
  risk_level = "low";
  reversibility = "easy";
  confidence = 900000;
  profit_gate_passed = true;
  trust_level = 1;
  is_in_system = true;
}

abbrev discount : Request
discount = record confident { action_type = "adjust_price_value"; trust_level = 3 }

core_arbitrate_auto_example : (500000 ≤ 900000) × (false ≡ false) × ((1 ≤ 1) ⊎ (false ≡ true))
unfolding core_arbitrate auto_zero_risk auto_remembered auto_low_risk auto_trusted
core_arbitrate_auto_example = core_arbitrate_auto confident false false refl

abbrev proposed_title : Recommendation
proposed_title = record new_title { status = proposed }

-- one entry, the proposal, applied
abbrev automatic_run : List Entry
automatic_run = (auto_execute_recommendations [] 1 500 "2" 3 7 (proposed_title ∷ []) shop).done

auto_execute-IsAllowed_example : All (IsAllowed 1) automatic_run
auto_execute-IsAllowed_example = auto_execute-IsAllowed [] 1 500 "2" 3 7 (proposed_title ∷ []) shop
