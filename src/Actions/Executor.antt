-- ===== src/Actions/Executor.antt =====
-- app/services/recommendation_executor.py: carries a recommendation out on the menu.
use meal_key_ecosystem.Base.{String, true, some, List, [], ◌∷◌, ◌==◌, is_in, is_some, if◌then◌else◌}
use meal_key_ecosystem.Models.{Time, Content, Execution, Recommendation, Db}
use meal_key_ecosystem.Plan.{build_change_plan}
use meal_key_ecosystem.Plan.Apply.{Outcome, apply_plan, not_applied}

-- `IN_SYSTEM_ACTIONS`
abbrev in_system_actions : List String
in_system_actions =
    "change_title" ∷ "adjust_price_value" ∷ "add_set_meal" ∷ "change_main_image" ∷ "menu_patch"
    ∷ "menu_cleanup" ∷ []

-- the action type that the content suggests
inferred_action : String → Content → String
inferred_action action c =
    if is_in action in_system_actions
    then action
    else if c.product_suggestion.action_type == ""
    then (if is_some c.menu_cleanup
        then "menu_cleanup"
        else if is_some c.menu_patch
        then "menu_patch"
        else if is_some c.menu_bundle
        then "add_set_meal"
        else action)
    else c.product_suggestion.action_type

unfoldable pub normalize_action : Recommendation → Recommendation
unfolding inferred_action
normalize_action rec = record rec { action_type = inferred_action rec.action_type rec.content }

-- a failure or a hand-over to the platform is written into the audit too
audit_outcome : Outcome → Outcome
audit_outcome (db, rec, e) = (
  db,
  (if e.applied
      then rec
      else record rec { content = record rec.content { domain_execution = some e } }),
  e,
)

-- the answer for a recommendation that was carried out before
unfoldable pub already_applied : String → Execution
unfolding not_applied
already_applied action = record (not_applied "in_system" action) { applied = true }

unfoldable pub execute_recommendation_domain : Db → Recommendation → Time → Outcome
unfolding already_applied audit_outcome
execute_recommendation_domain db rec now =
    if rec.content.executed_in_system
    then (db, rec, already_applied rec.action_type)
    else (let rec' = normalize_action rec in
        audit_outcome (apply_plan db rec' (build_change_plan db rec' now)))
