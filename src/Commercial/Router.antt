-- ===== src/Commercial/Router.antt =====
-- app/services/commercial/model_router.py and the budget of app/services/commercial/ai_ledger.py. Amounts
-- are in cents, a ratio in ten-thousandths; `round` rounds.
pub mod Cheaper
use meal_key_ecosystem.Base.{
  ℕ, List, Bool, ◌*◌, String, if◌then◌else◌, is_in, ◌&&◌, leb, ◌∷◌, ◌||◌, eq_nat, true, strip,
  Option, none, not, false, [], some, or_else, ◌==◌, lookup,
}

pub data ModelTier : Type 0 where
  code luna terra sol : ModelTier

pub data BudgetState : Type 0 where
  normal throttle cap_noncritical : BudgetState

pub data Lane : Type 0 where
  operating acquisition : Lane

abbrev pub code_purposes : List String
code_purposes =
    "profit_formula" ∷ "yoy_mom" ∷ "promo_stack" ∷ "threshold" ∷ "experiment_expiry" ∷ "permission"
    ∷ "risk_gate" ∷ "workthread_state" ∷ "pricing_quote" ∷ "commission_split" ∷ []

abbrev pub luna_purposes : List String
luna_purposes =
    "classify" ∷ "summarize" ∷ "ordinary_reply" ∷ "extract" ∷ "light_judgment"
    ∷ "free_audit_extract" ∷ []

abbrev pub terra_purposes : List String
terra_purposes =
    "operating_diagnosis" ∷ "action_generate" ∷ "campaign_judge" ∷ "product_optimize"
    ∷ "free_audit_diagnose" ∷ []

abbrev pub sol_purposes : List String
sol_purposes =
    "complex_attribution" ∷ "cross_domain_decision" ∷ "high_value_anomaly"
    ∷ "owner_critical_question" ∷ "enterprise_audit" ∷ []

abbrev purpose_aliases : List (String × ModelTier)
purpose_aliases =
    ("general.consulting", terra)
    ∷ ("general.polish", luna)
    ∷ ("brand.structured_output", luna)
    ∷ ("menu.simulation_explain", terra)
    ∷ ("diagnosis", terra)
    ∷ ("review_reply", luna)
    ∷ ("change_title", luna)
    ∷ []

unfoldable pub is_sol_purpose : String → Bool
is_sol_purpose purpose = is_in purpose sol_purposes

-- the tier of a purpose before the budget is looked at; `none` is code, which is returned at once
tier_of : String → Option ModelTier
tier_of key =
    if is_in key code_purposes
    then none
    else if is_sol_purpose key
    then some sol
    else if is_in key terra_purposes
    then some terra
    else if is_in key luna_purposes
    then some luna
    else some (or_else (lookup key purpose_aliases) terra)

is_sol : ModelTier → Bool
is_sol sol = true
is_sol _ = false

is_large : ModelTier → Bool
is_large sol = true
is_large terra = true
is_large _ = false

is_acquisition : Lane → Bool
is_acquisition acquisition = true
is_acquisition operating = false

-- what the budget makes of a tier; `keeps` is that the purpose, as it was given, is one of SOL's
budget_tier : BudgetState → Bool → ModelTier → ModelTier
unfolding is_sol is_large
budget_tier normal keeps tier = tier
budget_tier throttle keeps tier = if is_sol tier then terra else tier
budget_tier cap_noncritical keeps tier = if is_large tier && not keeps then luna else tier

route_tier : String → BudgetState → Lane → Option ModelTier → ModelTier
unfolding budget_tier is_sol is_acquisition
route_tier purpose state lane none = code
route_tier purpose state lane (some tier) =
    if is_acquisition lane && is_sol tier && not (purpose == "enterprise_audit")
    then terra
    else budget_tier state (is_sol_purpose purpose) tier

-- The purpose is stripped for the choice of the tier, and taken as it is in the later tests.
pub route_model : String → BudgetState → Lane → ModelTier
unfolding tier_of route_tier
route_model purpose state lane = route_tier purpose state lane (tier_of (strip purpose))

-- `high_value_continues`
pub high_value_continues : String → BudgetState → Bool
high_value_continues purpose cap_noncritical =
    is_sol_purpose purpose
    || is_in purpose ("risk_gate" ∷ "workthread_state" ∷ "permission" ∷ "experiment_expiry" ∷ [])
high_value_continues purpose _ = true

-- `enterprise_budget_actual`: 150 for each store, for one at least
unfoldable pub enterprise_budget_actual : ℕ → ℕ
enterprise_budget_actual stores = (if eq_nat stores 0 then 1 else stores) * 15000

-- the state of `budget_state`, from the ratio of what was used to the budget
state_of_ratio : ℕ → BudgetState
state_of_ratio ratio =
    if leb 10000 ratio then cap_noncritical else (if leb 8000 ratio then throttle else normal)

pub budget_state : (ℕ → ℕ → ℕ) → ℕ → ℕ → BudgetState
unfolding state_of_ratio
budget_state round used stores =
    state_of_ratio (round (used * 10000) (enterprise_budget_actual stores))
