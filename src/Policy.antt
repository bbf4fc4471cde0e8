-- ===== src/Policy.antt =====
-- app/services/execution_policy.py: what the system does by itself and what it asks the owner for.
-- A confidence is a number of millionths.
pub mod Lessons
pub mod Memory
pub mod Arbitration
pub mod AutoPilot
use meal_key_ecosystem.Base.{
  ℕ, ◌+◌, String, Bool, true, false, not, ◌&&◌, ◌||◌, List, [], ◌∷◌, ◌==◌, ltb, leb, eq_nat, is_in,
  if◌then◌else◌,
}

pub data Mode : Type 0 where
  auto_and_report ask_approval observe drop_action : Mode

abbrev pub auto_executable_actions : List String
auto_executable_actions = "change_title" ∷ "change_main_image" ∷ []

abbrev pub zero_risk_actions : List String
zero_risk_actions = "change_title" ∷ "change_description" ∷ []

-- the facts of one decision, without the memory
pub record Request : Type 0 where
  pub action_type : String
  pub risk_level : String
  pub reversibility : String
  pub confidence : ℕ
  pub profit_gate_passed : Bool
  pub trust_level : ℕ
  pub is_in_system : Bool

-- `min(3, trust_level + (1 if positive_memory else 0))`
abbrev pub effective_trust : ℕ → Bool → ℕ
effective_trust trust positive =
    let raised = if positive then trust + 1 else trust in if leb 3 raised then 3 else raised

-- the four tests for `AUTO_AND_REPORT`, in the order of the code
unfoldable pub auto_zero_risk : Request → ℕ → Bool
auto_zero_risk r trust = leb 1 trust && is_in r.action_type zero_risk_actions && r.is_in_system

unfoldable pub auto_remembered : Request → Bool → Bool
auto_remembered r positive =
    positive && r.is_in_system && is_in r.action_type auto_executable_actions

unfoldable pub auto_low_risk : Request → ℕ → Bool
auto_low_risk r trust =
    leb 2 trust
    && r.risk_level == "low"
    && r.reversibility == "easy"
    && leb 800000 r.confidence
    && r.profit_gate_passed
    && r.is_in_system
    && is_in r.action_type auto_executable_actions

unfoldable pub auto_trusted : Request → ℕ → Bool
auto_trusted r trust =
    leb 3 trust
    && is_in r.risk_level ("low" ∷ "medium" ∷ [])
    && is_in r.reversibility ("easy" ∷ "medium" ∷ [])
    && leb 750000 r.confidence
    && r.profit_gate_passed

unfoldable pub core_arbitrate : Request → Bool → Bool → Mode
core_arbitrate r negative positive =
    let trust = effective_trust r.trust_level positive in
    if ltb r.confidence 500000
    then observe
    else if negative
    then drop_action
    else if eq_nat trust 0
    then ask_approval
    else if auto_zero_risk r trust
    then auto_and_report
    else if auto_remembered r positive
    then auto_and_report
    else if auto_low_risk r trust
    then auto_and_report
    else if auto_trusted r trust
    then auto_and_report
    else ask_approval
