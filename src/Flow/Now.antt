-- ===== src/Flow/Now.antt =====
-- The steps, the guide and the whole flow: `build_decision_flow` of app/services/decision_flow.py and what it
-- calls. The execution pack of a card (app/services/execution_pack.py) is left out.
pub mod Fitting
use Prim.Native.String.{◌++◌ as ◌+++◌}
use meal_key_ecosystem.Flow.Rhythm.{evening_review}
use meal_key_ecosystem.Flow.Cards.{DecisionAction}
use meal_key_ecosystem.Flow.Cards.{
  DecisionCard, FlowExecution, OpsQueueBrief, observe, is_protect_alert, execution_for, time,
  OperatingEvent, InterruptReason, is_need_you, is_growth_action, needs_owner,
}
use meal_key_ecosystem.Flow.Rhythm.{
  Phase, quiet, night_learn, deep_review, morning_readiness, lunch_nba, lunch_protect, lunch_review,
  dinner_strategy,
}
use meal_key_ecosystem.Base.{
  false, String, Option, Bool, if◌then◌else◌, some, List, [], ◌||◌, or_text, ◌&&◌, none, map, not,
  take,
}
use meal_key_ecosystem.Flow.Pick.{Choice, apply_nba_pin, pick_now_card}
use meal_key_ecosystem.Flow.Phases.{PhaseMeta}

pub record StepChoice : Type 0 where
  pub id : String
  pub label : String
  pub prompt : String
  pub value : String

pub data Owner : Type 0 where
  boss ai : Owner

-- what the owner is shown now; `when` is always "现在"
pub record Step : Type 0 where
  pub id : String
  pub title : String
  pub why_now : String
  pub if_skip : String
  pub owner : Owner
  pub execution : FlowExecution
  pub ai_already_did : String
  pub success_metric : String
  pub business_impact : String
  pub choices : List StepChoice
  pub actions : List DecisionAction
  pub source_card_id : String
  pub interrupt_reason : InterruptReason

card_choice : DecisionAction → StepChoice
card_choice a = record { id = a.kind; label = a.label; prompt = a.label; value = a.label }

pub step_from_card : DecisionCard → Owner → FlowExecution → String → Step
unfolding card_choice
step_from_card c owner execution if_skip = record {
  id = c.id;
  title = c.title;
  why_now = or_text c.why_now c.ai_judgment;
  if_skip = if_skip;
  owner = owner;
  execution = execution;
  ai_already_did = c.ai_already_did;
  success_metric = c.success_metric;
  business_impact = c.business_impact;
  choices = map card_choice (take 4 c.actions);
  actions = take 3 c.actions;
  source_card_id = c.id;
  interrupt_reason = c.interrupt_reason;
}

-- the name of a phase in an id
pub phase_name : Phase → String
phase_name quiet = "quiet"
phase_name night_learn = "night_learn"
phase_name deep_review = "deep_review"
phase_name morning_readiness = "morning_readiness"
phase_name lunch_nba = "lunch_nba"
phase_name lunch_protect = "lunch_protect"
phase_name lunch_review = "lunch_review"
phase_name dinner_strategy = "dinner_strategy"
phase_name evening_review = "evening_review"

pub flow_id : Phase → String → String
unfolding phase_name
flow_id p slot = "flow:" +++ (phase_name p +++ (":" +++ slot))

-- `_synthetic_step`, as it is called
synthetic_step : Phase → PhaseMeta → Step
unfolding flow_id
synthetic_step p m = record {
  id = flow_id p "now";
  title = m.now_title;
  why_now = m.now_prompt;
  if_skip = m.if_skip;
  owner = ai;
  execution = observe;
  ai_already_did = "";
  success_metric = "";
  business_impact = "";
  choices = [];
  actions = [];
  source_card_id = "";
  interrupt_reason = time;
}

-- the pinned card takes the place of the picked one where the owner may be interrupted
with_pin : PhaseMeta → Option DecisionCard → Choice → Choice
with_pin m none choice = choice
with_pin m (some c) choice = if m.interrupt_ok then (some c, execution_for c) else choice

-- a growth card is no card of the moment in a protected, quiet or reviewing phase, unless it is an alert
without_growth : PhaseMeta → Bool → Choice → Choice
without_growth m is_quiet (none, e) = (none, e)
without_growth m is_quiet (some c, e) =
    if (m.protect || is_quiet || not m.growth_ok) && is_growth_action c && not (is_protect_alert c)
    then (none, observe)
    else (some c, e)

-- the card of the moment, after the pin and the growth test
pub moment : PhaseMeta → Bool → OpsQueueBrief → List OperatingEvent → String → Choice
unfolding with_pin without_growth
moment m is_quiet queue events pin =
    without_growth m is_quiet (with_pin m (apply_nba_pin queue pin) (pick_now_card m queue events))

pub card_owner : PhaseMeta → DecisionCard → Owner
card_owner m c =
    if m.protect && is_protect_alert c
    then boss
    else (if is_need_you c.queue_bucket || needs_owner c.arbiter_state then boss else ai)

pub card_skip : PhaseMeta → DecisionCard → String
card_skip m c = if is_protect_alert c then "现在不处理，这一餐可能继续漏单或停业。" else m.if_skip

-- the step of the moment, and whether it may interrupt the owner
pub now_step : Phase → PhaseMeta → Choice → Step × Bool
unfolding step_from_card synthetic_step card_owner card_skip
now_step p m (none, e) = (synthetic_step p m, false)
now_step p m (some c, e) =
    if m.interrupt_ok || is_protect_alert c
    then (
      step_from_card c (card_owner m c) e (card_skip m c),
      m.interrupt_ok || (m.protect && is_protect_alert c),
    )
    else (synthetic_step p m, false)
