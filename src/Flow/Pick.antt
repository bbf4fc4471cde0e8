-- ===== src/Flow/Pick.antt =====
-- `_pick_now_card` of app/services/decision_flow.py and `apply_nba_pin` of
-- app/services/operating_clock.py: the card of the moment.
pub mod Offered
use Prim.Native.String.{◌++◌ as ◌+++◌}
use meal_key_ecosystem.Base.{
  List, Option, if◌then◌else◌, first, String, some, keep, none, ◌==◌, ◌++◌, ◌∷◌, not, ◌&&◌, [],
  or_text, or_else,
}
use meal_key_ecosystem.Flow.Cards.{
  anomaly, confirm, need_you_bucket, OperatingEvent, OpsQueueBrief, DecisionCard, FlowExecution,
  auto, auto_and_report, event_is_critical, is_protect_alert, ask_approval, observe,
  is_growth_action, execution_for,
}
use meal_key_ecosystem.Flow.Phases.{PhaseMeta}

-- the card that a critical event becomes
pub event_card : OperatingEvent → DecisionCard
event_card e = record {
  id = "protect:" +++ e.id;
  title = e.title;
  arbiter_state = confirm;
  interrupt_reason = anomaly;
  queue_bucket = need_you_bucket;
  priority_score = 0;
  why_now = or_text e.detail "高峰里出现必须处理的异常。";
  ai_judgment = or_text (or_else e.estimated_impact "") e.detail;
  ai_already_did = "";
  success_metric = "";
  meta = "";
  business_impact = or_else e.estimated_impact "";
  actions = [];
}

head : List DecisionCard → Option DecisionCard
head [] = none
head (c ∷ rest) = some c

-- a card with how it is carried out, or nothing to show
abbrev pub Choice : Type 0
Choice = Option DecisionCard × FlowExecution

pick_critical : List OperatingEvent → Choice
unfolding event_card
pick_critical events =
    elim (first (λ (e : OperatingEvent). event_is_critical e && e.status == "open") events) [
      | some e ↦ (some (event_card e), ask_approval)
      | none ↦ (none, observe)
    ]

-- in a protected phase: an alert of the queue, else a critical event
pick_protect : OpsQueueBrief → List OperatingEvent → Choice
unfolding pick_critical
pick_protect queue events = elim (first is_protect_alert queue.need_you) [
  | some c ↦ (some c, ask_approval)
  | none ↦ pick_critical events
]

pick_working : OpsQueueBrief → Choice
unfolding head
pick_working queue = elim (head queue.working) [ some c ↦ (some c, auto) | none ↦ (none, observe) ]

-- where the owner is not interrupted: a result, else what is at work
pick_quiet : OpsQueueBrief → Choice
unfolding pick_working head
pick_quiet queue = elim (head queue.results) [
  | some c ↦ (some c, auto_and_report)
  | none ↦ pick_working queue
]

-- where the owner may be asked: what needs him, an opportunity, what is at work
pick_open : PhaseMeta → OpsQueueBrief → Choice
unfolding pick_working head
pick_open m queue =
    let eligible =
      if m.growth_ok then queue.need_you else keep (λ c. not (is_growth_action c)) queue.need_you in
    let chance = if m.growth_ok then queue.opportunities else [] in
    elim (head eligible) [
      | some c ↦ (some c, execution_for c)
      | none ↦ elim (head chance) [ some c ↦ (some c, ask_approval) | none ↦ pick_working queue ]
    ]

pub pick_now_card : PhaseMeta → OpsQueueBrief → List OperatingEvent → Choice
unfolding pick_protect pick_quiet pick_open
pick_now_card m queue events =
    if m.protect
    then pick_protect queue events
    else (if m.interrupt_ok then pick_open m queue else pick_quiet queue)

-- `apply_nba_pin`: the pinned card, if it is still in the queue
pub apply_nba_pin : OpsQueueBrief → String → Option DecisionCard
apply_nba_pin queue pin =
    if pin == ""
    then none
    else first (λ (c : DecisionCard). c.id == pin) (queue.need_you ++ queue.working)
