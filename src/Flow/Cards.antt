-- ===== src/Flow/Cards.antt =====
-- The cards of the queue (app/schemas/arbiter.py), and the tests of app/services/decision_flow.py on what
-- a card says. Fields that the flow does not read are left out. A score is in hundredths.
use meal_key_ecosystem.Base.{
  true, false, List, if◌then◌else◌, String, Bool, ◌∷◌, ◌||◌, ℕ, Option, any_of, ◌==◌, lower, [],
  is_in, ◌&&◌, contains, leb,
}
use Prim.Native.String.{◌++◌ as ◌+++◌, String, ◌∷◌, []}

pub data ArbiterState : Type 0 where
  auto_do confirm need_input report_result noop : ArbiterState

pub data InterruptReason : Type 0 where
  time anomaly history opportunity goal result understanding : InterruptReason

pub data QueueBucket : Type 0 where
  need_you_bucket working_bucket result_bucket opportunity_bucket goal_bucket : QueueBucket

pub record DecisionAction : Type 0 where
  pub label : String
  pub kind : String

pub record DecisionCard : Type 0 where
  pub id : String
  pub title : String
  pub arbiter_state : ArbiterState
  pub interrupt_reason : InterruptReason
  pub queue_bucket : QueueBucket
  pub priority_score : ℕ
  pub why_now : String
  pub ai_judgment : String
  pub ai_already_did : String
  pub success_metric : String
  pub meta : String
  pub business_impact : String
  pub actions : List DecisionAction

pub record OpsQueueBrief : Type 0 where
  pub need_you : List DecisionCard
  pub working : List DecisionCard
  pub results : List DecisionCard
  pub opportunities : List DecisionCard

pub record OperatingEvent : Type 0 where
  pub id : String
  pub event_type : String
  pub title : String
  pub detail : String
  pub severity : String
  pub estimated_impact : Option String
  pub status : String

growth_hints : List String
growth_hints =
    "投流" ∷ "广告" ∷ "cpc" ∷ "加预算" ∷ "涨价" ∷ "改价" ∷ "调价" ∷ "改主图" ∷ "换主图" ∷ "换图" ∷ "改标题" ∷ "报名活动" ∷ "放量"
    ∷ "改菜单" ∷ []

protect_hints : List String
protect_hints = "售罄" ∷ "闭店" ∷ "骤降" ∷ "断货" ∷ "库存" ∷ "履约" ∷ "差评爆发" ∷ "客服超时" ∷ "掉线" ∷ []

critical_event_types : List String
critical_event_types =
    "STORE_ABNORMAL_CLOSED" ∷ "HERO_SKU_SOLD_OUT" ∷ "IM_REPLY_DROP" ∷ "RATING_DROP" ∷ []

-- `" ".join(part for part in parts if part)`
join_parts : List String → String
join_parts [] = ""
join_parts (part ∷ rest) =
    let tail = join_parts rest in
    if part == "" then tail else (if tail == "" then part else part +++ (" " +++ tail))

blob : DecisionCard → String
unfolding join_parts
blob c = lower (join_parts (c.title ∷ c.why_now ∷ c.ai_judgment ∷ c.meta ∷ c.business_impact ∷ []))

-- `any(hint in text for hint in hints)`
has_hint : List String → DecisionCard → Bool
unfolding blob
has_hint hints c = any_of (contains (blob c)) hints

pub is_growth_action : DecisionCard → Bool
unfolding has_hint growth_hints
is_growth_action c = has_hint growth_hints c

is_anomaly : InterruptReason → Bool
is_anomaly anomaly = true
is_anomaly _ = false

pub is_protect_alert : DecisionCard → Bool
unfolding has_hint protect_hints is_anomaly
is_protect_alert c =
    has_hint protect_hints c || (is_anomaly c.interrupt_reason && leb 8000 c.priority_score)

-- `_event_is_critical`
pub event_is_critical : OperatingEvent → Bool
unfolding critical_event_types
event_is_critical e =
    e.severity == "critical" || e.severity == "high" || is_in e.event_type critical_event_types

is_need_input : ArbiterState → Bool
is_need_input need_input = true
is_need_input _ = false

unfoldable pub is_need_you : QueueBucket → Bool
is_need_you need_you_bucket = true
is_need_you _ = false

unfoldable pub needs_owner : ArbiterState → Bool
needs_owner confirm = true
needs_owner need_input = true
needs_owner _ = false

pub data FlowExecution : Type 0 where
  observe auto auto_and_report ask_approval ask_information : FlowExecution

unfoldable pub execution_for : DecisionCard → FlowExecution
unfolding is_need_input
execution_for c = if is_need_input c.arbiter_state then ask_information else ask_approval
