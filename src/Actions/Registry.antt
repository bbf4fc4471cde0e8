-- ===== src/Actions/Registry.antt =====
-- app/services/action_registry.py: what each action type is and how it may be executed.
use mathlib.Core.Path.{subst}
use mathlib.Core.Option.{some-injective}
use meal_key_ecosystem.Base.{
  ℕ, String, Bool, true, false, Option, none, some, List, [], ◌∷◌, ◌==◌, strip, or_text,
  if◌then◌else◌, or_else, or_number, All, ◌≡◌, Bool-cases, inl, inr,
}

pub record Definition : Type 0 where
  pub action_type : String
  pub subject_type : String
  pub risk_level : String
  pub requires_approval : Bool
  pub execution_method : String
  pub rollback_method : String
  pub success_metric : String
  pub default_observation_window : ℕ
  pub required_context : List String
  pub input_schema : List String
  pub applicable_channels : List String
  pub attribution_method : String
  pub profit_guard : Bool

abbrev pub change_main_image : Definition
change_main_image = record {
  action_type = "CHANGE_PRODUCT_IMAGE";
  subject_type = "sku";
  risk_level = "LOW";
  requires_approval = true;
  execution_method = "human_execute";
  rollback_method = "restore_previous_image";
  success_metric = "ctr";
  default_observation_window = 48;
  required_context = "product_name" ∷ "image_asset" ∷ [];
  input_schema = "object_name" ∷ "copy_text" ∷ "steps" ∷ [];
  applicable_channels = [];
  attribution_method = "";
  profit_guard = false;
}

abbrev pub change_title : Definition
change_title = record {
  action_type = "CHANGE_PRODUCT_TITLE";
  subject_type = "sku";
  risk_level = "LOW";
  requires_approval = true;
  execution_method = "platform_or_human";
  rollback_method = "restore_previous_title";
  success_metric = "ctr";
  default_observation_window = 48;
  required_context = "product_name" ∷ [];
  input_schema = "object_name" ∷ "suggested_title" ∷ "copy_text" ∷ [];
  applicable_channels = [];
  attribution_method = "";
  profit_guard = false;
}

abbrev pub batch_reply_negative_reviews : Definition
batch_reply_negative_reviews = record {
  action_type = "REPLY_REVIEW";
  subject_type = "review_batch";
  risk_level = "MEDIUM";
  requires_approval = true;
  execution_method = "human_execute";
  rollback_method = "manual_follow_up";
  success_metric = "rating";
  default_observation_window = 48;
  required_context = "review_theme" ∷ "reply_copy" ∷ [];
  input_schema = "copy_text" ∷ "steps" ∷ [];
  applicable_channels = [];
  attribution_method = "";
  profit_guard = false;
}

abbrev pub reply_ordinary_reviews : Definition
reply_ordinary_reviews = record {
  action_type = "REPLY_REVIEW";
  subject_type = "review";
  risk_level = "LOW";
  requires_approval = true;
  execution_method = "platform_or_human";
  rollback_method = "manual_follow_up";
  success_metric = "review_backlog";
  default_observation_window = 48;
  required_context = "reply_copy" ∷ [];
  input_schema = "reply_text" ∷ "copy_text" ∷ "steps" ∷ [];
  applicable_channels = [];
  attribution_method = "";
  profit_guard = false;
}

abbrev pub appeal_pack : Definition
appeal_pack = record {
  action_type = "SUBMIT_REVIEW_APPEAL";
  subject_type = "review_appeal";
  risk_level = "LOW";
  requires_approval = true;
  execution_method = "platform_or_human";
  rollback_method = "manual_follow_up";
  success_metric = "appeal_submitted";
  default_observation_window = 48;
  required_context = "appeal_reason" ∷ "evidence_bundle" ∷ [];
  input_schema = "appeal_template" ∷ "evidence_needed" ∷ "copy_text" ∷ "steps" ∷ [];
  applicable_channels = [];
  attribution_method = "";
  profit_guard = false;
}

abbrev pub issue_repurchase_coupon : Definition
issue_repurchase_coupon = record {
  action_type = "COUPON";
  subject_type = "segment";
  risk_level = "HIGH";
  requires_approval = true;
  execution_method = "not_implemented";
  rollback_method = "expire_coupon";
  success_metric = "incremental_profit";
  default_observation_window = 168;
  required_context = "segment" ∷ "treatment_cost" ∷ [];
  input_schema = "copy_text" ∷ "steps" ∷ [];
  applicable_channels = "MEITUAN" ∷ "TAOBAO_FLASH" ∷ "JD" ∷ "OWNED_CHANNEL" ∷ [];
  attribution_method = "incremental_if_control_else_observed";
  profit_guard = true;
}

abbrev pub reactivate_dormant_customer : Definition
reactivate_dormant_customer = record {
  action_type = "REACTIVATE_DORMANT_CUSTOMER";
  subject_type = "segment";
  risk_level = "HIGH";
  requires_approval = true;
  execution_method = "not_implemented";
  rollback_method = "stop_outreach";
  success_metric = "incremental_orders";
  default_observation_window = 168;
  required_context = "segment" ∷ "treatment_cost" ∷ [];
  input_schema = "copy_text" ∷ "steps" ∷ [];
  applicable_channels = "MEITUAN" ∷ "OWNED_CHANNEL" ∷ [];
  attribution_method = "incremental_if_control_else_observed";
  profit_guard = true;
}

abbrev pub referral_share : Definition
referral_share = record {
  action_type = "REFERRAL";
  subject_type = "store";
  risk_level = "MEDIUM";
  requires_approval = true;
  execution_method = "not_implemented";
  rollback_method = "disable_link";
  success_metric = "paid_store";
  default_observation_window = 720;
  required_context = "share_id" ∷ [];
  input_schema = "copy_text" ∷ [];
  applicable_channels = "OWNED_CHANNEL" ∷ [];
  attribution_method = "referral_graph";
  profit_guard = true;
}

abbrev pub ops_hint : Definition
ops_hint = record {
  action_type = "OPS_HINT";
  subject_type = "store";
  risk_level = "LOW";
  requires_approval = true;
  execution_method = "human_execute";
  rollback_method = "manual_follow_up";
  success_metric = "ops_outcome";
  default_observation_window = 48;
  required_context = "title" ∷ [];
  input_schema = "copy_text" ∷ "steps" ∷ [];
  applicable_channels = [];
  attribution_method = "";
  profit_guard = false;
}

-- `ACTION_REGISTRY`
abbrev pub registry : List (String × Definition)
registry =
    ("change_main_image", change_main_image)
    ∷ ("change_title", change_title)
    ∷ ("batch_reply_negative_reviews", batch_reply_negative_reviews)
    ∷ ("reply_ordinary_reviews", reply_ordinary_reviews)
    ∷ ("appeal_pack", appeal_pack)
    ∷ ("issue_repurchase_coupon", issue_repurchase_coupon)
    ∷ ("reactivate_dormant_customer", reactivate_dormant_customer)
    ∷ ("referral_share", referral_share)
    ∷ ("ops_hint", ops_hint)
    ∷ []

find_definition : String → List (String × Definition) → Option Definition
find_definition k [] = none
find_definition k ((j, d) ∷ rest) = if k == j then some d else find_definition k rest

-- `ACTION_REGISTRY.get(str(action_type or "").strip())`
unfoldable pub lookup_action : String → Option Definition
unfolding find_definition
lookup_action t = find_definition (strip t) registry

-- What every entry satisfies, a definition that is found satisfies.
find_definition-All :
    (P : Definition → Type 0) (k : String) (l : List (String × Definition))
    → All (λ e. P e.1) l
    → (d : Definition) → find_definition k l ≡ some d
    → P d
unfolding find_definition
find_definition-All P k [] h d e = cc
find_definition-All P k ((j, x) ∷ rest) h d e = elim (Bool-cases (k == j)) [
  | inl same ↦ subst P (some-injective x d (rw same at e)) h.0
  | inr other ↦ find_definition-All P k rest h.1 d (rw other at e)
]

pub lookup_action-All :
    (P : Definition → Type 0)
    → All (λ e. P e.1) registry
    → (t : String) (d : Definition) → lookup_action t ≡ some d
    → P d
unfolding lookup_action
lookup_action-All P h t d e = find_definition-All P (strip t) registry h d e

unfoldable pub definition_or_hint : Option Definition → Definition
definition_or_hint none = ops_hint
definition_or_hint (some d) = d

unfoldable pub get_action_definition : String → Definition
unfolding definition_or_hint
get_action_definition t = definition_or_hint (lookup_action t)

-- `spec["execution_capability"]`
unfoldable pub spec_capability : String → String
spec_capability m =
    if m == "not_implemented"
    then "NOT_IMPLEMENTED"
    else if m == "platform_or_human"
    then "IMPLEMENTED"
    else "MANUAL_ONLY"

-- the keys of an action spec that decide how it is executed; the prose of the spec is left out
pub record ActionSpec : Type 0 where
  pub registry_key : String
  pub type : String
  pub risk_level : String
  pub requires_approval : Bool
  pub execution_method : String
  pub execution_capability : String
  pub rollback_method : String
  pub observation_window_hours : ℕ
  pub executor_modes : List String

unfoldable pub build_action_spec : String → Option ℕ → ActionSpec
unfolding get_action_definition
build_action_spec t observe_hours =
    let d = get_action_definition t in
    record {
      registry_key = or_text (strip t) "ops_hint";
      type = d.action_type;
      risk_level = d.risk_level;
      requires_approval = d.requires_approval;
      execution_method = d.execution_method;
      execution_capability = spec_capability d.execution_method;
      rollback_method = d.rollback_method;
      observation_window_hours =
          or_else (or_number observe_hours (or_number (some d.default_observation_window) none)) 48;
      executor_modes =
          if d.execution_method == "platform_or_human"
          then "human" ∷ "platform" ∷ []
          else "human" ∷ [];
    }
