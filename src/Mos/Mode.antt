-- ===== src/Mos/Mode.antt =====
-- app/services/mos_engine.py: the minimum operating state (MOS) and the safe mode.
pub mod Complete
use meal_key_ecosystem.Base.{
  none, some, true, false, Bool, Option, String, List, strip, ◌∷◌, is_some, ◌++◌, ◌||◌,
  if◌then◌else◌, ℕ, [], is_in, or_else, not, keep, lookup, ◌==◌, take, ◌&&◌, any_of,
}

pub data SystemMode : Type 0 where
  operating safe : SystemMode

-- the columns of `MerchantUnderstanding` that the engine reads and writes
pub record MerchantUnderstanding : Type 0 where
  pub platform_connected : Bool
  pub profile_connected : Bool  -- `store_profile["platform_connected"]`
  pub priority_style : Option String
  pub low_risk_auto_ok : Option Bool
  pub lunch_capacity_per_hour : Option ℕ
  pub profit_floor_rate : Option ℕ
  pub has_item_min_price : Bool
  pub open_gaps : List String
  pub mos_satisfied : Bool
  pub mos_blocking_fields : List String
  pub mos_gap_keys : List String
  pub system_mode : SystemMode

-- `MOS_TO_GAPS`
abbrev mos_to_gaps : List (String × List String)
mos_to_gaps =
    ("platform_connected", [])
    ∷ ("priority_style", "priority_style" ∷ [])
    ∷ ("risk_boundary", "low_risk_auto" ∷ [])
    ∷ ("key_constraint", "lunch_capacity" ∷ "profit_floor" ∷ "hero_item_floor_price" ∷ [])
    ∷ []

unfoldable pub check_platform : MerchantUnderstanding → Bool
check_platform mu = mu.platform_connected || mu.profile_connected

unfoldable pub check_priority : MerchantUnderstanding → Bool
check_priority mu = is_some mu.priority_style

unfoldable pub check_risk : MerchantUnderstanding → Bool
check_risk mu = is_some mu.low_risk_auto_ok

unfoldable pub check_constraint : MerchantUnderstanding → Bool
check_constraint mu =
    is_some mu.lunch_capacity_per_hour || is_some mu.profit_floor_rate || mu.has_item_min_price

is_nil : List String → Bool
is_nil [] = true
is_nil (x ∷ xs) = false

unless : Bool → String → List String
unless b name = if b then [] else name ∷ []

-- `check_mos`: whether it is satisfied, and the fields that block
pub check_mos : MerchantUnderstanding → Bool × List String
unfolding unless is_nil
check_mos mu =
    let blocking =
      unless (check_platform mu) "platform_connected"
      ++ unless (check_priority mu) "priority_style"
      ++ unless (check_risk mu) "risk_boundary"
      ++ unless (check_constraint mu) "key_constraint" in
    (is_nil blocking, blocking)

-- `list(dict.fromkeys(keys))`
first_of_each : List String → List String → List String
first_of_each seen [] = []
first_of_each seen (k ∷ rest) =
    let skipped = first_of_each seen rest in
    let kept = first_of_each (k ∷ seen) rest in if is_in k seen then skipped else k ∷ kept

expand : List String → List String
expand [] = []
expand (field ∷ rest) = or_else (lookup field mos_to_gaps) (field ∷ []) ++ expand rest

-- `mos_gap_keys_for`
pub mos_gap_keys_for : MerchantUnderstanding → Option (List String) → List String
unfolding first_of_each expand is_nil
mos_gap_keys_for mu blocking =
    let expanded = expand (or_else blocking mu.mos_blocking_fields) in
    let ordered = keep (λ key. is_in key mu.open_gaps) expanded in
    let leftover =
      keep (λ key. is_in key expanded || is_some (lookup key mos_to_gaps)) mu.open_gaps in
    if is_nil mu.open_gaps
    then first_of_each [] expanded
    else if not (is_nil ordered)
    then first_of_each [] ordered
    else if not (is_nil leftover)
    then leftover
    else take 1 mu.open_gaps

blocks_gap : String → String → Bool
blocks_gap key field = is_in key (or_else (lookup field mos_to_gaps) [])

pub gap_blocks_mos : String → MerchantUnderstanding → Bool
unfolding blocks_gap
gap_blocks_mos gap_key mu =
    let key = strip gap_key in
    not (key == "")
    && (is_in key mu.mos_blocking_fields || any_of (blocks_gap key) mu.mos_blocking_fields)

mode_of : Bool → SystemMode
mode_of satisfied = if satisfied then operating else safe

pub determine_system_mode : MerchantUnderstanding → SystemMode
unfolding mode_of
determine_system_mode mu = mode_of (check_mos mu).0

-- `SAFE_MODE_BLOCKED_ACTIONS` lists actions that the last line refuses as well
abbrev safe_mode_allowed_actions : List String
safe_mode_allowed_actions =
    "batch_reply_negative_reviews" ∷ "reply_ordinary_reviews" ∷ "publish_service_reply_scripts"
    ∷ "fix_top_review_theme" ∷ "pin_positive_review_themes" ∷ "refresh_hero_image"
    ∷ "change_main_image" ∷ "change_title" ∷ "menu_patch" ∷ "menu_cleanup" ∷ "add_set_meal" ∷ []

unfoldable pub is_action_allowed_in_safe_mode : String → Bool
is_action_allowed_in_safe_mode action = is_in action safe_mode_allowed_actions

pub update_mos_status : MerchantUnderstanding → MerchantUnderstanding
unfolding mode_of
update_mos_status mu =
    let (satisfied, blocking) = check_mos mu in
    record mu {
      mos_satisfied = satisfied;
      mos_blocking_fields = blocking;
      mos_gap_keys = mos_gap_keys_for mu (some blocking);
      system_mode = mode_of satisfied;
    }
