-- ===== src/Actions/Capability.antt =====
-- app/services/action_capability.py: what the registry allows to be executed.
use meal_key_ecosystem.Base.{
  String, true, Option, none, some, ◌≡◌, ◌==◌, ◌⊎◌, arith, if◌then◌else◌, strip, ◌↔◌, refl, ℕ, All,
}
use meal_key_ecosystem.Actions.Registry.{
  lookup_action, build_action_spec, get_action_definition, Definition, spec_capability, registry,
  lookup_action-All, definition_or_hint,
}

pub data Capability : Type 0 where
  implemented read_only manual_only not_implemented disabled : Capability

-- `_METHOD_TO_CAPABILITY.get(method, MANUAL_ONLY)`
method_capability : String → Capability
method_capability m =
    if m == "platform_or_human"
    then implemented
    else if m == "not_implemented"
    then not_implemented
    else if m == "disabled"
    then disabled
    else if m == "read_only"
    then read_only
    else manual_only

found_capability : Option Definition → Capability
unfolding method_capability
found_capability none = manual_only
found_capability (some d) = method_capability d.execution_method

unfoldable pub execution_capability : String → Capability
unfolding found_capability
execution_capability t = found_capability (lookup_action t)

-- the codes of `ActionCapabilityError`
pub data BlockCode : Type 0 where
  blocked_not_implemented blocked_disabled blocked_read_only : BlockCode

block_code : Capability → Option BlockCode
block_code not_implemented = some blocked_not_implemented
block_code disabled = some blocked_disabled
block_code read_only = some blocked_read_only
block_code _ = none

-- `none` is a return, `some code` the exception
unfoldable pub assert_action_executable : String → Option BlockCode
unfolding block_code
assert_action_executable t = block_code (execution_capability t)

-- An action passes exactly when its capability is `IMPLEMENTED` or `MANUAL_ONLY`.
pub assert_action_executable_passes :
    (t : String)
    → (assert_action_executable t ≡ none)
      ↔ ((execution_capability t ≡ implemented) ⊎ (execution_capability t ≡ manual_only))
unfolding assert_action_executable
assert_action_executable_passes t = (λ h. ground arith, λ h. ground arith)

-- the text of a capability in an action spec
abbrev pub capability_name : Capability → String
capability_name implemented = "IMPLEMENTED"
capability_name read_only = "READ_ONLY"
capability_name manual_only = "MANUAL_ONLY"
capability_name not_implemented = "NOT_IMPLEMENTED"
capability_name disabled = "DISABLED"

-- the two readings of an execution method
abbrev Agree : Definition → Type 0
Agree d =
    spec_capability d.execution_method ≡ capability_name (method_capability d.execution_method)

registry_agrees : All (λ e. Agree e.1) registry
unfolding spec_capability method_capability
registry_agrees = (refl, (refl, (refl, (refl, (refl, (refl, (refl, (refl, (refl, tt)))))))))

capabilities-Agree :
    (o : Option Definition)
    → ((d : Definition) → o ≡ some d → Agree d)
    → spec_capability (definition_or_hint o).execution_method ≡ capability_name (found_capability o)
unfolding spec_capability definition_or_hint found_capability
capabilities-Agree none h = refl
capabilities-Agree (some d) h = h d refl

-- For every action type, registered or not, the capability that its spec shows is the one that the
-- executability check reads.
pub build_action_spec_capability :
    (t : String) (hours : Option ℕ)
    → (build_action_spec t hours).execution_capability ≡ capability_name (execution_capability t)
unfolding build_action_spec execution_capability
build_action_spec_capability t hours =
    capabilities-Agree (lookup_action t) (lookup_action-All Agree registry_agrees t)

registry_approvals : All (λ e. e.1.requires_approval ≡ true) registry
registry_approvals = (refl, (refl, (refl, (refl, (refl, (refl, (refl, (refl, (refl, tt)))))))))

approval_needed :
    (o : Option Definition)
    → ((d : Definition) → o ≡ some d → d.requires_approval ≡ true)
    → (definition_or_hint o).requires_approval ≡ true
unfolding definition_or_hint
approval_needed none h = refl
approval_needed (some d) h = h d refl

-- Every action type, registered or not, needs an approval.
pub requires_approval_always : (t : String) → (get_action_definition t).requires_approval ≡ true
unfolding get_action_definition
requires_approval_always t =
    approval_needed (lookup_action t)
      (lookup_action-All (λ x. x.requires_approval ≡ true) registry_approvals t)

coupon_blocked : assert_action_executable "issue_repurchase_coupon" ≡ some blocked_not_implemented
unfolding assert_action_executable execution_capability lookup_action strip
coupon_blocked = refl

unknown_is_manual : execution_capability "boost_hero_item_ads" ≡ manual_only
unfolding execution_capability lookup_action strip
unknown_is_manual = refl
