-- ===== src/Examples/Start.antt =====
-- A store that has just been connected.
use meal_key_ecosystem.Mos.Gate.{
  is_low, pressure, projected_rate, ProfitState, GateRequest, gain, evaluate_profit_gate,
  known_rate,
}
use meal_key_ecosystem.Base.{[], ◌∷◌, none, some, true, false, ◌≡◌, refl, ◌⊎◌, ◌↔◌}
use meal_key_ecosystem.Mos.Mode.{
  MerchantUnderstanding, update_mos_status, operating, safe, is_action_allowed_in_safe_mode,
}
use meal_key_ecosystem.Mos.Mode.Complete.{update_mos_status_operating, IsComplete}
use meal_key_ecosystem.Mos.Gate.Passed.{evaluate_profit_gate_allowed, IsAffordable}

abbrev new_store : MerchantUnderstanding
new_store = record {
  platform_connected = true;
  profile_connected = false;
  priority_style = some "profit";
  low_risk_auto_ok = some true;
  lunch_capacity_per_hour = none;
  profit_floor_rate = none;
  has_item_min_price = false;
  open_gaps = "lunch_capacity" ∷ [];
  mos_satisfied = false;
  mos_blocking_fields = [];
  mos_gap_keys = [];
  system_mode = safe;
}

update_mos_status_operating_example :
    (((update_mos_status new_store).system_mode ≡ operating) ↔ IsComplete new_store)
    × (update_mos_status (update_mos_status new_store) ≡ update_mos_status new_store)
update_mos_status_operating_example = update_mos_status_operating new_store

abbrev healthy_profit : ProfitState
healthy_profit = record {
  data_quality = "good";
  take_home_rate = some 660000;
  contribution_profit_per_order = some (gain 500);
}

abbrev ask : GateRequest
ask = record {
  action_type = "boost_hero_item_ads";
  lift = 1000;
  rate_after = none;
  min_take_home_rate = 580000;
  min_profit_per_order = 350;
  system_mode = operating;
  memory_veto = "";
}

ask_passes : (evaluate_profit_gate healthy_profit ask).allowed ≡ true
unfolding evaluate_profit_gate projected_rate pressure is_low
ask_passes = refl

evaluate_profit_gate_allowed_example :
    (ask.memory_veto ≡ "")
    × ((ask.system_mode ≡ operating) ⊎ (is_action_allowed_in_safe_mode ask.action_type ≡ true))
    × IsAffordable healthy_profit.contribution_profit_per_order ask (known_rate healthy_profit)
evaluate_profit_gate_allowed_example = evaluate_profit_gate_allowed healthy_profit ask ask_passes
