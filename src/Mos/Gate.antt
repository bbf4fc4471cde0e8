-- ===== src/Mos/Gate.antt =====
-- app/services/profit_gate.py. Rates are in millionths, amounts in cents. The expected lift of orders is in
-- hundredths of a percent; a fall is 0, since the gate reads only the part above 0. The reason's text and the
-- projected profit are left out of the decision.
pub mod Passed
use meal_key_ecosystem.Base.{
  none, some, true, false, ℕ, Bool, String, Option, if◌then◌else◌, or_else, eq_nat, ◌==◌, ◌+◌, not,
  is_in, ltb, ◌∷◌, ◌-◌, ◌&&◌, ◌*◌, [],
}
use meal_key_ecosystem.Mos.Mode.{SystemMode, operating, safe, is_action_allowed_in_safe_mode}

pub data Profit : Type 0 where
  gain loss : ℕ → Profit

-- the fields of `ProfitState` that the gate reads
pub record ProfitState : Type 0 where
  pub data_quality : String
  pub take_home_rate : Option ℕ
  pub contribution_profit_per_order : Option Profit

pub record GateRequest : Type 0 where
  pub action_type : String
  pub lift : ℕ
  pub rate_after : Option ℕ
  pub min_take_home_rate : ℕ
  pub min_profit_per_order : ℕ
  pub system_mode : SystemMode
  pub memory_veto : String  -- "" is none

pub data Verdict : Type 0 where
  blocked_memory blocked_safe_mode blocked pass_limited : Verdict
  reject_buy_gmv reject_low_contribution passed : Verdict

pub record ProfitGateDecision : Type 0 where
  pub allowed : Bool
  pub verdict : Verdict
  pub projected_take_home_rate : Option ℕ

-- the actions that spend money
unfoldable pub is_spending : String → Bool
is_spending action = is_in action (
    "join_lunch_campaign" ∷ "match_competitor_promo" ∷ "boost_hero_item_ads" ∷ "store_discount"
    ∷ [])

unfoldable pub is_promo : String → Bool
is_promo action =
    is_in action ("join_lunch_campaign" ∷ "match_competitor_promo" ∷ "store_discount" ∷ [])

unfoldable pub is_ads : String → Bool
is_ads action = is_in action ("boost_hero_item_ads" ∷ "shift_ads_to_high_cvr_item" ∷ [])

-- what an action takes of the rate: 6 percent and 0.15 of a percent for each percent of lift, or 3 and 0.1
unfoldable pub pressure : String → ℕ → ℕ
unfolding is_promo is_ads
pressure action lift =
    if is_promo action then 60000 + lift * 15 else (if is_ads action then 30000 + lift * 10 else 0)

-- the rate after the action
unfoldable pub projected_rate : GateRequest → ℕ → ℕ
projected_rate r current = or_else r.rate_after (current - pressure r.action_type r.lift)

-- the profit times `num / den` is below a floor
unfoldable pub below : Profit → ℕ → ℕ → ℕ → Bool
below (gain n) num den floor = ltb (n * num) (floor * den)
below (loss n) num den floor = ltb 0 (floor * den + n * num)

-- the projected profit of an order is known and below the floor; a rate of 0 leaves the profit as it is
unfoldable pub is_low : Option Profit → GateRequest → ℕ → Bool
unfolding below
is_low none r current = false
is_low (some p) r current =
    if eq_nat current 0
    then below p 1 1 r.min_profit_per_order
    else below p (projected_rate r current) current r.min_profit_per_order

-- the current rate, where there are data
unfoldable pub known_rate : ProfitState → Option ℕ
known_rate p = if p.data_quality == "missing" then none else p.take_home_rate

unfoldable pub deny : Verdict → Option ℕ → ProfitGateDecision
deny v rate = record { allowed = false; verdict = v; projected_take_home_rate = rate }

unfoldable pub allow : Verdict → Option ℕ → ProfitGateDecision
allow v rate = record { allowed = true; verdict = v; projected_take_home_rate = rate }

unfoldable pub is_safe : SystemMode → Bool
is_safe safe = true
is_safe operating = false

-- the gate of a profit whose rate is known, or is not
unfoldable pub gate_rate : Option Profit → GateRequest → Option ℕ → ProfitGateDecision
unfolding deny allow
gate_rate ppo r none =
    if is_spending r.action_type then deny blocked none else allow pass_limited none
gate_rate ppo r (some current) =
    let after = projected_rate r current in
    if ltb after r.min_take_home_rate && ltb 0 r.lift
    then deny reject_buy_gmv (some after)
    else if is_low ppo r current && is_spending r.action_type
    then deny reject_low_contribution (some after)
    else allow passed (some after)

unfoldable pub evaluate_profit_gate : ProfitState → GateRequest → ProfitGateDecision
unfolding gate_rate known_rate deny is_safe
evaluate_profit_gate p r =
    if not (r.memory_veto == "")
    then deny blocked_memory none
    else if is_safe r.system_mode && not (is_action_allowed_in_safe_mode r.action_type)
    then deny blocked_safe_mode none
    else gate_rate p.contribution_profit_per_order r (known_rate p)
