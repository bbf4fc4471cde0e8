-- ===== src/Commercial/Pricing.antt =====
-- app/services/commercial/pricing.py: the quote of a subscription. Amounts are in cents; the unit of a
-- cycle is rounded by the parameter `round`.
pub mod Floor
use meal_key_ecosystem.Base.{
  ℕ, if◌then◌else◌, ◌-◌, Bool, String, eq_nat, lower, ◌*◌, ltb, strip, ◌==◌, ◌||◌,
}
use meal_key_ecosystem.Commercial.Policy.{volume_price, VolumePrice, subscription_floor}

pub data Cycle : Type 0 where
  monthly_cycle quarterly_cycle annual_cycle : Cycle

-- `CYCLE_ALIASES`
normalize_cycle : String → Cycle
normalize_cycle text =
    let raw = lower (strip text) in
    if raw == "annual" || raw == "year" || raw == "yearly"
    then annual_cycle
    else if raw == "quarterly" || raw == "quarter" || raw == "q"
    then quarterly_cycle
    else monthly_cycle

pub record SubscriptionQuote : Type 0 where
  pub active_stores : ℕ
  pub billing_cycle : Cycle
  pub unit_monthly : ℕ
  pub unit_quarterly : ℕ
  pub unit_annual : ℕ
  pub equiv_monthly : ℕ
  pub billed : ℕ
  pub paid_quarter_months : ℕ  -- the months that are paid, in quarters of a month
  pub used_months : ℕ
  pub needs_approval : Bool

-- the price of a month, what is billed for a store, and the months paid and used
cycle_terms : (ℕ → ℕ → ℕ) → VolumePrice → Cycle → ℕ × ℕ × ℕ × ℕ
cycle_terms round p annual_cycle = (round p.annual 12, p.annual, 40, 12)
cycle_terms round p quarterly_cycle =
    let unit = round (p.monthly * 275) 100 in (round unit 3, unit, 11, 3)
cycle_terms round p monthly_cycle = (p.monthly, p.monthly, 4, 1)

quote_cycle : (ℕ → ℕ → ℕ) → ℕ → Cycle → SubscriptionQuote
unfolding cycle_terms
quote_cycle round count cycle =
    let stores = if eq_nat count 0 then 1 else count in
    let p = volume_price stores in
    let (equiv, unit, paid, used) = cycle_terms round p cycle in
    record {
      active_stores = stores;
      billing_cycle = cycle;
      unit_monthly = p.monthly;
      unit_quarterly = round (p.monthly * 275) 100;
      unit_annual = p.annual;
      equiv_monthly = equiv;
      billed = unit * stores;
      paid_quarter_months = paid;
      used_months = used;
      needs_approval = ltb equiv subscription_floor;
    }

pub quote_subscription : (ℕ → ℕ → ℕ) → ℕ → String → SubscriptionQuote
unfolding quote_cycle
quote_subscription round count billing_cycle =
    quote_cycle round count (normalize_cycle billing_cycle)

-- the amount that commissions are taken of: what was collected less what was refunded, at least 0
unfoldable pub collected_subscription_base : ℕ → ℕ → ℕ
collected_subscription_base collected refunded = collected - refunded
