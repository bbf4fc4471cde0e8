-- ===== src/Commercial/Partner.antt =====
-- app/services/commercial/partner.py: what a partner earns of a subscription that was collected. Amounts are
-- in cents, rates in percent; `round` rounds an amount. `none` is `CommissionDenied`.
pub mod Split
use meal_key_ecosystem.Commercial.Pricing.{collected_subscription_base}
use meal_key_ecosystem.Base.{
  ℕ, none, some, ltb, String, Bool, if◌then◌else◌, Option, not, ◌*◌, leb, eq_nat, ◌&&◌, ◌==◌, ◌-◌,
}
use meal_key_ecosystem.Commercial.Policy.{y1_partner_rate, lifecycle_partner_rate, partner_y1_base}

pub record CommissionSplit : Type 0 where
  pub subscription_base : ℕ
  pub y1_rate : ℕ
  pub lifecycle_rate : ℕ
  pub monthly_base : ℕ
  pub performance_accrual : ℕ
  pub payable_now : ℕ
  pub partner : ℕ
  pub mealkey : ℕ
  pub thirty_day_qualified : ℕ
  pub ninety_day_qualified : ℕ
  pub potential_y1_rate : ℕ

-- what the callers count
pub record Counts : Type 0 where
  pub new_qualified_stores : ℕ
  pub ninety_day_qualified_stores : ℕ
  pub months_since_first_paid : ℕ

requires_service_qualification : ℕ → Bool
requires_service_qualification y1_rate = leb 65 y1_rate

-- `assert_direct_only` and `assert_not_self_deal`: whether they let the call pass
pub assert_direct_only : String → Bool
assert_direct_only upline = upline == ""

pub assert_not_self_deal : String → String → String → Bool
assert_not_self_deal license_kind owner earning =
    not (license_kind == "owned") && not (not (owner == "") && owner == earning)

qualified_for : ℕ → Bool → Bool → Bool → ℕ → Bool
qualified_for least paid refunded activated days =
    paid && activated && not refunded && leb least days

unfoldable pub is_new_qualified : Bool → Bool → Bool → ℕ → Bool
unfolding qualified_for
is_new_qualified = qualified_for 30

-- `is_90_day_qualified` is the same
unfoldable pub is_bonus_confirmed : Bool → Bool → Bool → ℕ → Bool
unfolding qualified_for
is_bonus_confirmed = qualified_for 90

-- the split of a base at the rates of a year
split_at : (ℕ → ℕ → ℕ) → ℕ → Counts → CommissionSplit
split_at round base n =
    let y1 = y1_partner_rate n.ninety_day_qualified_stores in
    let life = lifecycle_partner_rate n.months_since_first_paid y1 in
    let first_year = ltb n.months_since_first_paid 12 in
    let partner = round (base * life) 100 in
    let monthly = if first_year then round (base * partner_y1_base) 100 else partner in
    record {
      subscription_base = base;
      y1_rate = y1;
      lifecycle_rate = life;
      monthly_base = monthly;
      performance_accrual = if first_year then partner - monthly else 0;
      payable_now = if first_year then monthly else partner;
      partner = partner;
      mealkey = base - partner;
      thirty_day_qualified = n.new_qualified_stores;
      ninety_day_qualified = n.ninety_day_qualified_stores;
      potential_y1_rate = y1_partner_rate n.new_qualified_stores;
    }

pub split_commission : (ℕ → ℕ → ℕ) → ℕ → ℕ → ℕ → Counts → Option CommissionSplit
unfolding split_at
split_commission round collected refunded include_ai n =
    if eq_nat include_ai 0
    then some (split_at round (collected_subscription_base collected refunded) n)
    else none

-- `true_up_y1_rate`: the old rate, the new one, and whether it is higher
true_up_y1_rate : ℕ → ℕ → ℕ × ℕ × Bool
true_up_y1_rate previous new =
    let old_rate = y1_partner_rate previous in
    let new_rate = y1_partner_rate new in (old_rate, new_rate, ltb old_rate new_rate)

true_up_amount : (ℕ → ℕ → ℕ) → ℕ → ℕ → ℕ → ℕ
true_up_amount round base from_rate to_rate =
    if leb to_rate from_rate then 0 else round (base * (to_rate - from_rate)) 100
