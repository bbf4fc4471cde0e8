-- ===== src/Commercial/Pricing/Floor.antt =====
-- The bounds of a quoted price.
use meal_key_ecosystem.Base.{ℕ, String, arith, ◌≡◌, ◌≤◌, false, ◌*◌, if◌then◌else◌, eq_nat}
use meal_key_ecosystem.Commercial.Pricing.{
  quote_subscription, quote_cycle, cycle_terms, normalize_cycle, Cycle, annual_cycle,
  quarterly_cycle, monthly_cycle,
}
use meal_key_ecosystem.Commercial.Policy.{IsRounding, volume_price, VolumePrice, subscription_floor}

-- a year is ten months of the monthly price, which lies between 250 and 300
abbrev IsTier : VolumePrice → Type 0
IsTier p = (p.annual ≡ 10 * p.monthly) × (25000 ≤ p.monthly) × (p.monthly ≤ 30000)

volume_price-IsTier : (stores : ℕ) → IsTier (volume_price stores)
unfolding volume_price
volume_price-IsTier stores = ground arith

terms_bounds :
    (round : ℕ → ℕ → ℕ) (p : VolumePrice) (cycle : Cycle)
    → IsRounding round
    → IsTier p
    → (20000 ≤ (cycle_terms round p cycle).0) × ((cycle_terms round p cycle).0 ≤ p.monthly)
unfolding cycle_terms
terms_bounds round p annual_cycle r h =
    (omega (arith, r.twelfth.not_below p.annual, h), omega (arith, r.twelfth.not_above p.annual, h))
terms_bounds round p quarterly_cycle r h =
    let unit = round (p.monthly * 275) 100 in
    (
      omega (arith, r.cent.not_below (p.monthly * 275), r.third.not_below unit, h),
      omega (arith, r.cent.not_above (p.monthly * 275), r.third.not_above unit, h),
    )
terms_bounds round p monthly_cycle r h = (omega (arith, h), omega arith)

-- Whatever the number of stores and the billing cycle, the price of a month stays at the floor of 200 or
-- above and is at most the monthly price of the stores' tier, so no quote needs an approval.
pub quote_subscription_bounds :
    (round : ℕ → ℕ → ℕ) (stores : ℕ) (cycle : String)
    → IsRounding round
    → ((quote_subscription round stores cycle).needs_approval ≡ false)
      × (subscription_floor ≤ (quote_subscription round stores cycle).equiv_monthly)
      × ((quote_subscription round stores cycle).equiv_monthly
          ≤ (quote_subscription round stores cycle).unit_monthly)
unfolding quote_subscription quote_cycle
quote_subscription_bounds round stores cycle r =
    let p = volume_price (if eq_nat stores 0 then 1 else stores) in
    let h = terms_bounds round p (normalize_cycle cycle) r (volume_price-IsTier _) in
    (ground (arith, h.0), h.0, h.1)
