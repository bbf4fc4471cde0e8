-- ===== src/Commercial/Partner/Split.antt =====
-- Where the money of a subscription goes.
use meal_key_ecosystem.Commercial.Pricing.{collected_subscription_base}
use meal_key_ecosystem.Base.{
  ℕ, none, Bool-cases, ◌≤◌, ◌≡◌, ◌+◌, ltb, inl, ◌↔◌, ◌*◌, arith, true, refl, inr, ◌≢◌, Holds,
  eq_nat, mul_mono,
}
use meal_key_ecosystem.Commercial.Partner.{
  split_commission, split_at, CommissionSplit, Counts, collected_subscription_base,
}
use meal_key_ecosystem.Commercial.Policy.{IsRounding, y1_partner_rate, lifecycle_partner_rate}

-- a split of a base: nothing is lost, the partner has at most seven tenths and a half cent, and what is
-- paid now is at most his share
pub record IsFair (base : ℕ) (s : CommissionSplit) : Type 0 where
  pub shared : s.partner + s.mealkey ≡ base
  pub accrued : s.monthly_base + s.performance_accrual ≡ s.partner
  pub paid : s.payable_now ≤ s.partner
  pub capped : 100 * s.partner ≤ 70 * base + 50

rate_bounds : (stores : ℕ) → (50 ≤ y1_partner_rate stores) × (y1_partner_rate stores ≤ 70)
unfolding y1_partner_rate
rate_bounds stores = ground arith

life_bound : (months rate : ℕ) → rate ≤ 70 → lifecycle_partner_rate months rate ≤ 70
unfolding lifecycle_partner_rate
life_bound months rate h = ground (arith, h)

life_first : (months rate : ℕ) → ltb months 12 ≡ true → lifecycle_partner_rate months rate ≡ rate
unfolding lifecycle_partner_rate
life_first months rate h = rw h refl

-- at most 70 percent, rounded, is at most all of it
share_bounds :
    (round : ℕ → ℕ → ℕ) (base rate : ℕ)
    → IsRounding round
    → rate ≤ 70
    → (100 * round (base * rate) 100 ≤ 70 * base + 50) × (round (base * rate) 100 ≤ base)
share_bounds round base rate r h =
    let below : round (base * rate) 100 ≤ round (base * 70) 100 =
      r.cent.mono (base * rate) (base * 70) (mul_mono base rate 70 h) in
    (
      omega (arith, below, r.cent.not_above (base * 70)),
      omega (arith, below, r.cent.not_above (base * 70)),
    )

split_at-IsFair :
    (round : ℕ → ℕ → ℕ) (base : ℕ) (n : Counts)
    → IsRounding round
    → IsFair base (split_at round base n)
unfolding split_at
split_at-IsFair round base n r =
    let rate = y1_partner_rate n.ninety_day_qualified_stores in
    let life = lifecycle_partner_rate n.months_since_first_paid rate in
    let most : life ≤ 70 = life_bound n.months_since_first_paid rate (rate_bounds _).1 in
    let low : ltb n.months_since_first_paid 12 ≡ true → 50 ≤ life = λ e.
      (omega (
        arith,
        life_first n.months_since_first_paid rate e,
        (rate_bounds n.ninety_day_qualified_stores).0,
      )) in
    let (cap, whole) = share_bounds round base life r most in
    elim (Bool-cases (ltb n.months_since_first_paid 12)) [
      | inl e ↦
          let least : round (base * 50) 100 ≤ round (base * life) 100 =
            r.cent.mono (base * 50) (base * life) (mul_mono base 50 life (low e)) in
          record {
            shared = omega (arith, whole);
            accrued = rw e (omega (arith, least));
            paid = rw e least;
            capped = cap;
          }
      | inr e ↦ record {
        shared = omega (arith, whole);
        accrued = rw e (omega arith);
        paid = rw e (omega arith);
        capped = cap;
      }
    ]

-- A commission is denied exactly if it would include AI compute; otherwise the partner's share and MealKey's
-- add up to the base, the share is the monthly base and the accrual and at most seven tenths of the base
-- (and half a cent), and no more than it is payable now.
pub split_commission-IsFair :
    (round : ℕ → ℕ → ℕ) (collected refunded include_ai : ℕ) (n : Counts)
    → IsRounding round
    → ((split_commission round collected refunded include_ai n ≡ none) ↔ (include_ai ≢ 0))
      × Holds
          (IsFair (collected_subscription_base collected refunded))
          (split_commission round collected refunded include_ai n)
unfolding split_commission
split_commission-IsFair round collected refunded include_ai n r =
    elim (Bool-cases (eq_nat include_ai 0)) [
      | inl e ↦ rw e ((λ h. cc, λ h. absurd (h (ground (arith, e)))), split_at-IsFair round _ n r)
      | inr e ↦ rw e ((λ h same. ground (arith, e, same), λ h. refl), tt)
    ]
