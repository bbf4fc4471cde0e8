-- ===== src/Commercial/Policy.antt =====
-- app/services/commercial/policy.py: the tables of prices and rates. Amounts are in cents, rates in
-- percent. A count below 0 is 0, as the code makes it.
use meal_key_ecosystem.Base.{ℕ, if◌then◌else◌, ◌*◌, ltb, ◌≤◌, leb, ◌+◌}

abbrev pub subscription_floor : ℕ
subscription_floor = 20000

abbrev pub partner_y1_base : ℕ
partner_y1_base = 50

pub record VolumePrice : Type 0 where
  pub min_stores : ℕ
  pub monthly : ℕ
  pub annual : ℕ

-- `VOLUME_TIERS` from the first that is reached
unfoldable pub volume_price : ℕ → VolumePrice
volume_price stores =
    if leb 300 stores
    then record { min_stores = 300; monthly = 25000; annual = 250000 }
    else if leb 100 stores
    then record { min_stores = 100; monthly = 26000; annual = 260000 }
    else if leb 50 stores
    then record { min_stores = 50; monthly = 27000; annual = 270000 }
    else if leb 20 stores
    then record { min_stores = 20; monthly = 28000; annual = 280000 }
    else if leb 5 stores
    then record { min_stores = 5; monthly = 29000; annual = 290000 }
    else record { min_stores = 1; monthly = 30000; annual = 300000 }

-- `PARTNER_Y1_BASE` and the bonus of `PARTNER_Y1_BONUS` that is reached
unfoldable pub y1_partner_rate : ℕ → ℕ
y1_partner_rate stores =
    if leb 300 stores
    then 70
    else if leb 100 stores
    then 65
    else if leb 50 stores
    then 60
    else if leb 20 stores
    then 55
    else 50

unfoldable pub lifecycle_partner_rate : ℕ → ℕ → ℕ
lifecycle_partner_rate months y1_rate =
    if ltb months 12
    then y1_rate
    else if ltb months 24
    then 30
    else if ltb months 36
    then 20
    else 10

-- A quotient by `d` is rounded to a nearest number, and never falls. How Python rounds a half is left open.
pub record IsNearest (d : ℕ) (quotient : ℕ → ℕ) : Type 0 where
  pub not_above : (n : ℕ) → 2 * (d * quotient n) ≤ 2 * n + d
  pub not_below : (n : ℕ) → 2 * n ≤ 2 * (d * quotient n) + d
  pub mono : (m n : ℕ) → m ≤ n → quotient m ≤ quotient n

-- `round n d` is `round(n / d, 2)` of an amount; the code divides by these
pub record IsRounding (round : ℕ → ℕ → ℕ) : Type 0 where
  pub cent : IsNearest 100 (λ n. round n 100)
  pub twelfth : IsNearest 12 (λ n. round n 12)
  pub third : IsNearest 3 (λ n. round n 3)
