-- ===== src/Policy/Arbitration.antt =====
-- What the arbitration promises: who must have agreed to an automatic action, and how trust and memory
-- change the mode.
use meal_key_ecosystem.Base.{ℕ, ◌≤◌, ◌≡◌, ◌⊎◌, Bool, true, false, arith, is_in, refl}
use meal_key_ecosystem.Policy.{
  auto_and_report, Request, core_arbitrate, zero_risk_actions, auto_executable_actions,
  auto_remembered, effective_trust, auto_zero_risk, auto_low_risk, auto_trusted,
}

-- An action runs without the owner only with a confidence of at least one half, no failure of the same
-- kind in the memory, and a trust level above 0 or a success in the memory.
pub core_arbitrate_auto :
    (r : Request) (neg pos : Bool)
    → core_arbitrate r neg pos ≡ auto_and_report
    → (500000 ≤ r.confidence) × (neg ≡ false) × ((1 ≤ r.trust_level) ⊎ (pos ≡ true))
unfolding core_arbitrate auto_zero_risk auto_remembered auto_low_risk auto_trusted
core_arbitrate_auto r neg pos h = ground arith

-- An action outside the two allowlists runs without the owner only at an effective trust of 3, with a
-- confidence of at least 0.75 and the profit gate passed.
pub core_arbitrate_outside :
    (r : Request) (neg pos : Bool)
    → core_arbitrate r neg pos ≡ auto_and_report
    → is_in r.action_type zero_risk_actions ≡ false
    → is_in r.action_type auto_executable_actions ≡ false
    → (750000 ≤ r.confidence) × (r.profit_gate_passed ≡ true) × (2 ≤ r.trust_level)
unfolding core_arbitrate auto_zero_risk auto_remembered auto_low_risk auto_trusted
core_arbitrate_outside r neg pos h a b = ground arith

-- the tests read the trust that they are given, and grow with it
module _ (r : Request) (own t u : ℕ) (le : t ≤ u) where
  auto_zero_risk_mono :
      auto_zero_risk r t ≡ true → auto_zero_risk (record r { trust_level = own }) u ≡ true
  unfolding auto_zero_risk
  auto_zero_risk_mono h = ground arith

  auto_low_risk_mono :
      auto_low_risk r t ≡ true → auto_low_risk (record r { trust_level = own }) u ≡ true
  unfolding auto_low_risk
  auto_low_risk_mono h = ground arith

  auto_trusted_mono :
      auto_trusted r t ≡ true → auto_trusted (record r { trust_level = own }) u ≡ true
  unfolding auto_trusted
  auto_trusted_mono h = ground arith

auto_remembered_mono :
    (r : Request) (own : ℕ) (pos more : Bool)
    → (pos ≡ true → more ≡ true)
    → auto_remembered r pos ≡ true
    → auto_remembered (record r { trust_level = own }) more ≡ true
unfolding auto_remembered
auto_remembered_mono r own false more le h = cc
auto_remembered_mono r own true more le h = rw (le refl) h

effective_trust_mono :
    (t u : ℕ) (pos more : Bool)
    → t ≤ u
    → (pos ≡ true → more ≡ true)
    → effective_trust t pos ≤ effective_trust u more
effective_trust_mono t u pos more le imp = ground (arith, imp)

-- More trust and more successes in the memory never take an automatic action back.
pub core_arbitrate_mono :
    (r : Request) (trust : ℕ) (neg pos more : Bool)
    → r.trust_level ≤ trust
    → (pos ≡ true → more ≡ true)
    → core_arbitrate r neg pos ≡ auto_and_report
    → core_arbitrate (record r { trust_level = trust }) neg more ≡ auto_and_report
unfolding core_arbitrate
core_arbitrate_mono r trust neg pos more le imp h =
    let t = effective_trust r.trust_level pos in
    let u = effective_trust trust more in
    let grows = effective_trust_mono r.trust_level trust pos more le imp in
    ground (
      arith,
      grows,
      auto_zero_risk_mono r trust t u grows,
      auto_low_risk_mono r trust t u grows,
      auto_trusted_mono r trust t u grows,
      auto_remembered_mono r trust pos more imp,
    )
