-- ===== src/Mos/Gate/Passed.antt =====
-- What holds of an action that the gate lets pass.
use meal_key_ecosystem.Base.{
  none, some, true, false, Option, Bool, ◌≡◌, ℕ, ◌&&◌, ◌⊎◌, inl, ◌≤◌, arith, inr, Bool-cases, ltb,
  refl, not, ◌==◌, eq_iff,
}
use meal_key_ecosystem.Mos.Gate.{
  evaluate_profit_gate, gate_rate, known_rate, deny, allow, is_safe, is_spending, is_low,
  projected_rate, GateRequest, ProfitState, Profit,
}
use meal_key_ecosystem.Mos.Mode.{safe, SystemMode, operating, is_action_allowed_in_safe_mode}

-- without data the action spends nothing; with a rate, an action that lifts orders leaves at least the least
-- rate, and one that spends does not leave too little profit
abbrev pub IsAffordable : Option Profit → GateRequest → Option ℕ → Type 0
IsAffordable ppo r none = is_spending r.action_type ≡ false
IsAffordable ppo r (some current) =
    ((r.lift ≡ 0) ⊎ (r.min_take_home_rate ≤ projected_rate r current))
    × ((is_spending r.action_type ≡ false) ⊎ (is_low ppo r current ≡ false))

or_parts : (a b : Bool) → a && b ≡ false → (b ≡ false) ⊎ (a ≡ false)
or_parts true b h = inl h
or_parts false b h = inr refl

kept_rate :
    (r : GateRequest) (current : ℕ)
    → ltb (projected_rate r current) r.min_take_home_rate && ltb 0 r.lift ≡ false
    → (r.lift ≡ 0) ⊎ (r.min_take_home_rate ≤ projected_rate r current)
kept_rate r current h =
    elim (or_parts (ltb (projected_rate r current) r.min_take_home_rate) (ltb 0 r.lift) h) [
      | inl e ↦ inl (ground (arith, e))
      | inr e ↦ inr (ground (arith, e))
    ]

safe_parts : (m : SystemMode) (b : Bool) → is_safe m && not b ≡ false → (m ≡ operating) ⊎ (b ≡ true)
unfolding is_safe
safe_parts operating b h = inl refl
safe_parts safe true h = inr refl
safe_parts safe false h = cc

gate_rate-IsAffordable :
    (ppo : Option Profit) (r : GateRequest) (o : Option ℕ)
    → (gate_rate ppo r o).allowed ≡ true
    → IsAffordable ppo r o
unfolding gate_rate deny allow
gate_rate-IsAffordable ppo r none h = ground (arith, h)
gate_rate-IsAffordable ppo r (some current) h =
    elim (Bool-cases (ltb (projected_rate r current) r.min_take_home_rate && ltb 0 r.lift)) [
      | inl e ↦ ground (arith, h, e)
      | inr e ↦ elim (Bool-cases (is_low ppo r current && is_spending r.action_type)) [
        | inl f ↦ ground (arith, h, e, f)
        | inr f ↦ (kept_rate r current e, or_parts _ _ f)
      ]
    ]

-- An action that the gate allows has no veto of the memory; in safe mode it is on the list of that mode;
-- without data on the profit it spends nothing; and with them an action that lifts orders leaves the least
-- take-home rate, and one that spends the least profit of an order, where that is known.
pub evaluate_profit_gate_allowed :
    (p : ProfitState) (r : GateRequest)
    → (evaluate_profit_gate p r).allowed ≡ true
    → (r.memory_veto ≡ "")
      × ((r.system_mode ≡ operating) ⊎ (is_action_allowed_in_safe_mode r.action_type ≡ true))
      × IsAffordable p.contribution_profit_per_order r (known_rate p)
unfolding evaluate_profit_gate deny
evaluate_profit_gate_allowed p r h = elim (Bool-cases (r.memory_veto == "")) [
  | inr e ↦ ground (arith, h, e)
  | inl e ↦
      elim (Bool-cases
        (is_safe r.system_mode && not (is_action_allowed_in_safe_mode r.action_type))) [
          | inl f ↦ ground (arith, h, e, f)
          | inr f ↦ (
            (eq_iff r.memory_veto "").0 e,
            safe_parts r.system_mode _ f,
            gate_rate-IsAffordable _ r _ (ground (arith, h, e, f)),
          )
        ]
]
