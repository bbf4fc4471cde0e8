-- ===== src/Commercial/Router/Cheaper.antt =====
-- What the budget does to the model that is chosen.
use meal_key_ecosystem.Base.{
  false, true, ℕ, none, some, String, Bool, ◌≡◌, ◌≤◌, true, arith, strip, ◌&&◌, not, ◌==◌,
  All-is_in, Option, if◌then◌else◌, All, refl, ◌⊎◌, Bool-cases, is_in, inl, inr,
}
use meal_key_ecosystem.Commercial.Router.{
  route_model, route_tier, budget_tier, tier_of, ModelTier, BudgetState, Lane, code, luna, terra,
  sol, normal, throttle, cap_noncritical, operating, is_sol_purpose, is_sol, is_large,
  is_acquisition, sol_purposes,
}

-- the tiers by their price
abbrev pub cost : ModelTier → ℕ
cost code = 0
cost luna = 1
cost terra = 2
cost sol = 3

budget_tier_cheaper :
    (state : BudgetState) (keeps : Bool) (tier : ModelTier)
    → cost (budget_tier state keeps tier) ≤ cost tier
unfolding budget_tier is_sol is_large
budget_tier_cheaper normal keeps tier = omega arith
budget_tier_cheaper throttle keeps code = omega arith
budget_tier_cheaper throttle keeps luna = omega arith
budget_tier_cheaper throttle keeps terra = omega arith
budget_tier_cheaper throttle keeps sol = omega arith
budget_tier_cheaper cap_noncritical true tier = ground arith
budget_tier_cheaper cap_noncritical false tier = ground arith

if_cheaper :
    (b : Bool) (x y z : ModelTier)
    → cost y ≤ cost z
    → cost (if b then x else y) ≤ cost (if b then x else z)
if_cheaper true x y z h = omega arith
if_cheaper false x y z h = h

route_tier_cheaper :
    (purpose : String) (state : BudgetState) (lane : Lane) (o : Option ModelTier)
    → cost (route_tier purpose state lane o) ≤ cost (route_tier purpose normal lane o)
unfolding route_tier
route_tier_cheaper purpose state lane none = omega arith
route_tier_cheaper purpose state lane (some tier) =
    if_cheaper (is_acquisition lane && is_sol tier && not (purpose == "enterprise_audit")) terra
      (budget_tier state (is_sol_purpose purpose) tier) tier
      (budget_tier_cheaper state (is_sol_purpose purpose) tier)

route_cheaper :
    (purpose : String) (state : BudgetState) (lane : Lane)
    → cost (route_model purpose state lane) ≤ cost (route_model purpose normal lane)
unfolding route_model
route_cheaper purpose state lane = route_tier_cheaper purpose state lane (tier_of (strip purpose))

abbrev IsSplit : String → Type 0
IsSplit purpose =
    (route_model purpose throttle operating ≡ terra)
    × (route_model purpose cap_noncritical operating ≡ sol)

sol_routes : All IsSplit sol_purposes
unfolding route_model route_tier tier_of budget_tier strip is_sol_purpose
sol_routes = ((refl, refl), ((refl, refl), ((refl, refl), ((refl, refl), ((refl, refl), tt)))))

-- In no state of the budget, and in neither lane, is a dearer model chosen than with a normal budget; but a
-- purpose of the largest model, which runs on the middle one when four fifths of the budget are used, is back
-- on the largest when the budget is used up.
pub route_model_cheaper :
    (purpose : String) (state : BudgetState) (lane : Lane)
    → (cost (route_model purpose state lane) ≤ cost (route_model purpose normal lane))
      × ((is_sol_purpose purpose ≡ false)
          ⊎ ((route_model purpose throttle operating ≡ terra)
              × (route_model purpose cap_noncritical operating ≡ sol)))
unfolding is_sol_purpose
route_model_cheaper purpose state lane = (
  route_cheaper purpose state lane,
  elim (Bool-cases (is_in purpose sol_purposes)) [
    | inl e ↦ inr (All-is_in IsSplit sol_purposes purpose sol_routes e)
    | inr e ↦ inl e
  ],
)
