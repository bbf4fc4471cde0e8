-- ===== src/Mos/Mode/Complete.antt =====
-- When a store is operated.
use meal_key_ecosystem.Base.{
  ◌⊎◌, inl, inr, is_some, ◌||◌, arith, true, false, ◌≡◌, Bool, String, ◌↔◌, ◌++◌, refl,
}
use meal_key_ecosystem.Mos.Mode.{
  mos_gap_keys_for, MerchantUnderstanding, update_mos_status, check_mos, check_platform,
  check_priority, check_risk, check_constraint, unless, is_nil, mode_of, operating,
  determine_system_mode,
}

-- The platform is connected, and the priority, whether low risks may be taken, and one constraint are known.
abbrev pub IsComplete : MerchantUnderstanding → Type 0
IsComplete mu =
    ((mu.platform_connected ≡ true) ⊎ (mu.profile_connected ≡ true))
    × (is_some mu.priority_style ≡ true)
    × (is_some mu.low_risk_auto_ok ≡ true)
    × ((is_some mu.lunch_capacity_per_hour ≡ true)
        ⊎ (is_some mu.profit_floor_rate ≡ true)
        ⊎ (mu.has_item_min_price ≡ true))

four :
    (a b c d : Bool) (p q r s : String)
    → (is_nil (unless a p ++ unless b q ++ unless c r ++ unless d s) ≡ true)
      ↔ ((a ≡ true) × (b ≡ true) × (c ≡ true) × (d ≡ true))
unfolding unless is_nil
four true true true true p q r s = (λ h. (refl, refl, refl, refl), λ h. refl)
four false b c d p q r s = (λ h. cc, λ h. cc)
four true false c d p q r s = (λ h. cc, λ h. cc)
four true true false d p q r s = (λ h. cc, λ h. cc)
four true true true false p q r s = (λ h. cc, λ h. cc)

mode_operating : (b : Bool) → (mode_of b ≡ operating) ↔ (b ≡ true)
unfolding mode_of
mode_operating true = (λ h. refl, λ h. refl)
mode_operating false = (λ h. cc, λ h. cc)

update_again :
    (mu : MerchantUnderstanding) → update_mos_status (update_mos_status mu) ≡ update_mos_status mu
unfolding update_mos_status check_mos check_platform check_priority check_risk check_constraint
    mos_gap_keys_for
update_again mu = refl

or_cases : (a b : Bool) → (a || b ≡ true) ↔ ((a ≡ true) ⊎ (b ≡ true))
or_cases true b = (λ h. inl refl, λ h. refl)
or_cases false b = (λ h. inr h, λ h. elim h [ inl e ↦ absurd (ground (arith, e)) | inr e ↦ e ])

checks-IsComplete :
    (mu : MerchantUnderstanding)
    → ((check_platform mu ≡ true)
        × (check_priority mu ≡ true)
        × (check_risk mu ≡ true)
        × (check_constraint mu ≡ true))
      ↔ IsComplete mu
unfolding check_platform check_priority check_risk check_constraint
checks-IsComplete mu =
    let p = or_cases mu.platform_connected mu.profile_connected in
    let a = is_some mu.lunch_capacity_per_hour in
    let b = is_some mu.profit_floor_rate in
    (
      λ h. (p.0 h.0, h.1, h.2, three a b mu.has_item_min_price h.3),
      λ h. (p.1 h.0, h.1, h.2, one_of a b mu.has_item_min_price h.3),
    )
  where
    three : (a b c : Bool) → a || b || c ≡ true → (a ≡ true) ⊎ (b ≡ true) ⊎ (c ≡ true)
    three true b c h = inl refl
    three false true c h = inr (inl refl)
    three false false c h = inr (inr h)

    one_of : (a b c : Bool) → (a ≡ true) ⊎ (b ≡ true) ⊎ (c ≡ true) → a || b || c ≡ true
    one_of true b c h = refl
    one_of false true c h = refl
    one_of false false c h = ground (arith, h)

-- After an update the store is operated exactly if its platform is connected (in its own column or in the
-- profile), its priority style is known, it is known whether low risks may be taken without asking, and one
-- of the lunch capacity, the profit floor and the items' least prices is given; a second update changes
-- nothing.
pub update_mos_status_operating :
    (mu : MerchantUnderstanding)
    → (((update_mos_status mu).system_mode ≡ operating) ↔ IsComplete mu)
      × (update_mos_status (update_mos_status mu) ≡ update_mos_status mu)
unfolding update_mos_status check_mos determine_system_mode
update_mos_status_operating mu =
    let all =
      four (check_platform mu) (check_priority mu) (check_risk mu) (check_constraint mu)
        "platform_connected" "priority_style" "risk_boundary" "key_constraint" in
    let known = checks-IsComplete mu in
    let mode = mode_operating (check_mos mu).0 in
    ((λ h. known.0 (all.0 (mode.0 h)), λ h. mode.1 (all.1 (known.1 h))), update_again mu)
