-- ===== src/Ticks/Light/Modest.antt =====
-- What the light tick of app/services/operating_clock.py leaves alone.
use meal_key_ecosystem.Base.{
  ◌&&◌, [], true, false, ◌≡◌, length, ℕ, Bool, arith, ◌⊎◌, ◌≤◌, refl, List, inr, String,
  length-keep_le, inl, ◌∙◌,
}
use meal_key_ecosystem.Models.{RowId}
use meal_key_ecosystem.Policy.AutoPilot.Limits.{auto_execute_bounded}
use meal_key_ecosystem.Policy.AutoPilot.{Entry, auto_execute_recommendations}
use meal_key_ecosystem.Flow.Now.{Owner, boss, ai}
use meal_key_ecosystem.Flow.Rhythm.{Hours}
use meal_key_ecosystem.Flow.Rhythm.Peaks.{IsPeak}
use meal_key_ecosystem.Flow.Cards.{OpsQueueBrief, OperatingEvent}
use meal_key_ecosystem.Flow.Project.{DecisionFlow, flow_at}
use meal_key_ecosystem.Flow.Project.Interrupts.{peak_interrupts}
use meal_key_ecosystem.Ticks.Light.{
  Shop, TickEnv, LightResult, no_auto_execute, auto_step, execute_if, may_execute, tell_if, pin_if,
  tick_if_open, is_owners, waits_for_boss, idle, apply_light_tick, is_silent,
}

-- the menu and the recommendations as they were
abbrev pub IsUntouched : Shop → Shop → Type 0
IsUntouched a b = (a.menu ≡ b.menu) × (a.recs ≡ b.recs)

execute_if_bounded :
    (b : Bool) (env : TickEnv) (store : RowId) (shop : Shop)
    → length ((execute_if b env store shop).0) ≤ 1
unfolding execute_if auto_step
execute_if_bounded false env store shop = omega arith
execute_if_bounded true env store shop = omega (
  arith,
  auto_execute_bounded shop.memory store env.clock.now shop.trust_setting 1 3 shop.recs shop.menu,
  length-keep_le (λ (e : Entry). e.applied)
      (auto_execute_recommendations shop.memory store env.clock.now shop.trust_setting 1 3 shop.recs
        shop.menu).done,
)

execute_if_allowed :
    (b : Bool) (env : TickEnv) (store : RowId) (shop : Shop)
    → (b ≡ true)
      ⊎ (((execute_if b env store shop).0 ≡ [])
          × IsUntouched (execute_if b env store shop).1 shop
          × ((execute_if b env store shop).1.notices ≡ shop.notices))
unfolding execute_if
execute_if_allowed true env store shop = inl refl
execute_if_allowed false env store shop = inr (refl, (refl, refl), refl)

told_if :
    (b : Bool) (env : TickEnv) (store : RowId) (flow : DecisionFlow) (shop : Shop)
    → ((((tell_if b env store flow shop).0 ≡ false)
          × ((tell_if b env store flow shop).1.notices ≡ shop.notices))
        ⊎ (b ≡ true))
      × IsUntouched (tell_if b env store flow shop).1 shop
unfolding tell_if
told_if false env store flow shop = (inl (refl, refl), (refl, refl))
told_if true env store flow shop = (inr refl, (refl, refl))

pinned_if :
    (b : Bool) (env : TickEnv) (store : RowId) (flow : DecisionFlow) (shop : Shop)
    → IsUntouched (pin_if b env store flow shop).1 shop
      × ((pin_if b env store flow shop).1.notices ≡ shop.notices)
unfolding pin_if
pinned_if false env store flow shop = ((refl, refl), refl)
pinned_if true env store flow shop = ((refl, refl), refl)

is_owners-eq : (o : Owner) → is_owners o ≡ true → o ≡ boss
unfolding is_owners
is_owners-eq boss h = refl
is_owners-eq ai h = absurd (ground (arith, h))

-- what a light tick does to a shop at most
abbrev pub IsModest : DecisionFlow → Shop → LightResult × Shop → Type 0
IsModest flow shop r =
    (length ((r.0).auto_executed) ≤ 1)
    × (((no_auto_execute flow.phase ≡ false) × (flow.protect_mode ≡ false))
        ⊎ (((r.0).auto_executed ≡ []) × IsUntouched (r.1) shop))
    × (((r.0).notified ≡ false) ⊎ ((flow.interrupt_ok ≡ true) × (flow.now.owner ≡ boss)))
    × (((no_auto_execute flow.phase ≡ false) × (flow.protect_mode ≡ false))
        ⊎ ((flow.interrupt_ok ≡ true) × (flow.now.owner ≡ boss))
        ⊎ ((r.1).notices ≡ shop.notices))

tick_if_open-IsModest :
    (b : Bool) (env : TickEnv) (store : RowId) (flow : DecisionFlow) (shop : Shop)
    → IsModest flow shop (tick_if_open b env store flow shop)
unfolding tick_if_open idle may_execute waits_for_boss
tick_if_open-IsModest true env store flow shop =
    (omega arith, inr (refl, (refl, refl)), inl refl, inr (inr refl))
tick_if_open-IsModest false env store flow shop =
    let shop1 = (execute_if (may_execute flow) env store shop).1 in
    let shop2 = (tell_if (flow.interrupt_ok && waits_for_boss flow) env store flow shop1).1 in
    let told = told_if (flow.interrupt_ok && waits_for_boss flow) env store flow shop1 in
    let pinned = pinned_if (waits_for_boss flow) env store flow shop2 in
    let done = execute_if_allowed (may_execute flow) env store shop in
    (
      execute_if_bounded (may_execute flow) env store shop,
      elim done [
        | inl e ↦ inl (ground (arith, e), ground (arith, e))
        | inr (none_done, same, quiet) ↦
            inr (none_done, (pinned.0.0 ∙ told.1.0 ∙ same.0, pinned.0.1 ∙ told.1.1 ∙ same.1))
      ],
      elim (told.0) [
        | inl (e, quiet) ↦ inl e
        | inr e ↦ inr (ground (arith, e), is_owners-eq flow.now.owner (ground (arith, e)))
      ],
      elim done [
        | inl e ↦ inl (ground (arith, e), ground (arith, e))
        | inr (none_done, same, quiet) ↦ elim (told.0) [
          | inl (e, still) ↦ inr (inr (pinned.1 ∙ still ∙ quiet))
          | inr e ↦ inr (inl (ground (arith, e), is_owners-eq flow.now.owner (ground (arith, e))))
        ]
      ],
    )

-- A light tick carries out at most one action. In the phases that protect the store it carries out none
-- and leaves the menu and the recommendations as they are. It asks the owner about the step of the moment
-- (`notified`) only if the flow may interrupt the owner and its step is the owner's; where it neither may
-- do that nor carry anything out, it leaves every notice as it was.
pub apply_light_tick-IsModest :
    (env : TickEnv) (store : RowId) (flow : DecisionFlow) (shop : Shop)
    → IsModest flow shop (apply_light_tick env store flow shop)
unfolding apply_light_tick
apply_light_tick-IsModest env store flow shop =
    tick_if_open-IsModest (is_silent flow.phase) env store flow shop

-- In a store whose lunch starts no later than its dinner, at an hour from six in the morning on that lies
-- in its lunch or dinner hours (start included, end excluded; hours that run past midnight are not meant),
-- the light tick carries nothing out, and leaves the menu and the recommendations as they are.
pub peak_tick-IsUntouched :
    (env : TickEnv) (store : RowId) (shop : Shop) (t : Hours) (hour : ℕ) (queue : OpsQueueBrief)
    (events : List OperatingEvent) (pin : String)
    → 6 ≤ hour
    → t.lunch_start ≤ t.dinner_start
    → IsPeak t hour
    → (let r = apply_light_tick env store (flow_at t hour queue events pin) shop in
        ((r.0).auto_executed ≡ []) × IsUntouched (r.1) shop)
peak_tick-IsUntouched env store shop t hour queue events pin day order peak =
    let flow = flow_at t hour queue events pin in
    elim (apply_light_tick-IsModest env store flow shop).1 [
      | inr same ↦ same
      | inl free ↦
          absurd
            (ground (arith, free.1, (peak_interrupts t hour queue events pin day order peak).0))
    ]
