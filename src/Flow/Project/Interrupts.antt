-- ===== src/Flow/Project/Interrupts.antt =====
-- When the owner is interrupted, and by what.
use meal_key_ecosystem.Flow.Now.{moment}
use meal_key_ecosystem.Flow.Pick.Offered.{IsOffered}
use meal_key_ecosystem.Flow.Phases.{phase_meta, lunch_protect_flags}
use meal_key_ecosystem.Flow.Cards.{OpsQueueBrief, OperatingEvent, DecisionCard, is_protect_alert}
use meal_key_ecosystem.Flow.Rhythm.{
  Hours, resolve_operating_phase, is_in_quiet_hours, lunch_protect,
}
use meal_key_ecosystem.Base.{
  inl, inr, ℕ, List, String, ◌≤◌, ◌≡◌, true, false, ◌⊎◌, ap, ◌∙◌, subst, Bool-cases, arith,
}
use meal_key_ecosystem.Flow.Project.{
  flow_at, Hours, OpsQueueBrief, phase_meta, resolve_operating_phase, is_in_quiet_hours, moment,
}
use meal_key_ecosystem.Flow.Rhythm.Peaks.{IsPeak, peak_protected}
use meal_key_ecosystem.Flow.Now.Fitting.{IsInterrupt, IsStepOf, now_step-IsInterrupt, moment-Holds}

interrupt_ok-IsInterrupt :
    (t : Hours) (hour : ℕ) (queue : OpsQueueBrief) (events : List OperatingEvent) (pin : String)
    → (flow_at t hour queue events pin).interrupt_ok ≡ true
    → IsInterrupt
        (phase_meta (resolve_operating_phase hour t))
        (is_in_quiet_hours t hour)
        queue
        events
        (flow_at t hour queue events pin).now
unfolding flow_at
interrupt_ok-IsInterrupt t hour queue events pin h =
    let m = phase_meta (resolve_operating_phase hour t) in
    now_step-IsInterrupt m (is_in_quiet_hours t hour) queue events (resolve_operating_phase hour t)
      (moment m (is_in_quiet_hours t hour) queue events pin)
      (moment-Holds m (is_in_quiet_hours t hour) queue events pin) h

-- Either the flow does not interrupt the owner, or its step is that of a card which stands in the queue or
-- is made of an open critical event. The phase then allows to interrupt or, in a protected phase, that card
-- is an alert; and that card is an alert or proposes no growth, unless the phase admits growth, is not
-- protected, and the hour is not quiet.
pub flow_at-IsInterrupt :
    (t : Hours) (hour : ℕ) (queue : OpsQueueBrief) (events : List OperatingEvent) (pin : String)
    → ((flow_at t hour queue events pin).interrupt_ok ≡ false)
      ⊎ IsInterrupt
          (phase_meta (resolve_operating_phase hour t))
          (is_in_quiet_hours t hour)
          queue
          events
          (flow_at t hour queue events pin).now
flow_at-IsInterrupt t hour queue events pin =
    elim (Bool-cases ((flow_at t hour queue events pin).interrupt_ok)) [
      | inr e ↦ inl e
      | inl e ↦ inr (interrupt_ok-IsInterrupt t hour queue events pin e)
    ]

-- In a store whose lunch starts no later than its dinner, at every hour from six in the morning on that
-- lies in its lunch or dinner hours (start included, end excluded; hours that run past midnight are not
-- meant), quiet or not, the flow is in protected mode, and does not interrupt the owner unless its step is
-- that of an alert which stands in the queue or is made of an open critical event.
pub peak_interrupts :
    (t : Hours) (hour : ℕ) (queue : OpsQueueBrief) (events : List OperatingEvent) (pin : String)
    → 6 ≤ hour
    → t.lunch_start ≤ t.dinner_start
    → IsPeak t hour
    → ((flow_at t hour queue events pin).protect_mode ≡ true)
      × (((flow_at t hour queue events pin).interrupt_ok ≡ false)
          ⊎ ((c : DecisionCard) × IsOffered queue events c
              × IsStepOf (phase_meta lunch_protect) c (flow_at t hour queue events pin).now
              × (is_protect_alert c ≡ true)))
unfolding flow_at
peak_interrupts t hour queue events pin day order peak =
    let p = resolve_operating_phase hour t in
    let here : p ≡ lunch_protect = peak_protected t hour day order peak in
    let guarded = ap (λ x. (phase_meta x).protect) here ∙ lunch_protect_flags.0 in
    let shut = ap (λ x. (phase_meta x).interrupt_ok) here ∙ lunch_protect_flags.1 in
    (
      guarded,
      elim (Bool-cases ((flow_at t hour queue events pin).interrupt_ok)) [
        | inr e ↦ inl e
        | inl e ↦
            let h = interrupt_ok-IsInterrupt t hour queue events pin e in
            elim (h.allowed) [
              | inl fine ↦ inl (ground (arith, fine, shut))
              | inr (on, alert) ↦ inr (
                h.card,
                h.offered,
                subst (λ x. IsStepOf (phase_meta x) h.card (flow_at t hour queue events pin).now)
                    here h.source,
                alert,
              )
            ]
      ],
    )
