-- ===== src/Examples/Day.antt =====
-- A day of a shop.
use meal_key_ecosystem.Poie.Order.{IsTopOf}
use meal_key_ecosystem.Base.{[], ◌∷◌, ◌≡◌, true, false, ◌⊎◌, arith, inl, length, ◌≤◌, All}
use meal_key_ecosystem.Flow.Pick.Offered.{IsOffered}
use meal_key_ecosystem.Flow.Now.Fitting.{IsStepOf, IsInterrupt}
use meal_key_ecosystem.Flow.Rhythm.{
  lunch_protect, Hours, is_in_quiet_hours, resolve_operating_phase,
}
use meal_key_ecosystem.Poie.{CandidateAction, merge_candidates_into_queue}
use meal_key_ecosystem.Poie.Merged.{merge_candidates-IsBrief, IsWorth}
use meal_key_ecosystem.Flow.Cards.{
  DecisionCard, OpsQueueBrief, anomaly, opportunity, confirm, need_you_bucket, is_protect_alert,
}
use meal_key_ecosystem.Flow.Project.{flow_at}
use meal_key_ecosystem.Flow.Project.Interrupts.{flow_at-IsInterrupt, peak_interrupts}
use meal_key_ecosystem.Flow.Phases.{phase_meta}

abbrev pub hours : Hours
hours = record {
  lunch_start = 11;
  lunch_end = 13;
  dinner_start = 17;
  dinner_end = 20;
  quiet_start = 22;
  quiet_end = 8;
}

abbrev sold_out : DecisionCard
sold_out = record {
  id = "card-1";
  title = "招牌牛肉面售罄";
  arbiter_state = confirm;
  interrupt_reason = anomaly;
  queue_bucket = need_you_bucket;
  priority_score = 9000;
  why_now = "午高峰缺货";
  ai_judgment = "";
  ai_already_did = "";
  success_metric = "";
  meta = "";
  business_impact = "";
  actions = [];
}

abbrev dearer_dish : DecisionCard
dearer_dish = record sold_out {
  id = "card-2";
  title = "牛肉面涨价";
  interrupt_reason = opportunity;
  priority_score = 100;
  why_now = "";
}

abbrev pub noon_queue : OpsQueueBrief
noon_queue = record {
  need_you = dearer_dish ∷ sold_out ∷ [];
  working = dearer_dish ∷ dearer_dish ∷ [];
  results = [];
  opportunities = [];
}

peak_interrupts_example :
    ((flow_at hours 12 noon_queue [] "card-2").protect_mode ≡ true)
    × (((flow_at hours 12 noon_queue [] "card-2").interrupt_ok ≡ false)
        ⊎ ((c : DecisionCard) × IsOffered noon_queue [] c
            × IsStepOf (phase_meta lunch_protect) c (flow_at hours 12 noon_queue [] "card-2").now
            × (is_protect_alert c ≡ true)))
peak_interrupts_example =
    peak_interrupts hours 12 noon_queue [] "card-2" (omega arith) (omega arith)
      (inl (omega arith, omega arith))

flow_at-IsInterrupt_example :
    ((flow_at hours 10 noon_queue [] "").interrupt_ok ≡ false)
    ⊎ IsInterrupt
        (phase_meta (resolve_operating_phase 10 hours))
        (is_in_quiet_hours hours 10)
        noon_queue
        []
        (flow_at hours 10 noon_queue [] "").now
flow_at-IsInterrupt_example = flow_at-IsInterrupt hours 10 noon_queue [] ""

abbrev rain_idea : CandidateAction
rain_idea = record {
  id = "cand-1";
  title = "雨天套餐";
  trigger = "goal";
  insight = "";
  why_now = "";
  already_did = "";
  success_metric = "";
  priority = 6500;
  suggested_state = confirm;
  interrupt_reason = opportunity;
}

merge_candidates-IsBrief_example :
    (let r = (merge_candidates_into_queue noon_queue (rain_idea ∷ [])).0 in
      ((length r.need_you ≤ 1)
        × (length r.working ≤ 6)
        × (length r.results ≤ 4)
        × (length r.opportunities ≤ 2))
      × All (IsWorth noon_queue) r.need_you
      × All (IsTopOf noon_queue.need_you) r.need_you)
merge_candidates-IsBrief_example = merge_candidates-IsBrief noon_queue (rain_idea ∷ [])
