-- ===== src/Flow/Pick/Offered.antt =====
-- Where the card of the moment comes from: `_pick_now_card` of app/services/decision_flow.py and
-- `apply_nba_pin` of app/services/operating_clock.py.
use meal_key_ecosystem.Base.{
  none, some, [], ◌∷◌, inl, inr, Holds, List, ◌⊎◌, Mem, Bool, Option, String, Bool-cases, map, keep,
  first, ◌&&◌, ◌==◌, ◌++◌, true, false, if◌then◌else◌, not, mem-cons_self, mem-cons_of_mem,
  first-Mem, Holds-map,
}
use meal_key_ecosystem.Flow.Cards.{
  DecisionCard, OperatingEvent, OpsQueueBrief, event_is_critical, FlowExecution, is_protect_alert,
  auto, ask_approval, observe, auto_and_report, is_growth_action, execution_for,
}
use meal_key_ecosystem.Flow.Phases.{PhaseMeta}
use meal_key_ecosystem.Flow.Pick.{
  event_card, head, pick_critical, pick_working, pick_protect, pick_quiet, pick_open, Choice,
  pick_now_card, apply_nba_pin,
}

-- the cards of the open critical events
abbrev pub critical_cards : List OperatingEvent → List DecisionCard
critical_cards events =
    map event_card (keep (λ (e : OperatingEvent). event_is_critical e && e.status == "open") events)

-- the card stands in the queue, or it is that of an open critical event
abbrev pub IsOffered : OpsQueueBrief → List OperatingEvent → DecisionCard → Type 0
IsOffered queue events c =
    Mem c queue.need_you
    ⊎ Mem c queue.working
    ⊎ Mem c queue.results
    ⊎ Mem c queue.opportunities
    ⊎ Mem c (critical_cards events)

head-Mem : (xs : List DecisionCard) → Holds (λ c. Mem c xs) (head xs)
unfolding head
head-Mem [] = tt
head-Mem (c ∷ rest) = mem-cons_self

head-keep_Mem :
    (p : DecisionCard → Bool) (xs : List DecisionCard) → Holds (λ c. Mem c xs) (head (keep p xs))
unfolding head keep
head-keep_Mem p [] = tt
head-keep_Mem p (c ∷ rest) = elim (Bool-cases (p c)) [
  | inl e ↦ rw e mem-cons_self
  | inr e ↦ rw e (
      Holds-map (λ x. Mem x rest) (λ x. Mem x (c ∷ rest)) (head (keep p rest))
        (λ x m. mem-cons_of_mem c m) (head-keep_Mem p rest))
]

first_event :
    (p : OperatingEvent → Bool) (events : List OperatingEvent)
    → Holds (λ e. Mem (event_card e) (map event_card (keep p events))) (first p events)
unfolding event_card first keep
first_event p [] = tt
first_event p (e ∷ rest) = elim (Bool-cases (p e)) [
  | inl t ↦ rw t mem-cons_self
  | inr t ↦ rw t (first_event p rest)
]

-- a choice whose card is offered
abbrev IsFrom : OpsQueueBrief → List OperatingEvent → Choice → Type 0
IsFrom queue events choice = Holds (IsOffered queue events) choice.0

module _ (queue : OpsQueueBrief) (events : List OperatingEvent) where
  -- the first choice, or else the second
  either :
      (P : DecisionCard → Type 0) (o : Option DecisionCard) (f : DecisionCard → FlowExecution)
      (other : Choice)
      → Holds P o
      → ((c : DecisionCard) → P c → IsOffered queue events c)
      → IsFrom queue events other
      → IsFrom queue events (elim o [ some c ↦ (some c, f c) | none ↦ other ])
  either P none f other h into rest = rest
  either P (some c) f other h into rest = into c h

  pick_critical-IsFrom : IsFrom queue events (pick_critical events)
  unfolding pick_critical
  pick_critical-IsFrom =
      event_from (first (λ (e : OperatingEvent). event_is_critical e && e.status == "open") events)
        (first_event (λ (e : OperatingEvent). event_is_critical e && e.status == "open") events)
    where
      event_from :
          (o : Option OperatingEvent)
          → Holds (λ e. Mem (event_card e) (critical_cards events)) o
          → IsFrom queue events
              (elim o [ some e ↦ (some (event_card e), ask_approval) | none ↦ (none, observe) ])
      event_from none h = tt
      event_from (some e) h = inr (inr (inr (inr h)))

  pick_working-IsFrom : IsFrom queue events (pick_working queue)
  unfolding pick_working
  pick_working-IsFrom =
      either (λ c. Mem c queue.working) (head queue.working) (λ c. auto) (none, observe)
        (head-Mem queue.working) (λ c m. inr (inl m)) tt

  pick_protect-IsFrom : IsFrom queue events (pick_protect queue events)
  unfolding pick_protect
  pick_protect-IsFrom =
      either (λ c. Mem c queue.need_you) (first is_protect_alert queue.need_you) (λ c. ask_approval)
        (pick_critical events) (first-Mem is_protect_alert queue.need_you) (λ c m. inl m)
        pick_critical-IsFrom

  pick_quiet-IsFrom : IsFrom queue events (pick_quiet queue)
  unfolding pick_quiet
  pick_quiet-IsFrom =
      either (λ c. Mem c queue.results) (head queue.results) (λ c. auto_and_report)
        (pick_working queue) (head-Mem queue.results) (λ c m. inr (inr (inl m))) pick_working-IsFrom

  eligible_from :
      (b : Bool)
      → Holds
          (λ c. Mem c queue.need_you)
          (head (if b then queue.need_you else keep (λ c. not (is_growth_action c)) queue.need_you))
  eligible_from true = head-Mem queue.need_you
  eligible_from false = head-keep_Mem (λ c. not (is_growth_action c)) queue.need_you

  chance_from :
      (b : Bool)
      → Holds (λ c. Mem c queue.opportunities) (head (if b then queue.opportunities else []))
  unfolding head
  chance_from true = head-Mem queue.opportunities
  chance_from false = tt

  pick_open-IsFrom : (m : PhaseMeta) → IsFrom queue events (pick_open m queue)
  unfolding pick_open
  pick_open-IsFrom m =
      either (λ c. Mem c queue.need_you) _ execution_for _ (eligible_from m.growth_ok)
        (λ c x. inl x)
        (either (λ c. Mem c queue.opportunities) _ (λ c. ask_approval) (pick_working queue)
          (chance_from m.growth_ok) (λ c x. inr (inr (inr (inl x)))) pick_working-IsFrom)

  pub pick_now_card-IsOffered :
      (m : PhaseMeta) → Holds (IsOffered queue events) (pick_now_card m queue events).0
  unfolding pick_now_card
  pick_now_card-IsOffered m = elim (Bool-cases (m.protect)) [
    | inl p ↦ rw p pick_protect-IsFrom
    | inr p ↦ elim (Bool-cases (m.interrupt_ok)) [
      | inl i ↦ rw (p, i) (pick_open-IsFrom m)
      | inr i ↦ rw (p, i) pick_quiet-IsFrom
    ]
  ]

  first-append_Mem :
      (p : DecisionCard → Bool) (xs : List DecisionCard)
      → Holds (λ c. Mem c xs ⊎ Mem c queue.working) (first p (xs ++ queue.working))
  unfolding first
  first-append_Mem p [] =
      Holds-map (λ c. Mem c queue.working) (λ c. Mem c [] ⊎ Mem c queue.working) _ (λ c m. inr m)
        (first-Mem p queue.working)
  first-append_Mem p (x ∷ xs) = elim (Bool-cases (p x)) [
    | inl e ↦ rw e (inl mem-cons_self)
    | inr e ↦ rw e (
        Holds-map (λ c. Mem c xs ⊎ Mem c queue.working) (λ c. Mem c (x ∷ xs) ⊎ Mem c queue.working)
          (first p (xs ++ queue.working))
          (λ c h. elim h [ inl m ↦ inl (mem-cons_of_mem x m) | inr m ↦ inr m ])
          (first-append_Mem p xs))
  ]

  pub apply_nba_pin-IsOffered :
      (pin : String) → Holds (IsOffered queue events) (apply_nba_pin queue pin)
  unfolding apply_nba_pin
  apply_nba_pin-IsOffered pin = elim (Bool-cases (pin == "")) [
    | inl e ↦ rw e tt
    | inr e ↦ rw e (
        Holds-map (λ c. Mem c queue.need_you ⊎ Mem c queue.working) (IsOffered queue events) _
          (λ c h. elim h [ inl m ↦ inl m | inr m ↦ inr (inl m) ])
          (first-append_Mem (λ (c : DecisionCard). c.id == pin) queue.need_you))
  ]
