-- ===== src/Flow/Now/Fitting.antt =====
-- The card of the moment, and what a step that interrupts is about.
use meal_key_ecosystem.Flow.Cards.{
  OpsQueueBrief, DecisionCard, is_growth_action, OperatingEvent, is_protect_alert,
}
use meal_key_ecosystem.Flow.Pick.{Choice, apply_nba_pin, pick_now_card}
use meal_key_ecosystem.Flow.Pick.Offered.{
  IsOffered, pick_now_card-IsOffered, apply_nba_pin-IsOffered,
}
use meal_key_ecosystem.Flow.Phases.{PhaseMeta}
use meal_key_ecosystem.Flow.Rhythm.{Phase}
use meal_key_ecosystem.Base.{
  Option, none, some, Bool, ◌||◌, List, ◌&&◌, not, ◌≡◌, Holds, true, Bool-cases, false, String, ◌⊎◌,
  inl, arith, inr, refl,
}
use meal_key_ecosystem.Flow.Now.{
  card_owner, card_skip, now_step, without_growth, moment, with_pin, step_from_card, Step,
}

-- the card may be shown where growth is not wanted
abbrev pub IsFitting : PhaseMeta → Bool → DecisionCard → Type 0
IsFitting m is_quiet c =
    (is_growth_action c ≡ false)
    ⊎ (is_protect_alert c ≡ true)
    ⊎ ((m.protect ≡ false) × (is_quiet ≡ false) × (m.growth_ok ≡ true))

-- the step is that of the card
abbrev pub IsStepOf : PhaseMeta → DecisionCard → Step → Type 0
IsStepOf m card now = now ≡ step_from_card card (card_owner m card) now.execution (card_skip m card)

-- the step asks the owner about a card that the queue or a critical event offers, at a moment at which it may
pub record IsInterrupt (m : PhaseMeta) (is_quiet : Bool) (queue : OpsQueueBrief)
    (events : List OperatingEvent) (now : Step) : Type 0 where
  pub card : DecisionCard
  pub offered : IsOffered queue events card
  pub source : IsStepOf m card now
  pub fits : IsFitting m is_quiet card
  pub allowed : (m.interrupt_ok ≡ true) ⊎ ((m.protect ≡ true) × (is_protect_alert card ≡ true))

fitting_cases :
    (m : PhaseMeta) (is_quiet growth alert : Bool)
    → (m.protect || is_quiet || not m.growth_ok) && growth && not alert ≡ false
    → (growth ≡ false)
      ⊎ (alert ≡ true)
      ⊎ ((m.protect ≡ false) × (is_quiet ≡ false) × (m.growth_ok ≡ true))
fitting_cases m is_quiet false alert h = inl refl
fitting_cases m is_quiet true true h = inr (inl refl)
fitting_cases m is_quiet true false h =
    inr (inr (ground (arith, h), ground (arith, h), ground (arith, h)))

module _ (m : PhaseMeta) (is_quiet : Bool) (queue : OpsQueueBrief)
    (events : List OperatingEvent) where
  -- the card is offered and fits
  abbrev pub IsFit : DecisionCard → Type 0
  IsFit c = IsOffered queue events c × IsFitting m is_quiet c

  without_growth-Holds :
      (choice : Choice)
      → Holds (IsOffered queue events) choice.0
      → Holds IsFit (without_growth m is_quiet choice).0
  unfolding without_growth
  without_growth-Holds (none, e) h = tt
  without_growth-Holds (some c, e) h =
      elim (Bool-cases (
        (m.protect || is_quiet || not m.growth_ok)
        && is_growth_action c
        && not (is_protect_alert c))) [
          | inl t ↦ rw t tt
          | inr t ↦ rw t (h, fitting_cases m is_quiet (is_growth_action c) (is_protect_alert c) t)
        ]

  with_pin-Holds :
      (o : Option DecisionCard) (choice : Choice)
      → Holds (IsOffered queue events) o
      → Holds (IsOffered queue events) choice.0
      → Holds (IsOffered queue events) (with_pin m o choice).0
  unfolding with_pin
  with_pin-Holds none choice ho h = h
  with_pin-Holds (some c) choice ho h = elim (Bool-cases (m.interrupt_ok)) [
    | inl t ↦ rw t ho
    | inr t ↦ rw t h
  ]

allowed_cases : (a b c : Bool) → a || (b && c) ≡ true → (a ≡ true) ⊎ ((b ≡ true) × (c ≡ true))
allowed_cases true b c h = inl refl
allowed_cases false b c h = inr (ground (arith, h), ground (arith, h))

module _ (m : PhaseMeta) (is_quiet : Bool) (queue : OpsQueueBrief)
    (events : List OperatingEvent) where
  pub now_step-IsInterrupt :
      (p : Phase) (choice : Choice)
      → Holds (IsFit m is_quiet queue events) choice.0
      → (now_step p m choice).1 ≡ true
      → IsInterrupt m is_quiet queue events (now_step p m choice).0
  unfolding now_step step_from_card
  now_step-IsInterrupt p (none, e) fits h = cc
  now_step-IsInterrupt p (some c, e) fits h =
      elim (Bool-cases (m.interrupt_ok || is_protect_alert c)) [
        | inl t ↦ record {
          card = c;
          offered = fits.0;
          source = rw t refl;
          fits = fits.1;
          allowed =
              allowed_cases m.interrupt_ok m.protect (is_protect_alert c) (ground (arith, h, t));
        }
        | inr t ↦ ground (arith, h, t)
      ]

  pub moment-Holds :
      (pin : String) → Holds (IsFit m is_quiet queue events) (moment m is_quiet queue events pin).0
  unfolding moment
  moment-Holds pin =
      without_growth-Holds m is_quiet queue events
        (with_pin m (apply_nba_pin queue pin) (pick_now_card m queue events))
        (with_pin-Holds m is_quiet queue events (apply_nba_pin queue pin)
          (pick_now_card m queue events) (apply_nba_pin-IsOffered queue events pin)
          (pick_now_card-IsOffered queue events m))
