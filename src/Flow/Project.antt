-- ===== src/Flow/Project.antt =====
-- `_next_later`, `_auto_doing`, `_guide_from_flow` and `build_decision_flow` of
-- app/services/decision_flow.py.
pub mod Interrupts
pub mod Running
use meal_key_ecosystem.Flow.Cards.{DecisionCard}
use meal_key_ecosystem.Flow.Cards.{
  OpsQueueBrief, OperatingEvent, FlowExecution, is_need_you, ask_information,
}
use Prim.Native.String.{◌++◌ as ◌+++◌, String, ◌∷◌, []}
use meal_key_ecosystem.Base.{
  none, some, true, false, String, List, ℕ, Bool, not, ◌∷◌, map, keep, if◌then◌else◌, or_text,
  Option, [], ◌&&◌, is_in, take, ◌==◌, ◌++◌,
}
use meal_key_ecosystem.Flow.Phases.{PhaseMeta, phase_meta}
use meal_key_ecosystem.Flow.Rhythm.{
  Phase, Hours, quiet, hours_of, is_in_quiet_hours, resolve_operating_phase, StoreRhythm,
}
use meal_key_ecosystem.Flow.Now.{
  phase_name, Step, Owner, boss, ai, StepChoice, flow_id, moment, now_step,
}

-- the next thing, or a later one
pub record Slot : Type 0 where
  pub id : String
  pub title : String
  pub when : String
  pub why : String
  pub owner : Owner

-- the cards that are left when that of the moment is taken away
leftovers : OpsQueueBrief → String → List DecisionCard
leftovers queue now_id =
    keep (λ (c : DecisionCard). not (c.id == now_id))
      (queue.need_you ++ (queue.opportunities ++ queue.working))

next_slot : Phase → PhaseMeta → List DecisionCard → Slot
next_slot p m [] = record {
  id = flow_id p "next";
  title = m.next_when;
  when = m.next_when;
  why = "到点我再叫你，现在先把眼前这件事做完。";
  owner = ai;
}
next_slot p m (c ∷ rest) = record {
  id = c.id;
  title = c.title;
  when = m.next_when;
  why = c.why_now;
  owner = if is_need_you c.queue_bucket then boss else ai;
}

no_later : Phase → PhaseMeta → Slot
no_later p m = record {
  id = flow_id p "later";
  title = m.later_when;
  when = m.later_when;
  why = "不在这一窗，先放着。";
  owner = ai;
}

later_slot : Phase → PhaseMeta → List DecisionCard → Slot
unfolding no_later
later_slot p m [] = no_later p m
later_slot p m (c ∷ []) = no_later p m
later_slot p m (c ∷ d ∷ rest) = record {
  id = d.id;
  title = d.title;
  when = m.later_when;
  why = d.why_now;
  owner = ai;
}

-- what the system does by itself; every status is "running"
pub record Doing : Type 0 where
  pub title : String
  pub id : String  -- "" where there is none

pub key_of : Doing → String
key_of d = or_text d.id d.title

unfoldable pub doing_card : DecisionCard → Doing
doing_card c = record { title = c.title; id = c.id }

-- the first of each key
distinct : List String → List Doing → List Doing
unfolding key_of
distinct seen [] = []
distinct seen (d ∷ rest) =
    let skipped = distinct seen rest in
    let kept = distinct (key_of d ∷ seen) rest in
    if is_in (key_of d) seen then skipped else d ∷ kept

pub auto_doing : OpsQueueBrief → Bool → List Doing
unfolding distinct
auto_doing queue protect =
    let cards = map doing_card (take 3 queue.working) in
    take 4
      (distinct [] (if protect then record { title = "盯售罄 / 闭店 / 骤降"; id = "" } ∷ cards else cards))

pub data GuideType : Type 0 where
  info progress approval question : GuideType

-- the guide of the middle column, with the texts that follow from the step left out
pub record Guide : Type 0 where
  pub id : String
  pub kind : GuideType
  pub title : String
  pub prompt : String
  pub explanation : String
  pub choices : List StepChoice
  pub allow_free_text : Bool
  pub status : String

is_boss : Owner → Bool
is_boss boss = true
is_boss ai = false

is_asking : GuideType → Bool
is_asking approval = true
is_asking question = true
is_asking _ = false

asks_information : FlowExecution → Bool
asks_information ask_information = true
asks_information _ = false

guide_type_of : String → GuideType
guide_type_of s = if s == "APPROVAL" then approval else (if s == "PROGRESS" then progress else info)

guide_kind : PhaseMeta → Step → Bool → GuideType
unfolding asks_information is_boss guide_type_of
guide_kind m now interrupt_ok =
    let real = not (now.source_card_id == "") in
    if real && is_boss now.owner && interrupt_ok
    then (if asks_information now.execution then question else approval)
    else (if real
        then (if is_boss now.owner then guide_type_of m.guide_type else progress)
        else info)

default_choices : String → List StepChoice
default_choices title =
    record { id = "adopt"; label = "按这个做"; prompt = "按「" +++ (title +++ "」做"); value = "按这个做" }
    ∷ record { id = "defer"; label = "先放一放"; prompt = "这件事先放一放，先盯着就行"; value = "先放一放" }
    ∷ []

no_choice : List StepChoice → Bool
no_choice [] = true
no_choice (c ∷ rest) = false

guide_from_flow : Phase → PhaseMeta → Step → Bool → Guide
unfolding guide_kind is_asking default_choices no_choice is_boss
guide_from_flow p m now interrupt_ok =
    let real = not (now.source_card_id == "") in
    let kind = guide_kind m now interrupt_ok in
    record {
      id = or_text now.id ("flow:" +++ phase_name p);
      kind = kind;
      title = or_text now.title m.now_title;
      prompt = or_text now.why_now m.now_prompt;
      explanation = or_text now.ai_already_did m.clock_why;
      choices =
          if real && is_asking kind && no_choice now.choices
          then default_choices now.title
          else now.choices;
      allow_free_text = is_asking kind;
      status = if real && is_boss now.owner && interrupt_ok then "现在需要你" else m.status;
    }

pub record DecisionFlow : Type 0 where
  pub phase : Phase
  pub hour : ℕ
  pub is_quiet : Bool
  pub protect_mode : Bool
  pub interrupt_ok : Bool
  pub growth_ok : Bool
  pub now : Step
  pub next : Slot
  pub later : Slot
  pub doing : List Doing
  pub guide : Guide

is_quiet_phase : Phase → Bool
is_quiet_phase quiet = true
is_quiet_phase _ = false

-- the flow of an hour whose rhythm has been read; `pin` is the card that was pinned, "" if there is none
pub flow_at : Hours → ℕ → OpsQueueBrief → List OperatingEvent → String → DecisionFlow
unfolding next_slot later_slot guide_from_flow is_quiet_phase
flow_at t hour queue events pin =
    let p = resolve_operating_phase hour t in
    let m = phase_meta p in
    let rests = is_in_quiet_hours t hour in
    let (now, interrupt_ok) = now_step p m (moment m rests queue events pin) in
    let left = leftovers queue now.id in
    record {
      phase = p;
      hour = hour;
      is_quiet = rests && is_quiet_phase p;
      protect_mode = m.protect;
      interrupt_ok = interrupt_ok;
      growth_ok = m.growth_ok;
      now = now;
      next = next_slot p m left;
      later = later_slot p m left;
      doing = auto_doing queue m.protect;
      guide = guide_from_flow p m now interrupt_ok;
    }

-- `none` where a time of the rhythm is no hour
pub build_decision_flow :
    StoreRhythm → ℕ → OpsQueueBrief → List OperatingEvent → String → Option DecisionFlow
build_decision_flow rhythm hour queue events pin = elim (hours_of rhythm) [
  | none ↦ none
  | some t ↦ some (flow_at t hour queue events pin)
]
