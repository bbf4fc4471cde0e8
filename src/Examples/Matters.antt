-- ===== src/Examples/Matters.antt =====
-- A matter of the loop from the owner's confirmation to its result.
use meal_key_ecosystem.Loop.Projection.{
  thread_stage, left_slot, left_of, center_type, center_of, right_status, right_of, columns_agree,
}
use meal_key_ecosystem.Loop.Execute.Outcome.{IsOutcome, mark_loop_executed-IsOutcome}
use meal_key_ecosystem.Loop.Observe.Window.{is_due, tick_leaves_none}
use meal_key_ecosystem.Loop.Execute.{mark_loop_executed, WriteOutcome, written}
use meal_key_ecosystem.Loop.Consistent.{after, ticks, executes, Reaches-AllConsistent, steps, stays}
use meal_key_ecosystem.Loop.State.{
  LoopDb, Item, get_loop, in_observation, unknown, at_now, pending, canonical_status,
}
use meal_key_ecosystem.Loop.Invariant.{IsConsistent, AllConsistent, is_consistent, agrees, has_rows}
use meal_key_ecosystem.Loop.Observe.{Evaluators, tick_observing_loops}
use meal_key_ecosystem.Loop.Thread.{Pack, ThreadState, same_state}
use meal_key_ecosystem.Base.{[], ◌∷◌, All, first, false, some, ◌≡◌, none, true, refl}
use meal_key_ecosystem.Examples.Menu.{shop}

abbrev fresh_pack : Pack
fresh_pack = record {
  thread_status = some ThreadState.need_approval;
  thread_history = [];
  requires_approval = some true;
  writeback = none;
  execution_mode = "";
  lift_pct = none;
}

abbrev pub matter : Item
matter = record {
  id = 5;
  store_id = 1;
  fingerprint = "card-1";
  source_card_id = "card-1";
  from_ingest = false;
  title = "换标题";
  finding = "";
  judgment = "";
  action_type = "change_title";
  object_name = "牛肉面";
  pack = fresh_pack;
  status = at_now;
  executed_at = none;
  executor = "";
  execution_mode = "";
  due_at = none;
  has_evidence = false;
  observe_hours = 24;
  observe_until = none;
  metric_label = "点击率";
  success_target = "";
  guardrail = "";
  recommendation_id = none;
  experiment_id = none;
  result = pending;
  notes = "";
}

-- a matter whose window ends at 900
abbrev watched_matter : Item
watched_matter = record matter {
  id = 6;
  status = in_observation;
  executed_at = some 100;
  observe_until = some 900;
  recommendation_id = some 11;
  experiment_id = some 12;
  pack = record fresh_pack { thread_status = some ThreadState.observing };
}

abbrev loops : LoopDb
loops = record {
  menu = shop;
  loops = matter ∷ watched_matter ∷ [];
  recs = [];
  exps = [];
  next_id = 30;
}

-- evaluations that decide nothing, and a platform that writes
abbrev undecided : Evaluators
undecided = record {
  verify_ops_result = λ db x. record { result = unknown; summary = ""; lift_pct = none };
  evaluate_experiment = λ db e. none;
}

abbrev platform : Item → WriteOutcome
platform x = written (record { ok = true; mode = "browser"; summary = ""; error = "" })

loops-AllConsistent : AllConsistent loops
unfolding AllConsistent IsConsistent is_consistent agrees has_rows same_state
loops-AllConsistent = (refl, (refl, tt))

-- the owner confirms the first matter, and the window of the second one ends
abbrev morning : LoopDb
morning = after platform undecided loops 800 (executes 1 5 "OWNER" "")

Reaches-AllConsistent_example : AllConsistent (after platform undecided morning 1000 ticks)
Reaches-AllConsistent_example =
    Reaches-AllConsistent platform undecided loops-AllConsistent (
      steps loops morning 1000 ticks
        (steps loops loops 800 (executes 1 5 "OWNER" "") (stays loops)))

tick_leaves_none_example :
    All (λ x. is_due 1000 x ≡ false) (tick_observing_loops undecided loops 1000).0.loops
tick_leaves_none_example = tick_leaves_none undecided 1000 loops

mark_loop_executed-IsOutcome_example :
    IsOutcome loops 1 5 1000 matter (mark_loop_executed loops 1 5 1000 "OWNER" "")
unfolding get_loop first
mark_loop_executed-IsOutcome_example =
    mark_loop_executed-IsOutcome loops 1 5 1000 matter refl "OWNER" ""

columns_agree_example :
    (thread_stage watched_matter ≡ canonical_status watched_matter)
    × (left_slot (thread_stage watched_matter) ≡ left_of in_observation)
    × (center_type (thread_stage watched_matter) ≡ center_of in_observation)
    × (right_status (thread_stage watched_matter) ≡ right_of in_observation)
unfolding IsConsistent is_consistent agrees has_rows same_state
columns_agree_example = columns_agree watched_matter refl
