-- ===== src/Examples/Stories.antt =====
-- The threads of a shop with a goal and a matter.
use meal_key_ecosystem.Base.{
  [], ◌∷◌, none, some, true, false, arith, List, Holds, ◌≡◌, All, length, keep,
}
use meal_key_ecosystem.Threads.{
  OperatingThread, ThreadDb, active, ThreadBrief, is_active_of, is_active,
}
use meal_key_ecosystem.Threads.Sync.{
  Goal, Growth, observe, sync_threads_from_agents, goal_threads, is_of_goal, is_goal_of,
}
use meal_key_ecosystem.Threads.Sync.OnePerGoal.{HasOnePerGoal, sync_threads_from_agents-one}
use meal_key_ecosystem.Threads.Sync.Filled.{sync_threads_from_agents-again}
use meal_key_ecosystem.Threads.Mirror.{Facts, sync_loop_thread}
use meal_key_ecosystem.Threads.Mirror.Shows.{sync_loop_thread-IsOwn, IsOwn}
use meal_key_ecosystem.Examples.Matters.{matter}

abbrev lunch_thread : OperatingThread
lunch_thread = record {
  id = 1;
  store_id = 1;
  goal_id = some 30;
  title = "午餐增长计划";
  goal_text = "午餐订单 +20%";
  status = active;
  done = none;
  doing = none;
  next_step = "";
  current_result = "";
  ai_judgment = "";
  needs_owner = false;
}

abbrev threads : ThreadDb
threads = record { rows = lunch_thread ∷ []; next_id = 40 }

abbrev lunch_goal : Goal
lunch_goal = record { id = 30; store_id = 1; raw_text = "午餐订单 +20%"; is_active = true }

abbrev hero_goal : Goal
hero_goal = record { id = 31; store_id = 1; raw_text = "牛肉饭做到前三"; is_active = true }

abbrev growth : Growth
growth = record {
  current_action = some ("换主图", observe);
  positive = 2;
  selected_opportunity = none;
  learning_summary = "";
}

threads-HasOnePerGoal : HasOnePerGoal threads.rows 1
unfolding goal_threads is_of_goal is_active_of is_active keep
threads-HasOnePerGoal goal = ground arith

sync_threads_from_agents-one_example :
    (r : List ThreadBrief × ThreadDb) × (sync_threads_from_agents threads 1
        (lunch_goal ∷ hero_goal ∷ [])
        (some growth)
      ≡ some r)
    × All
        (λ (g : Goal). length (goal_threads r.1.rows 1 g.id) ≡ 1)
        (keep (is_goal_of 1) (lunch_goal ∷ hero_goal ∷ []))
    × HasOnePerGoal r.1.rows 1
sync_threads_from_agents-one_example =
    sync_threads_from_agents-one threads 1 (lunch_goal ∷ hero_goal ∷ []) (some growth)
      threads-HasOnePerGoal

sync_threads_from_agents-again_example :
    Holds
      (λ (r : List ThreadBrief × ThreadDb).
        sync_threads_from_agents r.1 1 (lunch_goal ∷ hero_goal ∷ []) (some growth) ≡ some r)
      (sync_threads_from_agents threads 1 (lunch_goal ∷ hero_goal ∷ []) (some growth))
sync_threads_from_agents-again_example =
    sync_threads_from_agents-again threads 1 (lunch_goal ∷ hero_goal ∷ []) (some growth)
      threads-HasOnePerGoal

abbrev facts : Facts
facts = record { evidence_count = 1; pack_hours = 0 }

sync_loop_thread-IsOwn_example :
    Holds
      (λ (r : OperatingThread × ThreadDb). IsOwn threads 1 r × ((r.0).needs_owner ≡ true))
      (sync_loop_thread threads matter matter.pack facts)
sync_loop_thread-IsOwn_example = sync_loop_thread-IsOwn threads matter matter.pack facts
