-- ===== src/Threads/Sync.antt =====
-- `sync_threads_from_agents` of app/services/thread_engine.py: a thread for each goal, and the progress
-- that the growth agent reports. `none` is the error of a query that finds several rows for one goal.
use meal_key_ecosystem.Base.{
  ◌>>=◌, List, String, ℕ, Bool, Option, some, if◌then◌else◌, eq_nat, update, ◌&&◌, [], keep, cut,
  or_text, decimal, ◌∷◌, none, false,
}
use Prim.Native.String.{◌++◌ as ◌+++◌}
use meal_key_ecosystem.Models.{RowId}
use meal_key_ecosystem.Threads.{
  OperatingThread, ThreadDb, create_thread, is_active_of, load_active_threads, ThreadBrief,
}
pub mod OnePerGoal
pub mod Filled

-- `Goal` of app/models/goal.py, as far as it is read
pub record Goal : Type 0 where
  pub id : RowId
  pub store_id : RowId
  pub raw_text : String
  pub is_active : Bool

pub data ExecutionPhase : Type 0 where
  observe execute_now other_phase : ExecutionPhase

-- `agents.growth`: the action of the moment with its phase, the number of positive experiments, the title
-- of the selected opportunity
pub record Growth : Type 0 where
  pub current_action : Option (String × ExecutionPhase)
  pub positive : ℕ
  pub selected_opportunity : Option String
  pub learning_summary : String

unfoldable pub is_of_goal : RowId → RowId → OperatingThread → Bool
is_of_goal store goal t =
    is_active_of store t && elim t.goal_id [ none ↦ false | some i ↦ eq_nat i goal ]

-- the active threads of the store for a goal
unfoldable pub goal_threads : List OperatingThread → RowId → RowId → List OperatingThread
unfolding is_of_goal
goal_threads rows store goal = keep (is_of_goal store goal) rows

-- `scalar_one_or_none`, and the creation where it finds no row
with_thread : ThreadDb → RowId → Goal → List OperatingThread → Option ThreadDb
with_thread db store goal [] =
    some (create_thread db store (cut 100 goal.raw_text) goal.raw_text (some goal.id)).1
with_thread db store goal (t ∷ []) = some db
with_thread db store goal (t ∷ u ∷ rest) = none

unfoldable pub sync_goals : ThreadDb → RowId → List Goal → Option ThreadDb
unfolding with_thread
sync_goals db store [] = some db
sync_goals db store (goal ∷ rest) = do
  after ← with_thread db store goal (goal_threads db.rows store goal.id)
  sync_goals after store rest

doing_now : Option (String × ExecutionPhase) → List String
doing_now none = []
doing_now (some (title, observe)) = (title +++ "（观察中）") ∷ []
doing_now (some (title, execute_now)) = ("待启动：" +++ title) ∷ []
doing_now (some (title, other_phase)) = []

done_so_far : ℕ → List String
done_so_far positive =
    if eq_nat positive 0 then [] else ("已有 " +++ (decimal positive +++ " 条动作验证有效")) ∷ []

-- a column that is NULL takes what there is
fill_rows : Option (List String) → List String → Option (List String)
fill_rows (some old) new = some old
fill_rows none [] = none
fill_rows none (x ∷ xs) = some (x ∷ xs)

fill_step : String → Option String → String
fill_step old none = old
fill_step old (some title) = or_text old ("当前推进：" +++ title)

-- only what is empty is filled in
filled : Option Growth → OperatingThread → OperatingThread
unfolding doing_now done_so_far fill_rows fill_step
filled none t = t
filled (some g) t = record t {
  doing = fill_rows t.doing (doing_now g.current_action);
  done = fill_rows t.done (done_so_far g.positive);
  next_step = fill_step t.next_step g.selected_opportunity;
  ai_judgment = or_text t.ai_judgment (or_text g.learning_summary "进度正常，暂时不需要你介入。");
}

unfoldable pub fill_threads : ThreadDb → RowId → Option Growth → ThreadDb
unfolding filled
fill_threads db store growth = record db {
  rows = update (is_active_of store) (filled growth) db.rows;
}

pub is_goal_of : RowId → Goal → Bool
is_goal_of store g = eq_nat g.store_id store && g.is_active

-- the active threads, and the rows after it
pub sync_threads_from_agents :
    ThreadDb → RowId → List Goal → Option Growth → Option (List ThreadBrief × ThreadDb)
unfolding is_goal_of
sync_threads_from_agents db store goals growth = do
  after ← sync_goals db store (keep (is_goal_of store) goals)
  some
      (load_active_threads (fill_threads after store growth) store, fill_threads after store growth)
