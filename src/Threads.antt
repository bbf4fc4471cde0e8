-- ===== src/Threads.antt =====
-- app/services/thread_engine.py: the operating threads of a store, the story lines that the workspace
-- shows. The rows are those of app/models/thread.py, in the order of their creation; a text that is
-- absent is "". The id of a new row, if it is not given, is `next_id`.
pub mod Sync
pub mod Mirror
pub mod Ensured
use meal_key_ecosystem.Base.{
  List, or_else, String, if◌then◌else◌, Bool, Option, first, some, map, true, or_text, leb, eq_nat,
  ◌++◌, none, [], ◌∷◌, any_of, cut, suc, update, ◌&&◌, false, keep, strip, last_such,
}
use meal_key_ecosystem.Models.{RowId}

-- `OperatingThread.status`
pub data StoryStatus : Type 0 where
  active completed paused : StoryStatus

-- `done_json` and `doing_json` are `none` where the column is NULL
pub record OperatingThread : Type 0 where
  pub id : RowId
  pub store_id : RowId
  pub goal_id : Option RowId
  pub title : String
  pub goal_text : String
  pub status : StoryStatus
  pub done : Option (List String)
  pub doing : Option (List String)
  pub next_step : String
  pub current_result : String
  pub ai_judgment : String
  pub needs_owner : Bool

pub record ThreadDb : Type 0 where
  pub rows : List OperatingThread
  pub next_id : RowId

pub record ThreadBrief : Type 0 where
  pub id : RowId
  pub title : String
  pub goal : String
  pub done : List String
  pub doing : List String
  pub next_step : String
  pub current_result : String
  pub ai_judgment : String
  pub needs_owner : Bool

-- `_thread_to_brief`
thread_to_brief : OperatingThread → ThreadBrief
thread_to_brief t = record {
  id = t.id;
  title = t.title;
  goal = t.goal_text;
  done = or_else t.done [];
  doing = or_else t.doing [];
  next_step = t.next_step;
  current_result = t.current_result;
  ai_judgment = t.ai_judgment;
  needs_owner = t.needs_owner;
}

unfoldable pub is_active : StoryStatus → Bool
is_active active = true
is_active _ = false

unfoldable pub is_active_of : RowId → OperatingThread → Bool
is_active_of store t = eq_nat t.store_id store && is_active t.status

higher_id : RowId → RowId → RowId
higher_id a b = if leb a b then b else a

new_thread : RowId → RowId → String → String → Option RowId → OperatingThread
new_thread i store title goal_text goal_id = record {
  id = i;
  store_id = store;
  goal_id = goal_id;
  title = title;
  goal_text = goal_text;
  status = active;
  done = none;
  doing = none;
  next_step = "";
  current_result = "";
  ai_judgment = "";
  needs_owner = false;
}

-- `create_thread` with an id of its own
unfoldable pub create_thread :
    ThreadDb → RowId → String → String → Option RowId → OperatingThread × ThreadDb
unfolding new_thread
create_thread db store title goal_text goal_id =
    let t = new_thread db.next_id store title goal_text goal_id in
    (t, record db { rows = db.rows ++ t ∷ []; next_id = suc db.next_id })

-- `create_thread` with an id that is given; `none` is the database's error on an id that is taken
unfoldable pub create_thread_as :
    ThreadDb → RowId → RowId → String → String → Option (OperatingThread × ThreadDb)
unfolding new_thread higher_id
create_thread_as db i store title goal_text =
    let t = new_thread i store title goal_text none in
    if any_of (λ (x : OperatingThread). eq_nat x.id i) db.rows
    then none
    else some (t, record db { rows = db.rows ++ t ∷ []; next_id = higher_id db.next_id (suc i) })

-- the store's row with the id that is preferred
preferred_thread : ThreadDb → RowId → Option RowId → Option OperatingThread
preferred_thread db store none = none
preferred_thread db store (some i) =
    first (λ (t : OperatingThread). eq_nat t.store_id store && eq_nat t.id i) db.rows

create_for : ThreadDb → RowId → Option RowId → String → String → Option (OperatingThread × ThreadDb)
create_for db store none title goal = some (create_thread db store title goal none)
create_for db store (some i) title goal = create_thread_as db i store title goal

-- the preferred row, the newest active one of the store, or a new one
ensured :
    ThreadDb
    → RowId
    → Option RowId
    → String
    → String
    → Option OperatingThread
    → Option OperatingThread
    → Option (OperatingThread × ThreadDb)
unfolding create_for
ensured db store preferred title goal (some t) newest = some (t, db)
ensured db store preferred title goal none (some t) = some (t, db)
ensured db store preferred title goal none none = create_for db store preferred title goal

-- `ensure_thread_for_action`
pub ensure_thread_for_action :
    ThreadDb → RowId → String → String → Option RowId → Option (OperatingThread × ThreadDb)
unfolding ensured preferred_thread
ensure_thread_for_action db store action_title goal_text preferred =
    ensured db store preferred (or_text (cut 100 (strip action_title)) "经营优化")
      (strip (or_text goal_text (or_text action_title "持续推进经营优化")))
      (preferred_thread db store preferred) (last_such (is_active_of store) db.rows)

-- `update_thread_progress`: what it assigns
pub record ThreadProgress : Type 0 where
  pub done : Option (List String)
  pub doing : Option (List String)
  pub next_step : Option String
  pub current_result : Option String
  pub ai_judgment : Option String
  pub needs_owner : Option Bool

advanced : ThreadProgress → OperatingThread → OperatingThread
advanced p t = record t {
  done = elim p.done [ none ↦ t.done | some xs ↦ some xs ];
  doing = elim p.doing [ none ↦ t.doing | some xs ↦ some xs ];
  next_step = or_else p.next_step t.next_step;
  current_result = or_else p.current_result t.current_result;
  ai_judgment = or_else p.ai_judgment t.ai_judgment;
  needs_owner = or_else p.needs_owner t.needs_owner;
}

pub update_thread_progress : ThreadDb → RowId → ThreadProgress → Option OperatingThread × ThreadDb
unfolding advanced
update_thread_progress db i p = elim (first (λ (t : OperatingThread). eq_nat t.id i) db.rows) [
  | none ↦ (none, db)
  | some t ↦ (
    some (advanced p t),
    record db { rows = update (λ (x : OperatingThread). eq_nat x.id i) (advanced p) db.rows },
  )
]

youngest_first : List OperatingThread → List OperatingThread
youngest_first [] = []
youngest_first (t ∷ rest) = youngest_first rest ++ t ∷ []

-- `load_active_threads`
pub load_active_threads : ThreadDb → RowId → List ThreadBrief
unfolding thread_to_brief youngest_first
load_active_threads db store =
    map thread_to_brief (youngest_first (keep (is_active_of store) db.rows))
