-- ===== src/Ticks/Light.antt =====
-- `apply_light_tick` of app/services/operating_clock.py: what the load of a page sets going in a store.
pub mod Modest
use meal_key_ecosystem.Base.{
  none, some, [], ◌∷◌, true, false, Bool, cut, ℕ, List, or_text, is_some, String, not, update, ◌&&◌,
  if◌then◌else◌, keep, Option, eq_nat, ◌==◌,
}
use meal_key_ecosystem.Models.{RowId, Db, Recommendation}
use meal_key_ecosystem.Policy.Memory.{StrategyMemory}
use meal_key_ecosystem.Policy.AutoPilot.{Entry, State, auto_execute_recommendations}
use meal_key_ecosystem.Flow.Rhythm.{Phase}
use meal_key_ecosystem.Flow.Phases.{phase_meta}
use meal_key_ecosystem.Flow.Cards.{FlowExecution, ask_information}
use meal_key_ecosystem.Flow.Now.{Owner, boss, ai, phase_name}
use meal_key_ecosystem.Flow.Project.{DecisionFlow}
use meal_key_ecosystem.Notify.{NotifyDb, Clock, Notice, notify_store_owner}
use meal_key_ecosystem.Ticks.Settings.{AppSetting, save_nba_pin}

-- what the tick reads and writes
pub record Shop : Type 0 where
  pub menu : Db
  pub recs : List Recommendation
  pub memory : List StrategyMemory
  pub trust_setting : String
  pub notices : NotifyDb
  pub settings : List AppSetting

-- the clock, the local day, and the notice on an executed recommendation, whose text comes from its plan
pub record TickEnv : Type 0 where
  pub clock : Clock
  pub today : ℕ
  pub done_notice : Entry → Notice

pub record LightResult : Type 0 where
  pub phase : Phase
  pub auto_executed : List Entry
  pub notified : Bool
  pub pinned : Option String

-- `NO_AUTO_EXECUTE_PHASES`
unfoldable pub no_auto_execute : Phase → Bool
no_auto_execute Phase.lunch_protect = true
no_auto_execute Phase.quiet = true
no_auto_execute Phase.night_learn = true
no_auto_execute _ = false

is_silent : Phase → Bool
is_silent Phase.quiet = true
is_silent _ = false

is_owners : Owner → Bool
is_owners boss = true
is_owners ai = false

-- the rows that the run wrote
put_recs : List Entry → List Recommendation → List Recommendation
put_recs [] recs = recs
put_recs (e ∷ rest) recs =
    put_recs rest
      (update (λ (r : Recommendation). eq_nat r.id e.row.id) (λ (r : Recommendation). e.row) recs)

-- the notices that the run sends, in its order
tell_done : TickEnv → List Entry → NotifyDb → NotifyDb
tell_done env [] db = db
tell_done env (e ∷ rest) db =
    tell_done env rest
      (if e.applied then (notify_store_owner db env.clock (env.done_notice e)).1 else db)

-- at most one action, of the last three days
auto_step : TickEnv → RowId → Shop → List Entry × Shop
unfolding put_recs tell_done
auto_step env store shop =
    let s =
      auto_execute_recommendations shop.memory store env.clock.now shop.trust_setting 1 3 shop.recs
        shop.menu in
    (
      keep (λ (e : Entry). e.applied) s.done,
      record shop {
        menu = s.db;
        recs = put_recs s.done shop.recs;
        notices = tell_done env s.done shop.notices;
      },
    )

may_execute : DecisionFlow → Bool
may_execute flow = not (no_auto_execute flow.phase) && not flow.protect_mode

execute_if : Bool → TickEnv → RowId → Shop → List Entry × Shop
unfolding auto_step
execute_if true env store shop = auto_step env store shop
execute_if false env store shop = ([], shop)

asks_for_facts : FlowExecution → Bool
asks_for_facts ask_information = true
asks_for_facts _ = false

owner_notice : RowId → DecisionFlow → Notice
unfolding asks_for_facts
owner_notice store flow = record {
  store_id = store;
  notification_type = "need_you";
  title = cut 60 (or_text flow.now.title "现在有一件事需要你");
  body = cut 200 (or_text flow.now.why_now (phase_meta flow.phase).clock_why);
  priority = if asks_for_facts flow.now.execution then "high" else "normal";
  action_url = "";
  clock_phase = phase_name flow.phase;
  related_decision_id = cut 64 flow.now.source_card_id;
  wx_openid = "";
  wx_template_id = "";
  suppress_if_budget_exceeded = true;
}

waits_for_boss : DecisionFlow → Bool
unfolding is_owners
waits_for_boss flow = is_owners flow.now.owner && not (flow.now.source_card_id == "")

tell_if : Bool → TickEnv → RowId → DecisionFlow → Shop → Bool × Shop
unfolding owner_notice
tell_if false env store flow shop = (false, shop)
tell_if true env store flow shop =
    let (o, after) = notify_store_owner shop.notices env.clock (owner_notice store flow) in
    (is_some o, record shop { notices = after })

pin_if : Bool → TickEnv → RowId → DecisionFlow → Shop → Option String × Shop
pin_if false env store flow shop = (none, shop)
pin_if true env store flow shop = (
  some flow.now.source_card_id,
  record shop {
    settings = save_nba_pin shop.settings store flow.phase flow.now.source_card_id env.today;
  },
)

idle : DecisionFlow → Shop → LightResult × Shop
idle flow shop =
    (record { phase = flow.phase; auto_executed = []; notified = false; pinned = none }, shop)

tick_if_open : Bool → TickEnv → RowId → DecisionFlow → Shop → LightResult × Shop
unfolding idle may_execute execute_if waits_for_boss tell_if pin_if
tick_if_open true env store flow shop = idle flow shop
tick_if_open false env store flow shop =
    let (executed, shop1) = execute_if (may_execute flow) env store shop in
    let (notified, shop2) =
      tell_if (flow.interrupt_ok && waits_for_boss flow) env store flow shop1 in
    let (pinned, shop3) = pin_if (waits_for_boss flow) env store flow shop2 in
    (
      record { phase = flow.phase; auto_executed = executed; notified = notified; pinned = pinned },
      shop3,
    )

-- `apply_light_tick`
pub apply_light_tick : TickEnv → RowId → DecisionFlow → Shop → LightResult × Shop
unfolding tick_if_open is_silent
apply_light_tick env store flow shop = tick_if_open (is_silent flow.phase) env store flow shop
