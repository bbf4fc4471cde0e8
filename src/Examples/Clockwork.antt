-- ===== src/Examples/Clockwork.antt =====
-- The clock of a shop.
use meal_key_ecosystem.Flow.Project.{flow_at}
use meal_key_ecosystem.Base.{
  [], ◌∷◌, none, some, true, false, length, cut, ◌≡◌, strip, ◌==◌, keep, arith, refl, inl, ◌≤◌,
  contains,
}
use meal_key_ecosystem.Models.{RowId}
use meal_key_ecosystem.Flow.Rhythm.{Phase}
use meal_key_ecosystem.Ticks.Settings.{load_nba_pin, save_nba_pin, is_mask, only_stars}
use meal_key_ecosystem.Ticks.Settings.Pins.{save_nba_pin-load}
use meal_key_ecosystem.Ticks.Light.{Shop, TickEnv, apply_light_tick}
use meal_key_ecosystem.Ticks.Light.Modest.{
  apply_light_tick-IsModest, peak_tick-IsUntouched, IsModest, IsUntouched,
}
use meal_key_ecosystem.Ticks.Heavy.{ClockDb, Tick, finished, PhaseOutcome, tick_each}
use meal_key_ecosystem.Ticks.Heavy.OncePerDay.{tick_each-once, ran_for}
use meal_key_ecosystem.Notify.{NotifyDb}
use meal_key_ecosystem.Examples.Notices.{silence, morning, need}
use meal_key_ecosystem.Examples.Day.{hours, noon_queue}
use meal_key_ecosystem.Examples.Menu.{shop}

abbrev corner_shop : Shop
corner_shop = record {
  menu = shop;
  recs = [];
  memory = [];
  trust_setting = "2";
  notices = silence;
  settings = [];
}

abbrev env : TickEnv
env = record { clock = morning; today = 1; done_notice = λ e. need }

plain_id : is_mask (cut 120 "card-1") ≡ false
unfolding is_mask only_stars strip cut contains
plain_id = refl

full_id : strip (cut 120 "card-1") == "" ≡ false
unfolding strip cut
full_id = refl

save_nba_pin-load_example :
    load_nba_pin (save_nba_pin [] 7 Phase.lunch_nba "card-1" 1) 7 Phase.lunch_nba 1
    ≡ some (strip (cut 120 "card-1"))
save_nba_pin-load_example = save_nba_pin-load [] 7 Phase.lunch_nba "card-1" 1 plain_id full_id

apply_light_tick-IsModest_example :
    IsModest
      (flow_at hours 10 noon_queue [] "")
      corner_shop
      (apply_light_tick env 7 (flow_at hours 10 noon_queue [] "") corner_shop)
apply_light_tick-IsModest_example =
    apply_light_tick-IsModest env 7 (flow_at hours 10 noon_queue [] "") corner_shop

peak_tick-IsUntouched_example :
    (let r = apply_light_tick env 7 (flow_at hours 12 noon_queue [] "card-2") corner_shop in
      ((r.0).auto_executed ≡ []) × IsUntouched (r.1) corner_shop)
peak_tick-IsUntouched_example =
    peak_tick-IsUntouched env 7 corner_shop hours 12 noon_queue [] "card-2" (omega arith)
      (omega arith) (inl (omega arith, omega arith))

abbrev do_nothing : RowId → Phase → NotifyDb → PhaseOutcome × NotifyDb
do_nothing store p db = (finished, db)

abbrev at_ten : Tick
at_ten = record {
  store = 7;
  clock = morning;
  today = 1;
  stamp = "2026-01-02T02:00";
  heavy = true;
  hour = none;
}

abbrev no_run_yet : ClockDb
no_run_yet = record { notices = silence; settings = [] }

tick_each-once_example :
    length
      (keep (ran_for 7 Phase.lunch_nba) (tick_each do_nothing (at_ten ∷ at_ten ∷ []) no_run_yet).0)
    ≤ 1
tick_each-once_example =
    tick_each-once do_nothing (at_ten ∷ at_ten ∷ []) 1 no_run_yet 7 Phase.lunch_nba
      (refl, (refl, tt))
