-- ===== src/Ticks/Heavy.antt =====
-- `tick_one_store` and `tick_all_stores` of app/services/operating_clock.py: the phases of a day, each
-- carried out once. `run` is `_run_clock_phase` of app/jobs/tasks.py with what it writes of notifications.
pub mod OncePerDay
use meal_key_ecosystem.Base.{
  none, some, [], ◌∷◌, true, false, Bool, Option, String, List, or_else, ℕ, if◌then◌else◌, ◌||◌,
  map, not, ◌==◌,
}
use meal_key_ecosystem.Models.{RowId}
use meal_key_ecosystem.Flow.Rhythm.{
  Phase, Hours, hours_of, resolve_operating_phase, is_in_quiet_hours,
}
use meal_key_ecosystem.Notify.{NotifyDb, Clock}
use meal_key_ecosystem.Notify.Inbox.{flush_queued_notifications}
use meal_key_ecosystem.Ticks.Settings.{AppSetting, clock_already_ran, mark_clock_ran}

pub record ClockDb : Type 0 where
  pub notices : NotifyDb
  pub settings : List AppSetting

-- how the analysis of a phase ends; `raised` leaves what it had committed
pub data PhaseOutcome : Type 0 where
  skipped failed raised : String → PhaseOutcome
  finished : PhaseOutcome

pub data TickStatus : Type 0 where
  quiet_hours light_only already_ran ran : TickStatus
  held_up broken : String → TickStatus

-- the phase is `none` where the hours of the rhythm do not parse
pub record TickResult : Type 0 where
  pub store : RowId
  pub phase : Option Phase
  pub status : TickStatus
  pub flushed : ℕ

-- the arguments: the store, the clock with the local day and the time as a text, whether the analysis is
-- wanted, and the hour, if it is not that of the clock
pub record Tick : Type 0 where
  pub store : RowId
  pub clock : Clock
  pub today : ℕ
  pub stamp : String
  pub heavy : Bool
  pub hour : Option ℕ

rests_in : Phase → Bool → Bool
rests_in Phase.quiet is_quiet = true
rests_in Phase.night_learn is_quiet = false
rests_in Phase.deep_review is_quiet = false
rests_in _ is_quiet = is_quiet

module _ (run : RowId → Phase → NotifyDb → PhaseOutcome × NotifyDb) where
  -- the phase is marked unless it was skipped or failed
  settle_phase : Tick → Phase → ClockDb → PhaseOutcome × NotifyDb → TickStatus × ClockDb
  settle_phase t p db (skipped why, after) = (held_up why, record db { notices = after })
  settle_phase t p db (failed why, after) = (held_up why, record db { notices = after })
  settle_phase t p db (raised why, after) = (broken why, record db { notices = after })
  settle_phase t p db (finished, after) = (
    ran,
    record db { notices = after; settings = mark_clock_ran db.settings t.store p t.today t.stamp },
  )

  run_unless : Bool → Tick → Phase → ClockDb → TickStatus × ClockDb
  unfolding settle_phase
  run_unless true t p db = (already_ran, db)
  run_unless false t p db = settle_phase t p db (run t.store p db.notices)

  run_if : Bool → Tick → Phase → ClockDb → TickStatus × ClockDb
  unfolding run_unless
  run_if false t p db = (light_only, db)
  run_if true t p db = run_unless (clock_already_ran db.settings t.store p t.today) t p db

  tick_unless : Bool → Tick → Phase → ClockDb → TickResult × ClockDb
  unfolding run_if
  tick_unless true t p db =
      (record { store = t.store; phase = some p; status = quiet_hours; flushed = 0 }, db)
  tick_unless false t p db =
      let (flushed, notices) = flush_queued_notifications db.notices t.clock (some t.store) in
      let (status, after) = run_if t.heavy t p (record db { notices = notices }) in
      (record { store = t.store; phase = some p; status = status; flushed = flushed }, after)

  tick_in : Option Hours → ℕ → Tick → ClockDb → TickResult × ClockDb
  unfolding tick_unless rests_in
  tick_in none hour t db =
      (record { store = t.store; phase = none; status = broken "ValueError"; flushed = 0 }, db)
  tick_in (some hours) hour t db =
      let p = resolve_operating_phase hour hours in
      tick_unless (rests_in p (is_in_quiet_hours hours hour)) t p db

  -- `tick_one_store`
  pub tick_one_store : Tick → ClockDb → TickResult × ClockDb
  unfolding tick_in
  tick_one_store t db =
      tick_in (hours_of (t.clock.rhythm_for t.store)) (or_else t.hour t.clock.local_hour) t db

  -- one after the other; what breaks one is its result
  pub tick_each : List Tick → ClockDb → List TickResult × ClockDb
  tick_each [] db = ([], db)
  tick_each (t ∷ rest) db =
      let (result, after) = tick_one_store t db in
      let (results, last) = tick_each rest after in (result ∷ results, last)

  -- `tick_all_stores`, with the stores whose status is `active`
  pub tick_all_stores :
      List RowId → Clock → ℕ → String → Bool → Option ℕ → ClockDb → List TickResult × ClockDb
  unfolding tick_each
  tick_all_stores stores clock today stamp heavy hour db =
      tick_each
        (map
          (λ (s : RowId). record {
            store = s;
            clock = clock;
            today = today;
            stamp = stamp;
            heavy = heavy;
            hour = hour;
          })
          stores)
        db

-- what `should_run_inprocess_clock` reads of the environment
pub record ClockEnv : Type 0 where
  pub disable_clock : String
  pub enable_inprocess_clock : String
  pub vercel : String
  pub has_current_test : Bool

-- `should_run_inprocess_clock`
pub should_run_inprocess_clock : ClockEnv → Bool → Bool
should_run_inprocess_clock env is_dev =
    if env.disable_clock == "1"
    then false
    else if env.enable_inprocess_clock == "1"
    then true
    else if env.vercel == "1"
    then false
    else is_dev

-- `clock_disabled`
pub clock_disabled : ClockEnv → Bool → Bool
clock_disabled env is_dev = env.has_current_test || not (should_run_inprocess_clock env is_dev)
