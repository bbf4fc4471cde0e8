-- ===== src/Loop/Consistent.antt =====
-- The operations of app/services/closed_loop.py as events on the matters of all stores, and the runs of
-- them in any order.
use meal_key_ecosystem.Loop.Observe.Keeps.{tick_observing_loops-AllConsistent}
use meal_key_ecosystem.Loop.Execute.Keeps.{
  mark_loop_executed-AllConsistent, writeback-AllConsistent, mark_loop_not_executed-AllConsistent,
  mark_loop_acked-AllConsistent,
}
use meal_key_ecosystem.Loop.Ensure.Keeps.{ensure_now_loop-AllConsistent}
use meal_key_ecosystem.Loop.Invariant.{AllConsistent}
use meal_key_ecosystem.Base.{String, Option}
use meal_key_ecosystem.Models.{RowId, Time}
use meal_key_ecosystem.Loop.State.{LoopDb, Item}
use meal_key_ecosystem.Loop.Execute.{
  WriteOutcome, mark_loop_executed, execute_loop_platform_writeback, mark_loop_not_executed,
  mark_loop_acked,
}
use meal_key_ecosystem.Loop.Observe.{Evaluators, tick_observing_loops}
use meal_key_ecosystem.Loop.Ensure.{Card, ensure_now_loop}

pub data Event : Type 0 where
  enters : RowId → Option Card → Event
  executes : RowId → RowId → String → String → Event
  writes_back : RowId → RowId → Event
  declines : RowId → RowId → Event
  acks : RowId → RowId → Event
  ticks : Event

-- the database after an event at a time
unfoldable pub after : (Item → WriteOutcome) → Evaluators → LoopDb → Time → Event → LoopDb
after platform env db now (enters store card) = (ensure_now_loop db store card now).1
after platform env db now (executes store i who notes) =
    (mark_loop_executed db store i now who notes).1
after platform env db now (writes_back store i) =
    (execute_loop_platform_writeback platform db store i now).1
after platform env db now (declines store i) = (mark_loop_not_executed db store i now).1
after platform env db now (acks store i) = (mark_loop_acked db store i now).1
after platform env db now ticks = (tick_observing_loops env db now).0

-- a database that events reach from another, each at its time
pub data Reaches (platform : Item → WriteOutcome) (env : Evaluators)
    : LoopDb → LoopDb → Type 0 where
  stays : (db : LoopDb) → Reaches platform env db db
  steps :
      (db db' : LoopDb) (now : Time) (e : Event)
      → Reaches platform env db db'
      → Reaches platform env db (after platform env db' now e)

module _ (platform : Item → WriteOutcome) (env : Evaluators) where
  -- Each operation of the loop, on each of its branches, keeps the columns of every matter consistent.
  after-AllConsistent :
      (db : LoopDb) (now : Time) (e : Event)
      → AllConsistent db
      → AllConsistent (after platform env db now e)
  unfolding after
  after-AllConsistent db now (enters store card) h =
      ensure_now_loop-AllConsistent db store now h card
  after-AllConsistent db now (executes store i who notes) h =
      mark_loop_executed-AllConsistent db store i now h who notes
  after-AllConsistent db now (writes_back store i) h =
      writeback-AllConsistent db store i now h platform
  after-AllConsistent db now (declines store i) h =
      mark_loop_not_executed-AllConsistent db store i now h
  after-AllConsistent db now (acks store i) h = mark_loop_acked-AllConsistent db store i now h
  after-AllConsistent db now ticks h = tick_observing_loops-AllConsistent env now db h

  -- A database whose matters are consistent reaches, by operations in any order and at any times, only
  -- such databases.
  pub Reaches-AllConsistent :
      {db db' : LoopDb} → AllConsistent db → Reaches platform env db db' → AllConsistent db'
  Reaches-AllConsistent h (stays db) = h
  Reaches-AllConsistent h (steps db db' now e r) =
      after-AllConsistent db' now e (Reaches-AllConsistent h r)
