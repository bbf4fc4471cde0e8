-- ===== src/Ticks/Heavy/OncePerDay.antt =====
-- How often the clock of app/services/operating_clock.py carries out a phase.
use meal_key_ecosystem.Base.{
  refl, none, some, [], ◌∷◌, true, false, ◌&&◌, Bool, ◌≡◌, Option, List, ℕ, eq_nat, if◌then◌else◌,
  ◌+◌, ◌≤◌, arith, keep, All, length, Bool-cases, subst, inr, inl, or_else, eq_nat-eq,
}
use meal_key_ecosystem.Models.{RowId}
use meal_key_ecosystem.Flow.Rhythm.{
  Phase, Hours, hours_of, resolve_operating_phase, is_in_quiet_hours,
}
use meal_key_ecosystem.Notify.{NotifyDb}
use meal_key_ecosystem.Notify.Inbox.{flush_queued_notifications}
use meal_key_ecosystem.Ticks.Settings.{
  AppSetting, same_phase, clock_already_ran, mark_clock_ran, clock_marker_key,
}
use meal_key_ecosystem.Ticks.Settings.Pins.{same_phase-eq, upsert_setting-keeps, upsert_setting-has}
use meal_key_ecosystem.Ticks.Heavy.{
  ClockDb, PhaseOutcome, TickStatus, TickResult, Tick, settle_phase, run_unless, run_if,
  tick_unless, tick_in, tick_one_store, tick_each, rests_in, skipped, failed, raised, finished, ran,
}

has_run : TickStatus → Bool
has_run ran = true
has_run _ = false

same_phase_as : Phase → Option Phase → Bool
same_phase_as p none = false
same_phase_as p (some q) = same_phase q p

-- a tick that carried out the analysis of a phase for a store
pub ran_for : RowId → Phase → TickResult → Bool
unfolding has_run same_phase_as
ran_for store p r = has_run r.status && eq_nat r.store store && same_phase_as p r.phase

marked : List AppSetting → RowId → Phase → ℕ → ℕ
marked rows store p day = if clock_already_ran rows store p day then 1 else 0

marked-le :
    (rows : List AppSetting) (store : RowId) (p : Phase) (day : ℕ) → marked rows store p day ≤ 1
unfolding marked
marked-le rows store p day = ground arith

marked-keeps :
    (rows : List AppSetting) (t : Tick) (store : RowId) (q p : Phase)
    → marked rows store p t.today
      ≤ marked (mark_clock_ran rows t.store q t.today t.stamp) store p t.today
unfolding marked mark_clock_ran clock_already_ran
marked-keeps rows t store q p = ground (
  arith,
  upsert_setting-keeps rows (clock_marker_key t.store q t.today) (clock_marker_key store p t.today)
      t.stamp,
)

marked-new :
    (rows : List AppSetting) (t : Tick) (q : Phase)
    → clock_already_ran rows t.store q t.today ≡ false
    → 1 + marked rows t.store q t.today
      ≤ marked (mark_clock_ran rows t.store q t.today t.stamp) t.store q t.today
unfolding marked mark_clock_ran clock_already_ran
marked-new rows t q h =
    ground (arith, h, upsert_setting-has rows (clock_marker_key t.store q t.today) t.stamp)

module _ (run : RowId → Phase → NotifyDb → PhaseOutcome × NotifyDb) where
  -- a status and the markers that it leaves
  abbrev Accounts : RowId → Phase → ℕ → Bool → List AppSetting → List AppSetting → Type 0
  Accounts store p day done before after =
      (if done then 1 else 0) + marked before store p day ≤ marked after store p day

  settle-Accounts :
      (t : Tick) (q : Phase) (db : ClockDb) (o : PhaseOutcome × NotifyDb) (store : RowId)
      (p : Phase)
      → clock_already_ran db.settings t.store q t.today ≡ false
      → Accounts store p t.today
          (has_run (settle_phase run t q db o).0 && eq_nat t.store store && same_phase q p)
          db.settings
          (settle_phase run t q db o).1.settings
  unfolding settle_phase has_run
  settle-Accounts t q db (skipped why, after) store p h = omega arith
  settle-Accounts t q db (failed why, after) store p h = omega arith
  settle-Accounts t q db (raised why, after) store p h = omega arith
  settle-Accounts t q db (finished, after) store p h =
      elim (Bool-cases (eq_nat t.store store && same_phase q p)) [
        | inr e ↦ rw e (omega (arith, marked-keeps db.settings t store q p))
        | inl e ↦ rw e (
            subst
              (λ (s : RowId).
                1 + marked db.settings s p t.today
                ≤ marked (mark_clock_ran db.settings t.store q t.today t.stamp) s p t.today)
              (eq_nat-eq t.store store (ground (arith, e)))
              (subst
                (λ (k : Phase).
                  1 + marked db.settings t.store k t.today
                  ≤ marked (mark_clock_ran db.settings t.store q t.today t.stamp) t.store k t.today)
                (same_phase-eq q p (ground (arith, e))) (marked-new db.settings t q h)))
      ]

  run_unless-Accounts :
      (b : Bool) (t : Tick) (q : Phase) (db : ClockDb) (store : RowId) (p : Phase)
      → clock_already_ran db.settings t.store q t.today ≡ b
      → Accounts store p t.today
          (has_run (run_unless run b t q db).0 && eq_nat t.store store && same_phase q p)
          db.settings
          (run_unless run b t q db).1.settings
  unfolding run_unless has_run
  run_unless-Accounts true t q db store p h = omega arith
  run_unless-Accounts false t q db store p h =
      settle-Accounts t q db (run t.store q db.notices) store p h

  run_if-Accounts :
      (b : Bool) (t : Tick) (q : Phase) (db : ClockDb) (store : RowId) (p : Phase)
      → Accounts store p t.today
          (has_run (run_if run b t q db).0 && eq_nat t.store store && same_phase q p)
          db.settings
          (run_if run b t q db).1.settings
  unfolding run_if has_run
  run_if-Accounts false t q db store p = omega arith
  run_if-Accounts true t q db store p =
      run_unless-Accounts (clock_already_ran db.settings t.store q t.today) t q db store p refl

  tick_unless-Accounts :
      (b : Bool) (t : Tick) (q : Phase) (db : ClockDb) (store : RowId) (p : Phase)
      → Accounts store p t.today
          (ran_for store p (tick_unless run b t q db).0)
          db.settings
          (tick_unless run b t q db).1.settings
  unfolding tick_unless ran_for same_phase_as has_run
  tick_unless-Accounts true t q db store p = omega arith
  tick_unless-Accounts false t q db store p =
      run_if-Accounts t.heavy t q
        (record db { notices = (flush_queued_notifications db.notices t.clock (some t.store)).1 })
        store p

  tick_in-Accounts :
      (o : Option Hours) (hour : ℕ) (t : Tick) (db : ClockDb) (store : RowId) (p : Phase)
      → Accounts store p t.today
          (ran_for store p (tick_in run o hour t db).0)
          db.settings
          (tick_in run o hour t db).1.settings
  unfolding tick_in ran_for has_run
  tick_in-Accounts none hour t db store p = omega arith
  tick_in-Accounts (some hours) hour t db store p =
      let q = resolve_operating_phase hour hours in
      tick_unless-Accounts (rests_in q (is_in_quiet_hours hours hour)) t q db store p

  tick_each-Accounts :
      (ticks : List Tick) (day : ℕ) (db : ClockDb) (store : RowId) (p : Phase)
      → All (λ (t : Tick). t.today ≡ day) ticks
      → length (keep (ran_for store p) (tick_each run ticks db).0) + marked db.settings store p day
        ≤ marked (tick_each run ticks db).1.settings store p day
  unfolding tick_each tick_one_store keep
  tick_each-Accounts [] day db store p h = omega arith
  tick_each-Accounts (t ∷ rest) day db store p h =
      let after = (tick_one_store run t db).1 in
      ground (
        arith,
        tick_each-Accounts rest day after store p h.1,
        subst
            (λ (d : ℕ).
              Accounts store p d (ran_for store p (tick_one_store run t db).0) db.settings
                after.settings)
            h.0
            (tick_in-Accounts (hours_of (t.clock.rhythm_for t.store))
              (or_else t.hour t.clock.local_hour) t db store p),
      )

-- Whatever the clock does on one day, for any stores, at any hours and in any order, light or heavy, and
-- whatever the analyses do: for each store, each phase is carried out at most once.
pub tick_each-once :
    (run : RowId → Phase → NotifyDb → PhaseOutcome × NotifyDb) (ticks : List Tick) (day : ℕ)
    (db : ClockDb) (store : RowId) (p : Phase)
    → All (λ (t : Tick). t.today ≡ day) ticks
    → length (keep (ran_for store p) (tick_each run ticks db).0) ≤ 1
tick_each-once run ticks day db store p h = omega (
  arith,
  tick_each-Accounts run ticks day db store p h,
  marked-le (tick_each run ticks db).1.settings store p day,
)
