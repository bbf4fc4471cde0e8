-- ===== src/Threads/Sync/OnePerGoal.antt =====
-- Goals and their threads, `sync_threads_from_agents` of app/services/thread_engine.py.
use meal_key_ecosystem.Base.{
  [], ◌∷◌, some, length, List, ◌≡◌, ◌≤◌, cut, arith, ◌+◌, refl, if◌then◌else◌, eq_nat, subst, keep,
  length-keep_append, Option, All, Bool-cases, inl, none, All-map, keep-update_same, ◌∙◌, eq_nat-eq,
  ap, inr,
}
use meal_key_ecosystem.Models.{RowId}
use meal_key_ecosystem.Threads.{
  OperatingThread, ThreadDb, create_thread, is_active_of, load_active_threads, ThreadBrief,
  is_active, new_thread,
}
use meal_key_ecosystem.Threads.Sync.{
  Goal, Growth, goal_threads, sync_goals, with_thread, is_of_goal, filled, fill_threads,
  sync_threads_from_agents, is_goal_of,
}

-- no goal of the store has two active threads
abbrev pub HasOnePerGoal : List OperatingThread → RowId → Type 0
HasOnePerGoal rows store = (goal : RowId) → length (goal_threads rows store goal) ≤ 1

new_is_of :
    (i store : RowId) (g : Goal) (goal : RowId)
    → length (
        keep
          (is_of_goal store goal)
          (new_thread i store (cut 100 g.raw_text) g.raw_text (some g.id) ∷ []))
      ≡ (if eq_nat g.id goal then 1 else 0)
unfolding keep is_of_goal is_active_of is_active new_thread
new_is_of i store g goal = ground arith

-- a new thread is one more for its goal, and none more for another
goal_threads-new :
    (db : ThreadDb) (store : RowId) (g : Goal) (goal : RowId)
    → length (
        goal_threads
          (create_thread db store (cut 100 g.raw_text) g.raw_text (some g.id)).1.rows
          store
          goal)
      ≡ length (goal_threads db.rows store goal) + (if eq_nat g.id goal then 1 else 0)
unfolding goal_threads create_thread
goal_threads-new db store g goal = omega (
  arith,
  length-keep_append (is_of_goal store goal) db.rows
      (new_thread db.next_id store (cut 100 g.raw_text) g.raw_text (some g.id) ∷ []),
  new_is_of db.next_id store g goal,
)

new_has_one :
    (db : ThreadDb) (store : RowId) (g : Goal) (goal : RowId)
    → goal_threads db.rows store g.id ≡ []
    → length (goal_threads db.rows store goal) ≤ 1
    → length (
        goal_threads
          (create_thread db store (cut 100 g.raw_text) g.raw_text (some g.id)).1.rows
          store
          goal)
      ≤ 1
new_has_one db store g goal e h = elim (Bool-cases (eq_nat g.id goal)) [
  | inl t ↦
      subst
        (λ i.
          length (
            goal_threads (create_thread db store (cut 100 g.raw_text) g.raw_text (some g.id)).1.rows
              store i)
          ≤ 1)
        (eq_nat-eq g.id goal t)
        (ground (arith, goal_threads-new db store g g.id, ap (λ xs. length xs) e))
  | inr t ↦ ground (arith, goal_threads-new db store g goal, t)
]

with_thread-one :
    (db : ThreadDb) (store : RowId) (g : Goal) (found : List OperatingThread)
    → goal_threads db.rows store g.id ≡ found
    → HasOnePerGoal db.rows store
    → (after : ThreadDb) × (with_thread db store g found ≡ some after)
      × (length (goal_threads after.rows store g.id) ≡ 1)
      × ((goal : RowId)
          → length (goal_threads db.rows store goal) ≤ length (goal_threads after.rows store goal))
      × HasOnePerGoal after.rows store
unfolding with_thread
with_thread-one db store g [] e h = (
  (create_thread db store (cut 100 g.raw_text) g.raw_text (some g.id)).1,
  refl,
  ground (arith, goal_threads-new db store g g.id, e),
  λ goal. ground (arith, goal_threads-new db store g goal),
  λ goal. new_has_one db store g goal e (h goal),
)
with_thread-one db store g (t ∷ []) e h = (db, refl, rw e refl, λ goal. omega arith, h)
with_thread-one db store g (t ∷ u ∷ rest) e h =
    absurd (ground (arith, subst (λ xs. length xs ≤ 1) e (h g.id)))

pub sync_goals-one :
    (db : ThreadDb) (store : RowId) (goals : List Goal)
    → HasOnePerGoal db.rows store
    → (after : ThreadDb) × (sync_goals db store goals ≡ some after)
      × HasOnePerGoal after.rows store
      × ((goal : RowId)
          → length (goal_threads db.rows store goal) ≤ length (goal_threads after.rows store goal))
      × All (λ (g : Goal). length (goal_threads after.rows store g.id) ≡ 1) goals
unfolding sync_goals
sync_goals-one db store [] h = (db, refl, h, λ goal. omega arith, tt)
sync_goals-one db store (g ∷ rest) h =
    let (mid, e, one, more, still) =
      with_thread-one db store g (goal_threads db.rows store g.id) refl h in
    let (after, f, last, grows, all) = sync_goals-one mid store rest still in
    (
      after,
      rw e f,
      last,
      λ goal. omega (arith, more goal, grows goal),
      (omega (arith, one, grows g.id, last g.id), all),
    )

filled_keeps :
    (store goal : RowId) (growth : Option Growth) (t : OperatingThread)
    → is_of_goal store goal (filled growth t) ≡ is_of_goal store goal t
unfolding is_of_goal is_active_of filled
filled_keeps store goal none t = refl
filled_keeps store goal (some g) t = refl

goal_threads-fill :
    (db : ThreadDb) (store : RowId) (growth : Option Growth) (goal : RowId)
    → length (goal_threads (fill_threads db store growth).rows store goal)
      ≡ length (goal_threads db.rows store goal)
unfolding goal_threads fill_threads
goal_threads-fill db store growth goal =
    keep-update_same (is_of_goal store goal) (is_active_of store) (filled growth) db.rows
      (filled_keeps store goal growth)

pub fill-one :
    (db : ThreadDb) (store : RowId) (growth : Option Growth) (goals : List Goal)
    → All (λ (g : Goal). length (goal_threads db.rows store g.id) ≡ 1) goals
    → All
        (λ (g : Goal). length (goal_threads (fill_threads db store growth).rows store g.id) ≡ 1)
        goals
fill-one db store growth goals h =
    All-map (λ (g : Goal). length (goal_threads (fill_threads db store growth).rows store g.id) ≡ 1)
      goals (λ g one. goal_threads-fill db store growth g.id ∙ one) h

-- If no goal of the store has two active threads, then synchronizing succeeds, whatever the agents
-- report; each active goal of the store then has exactly one active thread, and still none has two.
pub sync_threads_from_agents-one :
    (db : ThreadDb) (store : RowId) (goals : List Goal) (growth : Option Growth)
    → HasOnePerGoal db.rows store
    → (r : List ThreadBrief × ThreadDb) × (sync_threads_from_agents db store goals growth ≡ some r)
      × All
          (λ (g : Goal). length (goal_threads r.1.rows store g.id) ≡ 1)
          (keep (is_goal_of store) goals)
      × HasOnePerGoal r.1.rows store
unfolding sync_threads_from_agents
sync_threads_from_agents-one db store goals growth h =
    let (after, e, last, grows, all) = sync_goals-one db store (keep (is_goal_of store) goals) h in
    (
      (
        load_active_threads (fill_threads after store growth) store,
        fill_threads after store growth,
      ),
      rw e refl,
      fill-one after store growth (keep (is_goal_of store) goals) all,
      λ goal. omega (arith, goal_threads-fill after store growth goal, last goal),
    )
