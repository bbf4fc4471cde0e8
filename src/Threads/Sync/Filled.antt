-- ===== src/Threads/Sync/Filled.antt =====
-- `sync_threads_from_agents` of app/services/thread_engine.py, run twice.
use Prim.Native.String.{◌++◌ as ◌+++◌}
use meal_key_ecosystem.Base.{
  ◌∷◌, [], none, some, List, String, Option, update, length, or_text, Holds, ◌≡◌, All, Bool-cases,
  refl, arith, inl, ◌==◌, inr, keep,
}
use meal_key_ecosystem.Models.{RowId}
use meal_key_ecosystem.Threads.{OperatingThread, ThreadDb, is_active_of, ThreadBrief}
use meal_key_ecosystem.Threads.Sync.{
  Goal, Growth, goal_threads, sync_goals, with_thread, filled, fill_rows, fill_step, fill_threads,
  sync_threads_from_agents, is_goal_of, done_so_far, doing_now,
}
use meal_key_ecosystem.Threads.Sync.OnePerGoal.{HasOnePerGoal, sync_goals-one, fill-one}

or_text-again : (a b : String) → or_text (or_text a b) b ≡ or_text a b
or_text-again a b = elim (Bool-cases (a == "")) [
  | inl e ↦ rw e (elim (Bool-cases (b == "")) [ inl f ↦ rw f refl | inr f ↦ rw f refl ])
  | inr e ↦ rw (e, e) refl
]

fill_rows-again :
    (old : Option (List String)) (new : List String)
    → fill_rows (fill_rows old new) new ≡ fill_rows old new
unfolding fill_rows
fill_rows-again none [] = refl
fill_rows-again none (x ∷ xs) = refl
fill_rows-again (some old) new = refl

fill_step-again :
    (old : String) (o : Option String) → fill_step (fill_step old o) o ≡ fill_step old o
unfolding fill_step
fill_step-again old none = refl
fill_step-again old (some title) = or_text-again old ("当前推进：" +++ title)

filled-again :
    (growth : Option Growth) (t : OperatingThread)
    → filled growth (filled growth t) ≡ filled growth t
unfolding filled
filled-again none t = refl
filled-again (some g) t =
    rw
      (
        fill_rows-again t.done (done_so_far g.positive),
        fill_rows-again t.doing (doing_now g.current_action),
        fill_step-again t.next_step g.selected_opportunity,
        or_text-again t.ai_judgment (or_text g.learning_summary "进度正常，暂时不需要你介入。"),
      )
      refl

filled_active :
    (store : RowId) (growth : Option Growth) (t : OperatingThread)
    → is_active_of store (filled growth t) ≡ is_active_of store t
unfolding is_active_of filled
filled_active store none t = refl
filled_active store (some g) t = refl

filled_rows-again :
    (store : RowId) (growth : Option Growth) (rows : List OperatingThread)
    → update (is_active_of store) (filled growth) (update (is_active_of store) (filled growth) rows)
      ≡ update (is_active_of store) (filled growth) rows
unfolding update
filled_rows-again store growth [] = refl
filled_rows-again store growth (t ∷ rest) = elim (Bool-cases (is_active_of store t)) [
  | inl e ↦
      rw
        (
          e,
          filled_active store growth t,
          e,
          filled-again growth t,
          filled_rows-again store growth rest,
        )
        refl
  | inr e ↦ rw (e, e, filled_rows-again store growth rest) refl
]

found_one :
    (db : ThreadDb) (store : RowId) (g : Goal) (found : List OperatingThread)
    → length found ≡ 1
    → with_thread db store g found ≡ some db
unfolding with_thread
found_one db store g [] h = absurd (omega (arith, h))
found_one db store g (t ∷ []) h = refl
found_one db store g (t ∷ u ∷ rest) h = absurd (omega (arith, h))

sync_goals-again :
    (db : ThreadDb) (store : RowId) (goals : List Goal)
    → All (λ (g : Goal). length (goal_threads db.rows store g.id) ≡ 1) goals
    → sync_goals db store goals ≡ some db
unfolding sync_goals
sync_goals-again db store [] h = refl
sync_goals-again db store (g ∷ rest) h =
    rw (found_one db store g (goal_threads db.rows store g.id) h.0)
      (sync_goals-again db store rest h.1)

fill_threads-again :
    (db : ThreadDb) (store : RowId) (growth : Option Growth)
    → fill_threads (fill_threads db store growth) store growth ≡ fill_threads db store growth
unfolding fill_threads
fill_threads-again db store growth = rw (filled_rows-again store growth db.rows) refl

-- If no goal of the store has two active threads, synchronizing a second time with the same goals and the
-- same report of the growth agent changes no thread and opens none.
pub sync_threads_from_agents-again :
    (db : ThreadDb) (store : RowId) (goals : List Goal) (growth : Option Growth)
    → HasOnePerGoal db.rows store
    → Holds
        (λ (r : List ThreadBrief × ThreadDb).
          sync_threads_from_agents r.1 store goals growth ≡ some r)
        (sync_threads_from_agents db store goals growth)
unfolding sync_threads_from_agents
sync_threads_from_agents-again db store goals growth h =
    let (after, e, last, grows, all) = sync_goals-one db store (keep (is_goal_of store) goals) h in
    rw e (
      rw
        (
          sync_goals-again (fill_threads after store growth) store (keep (is_goal_of store) goals)
              (fill-one after store growth (keep (is_goal_of store) goals) all),
          fill_threads-again after store growth,
        )
        refl)
