-- ===== src/Loop/Observe/Keeps.antt =====
-- The end of the observation window keeps the matters consistent.
use meal_key_ecosystem.Loop.Thread.{append_thread_state, same_state}
use meal_key_ecosystem.Base.{arith, List, keep, update-All, ◌∷◌, Bool-cases, inl, inr, []}
use meal_key_ecosystem.Models.{Time}
use meal_key_ecosystem.Loop.State.{LoopDb, Item}
use meal_key_ecosystem.Loop.Invariant.{AllConsistent, IsConsistent, is_consistent, agrees, has_rows}
use meal_key_ecosystem.Loop.Observe.{
  Evaluators, Verdict, judge, closed_item, close_observation, tick, watched, ended,
  tick_observing_loops,
}
use meal_key_ecosystem.Loop.Observe.Window.{close_observation-loops}

closed_item-IsConsistent :
    (x : Item) (v : Verdict) (now : Time) → IsConsistent (closed_item x v now)
unfolding closed_item IsConsistent is_consistent agrees has_rows append_thread_state same_state
closed_item-IsConsistent x v now = ground arith

module _ (env : Evaluators) (now : Time) where
  close_observation-AllConsistent :
      (db : LoopDb) (x : Item) → AllConsistent db → AllConsistent (close_observation env db x now)
  unfolding AllConsistent
  close_observation-AllConsistent db x h = rw (close_observation-loops env db x now) (
      update-All {P = IsConsistent} IsConsistent _ _ db.loops
        (λ _ _ _. closed_item-IsConsistent x (judge env db x).1 now) (λ _ _ hz. hz) h)

  tick-AllConsistent :
      (xs : List Item) (db : LoopDb) → AllConsistent db → AllConsistent (tick env now xs db).0
  unfolding tick
  tick-AllConsistent [] db h = h
  tick-AllConsistent (x ∷ xs) db h = elim (Bool-cases (ended x now)) [
    | inl e ↦ rw e (
        tick-AllConsistent xs (close_observation env db x now)
          (close_observation-AllConsistent db x h))
    | inr e ↦ rw e (tick-AllConsistent xs db h)
  ]

  pub tick_observing_loops-AllConsistent :
      (db : LoopDb) → AllConsistent db → AllConsistent (tick_observing_loops env db now).0
  unfolding tick_observing_loops
  tick_observing_loops-AllConsistent db h = tick-AllConsistent (keep watched db.loops) db h
