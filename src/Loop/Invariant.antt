-- ===== src/Loop/Invariant.antt =====
-- When the columns of a matter agree: its status, its times, the rows that it points to and the state
-- that its pack shows.
use meal_key_ecosystem.Loop.Thread.{ThreadState, same_state}
use meal_key_ecosystem.Models.{RowId}
use mathlib.Core.Path.{subst}
use meal_key_ecosystem.Base.{
  none, some, Bool-cases, if◌then◌else◌, inl, inr, eq_nat, Option, All, update-All, ◌≡◌, Bool, not,
  true, Holds, is_some, ◌&&◌, ◌||◌, false, All-first,
}
use meal_key_ecosystem.Loop.State.{
  closed, Item, LoopDb, LoopStatus, put_loop, get_loop, LoopResult, at_now, not_executed,
  in_observation, filed_state, was_executed, result_ready,
}

-- the states in which a matter of the status can be
unfoldable pub agrees : LoopStatus → LoopResult → ThreadState → Bool
agrees at_now r s =
    same_state s ThreadState.need_approval || same_state s ThreadState.ready_to_execute
agrees was_executed r s = false
agrees not_executed r s = same_state s ThreadState.cancelled
agrees in_observation r s = same_state s ThreadState.observing
agrees result_ready r s = same_state s ThreadState.waiting_result
agrees closed r s = same_state s (filed_state r)

-- the times and rows that a matter of the status has
unfoldable pub has_rows : Item → LoopStatus → Bool
has_rows x at_now = not (is_some x.executed_at) && not (is_some x.observe_until)
has_rows x not_executed = not (is_some x.executed_at) && not (is_some x.observe_until)
has_rows x in_observation =
    is_some x.executed_at
    && is_some x.observe_until
    && is_some x.recommendation_id
    && is_some x.experiment_id
has_rows x _ = true

unfoldable pub is_consistent : Item → Bool
unfolding agrees has_rows
is_consistent x =
    elim x.pack.thread_status [ none ↦ false | some s ↦ agrees x.status x.result s ]
    && has_rows x x.status

unfoldable pub IsConsistent : Item → Type 0
IsConsistent x = is_consistent x ≡ true

-- each matter of the database agrees
unfoldable pub AllConsistent : LoopDb → Type 0
unfolding IsConsistent
AllConsistent db = All IsConsistent db.loops

pub put_loop-AllConsistent :
    (db : LoopDb) (x : Item) → IsConsistent x → AllConsistent db → AllConsistent (put_loop db x)
unfolding AllConsistent put_loop
put_loop-AllConsistent db x hx h =
    update-All {P = IsConsistent} IsConsistent _ _ db.loops (λ y e hy. hx) (λ y e hy. hy) h

Holds-own :
    (store : RowId) (o : Option Item)
    → Holds IsConsistent o
    → Holds IsConsistent
        (elim o [ none ↦ none | some x ↦ if eq_nat x.store_id store then some x else none ])
Holds-own store none h = h
Holds-own store (some x) h = elim (Bool-cases (eq_nat x.store_id store)) [
  | inl e ↦ rw e h
  | inr e ↦ rw e tt
]

-- What a query finds is consistent.
get_loop-IsConsistent :
    (db : LoopDb) (store i : RowId) → AllConsistent db → Holds IsConsistent (get_loop db store i)
unfolding AllConsistent get_loop
get_loop-IsConsistent db store i h = Holds-own store _ (All-first IsConsistent _ db.loops h)

pub found_IsConsistent :
    (db : LoopDb) (store i : RowId) (x : Item)
    → AllConsistent db
    → get_loop db store i ≡ some x
    → IsConsistent x
found_IsConsistent db store i x h e =
    subst (Holds IsConsistent) e (get_loop-IsConsistent db store i h)
