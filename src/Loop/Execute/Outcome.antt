-- ===== src/Loop/Execute/Outcome.antt =====
-- What reporting a matter as executed returns.
use meal_key_ecosystem.Actions.Capability.{assert_action_executable}
use meal_key_ecosystem.Loop.Rows.{hours_or_48}
use meal_key_ecosystem.Base.{
  none, some, arith, ◌≡◌, String, refl, ◌+◌, Option-cases, ap, first, eq_nat, ◌*◌, inl, inr,
  first_passes, if◌then◌else◌, ◌∙◌, sym, or_text, Bool-cases, ◌&&◌, not,
}
use meal_key_ecosystem.Models.{RowId, Time}
use meal_key_ecosystem.Loop.State.{Item, LoopDb, get_loop, put_loop, in_observation, is_human_task}
use meal_key_ecosystem.Loop.State.Lookup.{get_loop-put_loop}
use meal_key_ecosystem.Loop.Execute.{
  Reply, execute_found, executor_of, executed_item, commit_execution, mark_loop_executed, done,
  fail,
}
use meal_key_ecosystem.Loop.Execute.Keeps.{commit_execution-loops}

-- a query sees the matters alone
get_loop-loops :
    (db d : LoopDb) (x : Item) (store i : RowId)
    → db.loops ≡ (put_loop d x).loops
    → get_loop db store i ≡ get_loop (put_loop d x) store i
unfolding get_loop
get_loop-loops db d x store i e =
    ap
      (λ xs. elim (first (λ y. eq_nat y.id i) xs) [
        | none ↦ none
        | some y ↦ if eq_nat y.store_id store then some y else none
      ])
      e

commit_execution-columns :
    (db : LoopDb) (x : Item) (now : Time)
    → ((commit_execution db x now).1.id ≡ x.id)
      × ((commit_execution db x now).1.store_id ≡ x.store_id)
      × ((commit_execution db x now).1.status ≡ x.status)
      × ((commit_execution db x now).1.observe_until ≡ x.observe_until)
unfolding commit_execution
commit_execution-columns db x now = (refl, refl, refl, refl)

commit_execution-put :
    (db : LoopDb) (x : Item) (now : Time)
    → (commit_execution db x now).0.loops ≡ (put_loop db (commit_execution db x now).1).loops
unfolding put_loop
commit_execution-put db x now =
    rw (commit_execution-columns db x now).0 (commit_execution-loops db x now)

executed_item-columns :
    (x : Item) (now : Time) (executor notes : String)
    → ((executed_item x now executor notes).id ≡ x.id)
      × ((executed_item x now executor notes).store_id ≡ x.store_id)
      × ((executed_item x now executor notes).status ≡ in_observation)
      × ((executed_item x now executor notes).observe_until
          ≡ some (now + hours_or_48 x.observe_hours * 3600))
unfolding executed_item
executed_item-columns x now executor notes = (refl, refl, refl, refl)

get_loop-columns :
    (db : LoopDb) (store i : RowId) (x : Item)
    → get_loop db store i ≡ some x
    → (x.id ≡ i) × (x.store_id ≡ store)
unfolding get_loop
get_loop-columns db store i x h = elim (Option-cases (first (λ y. eq_nat y.id i) db.loops)) [
  | inl e ↦ (ground (arith, h, e), ground (arith, h, e))
  | inr (y, e) ↦ (
    ground (arith, h, e, first_passes (λ (z : Item). eq_nat z.id i) db.loops e),
    ground (arith, h, e),
  )
]

-- what a successful execution is: the reply is the store's row, in observation until the window ends
unfoldable pub IsObserved : LoopDb → RowId → RowId → Time → Item → Item → Type 0
IsObserved db store i now x y =
    (get_loop db store i ≡ some y)
    × (y.status ≡ in_observation)
    × (y.observe_until ≡ some (now + hours_or_48 x.observe_hours * 3600))

unfoldable pub IsOutcome : LoopDb → RowId → RowId → Time → Item → Reply × LoopDb → Type 0
IsOutcome db store i now x (done y, db') = IsObserved db' store i now x y
IsOutcome db store i now x (fail e, db') = db' ≡ db

rewritten :
    (db : LoopDb) (y : Item) (store i : RowId) (x : Item)
    → y.store_id ≡ store
    → y.id ≡ i
    → get_loop db store i ≡ some x
    → get_loop (put_loop db y) store i ≡ some y
rewritten db y store i x s e h = rw (sym s, sym e) (get_loop-put_loop db y x (rw (s, e) h))

module _ (db : LoopDb) (store i : RowId) (now : Time) (x : Item)
    (found : get_loop db store i ≡ some x) where
  committed-IsObserved :
      (executor notes : String)
      → IsObserved
          (commit_execution db (executed_item x now executor notes) now).0
          store
          i
          now
          x
          (commit_execution db (executed_item x now executor notes) now).1
  unfolding IsObserved
  committed-IsObserved executor notes =
      let y = executed_item x now executor notes in
      let final = (commit_execution db y now).1 in
      let (i1, s1, t1, u1) = commit_execution-columns db y now in
      let (i2, s2, t2, u2) = executed_item-columns x now executor notes in
      let (i3, s3) = get_loop-columns db store i x found in
      let at_id : final.id ≡ i = i1 ∙ i2 ∙ i3 in
      let at_store : final.store_id ≡ store = s1 ∙ s2 ∙ s3 in
      (
        get_loop-loops (commit_execution db y now).0 db final store i
              (commit_execution-put db y now)
            ∙ rewritten db final store i x at_store at_id found,
        t1 ∙ t2,
        u1 ∙ u2,
      )

  found-IsOutcome :
      (executor notes : String) → IsOutcome db store i now x (execute_found db x now executor notes)
  unfolding execute_found IsOutcome
  found-IsOutcome executor notes =
      elim (Option-cases (assert_action_executable (or_text x.action_type "ops_hint"))) [
        | inr (code, e) ↦ rw (execute_found, e) refl
        | inl e ↦ elim (Bool-cases (is_human_task x && not x.has_evidence)) [
          | inl t ↦ rw (execute_found, e, t) refl
          | inr t ↦ rw (execute_found, e, t) (committed-IsObserved (executor_of x executor) notes)
        ]
      ]

  -- Reporting a matter of the store as executed either fails and changes nothing, or returns the row that
  -- the store's matter now is: it is in observation, and its window ends after its own hours (48 where it
  -- names none).
  pub mark_loop_executed-IsOutcome :
      (executor notes : String)
      → IsOutcome db store i now x (mark_loop_executed db store i now executor notes)
  unfolding mark_loop_executed
  mark_loop_executed-IsOutcome executor notes =
      rw (mark_loop_executed, found) (found-IsOutcome executor notes)
