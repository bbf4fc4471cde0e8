-- ===== src/Loop/Execute/Keeps.antt =====
-- The operations of the owner keep the matters consistent.
use meal_key_ecosystem.Actions.Pipeline.{commit_recommendation_executed}
use meal_key_ecosystem.Loop.Thread.{append_thread_state, same_state, Writeback}
use meal_key_ecosystem.Loop.Rows.{put_rec, ensure_recommendation}
use meal_key_ecosystem.Base.{
  arith, update, eq_nat, ◌≡◌, String, some, update-All, or_else, Option-cases, inl, true, inr, ap,
  ◌∙◌, Bool-cases, ◌==◌,
}
use meal_key_ecosystem.Models.{Time, RowId}
use meal_key_ecosystem.Loop.State.{Item, LoopDb, put_loop, get_loop, is_now}
use meal_key_ecosystem.Loop.Rows.Matters.{ensure_recommendation-loops, ensure_experiment-loops}
use meal_key_ecosystem.Loop.Invariant.{
  IsConsistent, is_consistent, agrees, has_rows, AllConsistent, put_loop-AllConsistent,
  found_IsConsistent,
}
use meal_key_ecosystem.Loop.Execute.{
  executed_item, executed_pack, commit_execution, mark_loop_not_executed, mark_loop_executed,
  mark_loop_acked, execute_found, executor_of, after_write, unless_raised, Reply, done, fail,
  attach_writeback, WriteOutcome, refused, execute_loop_platform_writeback, written,
}

pub commit_execution-loops :
    (db : LoopDb) (x : Item) (now : Time)
    → (commit_execution db x now).0.loops
      ≡ update (λ y. eq_nat y.id x.id) (λ _. (commit_execution db x now).1) db.loops
unfolding commit_execution put_loop put_rec
commit_execution-loops db x now =
    let (db1, rec) = ensure_recommendation db x now in
    let stamped = record rec { adopted_at = some (or_else rec.adopted_at now) } in
    let committed =
      or_else (commit_recommendation_executed stamped now "closed_loop" true) stamped in
    ap (update (λ y. eq_nat y.id x.id) (λ _. (commit_execution db x now).1)) (
      ensure_experiment-loops (put_rec db1 committed) x now committed x.executor
      ∙ ensure_recommendation-loops db x now)

commit_execution-IsConsistent :
    (db : LoopDb) (x : Item) (now t : Time) (executor notes : String)
    → IsConsistent (commit_execution db (executed_item x t executor notes) now).1
unfolding commit_execution executed_item executed_pack IsConsistent is_consistent agrees has_rows
    append_thread_state same_state
commit_execution-IsConsistent db x now t executor notes = ground arith

commit-AllConsistent :
    (db : LoopDb) (x : Item) (now t : Time) (executor notes : String)
    → AllConsistent db
    → AllConsistent (commit_execution db (executed_item x t executor notes) now).0
unfolding AllConsistent
commit-AllConsistent db x now t executor notes h =
    let y = executed_item x t executor notes in
    rw (commit_execution-loops db y now) (
      update-All {P = IsConsistent} IsConsistent _ _ db.loops
        (λ _ _ _. commit_execution-IsConsistent db x now t executor notes) (λ _ _ hz. hz) h)

module _ (db : LoopDb) (store i : RowId) (now : Time) (h : AllConsistent db) where
  executed_found :
      (x : Item) (executor notes : String) → AllConsistent (execute_found db x now executor notes).1
  unfolding execute_found
  executed_found x executor notes =
      ground (arith, h, commit-AllConsistent db x now now (executor_of x executor) notes h)

  pub mark_loop_executed-AllConsistent :
      (executor notes : String) → AllConsistent (mark_loop_executed db store i now executor notes).1
  unfolding mark_loop_executed
  mark_loop_executed-AllConsistent executor notes = elim (Option-cases (get_loop db store i)) [
    | inl e ↦ rw (mark_loop_executed, e) h
    | inr (x, e) ↦ rw (mark_loop_executed, e) (executed_found x executor notes)
  ]

  pub mark_loop_not_executed-AllConsistent : AllConsistent (mark_loop_not_executed db store i now).1
  unfolding mark_loop_not_executed IsConsistent is_consistent agrees has_rows append_thread_state
      same_state
  mark_loop_not_executed-AllConsistent = elim (Option-cases (get_loop db store i)) [
    | inl e ↦ rw (mark_loop_not_executed, e) h
    | inr (x, e) ↦ rw (mark_loop_not_executed, e) (put_loop-AllConsistent db _ (ground arith) h)
  ]

  pub mark_loop_acked-AllConsistent : AllConsistent (mark_loop_acked db store i now).1
  unfolding mark_loop_acked IsConsistent is_consistent agrees has_rows append_thread_state
      same_state
  mark_loop_acked-AllConsistent = elim (Option-cases (get_loop db store i)) [
    | inl e ↦ rw (mark_loop_acked, e) h
    | inr (x, e) ↦ rw (mark_loop_acked, e) (put_loop-AllConsistent db _ (ground arith) h)
  ]

attach_writeback-IsConsistent :
    (x : Item) (w : Writeback) → IsConsistent x → IsConsistent (attach_writeback x w)
unfolding attach_writeback IsConsistent is_consistent agrees has_rows
attach_writeback-IsConsistent x w h = h

unless_raised-AllConsistent :
    (before : LoopDb) (r : Reply × LoopDb)
    → AllConsistent before
    → AllConsistent (r.1)
    → AllConsistent (unless_raised before r).1
unfolding unless_raised
unless_raised-AllConsistent before (done x, after) h k = k
unless_raised-AllConsistent before (fail e, after) h k = h

module _ (db : LoopDb) (store i : RowId) (now : Time) (h : AllConsistent db) where
  after_write-AllConsistent :
      (x : Item) (outcome : WriteOutcome)
      → IsConsistent x
      → AllConsistent (after_write db store i now x outcome).1
  unfolding after_write
  after_write-AllConsistent x (refused e) hx =
      put_loop-AllConsistent db _ (attach_writeback-IsConsistent x _ hx) h
  after_write-AllConsistent x (written w) hx =
      let put = put_loop-AllConsistent db _ (attach_writeback-IsConsistent x w hx) h in
      let marked = unless_raised-AllConsistent db _ h (
        mark_loop_executed-AllConsistent (put_loop db (attach_writeback x w)) store i now put
          "PLATFORM" w.summary) in
      elim (Bool-cases (w.mode == "human_paste")) [ inl e ↦ rw e put | inr e ↦ rw e marked ]

  pub writeback-AllConsistent :
      (platform : Item → WriteOutcome)
      → AllConsistent (execute_loop_platform_writeback platform db store i now).1
  unfolding execute_loop_platform_writeback
  writeback-AllConsistent platform = elim (Option-cases (get_loop db store i)) [
    | inl e ↦ rw (execute_loop_platform_writeback, e) h
    | inr (x, e) ↦ elim (Bool-cases (is_now x.status)) [
      | inl t ↦
          rw (execute_loop_platform_writeback, e, t)
            (after_write-AllConsistent x (platform x) (found_IsConsistent db store i x h e))
      | inr t ↦ rw (execute_loop_platform_writeback, e, t) h
    ]
  ]
