-- ===== src/Loop/Execute.antt =====
-- Marking a matter as executed, and the writeback to the platform, of app/services/closed_loop.py. The
-- mirror row `OperatingThread`, which no operation of the loop reads, is left out.
pub mod Keeps
pub mod Outcome
use meal_key_ecosystem.Base.{
  ◌+◌, ◌*◌, String, true, false, not, ◌&&◌, none, some, ◌==◌, or_text, or_else, if◌then◌else◌,
}
use meal_key_ecosystem.Models.{RowId, Time}
use meal_key_ecosystem.Actions.Capability.{BlockCode, assert_action_executable}
use meal_key_ecosystem.Actions.Pipeline.{commit_recommendation_executed}
use meal_key_ecosystem.Loop.Thread.{
  ThreadState, Pack, Writeback, requires_approval, append_thread_state,
}
use meal_key_ecosystem.Loop.Rows.{hours_or_48, ensure_recommendation, put_rec, ensure_experiment}
use meal_key_ecosystem.Loop.State.{
  not_executed, in_observation, closed, pending, Item, LoopDb, is_now, get_loop, put_loop,
  is_human_task, filed_state,
}

-- the exceptions of the operations
pub data LoopError : Type 0 where
  loop_not_found no_evidence not_now : LoopError
  not_executable : BlockCode → LoopError
  write_failed : String → LoopError

pub data Reply : Type 0 where
  done : Item → Reply
  fail : LoopError → Reply

-- the pack after the states that an execution passes through
executed_pack : Pack → Time → String → Pack
executed_pack p now who =
    let p1 =
      if requires_approval p
      then append_thread_state p ThreadState.approved now "老板确认按这条方案执行。" who
      else p in
    let p2 = append_thread_state p1 ThreadState.executing now "动作已执行，进入观察窗。" who in
    append_thread_state p2 ThreadState.observing now "观察窗已开启，正在等待结果。" who

-- the columns that an execution writes
executed_item : Item → Time → String → String → Item
unfolding executed_pack
executed_item x now executor notes =
    let who = or_text executor "OWNER" in
    record x {
      status = in_observation;
      executed_at = some now;
      executor = who;
      observe_until = some (now + hours_or_48 x.observe_hours * 3600);
      result = pending;
      pack = executed_pack x.pack now who;
      notes = or_text notes x.notes;
    }

-- the rows that an execution writes: the recommendation, the experiment and the matter
pub commit_execution : LoopDb → Item → Time → LoopDb × Item
unfolding put_rec
commit_execution db x now =
    let (db1, rec) = ensure_recommendation db x now in
    let stamped = record rec { adopted_at = some (or_else rec.adopted_at now) } in
    let committed =
      or_else (commit_recommendation_executed stamped now "closed_loop" true) stamped in
    let db2 = put_rec db1 committed in
    let (db3, experiment) = ensure_experiment db2 committed x now x.executor in
    let final = record x { recommendation_id = some rec.id; experiment_id = some experiment } in
    (put_loop db3 final, final)

-- a store's own task is done by the store
executor_of : Item → String → String
executor_of x executor =
    if is_human_task x then (if executor == "OWNER" then "STORE" else executor) else executor

-- the store's matter, executed
execute_found : LoopDb → Item → Time → String → String → Reply × LoopDb
unfolding executor_of
execute_found db x now executor notes =
    elim (assert_action_executable (or_text x.action_type "ops_hint")) [
      | some code ↦ (fail (not_executable code), db)
      | none ↦
          if is_human_task x && not x.has_evidence
          then (fail no_evidence, db)
          else (let (db', y) =
                commit_execution db (executed_item x now (executor_of x executor) notes) now in
              (done y, db'))
    ]

pub mark_loop_executed : LoopDb → RowId → RowId → Time → String → String → Reply × LoopDb
unfolding execute_found
mark_loop_executed db store i now executor notes = elim (get_loop db store i) [
  | none ↦ (fail loop_not_found, db)
  | some x ↦ execute_found db x now executor notes
]

-- `execute_confirmed_writeback` of app/services/platform_write.py, as the loop sees it
pub data WriteOutcome : Type 0 where
  refused : String → WriteOutcome
  written : Writeback → WriteOutcome

attach_writeback : Item → Writeback → Item
attach_writeback x w = record x { pack = record x.pack { writeback = some w } }

-- an exception before the commit: the attached outcome is lost with it
unless_raised : LoopDb → Reply × LoopDb → Reply × LoopDb
unless_raised before (done x, after) = (done x, after)
unless_raised before (fail e, after) = (fail e, before)

-- a written change is an execution; a text for the owner to paste is not
after_write : LoopDb → RowId → RowId → Time → Item → WriteOutcome → Reply × LoopDb
unfolding attach_writeback unless_raised
after_write db store i now x (refused e) =
    let w : Writeback = record { ok = false; mode = ""; summary = ""; error = e } in
    (fail (write_failed e), put_loop db (attach_writeback x w))
after_write db store i now x (written w) =
    let y = attach_writeback x w in
    if w.mode == "human_paste"
    then (done y, put_loop db y)
    else unless_raised db (mark_loop_executed (put_loop db y) store i now "PLATFORM" w.summary)

pub execute_loop_platform_writeback :
    (Item → WriteOutcome) → LoopDb → RowId → RowId → Time → Reply × LoopDb
unfolding after_write
execute_loop_platform_writeback platform db store i now = elim (get_loop db store i) [
  | none ↦ (fail loop_not_found, db)
  | some x ↦
      if is_now x.status then after_write db store i now x (platform x) else (fail not_now, db)
]

pub mark_loop_not_executed : LoopDb → RowId → RowId → Time → Reply × LoopDb
mark_loop_not_executed db store i now = elim (get_loop db store i) [
  | none ↦ (fail loop_not_found, db)
  | some x ↦
      let y = record x {
        pack =
            append_thread_state x.pack ThreadState.cancelled now "老板确认这一次先不执行。"
              (or_text x.executor "OWNER");
        status = not_executed;
        notes = if is_human_task x then "老板确认这一次门店先不做。" else "老板确认这一次还没在平台上改。";
        executed_at = none;
        observe_until = none;
      } in
      (done y, put_loop db y)
]

pub mark_loop_acked : LoopDb → RowId → RowId → Time → Reply × LoopDb
mark_loop_acked db store i now = elim (get_loop db store i) [
  | none ↦ (fail loop_not_found, db)
  | some x ↦
      let y = record x {
        pack =
            append_thread_state x.pack (filed_state x.result) now "老板已看过这次结果。"
              (or_text x.executor "OWNER");
        status = closed;
        notes = or_text x.notes "老板已看过这次结果。";
      } in
      (done y, put_loop db y)
]
