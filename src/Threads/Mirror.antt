-- ===== src/Threads/Mirror.antt =====
-- `sync_loop_thread` of app/services/thread_engine.py: what the thread of a matter says about it.
pub mod Shows
use Prim.Native.String.{◌++◌ as ◌+++◌}
use meal_key_ecosystem.Base.{
  none, some, [], ◌∷◌, or_text, Option, String, List, ℕ, if◌then◌else◌, decimal, update, false,
  Bool, true, ◌++◌, keep, not, eq_nat, ◌&&◌, ◌==◌,
}
use meal_key_ecosystem.Models.{RowId}
use meal_key_ecosystem.Loop.State.{Item, LoopResult, pending, positive, negative, neutral, unknown}
use meal_key_ecosystem.Loop.Thread.{Pack, ThreadState, Writeback}
use meal_key_ecosystem.Threads.{OperatingThread, ThreadDb, ensure_thread_for_action}

-- what the code reads besides the matter and its pack: the rows of `evidence_json`, and the pack's hours
pub record Facts : Type 0 where
  pub evidence_count : ℕ
  pub pack_hours : ℕ

result_label : LoopResult → String
result_label positive = "有效"
result_label negative = "无效"
result_label neutral = "变化不明显"
result_label unknown = "待平台继续处理"
result_label pending = "还在观察"

-- `writeback.get("summary")` and `.get("error")`, where there is a writeback
writeback_summary : Option Writeback → String
writeback_summary none = ""
writeback_summary (some w) = w.summary

ok_summary : Option Writeback → List String
ok_summary none = []
ok_summary (some w) = if w.ok && not (w.summary == "") then w.summary ∷ [] else []

failure : Option Writeback → String
failure none = ""
failure (some w) = if not w.ok && not (w.error == "") then "执行未完成：" +++ w.error else ""

-- `int(item.observe_hours or payload["observe_hours"] or 48)`
watch_hours : Item → Facts → ℕ
watch_hours x f =
    if eq_nat x.observe_hours 0
    then (if eq_nat f.pack_hours 0 then 48 else f.pack_hours)
    else x.observe_hours

-- what the branch for a state assigns
pub record Report : Type 0 where
  pub doing : List String
  pub done : List String
  pub current_result : String
  pub next_step : String
  pub needs_owner : Bool

asking : ℕ → String → List String → Report
asking evidence failed done = record {
  doing = "待确认执行" ∷ [];
  done = done;
  current_result =
      or_text failed
        (if eq_nat evidence 0 then "" else "已补 " +++ (decimal evidence +++ " 份证据，待确认提交"));
  next_step = "确认并执行";
  needs_owner = true;
}

running : Pack → String → List String → Report
unfolding writeback_summary
running p failed done = record {
  doing = "正在执行" ∷ [];
  done = done;
  current_result = or_text failed (or_text (writeback_summary p.writeback) "执行中");
  next_step = "等待执行完成";
  needs_owner = false;
}

watching : Item → Pack → Facts → String → List String → Report
unfolding writeback_summary watch_hours
watching x p f failed done = record {
  doing = ("观察中 · " +++ (decimal (watch_hours x f) +++ " 小时")) ∷ [];
  done = done;
  current_result =
      or_text failed (or_text (writeback_summary p.writeback) (or_text x.notes "已进入观察窗"));
  next_step = "等待结果";
  needs_owner = false;
}

resulting : Item → Pack → List String → Report
unfolding writeback_summary result_label
resulting x p done = record {
  doing = "结果待确认" ∷ [];
  done = done;
  current_result =
      or_text x.notes (or_text (writeback_summary p.writeback) ("结果：" +++ result_label x.result));
  next_step = "确认结果并归档";
  needs_owner = true;
}

filed : Item → String → List String → Report
unfolding result_label
filed x failed done =
    let summary = or_text x.notes (or_text failed ("结果：" +++ result_label x.result)) in
    record {
      doing = [];
      done = done ++ summary ∷ [];
      current_result = summary;
      next_step = "";
      needs_owner = false;
    }

-- a state that no branch names
nothing_new : String → List String → Report
nothing_new failed done = record {
  doing = [];
  done = done;
  current_result = failed;
  next_step = "";
  needs_owner = false;
}

report_in : Item → Pack → Facts → Option ThreadState → String → List String → Report
unfolding asking running watching resulting filed nothing_new
report_in x p f none failed done = asking f.evidence_count failed done
report_in x p f (some ThreadState.need_approval) failed done = asking f.evidence_count failed done
report_in x p f (some ThreadState.ready_to_execute) failed done =
    asking f.evidence_count failed done
report_in x p f (some ThreadState.approved) failed done = running p failed done
report_in x p f (some ThreadState.executing) failed done = running p failed done
report_in x p f (some ThreadState.observing) failed done = watching x p f failed done
report_in x p f (some ThreadState.waiting_result) failed done = resulting x p done
report_in x p f (some ThreadState.completed) failed done = filed x failed done
report_in x p f (some ThreadState.no_effect) failed done = filed x failed done
report_in x p f (some ThreadState.cancelled) failed done = filed x failed done
report_in x p f (some ThreadState.failed) failed done = filed x failed done
report_in x p f (some ThreadState.discovered) failed done = nothing_new failed done
report_in x p f (some ThreadState.analyzing) failed done = nothing_new failed done
report_in x p f (some ThreadState.need_information) failed done = nothing_new failed done

done_before : Pack → Facts → List String
unfolding ok_summary
done_before p f =
    (if eq_nat f.evidence_count 0
      then []
      else ("已补 " +++ (decimal f.evidence_count +++ " 份证据")) ∷ [])
    ++ ok_summary p.writeback

report_of : Item → Pack → Facts → Report
unfolding report_in done_before failure
report_of x p f = report_in x p f p.thread_status (failure p.writeback) (done_before p f)

-- `_json_dumps_list(rows) if rows else None`
column : List String → Option (List String)
column [] = none
column (row ∷ rest) = some (keep (λ s. not (s == "")) (row ∷ rest))

-- what the thread's row becomes
mirrored : Item → Pack → Facts → OperatingThread → OperatingThread
unfolding report_of column
mirrored x p f t =
    let r = report_of x p f in
    let judged = or_text x.judgment x.finding in
    record t {
      title = or_text x.title t.title;
      goal_text = or_text x.title t.goal_text;
      done = column r.done;
      doing = column r.doing;
      next_step = r.next_step;
      current_result = or_text r.current_result judged;
      ai_judgment = judged;
      needs_owner = r.needs_owner;
    }

write_mirror :
    Item → Pack → Facts → Option (OperatingThread × ThreadDb) → Option (OperatingThread × ThreadDb)
unfolding mirrored
write_mirror x p f none = none
write_mirror x p f (some (t, db)) = some (
  mirrored x p f t,
  record db { rows = update (λ (y : OperatingThread). eq_nat y.id t.id) (mirrored x p f) db.rows },
)

-- `sync_loop_thread`, with the matter's pack or the one that is handed over
pub sync_loop_thread : ThreadDb → Item → Pack → Facts → Option (OperatingThread × ThreadDb)
unfolding write_mirror
sync_loop_thread db x p f = write_mirror x p f (
    ensure_thread_for_action db x.store_id (or_text x.title "经营闭环") (or_text x.title "持续推进经营闭环")
      (some x.id))
