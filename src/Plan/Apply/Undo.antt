-- ===== src/Plan/Apply/Undo.antt =====
-- `rollback_recommendation` of app/services/execution_plan.py.
use meal_key_ecosystem.Base.{true, false, Option, none, some, ◌==◌, is_some, if◌then◌else◌}
use meal_key_ecosystem.Models.{
  RowId, Time, Execution, Recommendation, Db, get_item, set_active, set_version,
}
use meal_key_ecosystem.Plan.Apply.{Outcome, not_applied}

-- `content["rolled_back"] = True` and the stamp in `domain_execution`
mark_rolled_back : Recommendation → Execution → Time → Recommendation
mark_rolled_back rec e now = record rec {
  content = record rec.content {
    rolled_back = true;
    domain_execution = some (record e { rolled_back_at = some now });
  };
}

rolled_back : Execution
unfolding not_applied
rolled_back = record (not_applied "rolled_back" "") { applied = true }

undo_creation : Db → Recommendation → Execution → Time → RowId → Outcome
unfolding mark_rolled_back rolled_back
undo_creation db rec e now i = (set_active db i false, mark_rolled_back rec e now, rolled_back)

-- the last branch: re-activates the item of a clean-up
undo_cleanup : Db → Recommendation → Execution → Time → Option RowId → Outcome
unfolding not_applied mark_rolled_back rolled_back
undo_cleanup db rec e now none = (db, rec, not_applied "unsupported" "")
undo_cleanup db rec e now (some i) =
    if e.action == "menu_cleanup"
    then (if is_some (get_item db i)
        then (set_active db i true, mark_rolled_back rec e now, rolled_back)
        else (db, rec, not_applied "unsupported" ""))
    else (db, rec, not_applied "unsupported" "")

-- the branch for versions, tried first
undo_version : Db → Recommendation → Execution → Time → Option RowId → Option RowId → Outcome
unfolding mark_rolled_back undo_cleanup rolled_back
undo_version db rec e now none item = undo_cleanup db rec e now item
undo_version db rec e now (some v) none = undo_cleanup db rec e now none
undo_version db rec e now (some v) (some i) =
    if is_some (get_item db i)
    then (set_version db i v, mark_rolled_back rec e now, rolled_back)
    else undo_cleanup db rec e now (some i)

undo : Db → Recommendation → Execution → Time → Outcome
unfolding undo_creation undo_version
undo db rec e now = elim e.created_item_id [
  | some i ↦ undo_creation db rec e now i
  | none ↦ undo_version db rec e now e.previous_version_id e.item_id
]

undo_execution : Db → Recommendation → Option Execution → Time → Outcome
unfolding undo not_applied
undo_execution db rec none now = (db, rec, not_applied "noop" "")
undo_execution db rec (some e) now =
    if e.applied then undo db rec e now else (db, rec, not_applied "noop" "")

unfoldable pub rollback_recommendation : Db → Recommendation → Time → Outcome
unfolding undo_execution not_applied
rollback_recommendation db rec now =
    if rec.content.rolled_back
    then (db, rec, not_applied "idempotent" "")
    else undo_execution db rec rec.content.domain_execution now
