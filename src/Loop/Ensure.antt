-- ===== src/Loop/Ensure.antt =====
-- How a matter enters the loop, `ensure_now_loop` of app/services/closed_loop.py. The card comes from the
-- decision flow with its execution pack; the texts are those that `humanize_operator_text` leaves, and
-- the related event's number and the id of the thread that mirrors the matter are left out.
pub mod Keeps
pub mod Slot
use meal_key_ecosystem.Loop.Rows.{hours_or_48}
use meal_key_ecosystem.Base.{
  ℕ, suc, eq_nat, ◌&&◌, ◌==◌, ◌++◌, Bool, or_text, String, Option, if◌then◌else◌, true, not, ◌∷◌,
  strip, none, some, upper, last_such, [], ◌+◌, false, ◌*◌,
}
use meal_key_ecosystem.Models.{RowId, Time}
use meal_key_ecosystem.Loop.Thread.{Pack, ThreadState, append_thread_state, requires_approval}
use meal_key_ecosystem.Loop.State.{
  LoopDb, Item, at_now, LoopStatus, latest_blocking_loop, is_now, latest_open_loop, pending,
  latest_ingest_now, is_open, not_executed, put_loop,
}

-- the card of the decision flow, with the pack that it carries
pub record Card : Type 0 where
  pub title : String
  pub source_card_id : String
  pub from_ingest : Bool
  pub daily_key : String  -- `{action_type}:{title}:{day}`
  pub finding : String
  pub judgment : String
  pub action_type : String
  pub object_name : String
  pub execution_mode : String
  pub due_hours : ℕ
  pub observe_hours : ℕ
  pub metric_label : String
  pub success_target : String
  pub guardrail : String
  pub pack : Pack  -- with its `action_spec`

-- `_fingerprint`, without the store, which the query tests too
unfoldable fingerprint : Card → String
fingerprint card = or_text (strip card.source_card_id) card.daily_key

is_task : Card → Bool
is_task card = upper card.execution_mode == "HUMAN_TASK"

-- the pack as it enters: a store's own task needs no approval
entered_pack : Card → Time → Pack
unfolding is_task
entered_pack card now =
    let p =
      if is_task card then record card.pack { requires_approval = some false } else card.pack in
    append_thread_state p
      (if requires_approval p then ThreadState.need_approval else ThreadState.ready_to_execute) now
      "这件经营事项进入当前工作区。" ""

new_item : LoopDb → RowId → Card → Time → Item
unfolding entered_pack fingerprint is_task
new_item db store card now = record {
  id = db.next_id;
  store_id = store;
  fingerprint = fingerprint card;
  source_card_id = card.source_card_id;
  from_ingest = card.from_ingest;
  title = card.title;
  finding = card.finding;
  judgment = card.judgment;
  action_type = or_text card.action_type "ops_hint";
  object_name = card.object_name;
  pack = entered_pack card now;
  status = at_now;
  executed_at = none;
  executor = "";
  execution_mode = card.execution_mode;
  due_at =
      if is_task card
      then some (now + (if eq_nat card.due_hours 0 then 8 else card.due_hours) * 3600)
      else none;
  has_evidence = false;
  observe_hours = hours_or_48 card.observe_hours;
  observe_until = none;
  metric_label = or_text card.metric_label "点击率";
  success_target = card.success_target;
  guardrail = card.guardrail;
  recommendation_id = none;
  experiment_id = none;
  result = pending;
  notes = "";
}

insert_loop : LoopDb → Item → LoopDb
insert_loop db x = record db { loops = db.loops ++ x ∷ []; next_id = suc db.next_id }

is_cancelled : LoopStatus → Bool
is_cancelled not_executed = true
is_cancelled _ = false

-- a matter that was not executed comes back to now
reopened : Item → Item
unfolding is_cancelled
reopened x =
    if is_cancelled x.status
    then record x { status = at_now; notes = "上次还没改，这件事重新回到现在。"; result = pending }
    else x

-- a matter at now takes the card's texts and pack
refreshed : Item → Card → Time → Item
unfolding entered_pack
refreshed x card now =
    if is_now x.status
    then record x {
      title = card.title;
      finding = or_text card.finding x.finding;
      judgment = or_text card.judgment x.judgment;
      pack = entered_pack card now;
      action_type = or_text card.action_type "ops_hint";
      metric_label = or_text card.metric_label x.metric_label;
      success_target = or_text card.success_target x.success_target;
      guardrail = or_text card.guardrail x.guardrail;
    }
    else x

-- the row of the card's fingerprint
known_loop : LoopDb → RowId → Card → Option Item
unfolding fingerprint
known_loop db store card =
    last_such (λ (x : Item). eq_nat x.store_id store && x.fingerprint == fingerprint card) db.loops

-- a new row, or the known one at now again
enter : LoopDb → RowId → Card → Time → Option Item → Item × LoopDb
unfolding new_item insert_loop reopened refreshed
enter db store card now none = let x = new_item db store card now in (x, insert_loop db x)
enter db store card now (some x) =
    if is_open x.status
    then (let y = refreshed (reopened x) card now in (y, put_loop db y))
    else (let y = new_item db store card now in (y, insert_loop db y))

has_source : Card → Bool
has_source card = not (card.title == "") && not (card.source_card_id == "")

-- the store's matter for the card of `now`, once no other matter takes its place
for_card : LoopDb → RowId → Option Card → Time → Option Item × LoopDb
unfolding enter known_loop has_source
for_card db store none now = (latest_open_loop db store, db)
for_card db store (some card) now =
    if has_source card
    then (let (x, db') = enter db store card now (known_loop db store card) in (some x, db'))
    else (latest_open_loop db store, db)

pub ensure_now_loop : LoopDb → RowId → Option Card → Time → Option Item × LoopDb
unfolding for_card
ensure_now_loop db store card now = elim (latest_blocking_loop db store) [
  | some x ↦ (some x, db)
  | none ↦ elim (latest_ingest_now db store) [
    | some x ↦ (some x, db)
    | none ↦ for_card db store card now
  ]
]
