-- ===== src/Loop/Rows.antt =====
-- The recommendation and the experiment of a matter, of app/services/closed_loop.py.
pub mod Matters
use meal_key_ecosystem.Plan.{current_version}
use meal_key_ecosystem.Loop.State.{LoopDb, Item, Experiment, pending}
use meal_key_ecosystem.Base.{
  ℕ, contains, if◌then◌else◌, String, eq_nat, ◌/◌, Option, none, some, Bool, false, update, ◌++◌,
  strip, first, or_text, ◌==◌, ◌∷◌, ◌&&◌, [], is_some, or_else, suc, ◌+◌, ◌*◌,
}
use meal_key_ecosystem.Models.{
  adopted, Content, Time, Db, Recommendation, MenuItem, RowId, loop_ref,
}

abbrev empty_content : Content
empty_content = record {
  product_suggestion = record {
    action_type = "";
    title = "";
    suggested_title = "";
    title_candidate = "";
    bundle_name = "";
    suggested_price = none;
    image_url = "";
    optimized_image_url = "";
  };
  menu_cleanup = none;
  menu_patch = none;
  menu_bundle = none;
  domain_execution = none;
  executed_in_system = false;
  execution_commit = none;
  rolled_back = false;
  execution_mode = "";
  executor = "";
  trust_level = none;
}

-- `x or 48`
unfoldable pub hours_or_48 : ℕ → ℕ
hours_or_48 n = if eq_nat n 0 then 48 else n

-- `_metric_key`, of a text that is humanized
unfoldable metric_key : String → String
metric_key label =
    if contains label "转化"
    then "cvr"
    else (if contains label "评分"
        then "rating"
        else (if contains label "订单" then "orders" else "ctr"))

find_rec : LoopDb → Option RowId → Option Recommendation
find_rec db none = none
find_rec db (some i) = first (λ (r : Recommendation). eq_nat r.id i) db.recs

new_rec : LoopDb → Item → Time → Recommendation
new_rec db x now = record {
  id = db.next_id;
  store_id = x.store_id;
  work_thread_id = none;
  object_ref = loop_ref x.id;
  action_type = or_text x.action_type "ops_hint";
  expected_metric = metric_key x.metric_label;
  window_hours = hours_or_48 x.observe_hours;
  confidence = 780000;
  content = record empty_content { execution_mode = x.pack.execution_mode };
  status = adopted;
  adopted_at = some now;
  executed_at = none;
  created_at = now;
}

-- `_ensure_recommendation`
pub ensure_recommendation : LoopDb → Item → Time → LoopDb × Recommendation
unfolding new_rec
ensure_recommendation db x now = elim (find_rec db x.recommendation_id) [
  | some r ↦ (db, r)
  | none ↦
      let r = new_rec db x now in
      (record db { recs = db.recs ++ r ∷ []; next_id = suc db.next_id }, r)
]

unfoldable pub put_rec : LoopDb → Recommendation → LoopDb
put_rec db r = record db {
  recs = update (λ (y : Recommendation). eq_nat y.id r.id) (λ _. r) db.recs;
}

named : Db → String → MenuItem → Bool
named menu name m = elim (current_version menu m) [ none ↦ false | some v ↦ strip v.name == name ]

-- `_resolve_item_id`: the store's menu item with the name of the matter's object
resolve_item_id : LoopDb → Item → Option RowId
unfolding named
resolve_item_id db x =
    let name = strip x.object_name in
    if name == ""
    then none
    else elim (first (λ (m : MenuItem). eq_nat m.store_id x.store_id && named db.menu name m)
        db.menu.items) [ none ↦ none | some m ↦ some m.id ]

day : Time → ℕ
day t = t / 86400

-- `_ensure_experiment`
pub ensure_experiment : LoopDb → Recommendation → Item → Time → String → LoopDb × RowId
unfolding day
ensure_experiment db rec x now executor =
    elim (first (λ (e : Experiment). eq_nat e.recommendation_id rec.id) db.exps) [
      | some e ↦ (
        record db {
          exps =
              update (λ (y : Experiment). eq_nat y.id e.id)
                (λ y. record y {
                  executor = or_text y.executor executor;
                  item_id = if is_some y.item_id then y.item_id else resolve_item_id db x;
                })
                db.exps;
        },
        e.id,
      )
      | none ↦ (
        record db {
          exps =
              db.exps
              ++ record {
                id = db.next_id;
                recommendation_id = rec.id;
                store_id = x.store_id;
                item_id = resolve_item_id db x;
                observe_from = day (or_else x.executed_at now);
                observe_to = day (or_else x.observe_until (now + 48 * 3600));
                result = pending;
                executor = executor;
                lift_pct = none;
              }
                ∷ [];
          next_id = suc db.next_id;
        },
        db.next_id,
      )
    ]
