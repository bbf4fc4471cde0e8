-- ===== src/Plan/Apply.antt =====
-- `apply_plan` and `rollback_recommendation` of app/services/execution_plan.py. Each returns the
-- database, the recommendation and the result dictionary.
pub mod Undo
pub mod Rollback
pub mod Effects
use meal_key_ecosystem.Base.{
  ℕ, suc, ◌+◌, String, Bool, true, false, Option, none, some, List, [], ◌∷◌, ◌++◌, ◌==◌, eq_nat,
  first, or_else, or_number, if◌then◌else◌,
}
use meal_key_ecosystem.Models.{
  RowId, Time, item_ref, Image, Execution, Recommendation, Menu, MenuItemVersion, MenuItem, Db,
  get_item, add_version, set_active, set_version, add_item,
}
use meal_key_ecosystem.Plan.{
  PlanMode, in_system, awaiting_platform, failed, FieldChange, name_to, category_to, price_to,
  image_to, active_to, ChangePlan, current_version,
}

abbrev pub Outcome : Type 0
Outcome = Db × Recommendation × Execution

-- a result that reports that nothing was applied
unfoldable pub not_applied : String → String → Execution
not_applied mode action = record {
  applied = false;
  mode = mode;
  action = action;
  item_id = none;
  created_item_id = none;
  previous_version_id = none;
  new_version_id = none;
  rolled_back_at = none;
}

-- `next((c.after for c in plan.changes if c.field == …), None)`
new_name : List FieldChange → Option String
new_name [] = none
new_name (name_to t ∷ cs) = some t
new_name (_ ∷ cs) = new_name cs

new_category : List FieldChange → Option String
new_category [] = none
new_category (category_to t ∷ cs) = some t
new_category (_ ∷ cs) = new_category cs

new_price : List FieldChange → Option ℕ
new_price [] = none
new_price (price_to p ∷ cs) = p
new_price (_ ∷ cs) = new_price cs

new_image : List FieldChange → Option Image
new_image [] = none
new_image (image_to i ∷ cs) = some i
new_image (_ ∷ cs) = new_image cs

-- the audit that every applied plan writes into the recommendation
record_execution : Recommendation → Execution → Recommendation
record_execution rec e = record rec {
  content = record rec.content { domain_execution = some e; executed_in_system = true };
}

-- the store's active menu, or a new one
active_menu : Db → RowId → Option Menu
active_menu db store =
    first (λ (m : Menu). if eq_nat m.store_id store then m.status == "active" else false) db.menus

ensure_menu : Db → RowId → Db × RowId
unfolding active_menu
ensure_menu db store = elim (active_menu db store) [
  | some m ↦ (db, m.id)
  | none ↦ (
    record db {
      menus = db.menus ++ record { id = db.next_id; store_id = store; status = "active" } ∷ [];
      next_id = suc db.next_id;
    },
    db.next_id,
  )
]

created_item : Db → RowId → RowId → MenuItem
created_item db store menu = record {
  id = db.next_id;
  store_id = store;
  menu_id = menu;
  is_active = true;
  current_version_id = some (suc db.next_id);
}

created_version : Db → ChangePlan → MenuItemVersion
unfolding new_name new_category new_price
created_version db plan = record {
  id = suc db.next_id;
  item_id = db.next_id;
  name = or_else (new_name plan.changes) "新商品";
  category = or_else (new_category plan.changes) "";
  price = or_number (new_price plan.changes) none;
  description = "";
  image_url = none;
  source = "executor_plan";
}

create_item : Db → RowId → RowId → ChangePlan → Db
unfolding created_item
create_item db store menu plan =
    add_version (add_item (record db { next_id = suc db.next_id }) (created_item db store menu))
      (created_version db plan)

apply_creation : Db → Recommendation → ChangePlan → Outcome
unfolding ensure_menu create_item record_execution
apply_creation db rec plan =
    let (db1, menu) = ensure_menu db rec.store_id in
    let item = db1.next_id in
    let e : Execution = record {
      applied = true;
      mode = "in_system";
      action = plan.action;
      item_id = some item;
      created_item_id = some item;
      previous_version_id = none;
      new_version_id = none;
      rolled_back_at = none;
    } in
    (
      create_item db1 rec.store_id menu plan,
      record_execution (record rec { object_ref = item_ref item }) e,
      e,
    )

apply_cleanup : Db → Recommendation → ChangePlan → RowId → MenuItem → Outcome
unfolding record_execution
apply_cleanup db rec plan i item =
    let e : Execution = record {
      applied = true;
      mode = "in_system";
      action = plan.action;
      item_id = some i;
      created_item_id = none;
      previous_version_id = item.current_version_id;
      new_version_id = none;
      rolled_back_at = none;
    } in
    (set_active db i false, record_execution rec e, e)

-- the row that a versioned change inserts
next_version : Db → ChangePlan → MenuItem → Option MenuItemVersion → MenuItemVersion
unfolding new_name new_price new_image
next_version db plan item none = record {
  id = db.next_id;
  item_id = item.id;
  name = or_else (new_name plan.changes) "未命名";
  category = "";
  price = new_price plan.changes;
  description = "";
  image_url = new_image plan.changes;
  source = "executor_plan";
}
next_version db plan item (some v) = record {
  id = db.next_id;
  item_id = item.id;
  name = or_else (new_name plan.changes) v.name;
  category = v.category;
  price = elim (new_price plan.changes) [ none ↦ v.price | some p ↦ some p ];
  description = v.description;
  image_url = elim (new_image plan.changes) [ none ↦ v.image_url | some u ↦ some u ];
  source = "executor_plan";
}

apply_version : Db → Recommendation → ChangePlan → RowId → MenuItem → Outcome
unfolding record_execution
apply_version db rec plan i item =
    let v = next_version db plan item (current_version db item) in
    let e : Execution = record {
      applied = true;
      mode = "in_system";
      action = plan.action;
      item_id = some i;
      created_item_id = none;
      previous_version_id = item.current_version_id;
      new_version_id = some v.id;
      rolled_back_at = none;
    } in
    (set_version (add_version db v) i v.id, record_execution rec e, e)

apply_to_item : Db → Recommendation → ChangePlan → Option RowId → Outcome
unfolding not_applied apply_cleanup apply_version
apply_to_item db rec plan none = (db, rec, not_applied "failed" "")
apply_to_item db rec plan (some i) = elim (get_item db i) [
  | none ↦ (db, rec, not_applied "failed" "")
  | some item ↦
      if plan.action == "menu_cleanup"
      then apply_cleanup db rec plan i item
      else apply_version db rec plan i item
]

apply_mode : PlanMode → Db → Recommendation → ChangePlan → Outcome
unfolding not_applied apply_creation apply_to_item
apply_mode failed db rec plan = (db, rec, not_applied "failed" plan.action)
apply_mode awaiting_platform db rec plan = (db, rec, not_applied "awaiting_platform" plan.action)
apply_mode in_system db rec plan =
    if plan.creates_item
    then apply_creation db rec plan
    else apply_to_item db rec plan plan.target_item_id

unfoldable pub apply_plan : Db → Recommendation → ChangePlan → Outcome
unfolding apply_mode next_version created_version new_image
apply_plan db rec plan = apply_mode plan.mode db rec plan
