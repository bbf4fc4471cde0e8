-- ===== src/Plan.antt =====
-- app/services/execution_plan.py: a plan of changes to the menu, its application, and its rollback.
-- `created_at` texts and the prose of `detail` and `expected` are left out; nothing reads them back.
pub mod Apply
pub mod Tenancy
use meal_key_ecosystem.Base.{
  ℕ, suc, ◌+◌, String, Bool, true, false, ◌&&◌, ◌||◌, Option, none, some, List, [], ◌∷◌, ◌==◌,
  eq_nat, first, is_in, or_else, or_text, or_number, is_some, not, if◌then◌else◌,
}
use meal_key_ecosystem.Models.{
  RowId, Time, ObjectRef, item_ref, loop_ref, other_ref, Image, url, optimized, Execution, Content,
  Suggestion, MenuCleanup, MenuPatch, MenuBundle, Recommendation, Menu, MenuItemVersion, MenuItem,
  Db, get_item, get_version,
}

pub data PlanMode : Type 0 where
  in_system awaiting_platform failed : PlanMode

-- `FieldChange.after`, one constructor for each field that a plan changes
pub data FieldChange : Type 0 where
  name_to category_to : String → FieldChange
  price_to : Option ℕ → FieldChange
  image_to : Image → FieldChange
  active_to : Bool → FieldChange

pub record ChangePlan : Type 0 where
  pub action : String
  pub mode : PlanMode
  pub target_item_id : Option RowId
  pub creates_item : Bool
  pub changes : List FieldChange
  pub reason : String
  pub platform_sync_required : Bool
  pub reversible : Bool

item_id_from_ref : ObjectRef → Option RowId
item_id_from_ref (item_ref i) = some i
item_id_from_ref (loop_ref i) = none
item_id_from_ref (other_ref t) = none

failed_plan : String → String → ChangePlan
failed_plan action reason = record {
  action = action;
  mode = failed;
  target_item_id = none;
  creates_item = false;
  changes = [];
  reason = reason;
  platform_sync_required = false;
  reversible = true;
}

awaiting_plan : String → ChangePlan
awaiting_plan action = record {
  action = action;
  mode = awaiting_platform;
  target_item_id = none;
  creates_item = false;
  changes = [];
  reason = "";
  platform_sync_required = true;
  reversible = false;
}

change_plan : String → RowId → List FieldChange → Bool → ChangePlan
change_plan action i changes sync = record {
  action = action;
  mode = in_system;
  target_item_id = some i;
  creates_item = false;
  changes = changes;
  reason = "";
  platform_sync_required = sync;
  reversible = true;
}

-- the plan of `add_set_meal` and `menu_patch`
creation_plan : String → String → Option ℕ → String → ChangePlan
creation_plan action name price category = record {
  action = or_text action "add_set_meal";
  mode = in_system;
  target_item_id = none;
  creates_item = true;
  changes =
      name_to name ∷ price_to price ∷ category_to (or_text category "未分类") ∷ active_to true ∷ [];
  reason = "";
  platform_sync_required = false;
  reversible = true;
}

abbrev empty_patch : MenuPatch
empty_patch = record {
  item_name = "";
  name = "";
  suggested_price = none;
  price = none;
  suggested_category = "";
  category = "";
}

abbrev empty_bundle : MenuBundle
empty_bundle = record { bundle_name = ""; suggested_price = none }

patch_plan : MenuPatch → ChangePlan
unfolding creation_plan
patch_plan p =
    creation_plan "menu_patch" (or_text p.item_name p.name) (or_number p.suggested_price p.price)
      (or_text p.suggested_category p.category)

set_meal_plan : Suggestion → MenuBundle → ChangePlan
unfolding creation_plan
set_meal_plan s b =
    creation_plan "add_set_meal"
      (or_text s.bundle_name (or_text b.bundle_name (or_text s.title "新套餐")))
      (or_number s.suggested_price b.suggested_price) "套餐"

-- `db.get(MenuItem, id)` with the test that the item is the recommendation's store's
own_item : Db → RowId → RowId → Option MenuItem
own_item db store i = elim (get_item db i) [
  | none ↦ none
  | some m ↦ if eq_nat m.store_id store then some m else none
]

cleanup_plan : Db → Recommendation → Option RowId → ChangePlan
unfolding own_item failed_plan change_plan
cleanup_plan db rec none = failed_plan rec.action_type "商品不存在"
cleanup_plan db rec (some i) = elim (own_item db rec.store_id i) [
  | none ↦ failed_plan rec.action_type "商品不存在"
  | some m ↦ change_plan rec.action_type i (active_to false ∷ []) false
]

pub current_version : Db → MenuItem → Option MenuItemVersion
current_version db m = elim m.current_version_id [ none ↦ none | some v ↦ get_version db v ]

title_plan : String → RowId → Suggestion → ChangePlan
unfolding failed_plan change_plan
title_plan action i s =
    let title = or_text s.suggested_title (or_text s.title_candidate s.title) in
    if title == ""
    then failed_plan action "无新标题"
    else change_plan action i (name_to title ∷ []) false

price_plan : String → RowId → Suggestion → Option MenuItemVersion → ChangePlan
unfolding change_plan
price_plan action i s current =
    let old : Option ℕ = elim current [ none ↦ none | some v ↦ v.price ] in
    let new : Option ℕ = elim s.suggested_price [ none ↦ old | some p ↦ some p ] in
    change_plan action i (price_to new ∷ []) false

image_plan : String → RowId → Suggestion → Time → ChangePlan
unfolding change_plan
image_plan action i s now =
    let given = or_text s.image_url s.optimized_image_url in
    if given == ""
    then change_plan action i (image_to (optimized i now) ∷ []) true
    else change_plan action i (image_to (url given) ∷ []) false

versioned_plan : Db → Recommendation → Time → Option RowId → ChangePlan
unfolding own_item failed_plan title_plan price_plan image_plan current_version
versioned_plan db rec now none = failed_plan rec.action_type "缺少商品 object_ref"
versioned_plan db rec now (some i) = elim (own_item db rec.store_id i) [
  | none ↦ failed_plan rec.action_type "商品不存在"
  | some m ↦
      let s = rec.content.product_suggestion in
      if rec.action_type == "change_title"
      then title_plan rec.action_type i s
      else if rec.action_type == "adjust_price_value"
      then price_plan rec.action_type i s (current_version db m)
      else image_plan rec.action_type i s now
]

abbrev versioned_actions : List String
versioned_actions = "change_title" ∷ "adjust_price_value" ∷ "change_main_image" ∷ []

or_id : Option RowId → Option RowId → Option RowId
or_id none b = b
or_id (some a) b = some a

unfoldable pub build_change_plan : Db → Recommendation → Time → ChangePlan
unfolding patch_plan set_meal_plan cleanup_plan awaiting_plan versioned_plan item_id_from_ref or_id
build_change_plan db rec now =
    let c = rec.content in
    let cleanup : Option RowId = elim c.menu_cleanup [ none ↦ none | some k ↦ k.item_id ] in
    if rec.action_type == "menu_patch"
    then patch_plan (or_else c.menu_patch empty_patch)
    else if rec.action_type == "add_set_meal"
    then set_meal_plan c.product_suggestion (or_else c.menu_bundle empty_bundle)
    else if rec.action_type == "menu_cleanup"
    then cleanup_plan db rec (or_id cleanup (item_id_from_ref rec.object_ref))
    else if not (is_in rec.action_type versioned_actions)
    then awaiting_plan rec.action_type
    else versioned_plan db rec now (item_id_from_ref rec.object_ref)
