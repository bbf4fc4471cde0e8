-- ===== src/Examples/Menu.antt =====
-- A shop with one dish on its menu, and a dish of another shop: changes of the menu and their rollback.
use meal_key_ecosystem.Plan.Tenancy.{apply_plan-build_elsewhere}
use meal_key_ecosystem.Plan.{ChangePlan, build_change_plan, in_system, active_to, name_to}
use meal_key_ecosystem.Plan.Apply.{apply_plan}
use meal_key_ecosystem.Plan.Apply.Rollback.{
  apply_then_rollback, IsForItem, rollback-apply_cleanup, rollback-apply_version,
}
use meal_key_ecosystem.Base.{first, [], ◌∷◌, none, false, ◌≡◌, some, true, refl, arith}
use meal_key_ecosystem.Models.{
  Recommendation, MenuItem, MenuItemVersion, Db, Content, get_item, item_ref, adopted, RowId,
}

abbrev pub plain : Content
plain = record {
  product_suggestion = record {
    action_type = "";
    title = "招牌牛肉面";
    suggested_title = "";
    title_candidate = "";
    bundle_name = "";
    suggested_price = none;
    image_url = "";
    optimized_image_url = "";
  };
  menu_cleanup = none;
  menu_patch = none;
  menu_bundle = none;
  domain_execution = none;
  executed_in_system = false;
  execution_commit = none;
  rolled_back = false;
  execution_mode = "";
  executor = "";
  trust_level = none;
}

abbrev pub new_title : Recommendation
new_title = record {
  id = 7;
  store_id = 1;
  work_thread_id = none;
  object_ref = item_ref 2;
  action_type = "change_title";
  expected_metric = "ctr";
  window_hours = 48;
  confidence = 900000;
  content = plain;
  status = adopted;
  adopted_at = none;
  executed_at = none;
  created_at = 0;
}

abbrev noodles : MenuItem
noodles = record {
  id = 2;
  store_id = 1;
  menu_id = 9;
  is_active = true;
  current_version_id = some 3;
}

abbrev soup : MenuItem
soup = record { id = 4; store_id = 8; menu_id = 9; is_active = true; current_version_id = none }

abbrev noodles_version : MenuItemVersion
noodles_version = record {
  id = 3;
  item_id = 2;
  name = "牛肉面";
  category = "面";
  price = some 1800;
  description = "";
  image_url = none;
  source = "manual";
}

abbrev pub shop : Db
shop = record {
  menus = [];
  items = noodles ∷ soup ∷ [];
  versions = noodles_version ∷ [];
  next_id = 20;
}

abbrev title_change : ChangePlan
title_change = record {
  action = "change_title";
  mode = in_system;
  target_item_id = some 2;
  creates_item = false;
  changes = name_to "招牌牛肉面" ∷ [];
  reason = "";
  platform_sync_required = true;
  reversible = true;
}

abbrev cleanup : ChangePlan
cleanup = record title_change { action = "menu_cleanup"; changes = active_to false ∷ [] }

title_for_noodles : IsForItem shop new_title title_change 2 noodles
unfolding get_item first
title_for_noodles = record {
  mode = refl;
  keeps_rows = refl;
  target = refl;
  found = refl;
  fresh = refl;
}

cleanup_for_noodles : IsForItem shop new_title cleanup 2 noodles
unfolding get_item first
cleanup_for_noodles = record {
  mode = refl;
  keeps_rows = refl;
  target = refl;
  found = refl;
  fresh = refl;
}

rollback-apply_version_example :
    ((apply_then_rollback shop new_title title_change 100).2.mode ≡ "rolled_back")
    × ((j : RowId)
        → get_item (apply_then_rollback shop new_title title_change 100).0 j ≡ get_item shop j)
rollback-apply_version_example =
    rollback-apply_version shop new_title title_change 2 noodles title_for_noodles 100 3 refl refl

rollback-apply_cleanup_example :
    ((apply_then_rollback shop new_title cleanup 100).2.mode ≡ "rolled_back")
    × (get_item (apply_then_rollback shop new_title cleanup 100).0 2
        ≡ some (record noodles { is_active = false }))
rollback-apply_cleanup_example =
    rollback-apply_cleanup shop new_title cleanup 2 noodles cleanup_for_noodles 100 refl

abbrev applied : Db × Recommendation
applied = let (db, rec, e) = apply_plan shop new_title title_change in (db, rec)

apply_plan-build_elsewhere_example :
    get_item (apply_plan shop new_title (build_change_plan shop new_title 50)).0 4 ≡ some soup
unfolding get_item first
apply_plan-build_elsewhere_example =
    apply_plan-build_elsewhere shop new_title 50 4 soup refl (λ e. ground (arith, e))
